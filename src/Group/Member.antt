-- ===== src/Group/Member.antt =====
-- common/group.c: what the member functions do to the list of names of one group.
use multi_user_chat.Base.{
  ℕ, zero, suc, ◌+◌, ◌≤◌, ◌<◌, ◌≡◌, refl, sym, ap₂, ◌∙◌, Bool, true, false, not, ◌&&◌, ◌||◌, some,
  List, [], ◌∷◌, ◌++◌, map, Bytes, length, All, All-append, leb, str_eq, str_eq_iff, copy_fixed,
  take-all, length-append, if◌then◌else◌, arith, Bool-cases, inl, inr,
}
use multi_user_chat.Limits.{username_max_len}
use multi_user_chat.Group.{
  ok, err_invalid, err_full, GroupSnapshot, valid_member_name, index_from, member_index, is_some,
  add_member, shift_down, remove_member_at, group_snapshot_has_member,
}

-- A name is in a list of names.
unfoldable pub elem : Bytes → List Bytes → Bool
elem u [] = false
elem u (m ∷ ms) = str_eq m u || elem u ms

-- The other names.
unfoldable pub without : Bytes → List Bytes → List Bytes
without u [] = []
without u (m ∷ ms) = let rest = without u ms in if str_eq m u then rest else m ∷ rest

abbrev pub Distinct : List Bytes → Type 0
Distinct [] = Unit
Distinct (m ∷ ms) = (elem m ms ≡ false) × Distinct ms

abbrev pub IsName : Bytes → Type 0
IsName m = valid_member_name m ≡ true

pub length-of-IsName : (m : Bytes) → IsName m → length m < 32
unfolding valid_member_name
length-of-IsName m h = ground arith

pub copy_fixed-of-IsName : (m : Bytes) → IsName m → copy_fixed username_max_len m ≡ m
copy_fixed-of-IsName m h = take-all 31 m (omega (arith, length-of-IsName m h))

map-copy_fixed : (ms : List Bytes) → All IsName ms → map (copy_fixed username_max_len) ms ≡ ms
map-copy_fixed [] h = refl
map-copy_fixed (m ∷ ms) h = ap₂ ◌∷◌ (copy_fixed-of-IsName m h.0) (map-copy_fixed ms h.1)

pub is_some-index_from :
    (i : ℕ) (ms : List Bytes) (u : Bytes) → is_some (index_from i ms u) ≡ elem u ms
unfolding index_from elem
is_some-index_from i [] u = refl
is_some-index_from i (m ∷ ms) u = ground (arith, is_some-index_from (i + 1) ms u)

-- `member_index` answers membership for a valid name.
pub has_member-eq-elem :
    (g : GroupSnapshot) (u : Bytes)
    → group_snapshot_has_member g u ≡ (valid_member_name u && elem u g.members)
unfolding group_snapshot_has_member member_index
has_member-eq-elem g u = ground (arith, is_some-index_from 0 g.members u)

pub elem-append : (u : Bytes) (a b : List Bytes) → elem u (a ++ b) ≡ (elem u a || elem u b)
unfolding elem
elem-append u [] b = refl
elem-append u (m ∷ ms) b = ground (arith, elem-append u ms b)

pub without-of-not_elem : (u : Bytes) (ms : List Bytes) → elem u ms ≡ false → without u ms ≡ ms
unfolding elem without
without-of-not_elem u [] h = refl
without-of-not_elem u (m ∷ ms) h = ground (arith, without-of-not_elem u ms)

index_from-ge : (i j : ℕ) (ms : List Bytes) (u : Bytes) → index_from i ms u ≡ some j → i ≤ j
unfolding index_from
index_from-ge i j [] u h = cc
index_from-ge i j (m ∷ ms) u h = ground (arith, index_from-ge (i + 1) j ms u)

index_from-lt :
    (i j : ℕ) (ms : List Bytes) (u : Bytes) → index_from i ms u ≡ some j → j < i + length ms
unfolding index_from
index_from-lt i j [] u h = cc
index_from-lt i j (m ∷ ms) u h = ground (arith, index_from-lt (i + 1) j ms u)

pub shift_down-eq-without :
    (i j k : ℕ) (ms : List Bytes) (u : Bytes)
    → All IsName ms
    → Distinct ms
    → index_from i ms u ≡ some j
    → i + k ≡ j
    → shift_down ms k ≡ without u ms
unfolding index_from shift_down without elem
shift_down-eq-without i j k [] u n d h e = refl
shift_down-eq-without i j zero (m ∷ ms) u n d h e = elim (Bool-cases (str_eq m u)) [
  | inl same ↦
      let eq : m ≡ u = (str_eq_iff m u).0 same in
      rw same (map-copy_fixed ms n.1 ∙ sym (without-of-not_elem u ms (rw eq at d.0)))
  | inr other ↦ absurd (ground (arith, index_from-ge (i + 1) j ms u))
]
shift_down-eq-without i j (suc k) (m ∷ ms) u n d h e =
    ground (arith, shift_down-eq-without (i + 1) j k ms u n.1 d.1)

-- Taking a name out of the list leaves its properties.
pub elem-without :
    (u v : Bytes) (ms : List Bytes) → elem v (without u ms) ≡ (elem v ms && not (str_eq u v))
unfolding elem without
elem-without u v [] = refl
elem-without u v (m ∷ ms) =
    ground (arith, elem-without u v ms, str_eq_iff m u, str_eq_iff m v, str_eq_iff u v)

pub length-without-le : (u : Bytes) (ms : List Bytes) → length (without u ms) ≤ length ms
unfolding without
length-without-le u [] = omega arith
length-without-le u (m ∷ ms) = ground (arith, length-without-le u ms)

pub All-without :
    (P : Bytes → Type 0) (u : Bytes) (ms : List Bytes) → All P ms → All P (without u ms)
unfolding without
All-without P u [] h = tt
All-without P u (m ∷ ms) h = elim (Bool-cases (str_eq m u)) [
  | inl e ↦ rw e (All-without P u ms h.1)
  | inr e ↦ rw e (h.0, All-without P u ms h.1)
]

pub Distinct-without : (u : Bytes) (ms : List Bytes) → Distinct ms → Distinct (without u ms)
unfolding without
Distinct-without u [] h = tt
Distinct-without u (m ∷ ms) h = elim (Bool-cases (str_eq m u)) [
  | inl e ↦ rw e (Distinct-without u ms h.1)
  | inr e ↦ rw e (ground (arith, elem-without u m ms), Distinct-without u ms h.1)
]

pub Distinct-append_new :
    (ms : List Bytes) (u : Bytes) → Distinct ms → elem u ms ≡ false → Distinct (ms ++ (u ∷ []))
unfolding elem
Distinct-append_new [] u d h = (refl, tt)
Distinct-append_new (m ∷ ms) u d h = (
  ground (arith, elem-append m ms (u ∷ []), str_eq_iff m u, str_eq_iff u m),
  Distinct-append_new ms u d.1 (ground arith),
)

-- A group is well formed: its members are valid names, each once, within the array's bounds.
pub record IsGroup (g : GroupSnapshot) : Type 0 where
  pub named : All IsName g.members
  pub distinct : Distinct g.members
  pub bounded : length g.members ≤ 64

-- `add_member`, with membership for the index loop and the name itself for its copy.
pub add_member_lem :
    (g : GroupSnapshot) (u : Bytes)
    → add_member g u ≡ (
        if not (valid_member_name u)
        then (err_invalid, false, g)
        else (if elem u g.members
            then (ok, false, g)
            else (if leb 64 (length g.members)
                then (err_full, false, g)
                else (ok, true, record g { members = g.members ++ (u ∷ []) }))))
unfolding add_member member_index
add_member_lem g u = ground (arith, is_some-index_from 0 g.members u, copy_fixed-of-IsName u)

-- `add_member` keeps a group well formed, whatever the name.
pub add_member-IsGroup : (g : GroupSnapshot) (u : Bytes) → IsGroup g → IsGroup (add_member g u).2
add_member-IsGroup g u v = rw add_member_lem (
    ground (
      arith,
      All-append IsName g.members (u ∷ []) v.named,
      Distinct-append_new g.members u v.distinct,
      length-append g.members (u ∷ []),
    ))

-- What a success of `add_member` tells of the group that it leaves.
pub record Added (g : GroupSnapshot) (u : Bytes) (flag : Bool) (g' : GroupSnapshot) : Type 0 where
  pub name : IsName u
  pub same_id : g'.id ≡ g.id
  pub same_name : g'.name ≡ g.name
  pub same_creator : g'.creator ≡ g.creator
  pub has : (v : Bytes) → elem v g'.members ≡ (elem v g.members || str_eq u v)
  pub was : flag ≡ not (elem u g.members)

pub add_member-Added :
    (g : GroupSnapshot) (u : Bytes)
    → (add_member g u).0 ≡ ok
    → Added g u (add_member g u).1 (add_member g u).2
unfolding elem
add_member-Added g u = rw add_member_lem λ h. record {
  name = ground arith;
  same_id = ground arith;
  same_name = ground arith;
  same_creator = ground arith;
  has = λ v. ground (arith, elem-append v g.members (u ∷ []), str_eq_iff u v);
  was = ground arith;
}

-- Removing at the index that `member_index` finds leaves the other names in their order.
pub remove_member_at_lem :
    (g : GroupSnapshot) (u : Bytes) (i : ℕ)
    → IsGroup g
    → member_index g u ≡ some i
    → remove_member_at g i ≡ record g { members = without u g.members }
unfolding remove_member_at member_index
remove_member_at_lem g u i v h = ground (
  arith,
  index_from-lt 0 i g.members u,
  shift_down-eq-without 0 i i g.members u v.named v.distinct,
)
