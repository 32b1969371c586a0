-- ===== src/Group/Create.antt =====
-- common/group.c: what `group_store_create` builds, and which store it leaves.
use multi_user_chat.Base.{
  ◌≡◌, refl, sym, ◌∙◌, Bool, true, false, not, ◌&&◌, ◌||◌, List, [], ◌∷◌, ◌++◌, Bytes, All, str_eq,
  str_eq_iff, str_eq_refl, copy_fixed, take-all, arith,
}
use multi_user_chat.Limits.{group_name_max_len}
use multi_user_chat.Group.{ok, GroupSnapshot, valid_group_name, add_member}
use multi_user_chat.Group.Member.{
  elem, IsName, IsGroup, Added, add_member-IsGroup, add_member-Added, add_member_lem,
  copy_fixed-of-IsName,
}
use multi_user_chat.Group.Store.{add_members, new_group, build_group}

-- Some name of the list differs from `c`.
unfoldable pub has_other : Bytes → List Bytes → Bool
has_other c [] = false
has_other c (m ∷ ms) = not (str_eq m c) || has_other c ms

has_other-append :
    (c : Bytes) (a b : List Bytes) → has_other c (a ++ b) ≡ (has_other c a || has_other c b)
unfolding has_other
has_other-append c [] b = refl
has_other-append c (m ∷ ms) b = ground (arith, has_other-append c ms b)

has_other-of-elem :
    (c m : Bytes) (ms : List Bytes) → elem m ms ≡ true → str_eq m c ≡ false → has_other c ms ≡ true
unfolding has_other elem
has_other-of-elem c m [] h e = cc
has_other-of-elem c m (x ∷ ms) h e =
    ground (arith, has_other-of-elem c m ms, str_eq_iff x m, str_eq_iff x c, str_eq_iff m c)

-- The flag after one more name, added or not.
flag-add_member :
    (c m : Bytes) (g : GroupSnapshot)
    → (add_member g m).0 ≡ ok
    → (has_other c g.members || ((add_member g m).1 && not (str_eq m c)))
      ≡ has_other c (add_member g m).2.members
unfolding has_other
flag-add_member c m g =
    rw add_member_lem
      λ h. ground (arith, has_other-append c g.members (m ∷ []), has_other-of-elem c m g.members)

pub add_members-IsGroup :
    (c : Bytes) (ms : List Bytes) (g : GroupSnapshot) (flag : Bool)
    → IsGroup g
    → IsGroup (add_members c ms g flag).2
unfolding add_members
add_members-IsGroup c [] g flag v = v
add_members-IsGroup c (m ∷ ms) g flag v = ground (
  arith,
  add_member-IsGroup g m v,
  add_members-IsGroup c ms (add_member g m).2 (flag || ((add_member g m).1 && not (str_eq m c)))
      (add_member-IsGroup g m v),
)

-- What the loop over the chosen members leaves when it succeeds.
pub record AllAdded (c : Bytes) (ms : List Bytes) (g : GroupSnapshot) (flag : Bool)
    (g' : GroupSnapshot) : Type 0 where
  pub names : All IsName ms
  pub same_name : g'.name ≡ g.name
  pub same_creator : g'.creator ≡ g.creator
  pub has : (v : Bytes) → elem v g'.members ≡ (elem v g.members || elem v ms)
  pub other : flag ≡ has_other c g'.members

AllAdded-cons :
    {c m : Bytes} {ms : List Bytes} {g g1 g' : GroupSnapshot} {b flag : Bool}
    → Added g m b g1
    → AllAdded c ms g1 flag g'
    → AllAdded c (m ∷ ms) g flag g'
unfolding elem
AllAdded-cons {m} {ms} {g} a r = record {
  names = (a.name, r.names);
  same_name = r.same_name ∙ a.same_name;
  same_creator = r.same_creator ∙ a.same_creator;
  has = λ v. ground (arith, r.has v, a.has v);
  other = r.other;
}

-- A success of the loop is a success of its first round and of the rest.
add_members-cons :
    (c m : Bytes) (ms : List Bytes) (g : GroupSnapshot) (flag : Bool)
    → (add_members c (m ∷ ms) g flag).0 ≡ ok
    → IsName m
      × ((add_member g m).0 ≡ ok)
      × (add_members c (m ∷ ms) g flag
          ≡ add_members c ms (add_member g m).2 (flag || ((add_member g m).1 && not (str_eq m c))))
unfolding add_members
add_members-cons c m ms g flag h = ground arith

add_members-AllAdded :
    (c : Bytes) (ms : List Bytes) (g : GroupSnapshot) (flag : Bool)
    → flag ≡ has_other c g.members
    → (add_members c ms g flag).0 ≡ ok
    → let (_, flag', g') = add_members c ms g flag in AllAdded c ms g flag' g'
unfolding elem
add_members-AllAdded c [] g flag e h =
    unfold add_members in
    record { names = tt; same_name = refl; same_creator = refl; has = λ v. ground arith; other = e }
add_members-AllAdded c (m ∷ ms) g flag e h =
    let (name, added, step) = add_members-cons c m ms g flag h in
    AllAdded-cons (add_member-Added g m added) (
      rw step (
        add_members-AllAdded c ms (add_member g m).2
          (flag || ((add_member g m).1 && not (str_eq m c))) (rw e (flag-add_member c m g added))
          (rw step at h)))

-- The group that `group_store_create` builds before it takes the lock, on a success.
pub record Built (creator name : Bytes) (members : List Bytes) (g : GroupSnapshot) : Type 0 where
  pub group : IsGroup g
  pub names : All IsName members
  pub has_name : g.name ≡ name
  pub has_creator : g.creator ≡ creator
  pub has : (v : Bytes) → elem v g.members ≡ (str_eq creator v || elem v members)
  pub other : has_other creator g.members ≡ true

copy_fixed-of_group_name :
    (name : Bytes) → valid_group_name name ≡ true → copy_fixed group_name_max_len name ≡ name
unfolding valid_group_name
copy_fixed-of_group_name name h = take-all 63 name (ground arith)

new_group-IsGroup : (creator name : Bytes) → IsGroup (new_group creator name)
new_group-IsGroup creator name = record { named = tt; distinct = tt; bounded = omega arith }

-- The first member of a new group is its creator.
add_creator :
    (creator name : Bytes)
    → IsName creator
    → add_member (new_group creator name) creator
      ≡ (ok, true, record (new_group creator name) { members = creator ∷ [] })
unfolding elem
add_creator creator name h = rw (add_member_lem, h)

abbrev pub begun : Bytes → Bytes → GroupSnapshot
begun creator name = record (new_group creator name) { members = creator ∷ [] }

build_group-ok :
    (creator name : Bytes) (members : List Bytes)
    → IsName creator
    → (build_group creator name members).0 ≡ ok
    → let (rc, flag, g) = add_members creator members (begun creator name) false in
      (rc ≡ ok) × (flag ≡ true) × ((build_group creator name members).1 ≡ g)
unfolding build_group
build_group-ok creator name members h = ground (arith, add_creator creator name h)

pub build_group-Built :
    (creator name : Bytes) (members : List Bytes)
    → IsName creator
    → valid_group_name name ≡ true
    → (build_group creator name members).0 ≡ ok
    → Built creator name members (build_group creator name members).1
unfolding elem has_other
build_group-Built creator name members hc hn h =
    let (added, flag, eq) = build_group-ok creator name members hc h in
    let all =
      add_members-AllAdded creator members (begun creator name) false (rw str_eq_refl) added in
    rw eq (record {
      group =
          add_members-IsGroup creator members (begun creator name) false
            (record { named = (hc, tt); distinct = (refl, tt); bounded = omega arith });
      names = all.names;
      has_name = all.same_name ∙ copy_fixed-of_group_name name hn;
      has_creator = all.same_creator ∙ copy_fixed-of-IsName creator hc;
      has = λ v. ground (arith, all.has v);
      other = sym all.other ∙ flag;
    })
