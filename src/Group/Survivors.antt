-- ===== src/Group/Survivors.antt =====
-- common/group.c: the invariant of the store across `group_store_remove_member`.
use multi_user_chat.Base.{
  ℕ, ◌≤◌, ◌≡◌, refl, ap, false, List, [], ◌∷◌, Bytes, length, All, str_eq_refl, arith, Bool-cases,
  inl, inr,
}
use multi_user_chat.Group.{GroupSnapshot, valid_member_name}
use multi_user_chat.Group.Member.{
  elem, without, IsName, Distinct, elem-without, All-without, Distinct-without, length-without-le,
}
use multi_user_chat.Group.Store.{GroupStore, group_store_remove_member, is_nil}
use multi_user_chat.Group.Invariant.{IsLive, IsValid, HasSerial, ids}
use multi_user_chat.Group.Leave.{
  left, groups_without, group_store_remove_member_lem, group_store_remove_member-invalid,
}

groups_without-All :
    (P Q : GroupSnapshot → Type 0) (u : Bytes) (gs : List GroupSnapshot)
    → ((g : GroupSnapshot) → P g → is_nil (without u g.members) ≡ false → Q (left u g))
    → All P gs
    → All Q (groups_without u gs)
unfolding groups_without
groups_without-All P Q u [] f h = tt
groups_without-All P Q u (g ∷ gs) f h = elim (Bool-cases (is_nil (without u g.members))) [
  | inl e ↦ rw e (groups_without-All P Q u gs f h.1)
  | inr e ↦ rw e (f g h.0 e, groups_without-All P Q u gs f h.1)
]

-- After a removal the name is in no group.
pub groups_without-elem :
    (u : Bytes) (gs : List GroupSnapshot)
    → All (λ g. elem u g.members ≡ false) (groups_without u gs)
unfolding groups_without
groups_without-elem u [] = tt
groups_without-elem u (g ∷ gs) = elim (Bool-cases (is_nil (without u g.members))) [
  | inl e ↦ rw e (groups_without-elem u gs)
  | inr e ↦
      rw e (ground (arith, elem-without u u g.members, str_eq_refl u), groups_without-elem u gs)
]

ids-groups_without-All :
    (P : Bytes → Type 0) (u : Bytes) (gs : List GroupSnapshot)
    → All P (ids gs)
    → All P (ids (groups_without u gs))
unfolding groups_without
ids-groups_without-All P u [] h = tt
ids-groups_without-All P u (g ∷ gs) h = elim (Bool-cases (is_nil (without u g.members))) [
  | inl e ↦ rw e (ids-groups_without-All P u gs h.1)
  | inr e ↦ rw e (h.0, ids-groups_without-All P u gs h.1)
]

elem-ids-groups_without :
    (id u : Bytes) (gs : List GroupSnapshot)
    → elem id (ids gs) ≡ false
    → elem id (ids (groups_without u gs)) ≡ false
unfolding groups_without elem
elem-ids-groups_without id u [] h = refl
elem-ids-groups_without id u (g ∷ gs) h = ground (arith, elem-ids-groups_without id u gs)

Distinct-ids-groups_without :
    (u : Bytes) (gs : List GroupSnapshot) → Distinct (ids gs) → Distinct (ids (groups_without u gs))
unfolding groups_without
Distinct-ids-groups_without u [] h = tt
Distinct-ids-groups_without u (g ∷ gs) h = elim (Bool-cases (is_nil (without u g.members))) [
  | inl e ↦ rw e (Distinct-ids-groups_without u gs h.1)
  | inr e ↦ rw e (elem-ids-groups_without g.id u gs h.0, Distinct-ids-groups_without u gs h.1)
]

length-groups_without-le :
    (u : Bytes) (gs : List GroupSnapshot) → length (groups_without u gs) ≤ length gs
unfolding groups_without
length-groups_without-le u [] = omega arith
length-groups_without-le u (g ∷ gs) = ground (arith, length-groups_without-le u gs)

left-IsLive :
    (u : Bytes) (g : GroupSnapshot)
    → IsLive g
    → is_nil (without u g.members) ≡ false
    → IsLive (left u g)
left-IsLive u g v h = record {
  group = record {
    named = All-without IsName u g.members v.group.named;
    distinct = Distinct-without u g.members v.group.distinct;
    bounded = omega (arith, length-without-le u g.members, v.group.bounded);
  };
  inhabited = h;
}

-- `group_store_remove_member` keeps the invariant of the store on every branch.
pub group_store_remove_member-IsValid :
    (store : GroupStore) (u : Bytes) (max : ℕ)
    → IsValid store
    → IsValid (group_store_remove_member store u max).1
group_store_remove_member-IsValid store u max v = elim (Bool-cases (valid_member_name u)) [
  | inr bad ↦ rw (group_store_remove_member-invalid store u max bad) v
  | inl n ↦
      let (eq, counted, next, _, _) = group_store_remove_member_lem store u max v n in
      record {
        counted = counted;
        capacity = omega (
          arith,
          counted,
          ap length eq,
          length-groups_without-le u store.groups,
          v.counted,
          v.capacity,
        );
        live = rw eq (groups_without-All IsLive IsLive u store.groups (left-IsLive u) v.live);
        serials =
            rw (eq, next)
              (ids-groups_without-All (HasSerial store.next_id) u store.groups v.serials);
        unique = rw eq (Distinct-ids-groups_without u store.groups v.unique);
        no_wrap = rw next v.no_wrap;
      }
]
