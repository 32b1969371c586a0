-- ===== src/Group/Leave.antt =====
-- common/group.c: `group_store_remove_member` against a description of it that has no indices,
-- no counters and no bound.
use multi_user_chat.Base.{
  ℕ, ◌+◌, ◌-◌, ◌≤◌, ◌≡◌, refl, sym, ap, ◌∙◌, Bool, true, false, not, ◌&&◌, none, some, List, [],
  ◌∷◌, ◌++◌, Bytes, length, All, copy_fixed, take, if◌then◌else◌, arith, Option-cases, inl, inr,
  sub_size, leb, append-nil, append_assoc, take-all, take-cons, take-none, length-append,
}
use multi_user_chat.Group.{
  ok, err_invalid, err_full, GroupSnapshot, GroupChange, group_event_member_left, valid_member_name,
  member_index, is_some,
}
use multi_user_chat.Group.Member.{
  elem, without, IsName, remove_member_at_lem, is_some-index_from, without-of-not_elem,
}
use multi_user_chat.Group.Store.{
  GroupStore, Removal, leave_group, leave_groups, group_store_remove_member, is_nil,
}
use multi_user_chat.Group.Invariant.{IsLive, IsValid}

abbrev pub left : Bytes → GroupSnapshot → GroupSnapshot
left u g = record g { members = without u g.members }

-- The groups once `u` is in none of them: those that lose their last member are gone.
unfoldable pub groups_without : Bytes → List GroupSnapshot → List GroupSnapshot
groups_without u [] = []
groups_without u (g ∷ gs) =
    let rest = groups_without u gs in if is_nil (without u g.members) then rest else left u g ∷ rest

abbrev pub left_change : Bytes → GroupSnapshot → GroupChange
left_change u g = record { event = copy_fixed 32 group_event_member_left; group = left u g }

-- One event for each group that `u` leaves to others.
unfoldable pub changes_without : Bytes → List GroupSnapshot → List GroupChange
changes_without u [] = []
changes_without u (g ∷ gs) =
    let rest = changes_without u gs in
    if elem u g.members && not (is_nil (without u g.members)) then left_change u g ∷ rest else rest

member_index-some :
    (g : GroupSnapshot) (u : Bytes) → IsName u → is_some (member_index g u) ≡ elem u g.members
unfolding member_index
member_index-some g u n = rw n (is_some-index_from 0 g.members u)

-- One round of the loop on a live group.
leave_group_lem :
    (u : Bytes) (max : ℕ) (g : GroupSnapshot) (r : Removal)
    → IsName u
    → IsLive g
    → leave_group u max g r ≡ (
        if elem u g.members
        then (if is_nil (without u g.members)
            then (none, record r { count = sub_size r.count 1 })
            else (if leb max (length r.changes)
                then (some (left u g), record r { rc = err_full })
                else (some (left u g), record r { changes = r.changes ++ (left_change u g ∷ []) })))
        else (some g, r))
unfolding leave_group
leave_group_lem u max g r n v = elim (Option-cases (member_index g u)) [
  | inl e ↦ ground (arith, member_index-some g u n)
  | inr (i, e) ↦ ground (arith, member_index-some g u n, remove_member_at_lem g u i v.group e)
]

-- A group without `u` stays as it is.
groups_without-cons :
    (u : Bytes) (g : GroupSnapshot) (gs : List GroupSnapshot)
    → IsLive g
    → elem u g.members ≡ false
    → groups_without u (g ∷ gs) ≡ g ∷ groups_without u gs
unfolding groups_without
groups_without-cons u g gs v e = rw (without-of-not_elem u g.members e, v.inhabited)

leave_group-kept :
    (u : Bytes) (max : ℕ) (g : GroupSnapshot) (r : Removal)
    → IsName u
    → IsLive g
    → (leave_group u max g r).0 ≡ (if is_nil (without u g.members) then none else some (left u g))
leave_group-kept u max g r n v =
    rw (leave_group_lem u max g r n v)
      (ground (arith, without-of-not_elem u g.members, v.inhabited))

leave_groups-groups :
    (u : Bytes) (max : ℕ) (gs : List GroupSnapshot) (r : Removal)
    → IsName u
    → All IsLive gs
    → (leave_groups u max gs r).0 ≡ groups_without u gs
unfolding leave_groups groups_without
leave_groups-groups u max [] r n v = refl
leave_groups-groups u max (g ∷ gs) r n v =
    rw (leave_group-kept u max g r n v.0)
      (ground (arith, leave_groups-groups u max gs (leave_group u max g r).1 n v.1))

-- `u` leaves the group to others.
abbrev leaves : Bytes → GroupSnapshot → Bool
leaves u g = elem u g.members && not (is_nil (without u g.members))

leave_group-changes :
    (u : Bytes) (max : ℕ) (g : GroupSnapshot) (r : Removal)
    → IsName u
    → IsLive g
    → (leave_group u max g r).1.changes ≡ (
        if leaves u g && not (leb max (length r.changes))
        then r.changes ++ (left_change u g ∷ [])
        else r.changes)
leave_group-changes u max g r n v = rw (leave_group_lem u max g r n v) (ground arith)

leave_group-rc :
    (u : Bytes) (max : ℕ) (g : GroupSnapshot) (r : Removal)
    → IsName u
    → IsLive g
    → (leave_group u max g r).1.rc
      ≡ (if leaves u g && leb max (length r.changes) then err_full else r.rc)
leave_group-rc u max g r n v = rw (leave_group_lem u max g r n v) (ground arith)

leave_group-count :
    (u : Bytes) (max : ℕ) (g : GroupSnapshot) (r : Removal)
    → IsName u
    → IsLive g
    → (leave_group u max g r).1.count
      ≡ (if is_nil (without u g.members) then sub_size r.count 1 else r.count)
leave_group-count u max g r n v =
    rw (leave_group_lem u max g r n v)
      (ground (arith, without-of-not_elem u g.members, v.inhabited))

leave_groups-changes :
    (u : Bytes) (max : ℕ) (gs : List GroupSnapshot) (r : Removal)
    → IsName u
    → All IsLive gs
    → length r.changes ≤ max
    → (leave_groups u max gs r).1.changes
      ≡ r.changes ++ take (max - length r.changes) (changes_without u gs)
unfolding leave_groups changes_without
leave_groups-changes u max [] r n v h =
    rw (take-all {A = GroupChange} (max - length r.changes) [] (omega arith))
      (sym (append-nil r.changes))
leave_groups-changes u max (g ∷ gs) r n v h = ground (
  arith,
  leave_group-changes u max g r n v.0,
  leave_groups-changes u max gs (leave_group u max g r).1 n v.1,
  length-append r.changes (left_change u g ∷ []),
  append_assoc r.changes (left_change u g ∷ [])
      (take (max - length r.changes - 1) (changes_without u gs)),
  take-cons (max - length r.changes) (left_change u g) (changes_without u gs),
  take-none (max - length r.changes) (left_change u g ∷ changes_without u gs),
  take-none (max - length r.changes) (changes_without u gs),
)

leave_groups-rc :
    (u : Bytes) (max : ℕ) (gs : List GroupSnapshot) (r : Removal)
    → IsName u
    → All IsLive gs
    → length r.changes ≤ max
    → (leave_groups u max gs r).1.rc
      ≡ (if leb (length r.changes + length (changes_without u gs)) max then r.rc else err_full)
unfolding leave_groups changes_without
leave_groups-rc u max [] r n v h = ground arith
leave_groups-rc u max (g ∷ gs) r n v h = ground (
  arith,
  leave_group-rc u max g r n v.0,
  leave_group-changes u max g r n v.0,
  leave_groups-rc u max gs (leave_group u max g r).1 n v.1,
  length-append r.changes (left_change u g ∷ []),
)

leave_groups-count :
    (u : Bytes) (max : ℕ) (gs : List GroupSnapshot) (r : Removal)
    → IsName u
    → All IsLive gs
    → length gs ≤ r.count
    → r.count ≤ 128
    → (leave_groups u max gs r).1.count + length gs ≡ r.count + length (groups_without u gs)
unfolding leave_groups groups_without
leave_groups-count u max [] r n v h h' = omega arith
leave_groups-count u max (g ∷ gs) r n v h h' = ground (
  arith,
  leave_group-count u max g r n v.0,
  leave_groups-count u max gs (leave_group u max g r).1 n v.1,
)

-- In a valid store and for a valid name, `group_store_remove_member` takes the name out of every
-- group, drops the groups that this empties and counts the rest; its changes are the groups left
-- to others, in order, as they are afterwards, cut off at the size of the buffer with
-- GROUP_ERR_FULL.
pub group_store_remove_member_lem :
    (store : GroupStore) (u : Bytes) (max : ℕ)
    → IsValid store
    → valid_member_name u ≡ true
    → let (rc, store', changes) = group_store_remove_member store u max in
      (store'.groups ≡ groups_without u store.groups)
      × (store'.count ≡ length store'.groups)
      × (store'.next_id ≡ store.next_id)
      × (changes ≡ take max (changes_without u store.groups))
      × (rc ≡ (if leb (length (changes_without u store.groups)) max then ok else err_full))
unfolding group_store_remove_member
group_store_remove_member_lem store u max v n =
    let start : Removal = record { changes = []; count = store.count; rc = ok } in
    rw n (
      leave_groups-groups u max store.groups start n v.live,
      ground (
        arith,
        v.counted,
        leave_groups-groups u max store.groups start n v.live,
        leave_groups-count u max store.groups start n v.live,
        v.capacity,
      ),
      refl,
      leave_groups-changes u max store.groups start n v.live (omega arith)
          ∙ ap (λ k. take k (changes_without u store.groups)) (omega arith),
      ground (arith, leave_groups-rc u max store.groups start n v.live),
    )

-- A name that is not valid changes nothing.
pub group_store_remove_member-invalid :
    (store : GroupStore) (u : Bytes) (max : ℕ)
    → valid_member_name u ≡ false
    → group_store_remove_member store u max ≡ (err_invalid, store, [])
unfolding group_store_remove_member
group_store_remove_member-invalid store u max h = rw h
