-- ===== src/Group/Store.antt =====
-- common/group.c: the store of groups, newest first. Each function is one critical section under
-- the store's mutex, so a call is one step.
use multi_user_chat.Base.{
  ℕ, ◌+◌, Bool, true, false, not, ◌&&◌, ◌||◌, Option, none, some, List, [], ◌∷◌, ◌++◌, Bytes,
  length, leb, str_eq, copy_fixed, add_size, sub_size, add_u32, print_size, print_padded,
  if◌then◌else◌,
}
use multi_user_chat.Limits.{username_max_len, group_name_max_len, group_id_max_len}
use multi_user_chat.Limits.{group_max_groups}
use multi_user_chat.Group.{
  GroupResult, ok, err_invalid, err_full, err_not_found, GroupSnapshot, GroupChange,
  group_event_member_left, valid_group_name, valid_group_id, valid_member_name, add_member,
  member_index, remove_member_at, group_snapshot_has_member,
}
use multi_user_chat.Group.Payload.{
  GroupPayload, group_payload_init, group_payload_add, group_payload_build_record,
}

pub record GroupStore : Type 0 where
  pub groups : List GroupSnapshot
  pub next_id : ℕ
  pub count : ℕ

unfoldable pub group_store_init : GroupStore
group_store_init = record { groups = []; next_id = 1; count = 0 }

-- The groups that are freed, in this order, and the zeroed store.
unfoldable pub group_store_destroy : GroupStore → List GroupSnapshot × GroupStore
group_store_destroy store = (store.groups, record { groups = []; next_id = 0; count = 0 })

unfoldable pub find_id : List GroupSnapshot → Bytes → Option GroupSnapshot
find_id [] group_id = none
find_id (g ∷ gs) group_id = if str_eq g.id group_id then some g else find_id gs group_id

unfoldable pub find_group_locked : GroupStore → Bytes → Option GroupSnapshot
find_group_locked store group_id =
    if valid_group_id group_id then find_id store.groups group_id else none

-- The loop over `members`. The flag is `has_non_creator`.
unfoldable pub add_members :
    Bytes → List Bytes → GroupSnapshot → Bool → GroupResult × Bool × GroupSnapshot
add_members creator [] snapshot flag = (ok, flag, snapshot)
add_members creator (m ∷ ms) snapshot flag = elim (valid_member_name m) [
  | false ↦ (err_invalid, flag, snapshot)
  | true ↦
      let (rc, added, snapshot') = add_member snapshot m in
      elim rc [
        | ok ↦ add_members creator ms snapshot' (flag || (added && not (str_eq m creator)))
        | error ↦ (error, flag, snapshot')
      ]
]

-- `snprintf(id, sizeof(id), "g%06u", n)`
unfoldable pub group_id_text : ℕ → Bytes
group_id_text n = copy_fixed group_id_max_len (0x67 ∷ print_padded n)

abbrev pub new_group : Bytes → Bytes → GroupSnapshot
new_group creator name = record {
  id = [];
  name = copy_fixed group_name_max_len name;
  creator = copy_fixed username_max_len creator;
  members = [];
}

-- What is built before the lock is taken: the members of the new group, or the error.
unfoldable pub build_group : Bytes → Bytes → List Bytes → GroupResult × GroupSnapshot
build_group creator name members =
    let (rc, _, snapshot) = add_member (new_group creator name) creator in
    elim rc [
      | ok ↦
          let (rc', flag, snapshot') = add_members creator members snapshot false in
          elim rc' [
            | ok ↦ if flag then (ok, snapshot') else (err_invalid, snapshot')
            | error ↦ (error, snapshot')
          ]
      | error ↦ (error, snapshot)
    ]

abbrev pub is_nil : {A : Type 0} → List A → Bool
is_nil [] = true
is_nil (_ ∷ _) = false

-- The part under the lock: the group gets its id and becomes the head of the list.
unfoldable pub link_group :
    GroupStore → GroupSnapshot → GroupResult × GroupStore × Option GroupSnapshot
link_group store snapshot =
    if leb group_max_groups store.count
    then (err_full, store, none)
    else (let group = record snapshot { id = group_id_text store.next_id } in
        (
          ok,
          record {
            groups = group ∷ store.groups;
            next_id = add_u32 store.next_id 1;
            count = add_size store.count 1;
          },
          some group,
        ))

-- `allocated` tells whether `calloc` succeeded. The option is what is written through `out`.
unfoldable pub group_store_create :
    Bool → GroupStore → Bytes → Bytes → List Bytes → GroupResult × GroupStore × Option GroupSnapshot
group_store_create allocated store creator name members =
    if not (valid_member_name creator) || (not (valid_group_name name) || is_nil members)
    then (err_invalid, store, none)
    else (if not allocated
        then (err_invalid, store, none)
        else (let (rc, snapshot) = build_group creator name members in
            elim rc [ ok ↦ link_group store snapshot | error ↦ (error, store, none) ]))

unfoldable pub group_store_get_snapshot : GroupStore → Bytes → GroupResult × Option GroupSnapshot
group_store_get_snapshot store group_id =
    if not (valid_group_id group_id)
    then (err_invalid, none)
    else elim (find_group_locked store group_id) [
      | none ↦ (err_not_found, none)
      | some group ↦ (ok, some group)
    ]

-- The first loop of `group_store_build_list_payload`.
unfoldable pub count_groups : List GroupSnapshot → Bytes → ℕ
count_groups [] username = 0
count_groups (g ∷ gs) username =
    let rest = count_groups gs username in
    if group_snapshot_has_member g username then rest + 1 else rest

-- The second loop.
unfoldable pub add_records : GroupPayload → List GroupSnapshot → Bytes → GroupResult × GroupPayload
add_records payload [] username = (ok, payload)
add_records payload (g ∷ gs) username = elim (group_snapshot_has_member g username) [
  | false ↦ add_records payload gs username
  | true ↦
      let (rc, payload') = group_payload_build_record payload g in
      elim rc [ ok ↦ add_records payload' gs username | error ↦ (error, payload') ]
]

unfoldable pub group_store_build_list_payload : GroupStore → Bytes → GroupResult × GroupPayload
group_store_build_list_payload store username =
    if not (valid_member_name username)
    then (err_invalid, [])
    else (let (rc, payload) =
          group_payload_add group_payload_init (print_size (count_groups store.groups username)) in
        elim rc [ ok ↦ add_records payload store.groups username | error ↦ (error, payload) ])

-- The variables of `group_store_remove_member` that its loop changes, besides the list.
pub record Removal : Type 0 where
  pub changes : List GroupChange
  pub count : ℕ
  pub rc : GroupResult

-- One round of the loop: what is left of the group (`none` if it is unlinked and freed).
unfoldable pub leave_group : Bytes → ℕ → GroupSnapshot → Removal → Option GroupSnapshot × Removal
leave_group username max_changes group r = elim (member_index group username) [
  | none ↦ (some group, r)
  | some index ↦
      let group' = remove_member_at group index in
      if is_nil group'.members
      then (none, record r { count = sub_size r.count 1 })
      else (if leb max_changes (length r.changes)
          then (some group', record r { rc = err_full })
          else (
            some group',
            record r {
              changes =
                  r.changes
                  ++ (record { event = copy_fixed 32 group_event_member_left; group = group' }
                      ∷ []);
            },
          ))
]

abbrev pub keep : Option GroupSnapshot → List GroupSnapshot → List GroupSnapshot
keep none gs = gs
keep (some g) gs = g ∷ gs

unfoldable pub leave_groups :
    Bytes → ℕ → List GroupSnapshot → Removal → List GroupSnapshot × Removal
leave_groups username max_changes [] r = ([], r)
leave_groups username max_changes (g ∷ gs) r =
    let (kept, r') = leave_group username max_changes g r in
    let (rest, r'') = leave_groups username max_changes gs r' in (keep kept rest, r'')

-- The result, the store, and the changes (their number is `*change_count`).
unfoldable pub group_store_remove_member :
    GroupStore → Bytes → ℕ → GroupResult × GroupStore × List GroupChange
group_store_remove_member store username max_changes =
    if not (valid_member_name username)
    then (err_invalid, store, [])
    else (let (groups', r) =
          leave_groups username max_changes store.groups
            (record { changes = []; count = store.count; rc = ok }) in
        (r.rc, record store { groups = groups'; count = r.count }, r.changes))
