-- ===== src/Group.antt =====
-- common/group.c: temporary groups. This module has the data and the member list of one group;
-- `Payload` has the NUL-separated payloads, `Store` the list of groups, and the others the proofs.
-- A char array is modelled by the string that it holds: every write goes through `copy_fixed` or
-- `snprintf`, which terminate it. The array of members is the list of its slots in use, so that
-- `member_count` is the length of the list. A struct pointer is never NULL here.
pub mod Payload
pub mod Store
pub mod Member
pub mod Codec
pub mod Create
pub mod Ids
pub mod Invariant
pub mod Leave
pub mod Survivors
pub mod Listing
mod Tests
use multi_user_chat.Base.{
  ℕ, zero, suc, ◌+◌, ◌≡◌, Bool, true, false, not, ◌&&◌, Option, none, some, List, [], ◌∷◌, ◌++◌,
  map, Bytes, bytes, length, ltb, leb, str_eq, contains, is_empty, copy_fixed, if◌then◌else◌,
}
use multi_user_chat.Limits.{
  username_max_len, group_name_max_len, group_id_max_len, group_max_members,
}
use Prim.Native.String.{String}

-- GROUP_OK and GROUP_ERR_*
pub data GroupResult : Type 0 where
  ok err_invalid err_full err_not_found err_not_member err_payload : GroupResult

pub record GroupSnapshot : Type 0 where
  pub id : Bytes
  pub name : Bytes
  pub creator : Bytes
  pub members : List Bytes

pub record GroupChange : Type 0 where
  pub event : Bytes
  pub group : GroupSnapshot

abbrev pub group_event_created : Bytes
group_event_created = bytes "created"

abbrev pub group_event_member_left : Bytes
group_event_member_left = bytes "member_left"

unfoldable pub valid_group_name : Bytes → Bool
valid_group_name name =
    not (is_empty name) && (ltb (length name) group_name_max_len && not (contains 0x0a name))

unfoldable pub valid_group_id : Bytes → Bool
valid_group_id group_id =
    not (is_empty group_id)
    && (ltb (length group_id) group_id_max_len && not (contains 0x0a group_id))

unfoldable pub valid_member_name : Bytes → Bool
valid_member_name username =
    not (is_empty username)
    && (ltb (length username) username_max_len
        && (not (contains 0x3a username) && not (contains 0x0a username)))

-- The loop of `member_index` over the slots from number `i` on.
unfoldable pub index_from : ℕ → List Bytes → Bytes → Option ℕ
index_from i [] username = none
index_from i (m ∷ ms) username =
    if str_eq m username then some i else index_from (i + 1) ms username

-- `none` is the -1 of the source.
unfoldable pub member_index : GroupSnapshot → Bytes → Option ℕ
member_index snapshot username =
    if valid_member_name username then index_from 0 snapshot.members username else none

abbrev pub is_some : {A : Type 0} → Option A → Bool
is_some none = false
is_some (some _) = true

unfoldable pub group_snapshot_has_member : GroupSnapshot → Bytes → Bool
group_snapshot_has_member snapshot username = is_some (member_index snapshot username)

-- The result, whether the name was added, and the snapshot afterwards.
unfoldable pub add_member : GroupSnapshot → Bytes → GroupResult × Bool × GroupSnapshot
add_member snapshot username =
    if not (valid_member_name username)
    then (err_invalid, false, snapshot)
    else (if is_some (member_index snapshot username)
        then (ok, false, snapshot)
        else (if leb group_max_members (length snapshot.members)
            then (err_full, false, snapshot)
            else (
              ok,
              true,
              record snapshot {
                members = snapshot.members ++ (copy_fixed username_max_len username ∷ []);
              },
            )))

-- The loop of `remove_member_at`: each later slot is copied one place down.
unfoldable pub shift_down : List Bytes → ℕ → List Bytes
shift_down [] index = []
shift_down (m ∷ ms) zero = map (copy_fixed username_max_len) ms
shift_down (m ∷ ms) (suc index) = m ∷ shift_down ms index

unfoldable pub remove_member_at : GroupSnapshot → ℕ → GroupSnapshot
remove_member_at snapshot index =
    if leb (length snapshot.members) index
    then snapshot
    else record snapshot { members = shift_down snapshot.members index }

unfoldable pub group_result_message : GroupResult → String
group_result_message ok = "成功"
group_result_message err_invalid = "群聊输入不合法"
group_result_message err_full = "群聊数量或成员数量已达上限"
group_result_message err_not_found = "群聊不存在"
group_result_message err_not_member = "当前用户不在该群聊中"
group_result_message err_payload = "群聊协议数据不合法"
