-- ===== src/Server/GroupChat.antt =====
-- server/server.c: the handlers of the packets about groups. The fuel is that of
-- `cleanup_offline_fd`.
use multi_user_chat.Base.{
  is_empty, ℕ, ◌-◌, Bool, true, false, not, ◌||◌, Option, none, some, List, [], ◌∷◌, Bytes, bytes,
  length, take, get_or, ltb, ◌==◌, str_eq, c_str, if◌then◌else◌,
}
use multi_user_chat.Limits.{username_max_len, packet_data_max, group_max_members}
use multi_user_chat.Protocol.{msg_ok, msg_error, msg_group_list, msg_group_message, Packet}
use multi_user_chat.User.{is_ok}
use multi_user_chat.Group.{
  GroupResult, ok, err_not_member, GroupSnapshot, group_event_created, group_snapshot_has_member,
  group_result_message,
}
use multi_user_chat.Group.Payload.{GroupFields, group_payload_parse, group_payload_build_message}
use multi_user_chat.Server.Program.{
  Program, ret, ◌>>=◌, ◌>>◌, step, get_fd, username_by_fd, create, get_snapshot, build_list_payload,
}
use multi_user_chat.Server.Cleanup.{
  send_group_payload_to_fd, respond, send_to_members, push_group_event, cleanup_offline_fd,
}

-- `none` is NULL.
unfoldable pub packet_text_data : Packet → Option Bytes
packet_text_data packet =
    if packet.length == 0 || ltb packet_data_max packet.length
    then none
    else (if get_or packet.payload (packet.length - 1) 0 == 0
        then some (c_str packet.payload)
        else none)

-- The loop over the names of `handle_group_create`: `none` if one is not online, and otherwise
-- whether one is not the creator.
unfoldable pub check_members : Bytes → List Bytes → Bool → Program (Option Bool)
check_members username [] flag = ret (some flag)
check_members username (m ∷ ms) flag = do
  (rc, _) ← step (get_fd m)
  if is_ok rc then check_members username ms (flag || not (str_eq m username)) else ret none

abbrev pub is_group_ok : GroupResult → Bool
is_group_ok ok = true
is_group_ok _ = false

abbrev pub wrong_fields : GroupResult × GroupFields → Bool
wrong_fields (ok, fields) = ltb (length fields) 2 || ltb group_max_members (length fields - 1)
wrong_fields (_, fields) = true

abbrev pub group_fields : GroupResult × GroupFields → Bytes × List Bytes
group_fields (_, []) = ([], [])
group_fields (_, name ∷ members) = (name, members)

-- A text that is missing or empty.
abbrev pub no_text : Option Bytes → Bool
no_text none = true
no_text (some text) = is_empty text

abbrev pub the_text : Option Bytes → Bytes
the_text none = []
the_text (some text) = text

module _ (fuel : ℕ) where
  unfoldable pub create_group : ℕ → Bytes → Bytes → List Bytes → Program (Unit {0})
  create_group fd username name members = do
    (rc, snapshot) ← step (create username name members)
    elim snapshot [
      | none ↦ respond fd msg_error (bytes (group_result_message rc))
      | some group ↦ do
        push_group_event (cleanup_offline_fd fuel) group_event_created group
        respond fd msg_ok (bytes "群聊已创建")
    ]

  -- What follows the loop of `handle_group_create`.
  unfoldable pub create_checked : ℕ → Bytes → Bytes → List Bytes → Option Bool → Program (Unit {0})
  create_checked fd username name members none = respond fd msg_error (bytes "群成员必须是当前在线用户")
  create_checked fd username name members (some false) = respond fd msg_error (bytes "请至少选择一名在线成员")
  create_checked fd username name members (some true) = create_group fd username name members

  unfoldable pub handle_group_create : ℕ → Packet → Program (Unit {0})
  handle_group_create fd packet = do
    (rc, username) ← step (username_by_fd fd username_max_len)
    let parsed = group_payload_parse (take packet.length packet.payload)
    let (name, members) = group_fields parsed
    (if not (is_ok rc)
        then respond fd msg_error (bytes "请先登录")
        else (if wrong_fields parsed then respond fd msg_error (bytes "群聊创建数据不合法") else (do
          checked ← check_members username members false
          create_checked fd username name members checked)))

  unfoldable pub handle_group_list : ℕ → Program (Unit {0})
  handle_group_list fd = do
    (rc, username) ← step (username_by_fd fd username_max_len)
    (if not (is_ok rc) then respond fd msg_error (bytes "请先登录") else (do
      (rc', payload) ← step (build_list_payload username)
      (if is_group_ok rc'
          then send_group_payload_to_fd (cleanup_offline_fd fuel) fd msg_group_list (bytes "server")
              username payload
          else respond fd msg_error (bytes (group_result_message rc')))))

  -- The part of `handle_group_message` behind its checks.
  unfoldable pub send_group_message : ℕ → Bytes → GroupSnapshot → Bytes → Program (Unit {0})
  send_group_message fd username snapshot text =
      let (rc, payload) = group_payload_build_message snapshot text in
      if is_group_ok rc
      then (do
        send_to_members (cleanup_offline_fd fuel) snapshot.members msg_group_message username
            snapshot.id payload
        respond fd msg_ok (bytes "群聊消息已发送"))
      else respond fd msg_error (bytes (group_result_message rc))

  -- What follows `group_store_get_snapshot` in `handle_group_message`.
  unfoldable pub send_to_group :
      ℕ → Bytes → Bytes → GroupResult × Option GroupSnapshot → Program (Unit {0})
  send_to_group fd username text (rc, none) = respond fd msg_error (bytes (group_result_message rc))
  send_to_group fd username text (rc, some snapshot) =
      if group_snapshot_has_member snapshot username
      then send_group_message fd username snapshot text
      else respond fd msg_error (bytes (group_result_message err_not_member))

  unfoldable pub handle_group_message : ℕ → Packet → Program (Unit {0})
  handle_group_message fd packet = do
    (rc, username) ← step (username_by_fd fd username_max_len)
    (if not (is_ok rc)
        then respond fd msg_error (bytes "请先登录")
        else (if is_empty (c_str packet.receiver) || no_text (packet_text_data packet)
            then respond fd msg_error (bytes "群聊消息数据不合法")
            else (do
              found ← step (get_snapshot (c_str packet.receiver))
              send_to_group fd username (the_text (packet_text_data packet)) found)))
