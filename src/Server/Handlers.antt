-- ===== src/Server/Handlers.antt =====
-- server/server.c: the handlers of the packet types, and `process_packet`. The fuel is that of
-- `cleanup_offline_fd`.
use multi_user_chat.Base.{
  ℕ, Bool, true, false, ◌&&◌, Option, none, some, List, [], ◌∷◌, Bytes, bytes, ◌==◌, c_str,
  if◌then◌else◌,
}
use multi_user_chat.Limits.{packet_data_max}
use multi_user_chat.Protocol.{
  MessageType, msg_register, msg_login, msg_private, msg_group, msg_online_list, msg_file_begin,
  msg_file_chunk, msg_file_end, msg_logout, msg_heartbeat, msg_ok, msg_error, msg_group_create,
  msg_group_list, msg_group_message, message_type, type_code, Packet,
}
use multi_user_chat.User.{is_ok, user_result_message}
use multi_user_chat.Group.Store.{is_nil}
use multi_user_chat.Server.Program.{
  Program, ret, ◌>>=◌, ◌>>◌, step, register, login, online_list, get_fd, snapshot_online_fds, send,
}
use multi_user_chat.Server.Cleanup.{respond, cleanup_offline_fd, found_fd}
use multi_user_chat.Server.GroupChat.{handle_group_create, handle_group_list, handle_group_message}

-- `packet->data` read as a string, by a `packet` whose payload has a NUL in it.
abbrev pub text_of_payload : Packet → Bytes
text_of_payload packet = c_str packet.payload

unfoldable pub handle_register : ℕ → Packet → Program (Unit {0})
handle_register fd packet = do
  rc ← step (register (c_str packet.sender) (text_of_payload packet))
  (if is_ok rc
      then respond fd msg_ok (bytes "注册成功")
      else respond fd msg_error (bytes (user_result_message rc)))

unfoldable pub handle_login : ℕ → Packet → Program (Unit {0})
handle_login fd packet = do
  rc ← step (login (c_str packet.sender) (text_of_payload packet) fd)
  (if is_ok rc
      then respond fd msg_ok (bytes "登录成功")
      else respond fd msg_error (bytes (user_result_message rc)))

unfoldable pub handle_online_list : ℕ → Program (Unit {0})
handle_online_list fd = do
  (rc, list) ← step (online_list packet_data_max)
  (if is_ok rc
      then respond fd msg_online_list list
      else respond fd msg_error (bytes (user_result_message rc)))

module _ (fuel : ℕ) where
  -- `handle_private`, and `handle_file_packet` up to its last answer: the packet goes to its
  -- receiver as it is. The result tells whether it did.
  unfoldable pub forward : ℕ → Packet → Program Bool
  forward fd packet = do
    (rc, target) ← step (get_fd (c_str packet.receiver))
    elim (found_fd (rc, target)) [
      | none ↦ do respond fd msg_error (bytes (user_result_message rc)); ret false
      | some target_fd ↦ do
        sent ← step (send target_fd packet)
        (if sent then ret true else (do
          cleanup_offline_fd fuel target_fd
          respond fd msg_error (bytes "目标用户连接已断开")
          ret false))
    ]

  unfoldable pub handle_private : ℕ → Packet → Program (Unit {0})
  handle_private fd packet = do
    forwarded ← forward fd packet
    if forwarded then respond fd msg_ok (bytes "私聊消息已发送") else ret tt

  -- The loop of `handle_group`.
  unfoldable pub send_to_fds : List ℕ → Packet → Program (Unit {0})
  send_to_fds [] packet = ret tt
  send_to_fds (other ∷ fds) packet = do
    sent ← step (send other packet)
    if sent then ret tt else cleanup_offline_fd fuel other
    send_to_fds fds packet

  unfoldable pub handle_group : ℕ → Packet → Program (Unit {0})
  handle_group fd packet = do
    fds ← step (snapshot_online_fds fd 256)
    (if is_nil fds
        then respond fd msg_error (bytes "当前没有其他在线用户")
        else (do send_to_fds fds packet; respond fd msg_ok (bytes "群聊消息已发送")))

  unfoldable pub handle_file_packet : ℕ → Packet → Program (Unit {0})
  handle_file_packet fd packet = do
    forwarded ← forward fd packet
    (if forwarded && (packet.type == type_code msg_file_end)
        then respond fd msg_ok (bytes "文件发送完成")
        else ret tt)

  -- The `switch` of `process_packet`.
  unfoldable pub dispatch : Option MessageType → ℕ → Packet → Program (Unit {0})
  dispatch (some msg_register) fd packet = handle_register fd packet
  dispatch (some msg_login) fd packet = handle_login fd packet
  dispatch (some msg_online_list) fd packet = handle_online_list fd
  dispatch (some msg_private) fd packet = handle_private fd packet
  dispatch (some msg_group) fd packet = handle_group fd packet
  dispatch (some msg_group_create) fd packet = handle_group_create fuel fd packet
  dispatch (some msg_group_list) fd packet = handle_group_list fuel fd
  dispatch (some msg_group_message) fd packet = handle_group_message fuel fd packet
  dispatch (some msg_file_begin) fd packet = handle_file_packet fd packet
  dispatch (some msg_file_chunk) fd packet = handle_file_packet fd packet
  dispatch (some msg_file_end) fd packet = handle_file_packet fd packet
  dispatch (some msg_logout) fd packet = do
    cleanup_offline_fd fuel fd
    respond fd msg_ok (bytes "退出登录成功")
  dispatch (some msg_heartbeat) fd packet = respond fd msg_ok (bytes "心跳正常")
  dispatch _ fd packet = respond fd msg_error (bytes "非法消息类型")

  unfoldable pub process_packet : ℕ → Packet → Program (Unit {0})
  process_packet fd packet = dispatch (message_type packet.type) fd packet
