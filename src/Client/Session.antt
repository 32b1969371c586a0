-- ===== src/Client/Session.antt =====
-- client/client.c: the main thread, which reads the menus and the prompts from the standard input
-- and sends the requests.
use multi_user_chat.Base.{
  is_empty, ℕ, ◌+◌, ◌-◌, ◌^◌, Bool, true, false, not, Option, none, some, List, [], ◌∷◌, Bytes,
  bytes, c_str, copy_fixed, fgets, cut_line, atoi, ◌==◌, if◌then◌else◌,
}
use multi_user_chat.Limits.{username_max_len, password_max_len, packet_data_max}
use multi_user_chat.Net.{Outcome, is_done}
use multi_user_chat.Protocol.{
  MessageType, msg_register, msg_login, msg_private, msg_group, msg_online_list, msg_logout, msg_ok,
  type_code, Packet, packet_init, packet_set_text, recv_packet,
}
use multi_user_chat.Client.Upload.{Read, Upload, transmit, send_file}

-- What the main thread uses of it: the sockets are in the session.
pub record ClientState : Type 0 where
  pub running : Bool
  pub logged_in : Bool
  pub username : Bytes

-- The state of the main thread: what is left of the input, and of the bytes from the server that
-- this thread reads (`recv_thread` reads the others), what was sent and printed, and how many
-- requests and choices there were.
pub record Session : Type 0 where
  pub state : ClientState
  pub input : Bytes
  pub stream : Bytes
  pub up : Upload
  pub clock : ℕ

-- What the session does not decide: the system calls of each `send_packet` and `recv_packet` of a
-- request, whether the other thread has not yet cleared `running` there, and what `stat`, `fopen`
-- and `fread` give to a `send_file`.
pub record Host : Type 0 where
  pub outcomes : ℕ → ℕ → List Outcome
  pub arrivals : ℕ → List Outcome
  pub alive : ℕ → Bool
  pub size : ℕ → Option ℕ
  pub opens : ℕ → Bool
  pub reads : ℕ → List Read

abbrev pub say : Bytes → Session → Session
say text s = record s { up = record s.up { printed = text ∷ s.up.printed } }

abbrev pub stop : Session → Session
stop s = record s { state = record s.state { running = false } }

-- `none` is the end of the input. The prompt is part of the output, and so are the prompts of the
-- other functions.
unfoldable pub read_line_prompt : Bytes → ℕ → Session → Option Bytes × Session
read_line_prompt prompt out_size s =
    if is_empty s.input
    then (none, say prompt s)
    else (let (line, rest) = fgets (out_size - 1) s.input in
        (some (cut_line (c_str line)), record (say prompt s) { input = rest }))

-- -1 as the 32 bits of an `int`.
abbrev pub no_choice : ℕ
no_choice = 2 ^ 32 - 1

unfoldable pub read_menu_choice : Session → ℕ × Session
read_menu_choice s =
    let (line, s') = read_line_prompt (bytes "请选择: ") 32 s in
    (elim line [ none ↦ no_choice | some text ↦ atoi text ], record s' { clock = s'.clock + 1 })

-- `packet_init` or `packet_set_text`, and `send_packet`: whether both succeed.
abbrev pub posted : Option Upload → Session → Bool × Session
posted none s = (false, record s { clock = s.clock + 1 })
posted (some up) s = (true, record s { up = up; clock = s.clock + 1 })

-- What is printed if they do not.
abbrev pub unless_posted : Bytes → Bool × Session → Session
unless_posted text (true, s) = s
unless_posted text (false, s) = say text s

-- Two prompts, with arrays of these sizes.
abbrev pub second_line : Bytes → Option Bytes × Session → Option (Bytes × Bytes) × Session
second_line a (none, s) = (none, stop s)
second_line a (some b, s) = (some (a, b), s)

abbrev pub first_line : Bytes → ℕ → Option Bytes × Session → Option (Bytes × Bytes) × Session
first_line prompt size (none, s) = (none, stop s)
first_line prompt size (some a, s) = second_line a (read_line_prompt prompt size s)

unfoldable pub read_two : Bytes → ℕ → Bytes → ℕ → Session → Option (Bytes × Bytes) × Session
read_two first size second size' s = first_line second size' (read_line_prompt first size s)

abbrev pub read_account : Session → Option (Bytes × Bytes) × Session
read_account s = read_two (bytes "用户名: ") username_max_len (bytes "密码: ") password_max_len s

abbrev pub logged_in_as : Bytes → Session → Session
logged_in_as username s = record s {
  state = record s.state { username = copy_fixed username_max_len username; logged_in = true };
}

abbrev pub login_answered : Bytes → Bool × Session → Bool × Session
login_answered username (true, s) = (true, logged_in_as username s)
login_answered username (false, s) = (false, s)

module _ (host : Host) where
  abbrev pub post : Option Packet → Session → Bool × Session
  post packet s = posted (transmit (host.outcomes s.clock) packet s.up) s

  unfoldable pub send_text_packet : MessageType → Bytes → Bytes → Bytes → Session → Bool × Session
  send_text_packet type sender receiver text s =
      post (packet_set_text (type_code type) (some sender) (some receiver) (some text)) s

  -- The result is true for 0.
  unfoldable pub wait_for_auth_response : Session → Bool × Session
  wait_for_auth_response s =
      let r = recv_packet (host.arrivals s.clock) s.stream in
      let s' = record s { stream = r.stream; clock = s.clock + 1 } in
      if not (is_done r.status)
      then (false, say (bytes "服务器连接已断开") s')
      else (r.packet.type == type_code msg_ok, say (c_str r.packet.payload) s')

  abbrev pub register_posted : Bool × Session → Session
  register_posted (true, s) = (wait_for_auth_response s).1
  register_posted (false, s) = say (bytes "注册请求发送失败") s

  abbrev pub register_account : Option (Bytes × Bytes) × Session → Session
  register_account (none, s) = s
  register_account (some (username, password), s) =
      register_posted (send_text_packet msg_register username [] password s)

  unfoldable pub do_register : Session → Session
  do_register s = register_account (read_account s)

  abbrev pub login_posted : Bytes → Bool × Session → Bool × Session
  login_posted username (true, s) = login_answered username (wait_for_auth_response s)
  login_posted username (false, s) = (false, say (bytes "登录请求发送失败") s)

  abbrev pub login_account : Option (Bytes × Bytes) × Session → Bool × Session
  login_account (none, s) = (false, s)
  login_account (some (username, password), s) =
      login_posted username (send_text_packet msg_login username [] password s)

  unfoldable pub do_login : Session → Bool × Session
  do_login s = login_account (read_account s)

  unfoldable pub request_online_list : Session → Session
  request_online_list s =
      unless_posted (bytes "在线列表请求发送失败")
        (post (packet_init (type_code msg_online_list) (some s.state.username) (some []) none 0) s)

  abbrev pub private_lines : Option (Bytes × Bytes) × Session → Session
  private_lines (none, s) = s
  private_lines (some (receiver, content), s) =
      unless_posted (bytes "私聊消息发送失败")
        (send_text_packet msg_private s.state.username receiver content s)

  unfoldable pub send_private_message : Session → Session
  send_private_message s =
      private_lines (read_two (bytes "接收者: ") username_max_len (bytes "消息内容: ") packet_data_max s)

  abbrev pub group_line : Option Bytes × Session → Session
  group_line (none, s) = stop s
  group_line (some content, s) =
      unless_posted (bytes "群聊消息发送失败") (send_text_packet msg_group s.state.username [] content s)

  unfoldable pub send_group_message : Session → Session
  send_group_message s = group_line (read_line_prompt (bytes "群聊内容: ") packet_data_max s)

  -- The call of the part of `send_file` behind its prompts.
  abbrev pub file_lines : Option (Bytes × Bytes) × Session → Session
  file_lines (none, s) = s
  file_lines (some (receiver, path), s) =
      let (_, up) =
        send_file (host.outcomes s.clock) s.state.username receiver path (host.size s.clock)
          (host.opens s.clock) (host.reads s.clock) s.up in
      record s { up = up; clock = s.clock + 1 }

  unfoldable pub ask_and_send_file : Session → Session
  ask_and_send_file s =
      file_lines (read_two (bytes "接收者: ") username_max_len (bytes "文件路径: ") 512 s)

  unfoldable pub logout : Session → Session
  logout s =
      if not s.state.logged_in
      then s
      else (let (_, s1) =
            post (packet_init (type_code msg_logout) (some s.state.username) (some []) none 0) s in
          record s1 { state = record s1.state { logged_in = false; username = [] } })
