-- ===== src/Client/Served.antt =====
-- client/client.c and server/server.c: what the server and the other client make of a request of
-- the main thread.
use multi_user_chat.Base.{
  ℕ, ◌+◌, ◌<◌, ◌≡◌, refl, sym, ap, subst, ◌∙◌, Option, none, some, [], ◌∷◌, ◌++◌, Bytes, bytes,
  length, take, c_str, c_str-plain, IsCString, IsLine, IsLine-IsCString, take-all, arith,
}
use multi_user_chat.Protocol.{message_type, msg_login, msg_private, Packet}
use multi_user_chat.Protocol.Init.{IsPacket}
use multi_user_chat.User.{user_ok}
use multi_user_chat.Server.Program.{
  Call, login, get_fd, send, Program, ret, call, out_of_fuel, ◌>>=◌,
}
use multi_user_chat.Server.Handlers.{
  process_packet, dispatch, handle_login, handle_private, forward,
}
use multi_user_chat.Client.{FileSystem, Receiver, receive, print_line}
use multi_user_chat.Client.Chunks.{Connected}
use multi_user_chat.Client.Session.{
  Session, Host, say, do_login, send_private_message, private_lines, unless_posted,
}
use multi_user_chat.Client.Requests.{read_two-lines, posted_text, do_login-sent}

-- The first step of a program.
abbrev pub first_call : {A : Type 0} → Program A → Option Call
first_call (ret a) = none
first_call (call c k) = some c
first_call out_of_fuel = none

-- The program asks for the descriptor of `receiver`, and if that is `to`, sends `p` there.
abbrev pub Forwards : Program (Unit {0}) → Bytes → ℕ → Packet → Type 0
Forwards (call (get_fd name) k) receiver to p =
    (name ≡ receiver) × (first_call (k (user_ok, some to)) ≡ some (send to p))
Forwards program receiver to p = ⊥

-- A name that fits its array is read back from it as it is.
name_back :
    (a name : Bytes)
    → c_str a ≡ c_str (take 31 name)
    → length name < 32
    → IsCString name
    → c_str a ≡ name
name_back a name e fits string =
    e ∙ ap c_str (take-all 31 name (omega arith)) ∙ c_str-plain name string

login_called :
    (fuel fd : ℕ) (u password : Bytes) (p : Packet)
    → p.type ≡ 2
    → c_str p.sender ≡ u
    → c_str p.payload ≡ password
    → first_call (process_packet fuel fd p) ≡ some (login u password fd)
unfolding process_packet dispatch handle_login message_type ◌>>=◌
login_called fuel fd u password p type sender text =
    ap (λ t. first_call (dispatch fuel (message_type t) fd p)) type
    ∙ ap (λ x. some (login x (c_str p.payload) fd)) sender
    ∙ ap (λ x. some (login u x fd)) text

-- Where the two typed lines, of bytes that are no line end and no NUL, fit their arrays, and no
-- system call fails and one for each byte of a packet makes progress, `do_login` sends one
-- well-formed packet, and for it the first step of the server on any descriptor is the login of
-- the typed name with the typed password under that descriptor.
pub do_login-process_packet :
    (host : Host) (s : Session) (u password rest : Bytes) (fuel fd : ℕ)
    → s.input ≡ u ++ (0x0a ∷ (password ++ (0x0a ∷ rest)))
    → IsLine u
    → IsLine password
    → length u + 1 < 32
    → length password + 1 < 64
    → Connected (host.outcomes s.clock)
    → (p : Packet) × IsPacket p
      × ((do_login host s).1.up.sent ≡ s.up.sent ++ (p ∷ []))
      × (first_call (process_packet fuel fd p) ≡ some (login u password fd))
do_login-process_packet host s u password rest fuel fd typed hu hp fits fits' on =
    let name = IsLine-IsCString u hu in
    let account =
      read_two-lines host (bytes "用户名: ") (bytes "密码: ") 32 64 u password rest s hu hp fits fits'
        typed in
    let (p, i, text, sent) =
      posted_text host msg_login u [] password
        (record (say (bytes "密码: ") (say (bytes "用户名: ") s)) { input = rest }) on
        (omega (arith, fits')) (IsLine-IsCString password hp) in
    (
      p,
      i.packet,
      do_login-sent host s _ _ u password account sent,
      login_called fuel fd u password p i.has_type
          (name_back p.sender u i.has_sender (omega arith) name) text,
    )

-- What the server does with the packet of a private message, where its receiver is found.
forward_called :
    (fuel fd to : ℕ) (receiver : Bytes) (p : Packet)
    → p.type ≡ 3
    → c_str p.receiver ≡ receiver
    → Forwards (process_packet fuel fd p) receiver to p
unfolding process_packet dispatch handle_private forward message_type ◌>>=◌
forward_called fuel fd to receiver p type name =
    subst (λ t. Forwards (dispatch fuel (message_type t) fd p) receiver to p) (sym type)
      (name, refl)

private_shown :
    (fs : FileSystem) (r : Receiver) (sender text : Bytes) (p : Packet)
    → p.type ≡ 3
    → c_str p.sender ≡ sender
    → c_str p.payload ≡ text
    → receive fs (message_type p.type) p r
      ≡ print_line (bytes "[私聊][" ++ (sender ++ (bytes "]: " ++ text))) r
unfolding receive message_type
private_shown fs r sender text p type name content =
    ap (λ t. receive fs (message_type t) p r) type
    ∙ ap (λ x. print_line (bytes "[私聊][" ++ (x ++ (bytes "]: " ++ c_str p.payload))) r) name
    ∙ ap (λ x. print_line (bytes "[私聊][" ++ (sender ++ (bytes "]: " ++ x))) r) content

-- A private message arrives: where two lines, of bytes that are no line end and no NUL, are typed
-- that fit their arrays, the name of the sender fits its own, and no system call fails and one for
-- each byte of a packet makes progress, `send_private_message` sends one well-formed packet; for
-- it the server first looks up the descriptor of the typed receiver, and where it is found
-- forwards the packet there as it is; and a client that receives the packet prints the typed text
-- under the name of the sender.
pub send_private_message-receive :
    (host : Host) (s : Session) (receiver text rest : Bytes) (fuel fd to : ℕ) (fs : FileSystem)
    (r : Receiver)
    → s.input ≡ receiver ++ (0x0a ∷ (text ++ (0x0a ∷ rest)))
    → IsLine receiver
    → IsLine text
    → length receiver + 1 < 32
    → length text + 1 < 1024
    → length s.state.username < 32
    → IsCString s.state.username
    → Connected (host.outcomes s.clock)
    → (p : Packet) × IsPacket p
      × ((send_private_message host s).up.sent ≡ s.up.sent ++ (p ∷ []))
      × Forwards (process_packet fuel fd p) receiver to p
      × (receive fs (message_type p.type) p r
          ≡ print_line (bytes "[私聊][" ++ (s.state.username ++ (bytes "]: " ++ text))) r)
unfolding send_private_message
send_private_message-receive host s receiver text rest fuel fd to fs r typed hr ht fits fits' short
      string on =
    let lines =
      read_two-lines host (bytes "接收者: ") (bytes "消息内容: ") 32 1024 receiver text rest s hr ht fits
        fits' typed in
    let (p, i, content, sent) =
      posted_text host msg_private s.state.username receiver text
        (record (say (bytes "消息内容: ") (say (bytes "接收者: ") s)) { input = rest }) on
        (omega (arith, fits')) (IsLine-IsCString text ht) in
    (
      p,
      i.packet,
      ap (λ o. (private_lines host o).up.sent) lines
          ∙ ap (λ o. (unless_posted (bytes "私聊消息发送失败") o).up.sent) sent,
      forward_called fuel fd to receiver p i.has_type (
          name_back p.receiver receiver i.has_receiver (omega arith)
            (IsLine-IsCString receiver hr)),
      private_shown fs r s.state.username text p i.has_type
          (name_back p.sender s.state.username i.has_sender short string) content,
    )
