-- ===== src/Server/Console.antt =====
-- server/server.c: `console_handler`, the thread that reads the commands. Fuel bounds its rounds;
-- `none` is a console that is still open.
use multi_user_chat.Base.{
  is_empty, is_empty-append, ◌≢◌, ℕ, zero, suc, ◌<◌, ◌≡◌, ap, ◌∙◌, Bool, true, false, not, ◌&&◌,
  Option, none, some, List, [], ◌∷◌, ◌++◌, Bytes, bytes, length, take, drop, str_eq, c_str,
  c_str-plain, fgets, cut_line, fgets-line, cut_line-line, IsLine, IsLine-IsCString, IsLine-ends,
  All-append, if◌then◌else◌, arith,
}
use multi_user_chat.Net.Sockets.{Network, Sockets, shutdown, called, close_fd, send_udp_broadcast}

-- What the console uses of `ServerState`, what is left of the standard input, and the lines
-- printed, the oldest first.
pub record Console : Type 0 where
  pub running : Bool
  pub listen_fd : ℕ
  pub udp_fd : ℕ
  pub udp_port : ℕ
  pub input : Bytes
  pub sockets : Sockets
  pub printed : List Bytes

abbrev pub puts : Bytes → Console → Console
puts text c = record c { printed = c.printed ++ (text ∷ []) }

-- The message of a command is what follows this.
abbrev pub broadcast_command : Bytes
broadcast_command = bytes "/broadcast "

abbrev pub sent_line : Bytes → Bytes
sent_line message = bytes "UDP 广播已发送: " ++ message

-- `perror` writes to the other output.
abbrev pub broadcast_sent : Bytes → Bool → Console → Console
broadcast_sent message true c = puts (sent_line message) c
broadcast_sent message false c = c

abbrev pub quit : Console → Console
quit c = record c {
  running = false;
  sockets = close_fd c.listen_fd (called (shutdown c.listen_fd) c.sockets);
}

module _ (net : Network) where
  unfoldable pub broadcast : Bytes → Console → Console
  broadcast message c =
      if is_empty message
      then puts (bytes "广播内容不能为空") c
      else (let (sent, sockets) = send_udp_broadcast net c.udp_fd c.udp_port message c.sockets in
          broadcast_sent message sent (record c { sockets = sockets }))

  -- What the loop does with one line.
  unfoldable pub console_line : Bytes → Console → Console
  console_line line c =
      if str_eq (take 11 line) broadcast_command
      then broadcast (drop 11 line) c
      else (if str_eq line (bytes "/quit")
          then quit c
          else (if is_empty line then c else puts (bytes "可用命令: /broadcast 文本 或 /quit") c))

  unfoldable pub console_handler : ℕ → Console → Option Console
  console_handler zero c = none
  console_handler (suc fuel) c = elim (c.running && not (is_empty c.input)) [
    | false ↦ some c
    | true ↦
        let (line, rest) = fgets 2047 c.input in
        console_handler fuel (console_line (cut_line (c_str line)) (record c { input = rest }))
  ]

  pub console_handler-line :
      (fuel : ℕ) (line rest : Bytes) (c : Console)
      → IsLine line
      → length line < 2047
      → c.running ≡ true
      → c.input ≡ line ++ (0x0a ∷ rest)
      → console_handler (suc fuel) c
        ≡ console_handler fuel (console_line line (record c { input = rest }))
  unfolding console_handler
  console_handler-line fuel line rest c h fits running typed =
      let more : (c.running && not (is_empty c.input)) ≡ true =
        ap (λ e. c.running && not e) (ap is_empty typed ∙ is_empty-append line rest 0x0a)
        ∙ ap (λ r. r && true) running in
      let got : fgets 2047 c.input ≡ (line ++ (0x0a ∷ []), rest) =
        ap (fgets 2047) typed ∙ fgets-line 2047 line rest (IsLine-ends line h) fits in
      let string : cut_line (c_str (line ++ (0x0a ∷ []))) ≡ line =
        ap cut_line (
          c_str-plain _
            (All-append (λ b. b ≢ 0) line (0x0a ∷ []) (IsLine-IsCString line h) (omega arith, tt)))
        ∙ cut_line-line line [] (IsLine-ends line h) in
      rw (console_handler, more)
        (ap
            (λ (r : Bytes × Bytes).
              console_handler fuel (console_line (cut_line (c_str r.0)) (record c { input = r.1 })))
            got
          ∙ ap (λ l. console_handler fuel (console_line l (record c { input = rest }))) string)
