-- ===== src/Server/Broadcast.antt =====
-- server/server.c and client/client.c: the commands of the console, from the keyboard of the
-- server to the screens of the clients.
use multi_user_chat.Base.{
  ℕ, zero, suc, ◌+◌, ◌≤◌, ◌<◌, ◌≡◌, refl, sym, ap, ap₂, ◌∙◌, Bool, true, false, not, ◌&&◌, some,
  List, [], ◌∷◌, ◌++◌, map, Bytes, bytes, length, take, drop, str_eq, c_str, c_str-plain, fgets,
  cut_line, IsLine, IsLine-IsCString, All, All-append, Bool-cases, inl, inr, arith, is_empty,
  take-all, append_assoc, append-nil,
}
use multi_user_chat.Net.Sockets.{
  Network, Sockets, SystemCall, sendto, shutdown, close, called, sin_port, remove_fd,
  send_udp_broadcast,
}
use multi_user_chat.Client.Udp.{Datagram, message, udp_thread, broadcast_line}
use multi_user_chat.Server.Console.{
  Console, broadcast_command, broadcast_sent, quit, broadcast, console_line, console_handler,
  console_handler-line,
}

-- A message that fills no datagram beyond what a client reads.
abbrev pub IsMessage : Bytes → Type 0
IsMessage text = IsLine text × (0 < length text) × (length text ≤ 1024)

-- The input of the console: a command for each message, and then /quit.
abbrev pub typed : List Bytes → Bytes → Bytes
typed [] rest = bytes "/quit" ++ (0x0a ∷ rest)
typed (text ∷ texts) rest = (broadcast_command ++ text) ++ (0x0a ∷ typed texts rest)

-- The calls of the console for them.
abbrev pub broadcasts : ℕ → ℕ → ℕ → List Bytes → List SystemCall
broadcasts listen_fd udp_fd port [] = shutdown listen_fd ∷ close listen_fd ∷ []
broadcasts listen_fd udp_fd port (text ∷ texts) =
    sendto udp_fd (sin_port port) text ∷ broadcasts listen_fd udp_fd port texts

-- What a command for a message changes: one call is made, and the line is read.
record Broadcasted (text : Bytes) (c d : Console) : Type 0 where
  pub running : d.running ≡ c.running
  pub listen_fd : d.listen_fd ≡ c.listen_fd
  pub udp_fd : d.udp_fd ≡ c.udp_fd
  pub udp_port : d.udp_port ≡ c.udp_port
  pub input : d.input ≡ c.input
  pub opened : d.sockets.opened ≡ c.sockets.opened
  pub calls : d.sockets.calls ≡ c.sockets.calls ++ (sendto c.udp_fd (sin_port c.udp_port) text ∷ [])

broadcasts-Broadcasted :
    {text : Bytes} {c d : Console} (texts : List Bytes)
    → Broadcasted text c d
    → broadcasts d.listen_fd d.udp_fd d.udp_port texts
      ≡ broadcasts c.listen_fd c.udp_fd c.udp_port texts
broadcasts-Broadcasted {text} {c} {d} texts b =
    ap (λ n. broadcasts n d.udp_fd d.udp_port texts) b.listen_fd
    ∙ ap₂ (λ m n. broadcasts c.listen_fd m n texts) b.udp_fd b.udp_port

-- How the console ends: closed by /quit, behind the calls for the messages.
pub record Ended (texts : List Bytes) (rest : Bytes) (c end : Console) : Type 0 where
  pub stopped : end.running ≡ false
  pub unread : end.input ≡ rest
  pub left_open : end.sockets.opened ≡ remove_fd c.listen_fd c.sockets.opened
  pub calls :
      end.sockets.calls ≡ c.sockets.calls ++ broadcasts c.listen_fd c.udp_fd c.udp_port texts

-- The datagrams among the calls.
abbrev pub datagrams : List SystemCall → List Datagram
datagrams [] = []
datagrams (sendto fd port text ∷ calls) = message text ∷ datagrams calls
datagrams (c ∷ calls) = datagrams calls

datagrams-broadcasts :
    (listen_fd udp_fd port : ℕ) (texts : List Bytes)
    → datagrams (broadcasts listen_fd udp_fd port texts) ≡ map message texts
datagrams-broadcasts listen_fd udp_fd port [] = refl
datagrams-broadcasts listen_fd udp_fd port (text ∷ texts) =
    ap (λ ds. message text ∷ ds) (datagrams-broadcasts listen_fd udp_fd port texts)

-- What a client prints of them.
udp_thread-message :
    (texts : List Bytes) (printed : List Bytes)
    → All IsMessage texts
    → udp_thread (map message texts) printed ≡ printed ++ map broadcast_line texts
unfolding udp_thread
udp_thread-message [] printed h = sym (append-nil printed)
udp_thread-message (text ∷ texts) printed h =
    let (line, some_byte, small) = h.0 in
    let whole : c_str (take 1024 text) ≡ text =
      ap c_str (take-all 1024 text small) ∙ c_str-plain text (IsLine-IsCString text line) in
    ap (λ t. udp_thread (map message texts) (printed ++ (broadcast_line t ∷ []))) whole
    ∙ udp_thread-message texts (printed ++ (broadcast_line text ∷ [])) h.1
    ∙ append_assoc printed (broadcast_line text ∷ []) (map broadcast_line texts)

sent-Broadcasted :
    (text : Bytes) (sent : Bool) (s : Sockets) (c : Console)
    → s.opened ≡ c.sockets.opened
    → s.calls ≡ c.sockets.calls ++ (sendto c.udp_fd (sin_port c.udp_port) text ∷ [])
    → Broadcasted text c (broadcast_sent text sent (record c { sockets = s }))
sent-Broadcasted text true s c o k = record {
  running = refl;
  listen_fd = refl;
  udp_fd = refl;
  udp_port = refl;
  input = refl;
  opened = o;
  calls = k;
}
sent-Broadcasted text false s c o k = record {
  running = refl;
  listen_fd = refl;
  udp_fd = refl;
  udp_port = refl;
  input = refl;
  opened = o;
  calls = k;
}

broadcast_sent-input :
    (text : Bytes) (sent : Bool) (c : Console) → (broadcast_sent text sent c).input ≡ c.input
broadcast_sent-input text true c = refl
broadcast_sent-input text false c = refl

fgets-shrinks : (room b : ℕ) (bs : Bytes) → length (fgets (suc room) (b ∷ bs)).1 ≤ length bs
unfolding fgets
fgets-shrinks zero b bs = ground arith
fgets-shrinks (suc room) b [] = ground arith
fgets-shrinks (suc room) b (c ∷ bs) = ground (arith, fgets-shrinks room c bs)

command-IsLine : (text : Bytes) → IsLine text → IsLine (broadcast_command ++ text)
command-IsLine text h = All-append _ broadcast_command text (ground arith) h

fgets-shorter : (bs : Bytes) → is_empty bs ≡ false → length (fgets 2047 bs).1 < length bs
fgets-shorter [] h = absurd (ground arith)
fgets-shorter (b ∷ bs) h = omega (arith, fgets-shrinks 2046 b bs)

and_not : (a b : Bool) → (a && not b) ≡ true → b ≡ false
and_not a b h = ground arith

module _ (net : Network) where
  broadcast-input : (text : Bytes) (c : Console) → (broadcast net text c).input ≡ c.input
  unfolding broadcast
  broadcast-input [] c = refl
  broadcast-input (b ∷ text) c =
      broadcast_sent-input (b ∷ text)
        (send_udp_broadcast net c.udp_fd c.udp_port (b ∷ text) c.sockets).0 _

  console_line-input : (line : Bytes) (c : Console) → (console_line net line c).input ≡ c.input
  unfolding console_line
  console_line-input line c = elim (Bool-cases (str_eq (take 11 line) broadcast_command)) [
    | inl e ↦ rw (console_line, e) (broadcast-input (drop 11 line) c)
    | inr e ↦ elim (Bool-cases (str_eq line (bytes "/quit"))) [
      | inl q ↦ rw (console_line, e, q) refl
      | inr q ↦ elim (Bool-cases (is_empty line)) [
        | inl n ↦ rw (console_line, e, q, n) refl
        | inr n ↦ rw (console_line, e, q, n) refl
      ]
    ]
  ]

  -- The console of any input is closed by the end of the input at the latest.
  console_handler-Ends :
      (fuel : ℕ) (c : Console)
      → length c.input < fuel
      → (end : Console) × (console_handler net fuel c ≡ some end)
  unfolding console_handler
  console_handler-Ends zero c few = absurd (omega (arith, few))
  console_handler-Ends (suc fuel) c few = elim (Bool-cases (c.running && not (is_empty c.input))) [
    | inr over ↦ (c, rw (console_handler, over) refl)
    | inl more ↦
        let (line, rest) = fgets 2047 c.input in
        let next = console_line net (cut_line (c_str line)) (record c { input = rest }) in
        let unread : next.input ≡ rest = console_line-input (cut_line (c_str line)) _ in
        let shorter = fgets-shorter c.input (and_not c.running (is_empty c.input) more) in
        let (end, e) =
          console_handler-Ends fuel next (omega (arith, few, shorter, ap length unread)) in
        (end, rw (console_handler, more) e)
  ]

  broadcast-Broadcasted :
      (text : Bytes) (c : Console) → IsMessage text → Broadcasted text c (broadcast net text c)
  unfolding broadcast send_udp_broadcast
  broadcast-Broadcasted [] c h = absurd (omega (arith, h.1))
  broadcast-Broadcasted (b ∷ text) c h =
      let string : c_str (b ∷ text) ≡ b ∷ text =
        c_str-plain (b ∷ text) (IsLine-IsCString (b ∷ text) h.0) in
      sent-Broadcasted (b ∷ text) _
        (called (sendto c.udp_fd (sin_port c.udp_port) (c_str (b ∷ text))) c.sockets) c refl
        (ap (λ t. c.sockets.calls ++ (sendto c.udp_fd (sin_port c.udp_port) t ∷ [])) string)

  console_line-text :
      (text : Bytes) (c : Console)
      → console_line net (broadcast_command ++ text) c ≡ broadcast net text c
  unfolding console_line str_eq
  console_line-text text c = refl

  console_line-quit : (c : Console) → console_line net (bytes "/quit") c ≡ quit c
  unfolding console_line str_eq
  console_line-quit c = refl

  console_handler-quit :
      (fuel : ℕ) (c : Console) → console_handler net (suc fuel) (quit c) ≡ some (quit c)
  unfolding console_handler
  console_handler-quit fuel c = refl

  console_handler-typed :
      (texts : List Bytes) (rest : Bytes) (fuel : ℕ) (c : Console)
      → All IsMessage texts
      → c.running ≡ true
      → c.input ≡ typed texts rest
      → length texts + 1 < fuel
      → (end : Console) × (console_handler net fuel c ≡ some end) × Ended texts rest c end
  console_handler-typed texts rest zero c h running e few = absurd (omega (arith, few))
  console_handler-typed [] rest (suc zero) c h running e few = absurd (omega (arith, few))
  console_handler-typed [] rest (suc (suc fuel)) c h running e few =
      let c1 = record c { input = rest } in
      (
        quit c1,
        console_handler-line net (suc fuel) (bytes "/quit") rest c (ground arith) (omega arith)
              running e
            ∙ ap (console_handler net (suc fuel)) (console_line-quit c1)
            ∙ console_handler-quit fuel c1,
        record {
          stopped = refl;
          unread = refl;
          left_open = refl;
          calls = append_assoc c.sockets.calls (shutdown c.listen_fd ∷ []) (close c.listen_fd ∷ []);
        },
      )
  console_handler-typed (text ∷ texts) rest (suc fuel) c h running e few =
      let c1 = record c { input = typed texts rest } in
      let b = broadcast-Broadcasted text c1 h.0 in
      let round =
        console_handler-line net fuel (broadcast_command ++ text) (typed texts rest) c
          (command-IsLine text h.0.0) (omega (arith, h.0.2)) running e in
      let (end, runs, ended) =
        console_handler-typed texts rest fuel (broadcast net text c1) h.1 (b.running ∙ running)
          b.input (omega (arith, few)) in
      (
        end,
        round ∙ ap (console_handler net fuel) (console_line-text text c1) ∙ runs,
        record {
          stopped = ended.stopped;
          unread = ended.unread;
          left_open = ended.left_open ∙ ap₂ remove_fd b.listen_fd b.opened;
          calls =
              ended.calls
              ∙ ap₂ (λ (x y : List SystemCall). x ++ y) b.calls (broadcasts-Broadcasted texts b)
              ∙ append_assoc c.sockets.calls _ _;
        },
      )

  -- Where the running console reads a /broadcast command for each text, each of 1 to 1024 bytes
  -- with no line end and no NUL, and then /quit, and the fuel is more than their number and one:
  -- it ends, no longer running, having passed each text in order to a `sendto` for the port and
  -- then shut down and closed the listening socket, with the rest of the input unread; and
  -- `udp_thread` prints of those datagrams each text, in order.
  pub console_handler-udp_thread :
      (texts : List Bytes) (rest : Bytes) (fuel : ℕ) (c : Console)
      → All IsMessage texts
      → c.running ≡ true
      → c.input ≡ typed texts rest
      → length texts + 1 < fuel
      → (end : Console) × (console_handler net fuel c ≡ some end)
        × Ended texts rest c end
        × (udp_thread (datagrams (broadcasts c.listen_fd c.udp_fd c.udp_port texts)) []
            ≡ map broadcast_line texts)
  console_handler-udp_thread texts rest fuel c h running e few =
      let (end, runs, ended) = console_handler-typed texts rest fuel c h running e few in
      (
        end,
        runs,
        ended,
        ap (λ ds. udp_thread ds []) (datagrams-broadcasts c.listen_fd c.udp_fd c.udp_port texts)
            ∙ udp_thread-message texts [] h,
      )
