-- ===== src/Net/Sockets.antt =====
-- common/net_utils.c: the functions that open sockets, and the broadcast. What the system calls
-- return is a parameter; the state has the descriptors that are open and the calls so far.
use multi_user_chat.Base.{
  ℕ, ◌+◌, ◌%◌, ◌^◌, Bool, Option, none, some, List, [], ◌∷◌, ◌++◌, Bytes, ◌==◌, if◌then◌else◌,
  c_str,
}

pub data SocketType : Type 0 where
  sock_stream sock_dgram : SocketType

pub data SocketOption : Type 0 where
  so_reuseaddr so_broadcast : SocketOption

-- The addresses are those of `INADDR_ANY` for `bind`, of the server for `connect`, and of
-- `INADDR_BROADCAST` for `sendto`.
pub data SystemCall : Type 0 where
  socket : SocketType → SystemCall
  setsockopt : ℕ → SocketOption → SystemCall
  bind : ℕ → ℕ → SystemCall
  listen : ℕ → ℕ → SystemCall
  connect : ℕ → Bytes → ℕ → SystemCall
  sendto : ℕ → ℕ → Bytes → SystemCall
  shutdown : ℕ → SystemCall
  close : ℕ → SystemCall

-- The descriptors that are open, the calls so far, the oldest first, and their number.
pub record Sockets : Type 0 where
  pub opened : List ℕ
  pub calls : List SystemCall
  pub clock : ℕ

-- What `socket` returns, whether another call succeeds, and what `inet_pton` makes of a text.
pub record Network : Type 0 where
  pub opens : ℕ → Option ℕ
  pub succeeds : ℕ → SystemCall → Bool
  pub inet_pton : Bytes → Option Bytes

-- `htons((uint16_t)port)`, as the receiver reads it.
abbrev pub sin_port : ℕ → ℕ
sin_port port = port % 2 ^ 16

abbrev pub called : SystemCall → Sockets → Sockets
called c s = record s { calls = s.calls ++ (c ∷ []); clock = s.clock + 1 }

abbrev pub add_fd : Option ℕ → List ℕ → List ℕ
add_fd none fds = fds
add_fd (some fd) fds = fd ∷ fds

unfoldable pub remove_fd : ℕ → List ℕ → List ℕ
remove_fd fd [] = []
remove_fd fd (other ∷ fds) =
    let rest = remove_fd fd fds in if other == fd then fds else other ∷ rest

abbrev pub close_fd : ℕ → Sockets → Sockets
close_fd fd s = record (called (close fd) s) { opened = remove_fd fd s.opened }

-- Where a call fails behind `socket`.
abbrev pub give_up : ℕ → Sockets → Option ℕ × Sockets
give_up fd s = (none, close_fd fd s)

module _ (net : Network) where
  unfoldable pub open_socket : SocketType → Sockets → Option ℕ × Sockets
  open_socket type s =
      let fd = net.opens s.clock in
      (fd, record (called (socket type) s) { opened = add_fd fd s.opened })

  -- A call on an open socket: on success what follows, and else `give_up`.
  unfoldable pub attempt :
      ℕ → SystemCall → (Sockets → Option ℕ × Sockets) → Sockets → Option ℕ × Sockets
  attempt fd c next s =
      if net.succeeds s.clock c then next (called c s) else give_up fd (called c s)

  abbrev pub keep_open : ℕ → Sockets → Option ℕ × Sockets
  keep_open fd s = (some fd, s)

  abbrev pub opened_tcp_server : ℕ → ℕ → Option ℕ × Sockets → Option ℕ × Sockets
  opened_tcp_server port backlog (none, s) = (none, s)
  opened_tcp_server port backlog (some fd, s) =
      attempt fd (setsockopt fd so_reuseaddr)
        (attempt fd (bind fd (sin_port port)) (attempt fd (listen fd backlog) (keep_open fd))) s

  unfoldable pub create_tcp_server_socket : ℕ → ℕ → Sockets → Option ℕ × Sockets
  create_tcp_server_socket port backlog s =
      opened_tcp_server port backlog (open_socket sock_stream s)

  abbrev pub connect_to : Option Bytes → ℕ → ℕ → Sockets → Option ℕ × Sockets
  connect_to none port fd s = give_up fd s
  connect_to (some address) port fd s =
      attempt fd (connect fd address (sin_port port)) (keep_open fd) s

  abbrev pub opened_tcp_client : Bytes → ℕ → Option ℕ × Sockets → Option ℕ × Sockets
  opened_tcp_client ip port (none, s) = (none, s)
  opened_tcp_client ip port (some fd, s) = connect_to (net.inet_pton ip) port fd s

  unfoldable pub connect_tcp_server : Bytes → ℕ → Sockets → Option ℕ × Sockets
  connect_tcp_server ip port s = opened_tcp_client ip port (open_socket sock_stream s)

  abbrev pub opened_udp_sender : Option ℕ × Sockets → Option ℕ × Sockets
  opened_udp_sender (none, s) = (none, s)
  opened_udp_sender (some fd, s) = attempt fd (setsockopt fd so_broadcast) (keep_open fd) s

  unfoldable pub create_udp_broadcast_sender : Sockets → Option ℕ × Sockets
  create_udp_broadcast_sender s = opened_udp_sender (open_socket sock_dgram s)

  abbrev pub opened_udp_receiver : ℕ → Option ℕ × Sockets → Option ℕ × Sockets
  opened_udp_receiver port (none, s) = (none, s)
  opened_udp_receiver port (some fd, s) =
      attempt fd (setsockopt fd so_reuseaddr) (attempt fd (bind fd (sin_port port)) (keep_open fd))
        s

  unfoldable pub create_udp_broadcast_receiver : ℕ → Sockets → Option ℕ × Sockets
  create_udp_broadcast_receiver port s = opened_udp_receiver port (open_socket sock_dgram s)

  -- The result is true for 0.
  unfoldable pub send_udp_broadcast : ℕ → ℕ → Bytes → Sockets → Bool × Sockets
  send_udp_broadcast fd port message s =
      let c = sendto fd (sin_port port) (c_str message) in (net.succeeds s.clock c, called c s)
