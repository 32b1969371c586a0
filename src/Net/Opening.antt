-- ===== src/Net/Opening.antt =====
-- common/net_utils.c: what opening a socket leaves open, and which calls it makes.
use multi_user_chat.Base.{
  ℕ, ◌≡◌, refl, sym, subst, append-nil, Option, none, some, List, [], ◌∷◌, Bytes, Bool-cases, inl,
  inr, ap, ◌∙◌, arith, append_assoc,
}
use multi_user_chat.Net.Course.{
  all_done, no_address, succeeded, refused, Following, no_socket, has_socket, Opening, server_calls,
  client_calls, sender_calls, receiver_calls,
}
use multi_user_chat.Net.Sockets.{
  SocketType, SystemCall, close, Sockets, Network, sock_stream, sock_dgram, socket, called, add_fd,
  remove_fd, open_socket, attempt, opened_tcp_server, opened_tcp_client, opened_udp_sender,
  opened_udp_receiver, connect_to, create_tcp_server_socket, connect_tcp_server,
  create_udp_broadcast_sender, create_udp_broadcast_receiver,
}

pub remove_fd-first : (fd : ℕ) (fds : List ℕ) → remove_fd fd (fd ∷ fds) ≡ fds
unfolding remove_fd
remove_fd-first fd fds = ground arith

closed_again :
    (fd : ℕ) (opened before : List ℕ) → opened ≡ fd ∷ before → remove_fd fd opened ≡ before
closed_again fd opened before e = ap (remove_fd fd) e ∙ remove_fd-first fd before

keep_open-Following :
    {net : Network} {address : Option Bytes} (fd : ℕ) (s : Sockets) (opened : List ℕ) (text : Bytes)
    → address ≡ some text
    → s.opened ≡ fd ∷ opened
    → Following net address fd opened [] s (some fd, s)
keep_open-Following fd s opened text known e = record {
  left_open = e;
  made = [];
  course = all_done s.clock text known;
  calls = sym (append-nil s.calls);
}

module _ (net : Network) where
  attempt-Following :
      {address : Option Bytes} (fd : ℕ) (c : SystemCall) (planned : List SystemCall)
      (next : Sockets → Option ℕ × Sockets) (s : Sockets) (opened : List ℕ)
      → s.opened ≡ fd ∷ opened
      → Following net address fd opened planned (called c s) (next (called c s))
      → Following net address fd opened (c ∷ planned) s (attempt net fd c next s)
  unfolding attempt
  attempt-Following fd c planned next s opened e later =
      elim (Bool-cases (net.succeeds s.clock c)) [
        | inl good ↦
            rw (attempt, good)
              (record {
                left_open = later.left_open;
                made = c ∷ later.made;
                course = succeeded s.clock c planned later.made _ good later.course;
                calls = later.calls ∙ append_assoc s.calls (c ∷ []) later.made;
              })
        | inr bad ↦
            rw (attempt, bad)
              (record {
                left_open = closed_again fd s.opened opened e;
                made = c ∷ close fd ∷ [];
                course = refused s.clock c planned bad;
                calls = append_assoc s.calls (c ∷ []) (close fd ∷ []);
              })
      ]

  connect_to-Following :
      (address : Option Bytes) (port fd : ℕ) (s : Sockets) (opened : List ℕ)
      → s.opened ≡ fd ∷ opened
      → Following net address fd opened
          (client_calls address port fd)
          s
          (connect_to net address port fd s)
  connect_to-Following none port fd s opened e = record {
    left_open = closed_again fd s.opened opened e;
    made = close fd ∷ [];
    course = no_address s.clock [] refl;
    calls = refl;
  }
  connect_to-Following (some address) port fd s opened e =
      attempt-Following fd _ [] _ s opened e (keep_open-Following fd _ opened address refl e)

  -- The state behind `socket`.
  abbrev with_socket : SocketType → Option ℕ → Sockets → Sockets
  with_socket type fd s = record (called (socket type) s) { opened = add_fd fd s.opened }

  -- From what follows the `socket` to all of the function.
  after_socket-Opening :
      {address : Option Bytes} (type : SocketType) (planned : ℕ → List SystemCall)
      (next : Option ℕ × Sockets → Option ℕ × Sockets) (s : Sockets) (fd : Option ℕ)
      → net.opens s.clock ≡ fd
      → ((k : Sockets) → next (none, k) ≡ (none, k))
      → ((fd : ℕ)
          → Following net address fd s.opened
              (planned fd)
              (with_socket type (some fd) s)
              (next (some fd, with_socket type (some fd) s)))
      → Opening net address type planned s (next (fd, with_socket type fd s))
  after_socket-Opening type planned next s none e stops goes_on =
      subst (Opening net _ type planned s) (sym (stops (with_socket type none s)))
        (record { left_open = refl; how = no_socket e refl refl })
  after_socket-Opening type planned next s (some fd) e stops goes_on =
      let f = goes_on fd in
      record {
        left_open = f.left_open;
        how =
            has_socket fd f.made e f.course
              (f.calls ∙ append_assoc s.calls (socket type ∷ []) f.made);
      }

  -- Each of `create_tcp_server_socket`, `connect_tcp_server`, `create_udp_broadcast_sender` and
  -- `create_udp_broadcast_receiver` calls `socket` first, and returns none if that gives no
  -- descriptor; with a descriptor it makes the calls planned for that function in order, each only
  -- if those before it succeeded. It returns the descriptor exactly if they all succeed and, for
  -- `connect_tcp_server`, the text is an address; the first that fails, or a text that is none, is
  -- followed by the `close` of the descriptor and nothing more, and none is returned. What is open
  -- afterwards is what was open before, and the descriptor that is returned.
  pub sockets_lem :
      (port backlog : ℕ) (ip : Bytes) (s : Sockets)
      → Opening net
          (some [])
          sock_stream
          (server_calls port backlog)
          s
          (create_tcp_server_socket net port backlog s)
        × Opening net
            (net.inet_pton ip)
            sock_stream
            (client_calls (net.inet_pton ip) port)
            s
            (connect_tcp_server net ip port s)
        × Opening net (some []) sock_dgram sender_calls s (create_udp_broadcast_sender net s)
        × Opening net
            (some [])
            sock_dgram
            (receiver_calls port)
            s
            (create_udp_broadcast_receiver net port s)
  unfolding create_tcp_server_socket connect_tcp_server create_udp_broadcast_sender
      create_udp_broadcast_receiver open_socket
  sockets_lem port backlog ip s =
      let fd = net.opens s.clock in
      (
        after_socket-Opening sock_stream (server_calls port backlog)
            (opened_tcp_server net port backlog) s fd refl (λ k. refl)
            (λ fd. attempt-Following fd _ _ _ _ s.opened refl (
              attempt-Following fd _ _ _ _ s.opened refl (
                attempt-Following fd _ _ _ _ s.opened refl
                  (keep_open-Following fd _ s.opened [] refl refl)))),
        after_socket-Opening sock_stream (client_calls (net.inet_pton ip) port)
            (opened_tcp_client net ip port) s fd refl (λ k. refl)
            (λ fd. connect_to-Following (net.inet_pton ip) port fd _ s.opened refl),
        after_socket-Opening sock_dgram sender_calls (opened_udp_sender net) s fd refl (λ k. refl)
            (λ fd.
              attempt-Following fd _ _ _ _ s.opened refl
                (keep_open-Following fd _ s.opened [] refl refl)),
        after_socket-Opening sock_dgram (receiver_calls port) (opened_udp_receiver net port) s fd
            refl (λ k. refl)
            (λ fd. attempt-Following fd _ _ _ _ s.opened refl (
              attempt-Following fd _ _ _ _ s.opened refl
                (keep_open-Following fd _ s.opened [] refl refl))),
      )
