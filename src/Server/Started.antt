-- ===== src/Server/Started.antt =====
-- server/server.c: the state in which the server starts, and what follows for all that its threads
-- do.
use multi_user_chat.Base.{
  ℕ, ◌+◌, ◌^◌, ◌≤◌, ◌<◌, ◌≡◌, refl, sym, ap, subst, ◌∙◌, Bool, true, false, not, ◌||◌, Option, none,
  some, List, [], ◌∷◌, ◌++◌, Bytes, bytes, if◌then◌else◌, All, append_assoc, Bool-cases, inl, inr,
  arith,
}
use multi_user_chat.Net.Sockets.{
  Sockets, add_fd, remove_fd, create_tcp_server_socket, create_udp_broadcast_sender,
}
use multi_user_chat.Net.Opening.{sockets_lem, remove_fd-first}
use multi_user_chat.Files.{ensure_directory}
use multi_user_chat.User.{UserResult, UserStore, user_store_init, is_ok}
use multi_user_chat.User.Invariant
use multi_user_chat.User.Invariant.{user_store_init-IsSound}
use multi_user_chat.User.Reload.{user_store_load-IsSound}
use multi_user_chat.Group.Store.{group_store_init}
use multi_user_chat.Group.Invariant.{group_store_init-IsValid}
use multi_user_chat.Server.Program.{World}
use multi_user_chat.Server.Port.{parse_port, parse_port_bounds}
use multi_user_chat.Server.Invariant.{IsSound}
use multi_user_chat.Server.Threads.{Server, Reach, Reach-IsSound}
use multi_user_chat.Server.Sent.{IsSent, Reach-IsSent}
use multi_user_chat.Server.Startup.{
  Host, Main, default_tcp_port, default_udp_port, listen_backlog, loaded, start_users, start_sender,
  start_sockets, start_stores, start_server, Accept, connection, closed, other_error, Acceptor,
  accepted, dropped, accept_loop, first_state,
}

abbrev pub IsPort : ℕ → Type 0
IsPort port = (0 < port) × (port ≤ 65535)

-- A failure leaves no descriptor open; a server that starts has two more, valid ports, and sound
-- stores.
abbrev pub Started : List ℕ → Option Main × Sockets → Type 0
Started opened (none, s) = s.opened ≡ opened
Started opened (some main, s) =
    (s.opened ≡ main.udp_fd ∷ main.listen_fd ∷ opened)
    × IsPort main.tcp_port
    × IsPort main.udp_port
    × IsSound (first_state main)

parse_port-IsPort :
    (text : Option Bytes) (fallback : ℕ) → IsPort fallback → IsPort (parse_port text fallback)
parse_port-IsPort text fallback h = elim (parse_port_bounds text fallback) [
  | inl e ↦ subst IsPort (sym e) h
  | inr k ↦ k
]

first_state-IsSound :
    (users : UserStore)
    → Invariant.IsSound users
    → IsSound (record { users = users; groups = group_store_init; sent = []; clock = 0 })
unfolding group_store_init
first_state-IsSound users v = record {
  users = v;
  groups = group_store_init-IsValid;
  young = omega arith;
}

-- What `start_users` gives is sound.
abbrev SoundUsers : Option UserStore → Type 0
SoundUsers none = Unit
SoundUsers (some users) = Invariant.IsSound users

loaded-SoundUsers : (r : UserResult × UserStore) → Invariant.IsSound r.1 → SoundUsers (loaded r)
loaded-SoundUsers (rc, users) v = elim (Bool-cases (is_ok rc)) [
  | inl good ↦ rw good v
  | inr bad ↦ rw bad tt
]

if-Started :
    (b : Bool) (opened : List ℕ) (s : Sockets) (r : Option Main × Sockets)
    → s.opened ≡ opened
    → Started opened r
    → Started opened (if not b then (none, s) else r)
if-Started true opened s r e h = h
if-Started false opened s r e h = e

module _ (host : Host) where
  start_users-SoundUsers : SoundUsers (start_users host)
  unfolding start_users
  start_users-SoundUsers =
      elim (Bool-cases
        (not (ensure_directory host.found host.mkdir (bytes "data")) || not host.user_mutex)) [
          | inl bad ↦ rw (start_users, bad) tt
          | inr good ↦
              rw (start_users, good)
                (loaded-SoundUsers _ (
                  user_store_load-IsSound _ host.file_opens host.allocated
                    (user_store_init host.file) (user_store_init-IsSound host.file)))
        ]

  start_sender-Started :
      (users : UserStore) (listen tcp udp : ℕ) (opened : List ℕ) (r : Option ℕ × Sockets)
      → Invariant.IsSound users
      → IsPort tcp
      → IsPort udp
      → r.1.opened ≡ add_fd r.0 (listen ∷ opened)
      → Started opened (start_sender users listen tcp udp r)
  start_sender-Started users listen tcp udp opened (none, s) v t u e =
      ap (remove_fd listen) e ∙ remove_fd-first listen opened
  start_sender-Started users listen tcp udp opened (some fd, s) v t u e =
      (e, t, u, first_state-IsSound users v)

  start_sockets-Started :
      (users : UserStore) (tcp udp : ℕ) (opened : List ℕ) (r : Option ℕ × Sockets)
      → Invariant.IsSound users
      → IsPort tcp
      → IsPort udp
      → r.1.opened ≡ add_fd r.0 opened
      → Started opened (start_sockets host users tcp udp r)
  start_sockets-Started users tcp udp opened (none, s) v t u e = e
  start_sockets-Started users tcp udp opened (some fd, s) v t u e =
      let sender = sockets_lem host.network udp listen_backlog [] s in
      start_sender-Started users fd tcp udp opened (create_udp_broadcast_sender host.network s) v t
        u (sender.2.left_open ∙ ap (add_fd (create_udp_broadcast_sender host.network s).0) e)

  start_stores-Started :
      (users : Option UserStore) (tcp udp : ℕ) (s : Sockets)
      → SoundUsers users
      → IsPort tcp
      → IsPort udp
      → Started s.opened (start_stores host users tcp udp s)
  start_stores-Started none tcp udp s v t u = refl
  start_stores-Started (some users) tcp udp s v t u =
      if-Started host.group_mutex s.opened s _ refl (
        start_sockets-Started users tcp udp s.opened
          (create_tcp_server_socket host.network tcp listen_backlog s) v t u
          (sockets_lem host.network tcp listen_backlog [] s).0.left_open)

  -- Where `main` exits before its loop, at whichever step, it leaves no descriptor open; where it
  -- gets to the loop, the two sockets are open, both ports are from 1 to 65535, whatever the
  -- arguments, and the shared state is sound, whatever the storage file holds.
  pub start_server-Started :
      (tcp udp : Option Bytes) (s : Sockets) → Started s.opened (start_server host tcp udp s)
  unfolding start_server
  start_server-Started tcp udp s =
      start_stores-Started (start_users host) (parse_port tcp default_tcp_port)
        (parse_port udp default_udp_port) s start_users-SoundUsers
        (parse_port-IsPort tcp default_tcp_port (omega arith, omega arith))
        (parse_port-IsPort udp default_udp_port (omega arith, omega arith))

  Started-IsSound :
      (opened : List ℕ) (r : Option Main × Sockets) (main : Main)
      → Started opened r
      → r.0 ≡ some main
      → IsSound (first_state main)
  Started-IsSound opened (none, s) main v e = absurd (cc)
  Started-IsSound opened (some m, s) main v e =
      let same : m ≡ main = cc in subst (λ m. IsSound (first_state m)) same v.3

  -- Where `main` gets to its loop, on whatever storage file, and with no threads at first: every
  -- state that the threads of the clients reach, in whatever order their steps come and as long as
  -- the clock is below 2 ^ 32 - 1, is sound, and every `send_packet` so far was of a well-formed
  -- packet and wrote a beginning of its wire form, the whole of it if it succeeded.
  pub start_server-Reach :
      (world : World) (tcp udp : Option Bytes) (s : Sockets) (main : Main) (server : Server)
      → (start_server host tcp udp s).0 ≡ some main
      → Reach world (record { state = first_state main; threads = [] }) server
      → server.state.clock + 1 < 2 ^ 32
      → IsSound server.state × All IsSent server.state.sent
  start_server-Reach world tcp udp s main server e r young = (
    Reach-IsSound (Started-IsSound s.opened _ main (start_server-Started tcp udp s) e) r young,
    Reach-IsSent refl r,
  )

-- The connections that are given to a thread, the latest first.
abbrev pub handed : List Accept → List ℕ
handed [] = []
handed (closed ∷ rounds) = []
handed (other_error ∷ rounds) = handed rounds
handed (connection fd true true ∷ rounds) = handed rounds ++ (fd ∷ [])
handed (connection fd _ _ ∷ rounds) = handed rounds

-- The threads and the open descriptors that the loop adds.
record Handed (fds : List ℕ) (a b : Acceptor) : Type 0 where
  pub threads : b.threads ≡ fds ++ a.threads
  pub opened : b.sockets.opened ≡ fds ++ a.sockets.opened

Handed-dropped :
    (fds : List ℕ) (fd : ℕ) (a b : Acceptor)
    → Handed fds (dropped fd (accepted fd a)) b
    → Handed fds a b
Handed-dropped fds fd a b h = record {
  threads = h.threads;
  opened = h.opened ∙ ap (λ (o : List ℕ). fds ++ o) (remove_fd-first fd a.sockets.opened);
}

-- Every connection is given to a thread and stays open, or is closed again.
accept_loop-Handed :
    (rounds : List Accept) (a : Acceptor) → Handed (handed rounds) a (accept_loop rounds a)
unfolding accept_loop
accept_loop-Handed [] a = record { threads = refl; opened = refl }
accept_loop-Handed (closed ∷ rounds) a = record { threads = refl; opened = refl }
accept_loop-Handed (other_error ∷ rounds) a = accept_loop-Handed rounds a
accept_loop-Handed (connection fd true true ∷ rounds) a =
    let h = accept_loop-Handed rounds (record (accepted fd a) { threads = fd ∷ a.threads }) in
    record {
      threads = h.threads ∙ sym (append_assoc (handed rounds) (fd ∷ []) a.threads);
      opened = h.opened ∙ sym (append_assoc (handed rounds) (fd ∷ []) a.sockets.opened);
    }
accept_loop-Handed (connection fd true false ∷ rounds) a =
    Handed-dropped (handed rounds) fd a _ (accept_loop-Handed rounds (dropped fd (accepted fd a)))
accept_loop-Handed (connection fd false started ∷ rounds) a =
    Handed-dropped (handed rounds) fd a _ (accept_loop-Handed rounds (dropped fd (accepted fd a)))
