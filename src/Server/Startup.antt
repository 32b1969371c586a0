-- ===== src/Server/Startup.antt =====
-- server/server.c: `main`, from its arguments to the loop that accepts connections. What the system
-- answers is a parameter; the descriptors that are open are part of the state of the sockets.
use multi_user_chat.Base.{
  ℕ, Bool, not, ◌&&◌, ◌||◌, Option, none, some, List, [], ◌∷◌, Bytes, bytes, if◌then◌else◌,
}
use multi_user_chat.Net.Sockets.{
  Network, Sockets, close_fd, create_tcp_server_socket, create_udp_broadcast_sender,
}
use multi_user_chat.Files.{Mkdir, ensure_directory}
use multi_user_chat.User.{UserResult, UserStore, user_store_init, user_store_destroy, is_ok}
use multi_user_chat.User.Load.{ensure_storage_parent, user_store_load}
use multi_user_chat.Group.Store.{GroupStore, group_store_init, group_store_destroy}
use multi_user_chat.Server.Program.{ServerState}
use multi_user_chat.Server.Port.{parse_port}

abbrev pub default_tcp_port : ℕ
default_tcp_port = 9000

abbrev pub default_udp_port : ℕ
default_udp_port = 9001

abbrev pub listen_backlog : ℕ
listen_backlog = 32

-- What `stat` and `mkdir` give for the directory data, in `main` and again in `user_store_load`;
-- whether the two `pthread_mutex_init` succeed; the storage file, whether it opens, and the
-- `calloc` of each of its lines; and the system calls of the sockets.
pub record Host : Type 0 where
  pub found : Option Bool
  pub mkdir : Mkdir
  pub found_later : Option Bool
  pub mkdir_later : Mkdir
  pub user_mutex : Bool
  pub group_mutex : Bool
  pub file : Bytes
  pub file_opens : Bool
  pub allocated : ℕ → Bool
  pub network : Network

-- The server in front of its loop.
pub record Main : Type 0 where
  pub users : UserStore
  pub groups : GroupStore
  pub listen_fd : ℕ
  pub udp_fd : ℕ
  pub tcp_port : ℕ
  pub udp_port : ℕ

abbrev pub loaded : UserResult × UserStore → Option UserStore
loaded (rc, users) = if is_ok rc then some users else none

unfoldable pub start_users : Host → Option UserStore
start_users host =
    if not (ensure_directory host.found host.mkdir (bytes "data")) || not host.user_mutex
    then none
    else loaded (
        user_store_load
          (ensure_storage_parent host.found_later host.mkdir_later (bytes "data/users.db"))
          host.file_opens host.allocated (user_store_init host.file))

abbrev pub start_sender : UserStore → ℕ → ℕ → ℕ → Option ℕ × Sockets → Option Main × Sockets
start_sender users listen_fd tcp_port udp_port (none, s) = (none, close_fd listen_fd s)
start_sender users listen_fd tcp_port udp_port (some udp_fd, s) = (
  some (record {
    users = users;
    groups = group_store_init;
    listen_fd = listen_fd;
    udp_fd = udp_fd;
    tcp_port = tcp_port;
    udp_port = udp_port;
  }),
  s,
)

module _ (host : Host) where
  abbrev pub start_sockets : UserStore → ℕ → ℕ → Option ℕ × Sockets → Option Main × Sockets
  start_sockets users tcp_port udp_port (none, s) = (none, s)
  start_sockets users tcp_port udp_port (some listen_fd, s) =
      start_sender users listen_fd tcp_port udp_port (create_udp_broadcast_sender host.network s)

  abbrev pub start_stores : Option UserStore → ℕ → ℕ → Sockets → Option Main × Sockets
  start_stores none tcp_port udp_port s = (none, s)
  start_stores (some users) tcp_port udp_port s =
      if not host.group_mutex
      then (none, s)
      else start_sockets users tcp_port udp_port
          (create_tcp_server_socket host.network tcp_port listen_backlog s)

  -- `main` up to the console; `none` is an exit with 1. The arguments may be missing, and
  -- `parse_port` gives the default for one that is.
  unfoldable pub start_server : Option Bytes → Option Bytes → Sockets → Option Main × Sockets
  start_server tcp_port udp_port s =
      start_stores (start_users host) (parse_port tcp_port default_tcp_port)
        (parse_port udp_port default_udp_port) s

-- What one round of the loop meets: a connection, with whether `calloc` and `pthread_create`
-- succeed; EBADF, EINVAL or a server that stops; or any other error.
pub data Accept : Type 0 where
  connection : ℕ → Bool → Bool → Accept
  closed other_error : Accept

-- The descriptors of the threads that were started, the latest first.
pub record Acceptor : Type 0 where
  pub threads : List ℕ
  pub sockets : Sockets

abbrev pub accepted : ℕ → Acceptor → Acceptor
accepted fd a = record a { sockets = record a.sockets { opened = fd ∷ a.sockets.opened } }

abbrev pub dropped : ℕ → Acceptor → Acceptor
dropped fd a = record a { sockets = close_fd fd a.sockets }

-- The loop of `main`, until `running` is cleared, which is where the list ends.
unfoldable pub accept_loop : List Accept → Acceptor → Acceptor
accept_loop [] a = a
accept_loop (closed ∷ rounds) a = a
accept_loop (other_error ∷ rounds) a = accept_loop rounds a
accept_loop (connection fd allocated started ∷ rounds) a = accept_loop rounds (
    if allocated && started
    then record (accepted fd a) { threads = fd ∷ a.threads }
    else dropped fd (accepted fd a))

-- `main` behind its loop, for what the stores are by then.
unfoldable pub finish : ℕ → UserStore → GroupStore → Sockets → UserStore × GroupStore × Sockets
finish udp_fd users groups s =
    ((user_store_destroy users).1, (group_store_destroy groups).1, close_fd udp_fd s)

-- The state that the threads share when the loop begins.
abbrev pub first_state : Main → ServerState
first_state main = record { users = main.users; groups = main.groups; sent = []; clock = 0 }
