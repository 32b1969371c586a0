-- ===== src/Server/Tests.antt =====
-- Runs of the server.
use multi_user_chat.Base.{
  strtol, skip_spaces, read_long, read_digits, decimal_value, ◌%◌, ◌≡◌, refl, true, Option, some,
  [], ◌∷◌, ◌++◌, Bytes, bytes, length, replicate, str_eq, contains, arith, c_str, All, none,
  if◌then◌else◌, ◌==◌, ◌⊎◌,
}
use multi_user_chat.Net.{count, done, recv_all}
use multi_user_chat.Protocol.{
  Packet, message_type, fill, recv_packet, from_header, ntohl, htonl, wire_header,
}
use multi_user_chat.Protocol.Wire.{wire}
use multi_user_chat.Crypto.{
  hex_value, hex_pairs, hex_to_bytes, hex_digit, bytes_to_hex, hash_password, verify_password,
  generate_salt_hex,
}
use multi_user_chat.User.{
  user_ok, UserStore, hash_loop, hash_username, valid_username, valid_password, find_in,
  find_user_locked, insert_user_locked, create_user, written, append_user_record, user_store_init,
}
use multi_user_chat.User.Session.{find_fd, add_account, user_store_register, user_store_login}
use multi_user_chat.User.Online.{online, online_in}
use multi_user_chat.User.Invariant
use multi_user_chat.User.Invariant.{
  user_store_init-IsSound, user_store_register-IsSound, user_store_login-IsSound,
}
use multi_user_chat.Group.Store.{group_store_init}
use multi_user_chat.Group.Invariant.{group_store_init-IsValid}
use multi_user_chat.Server.Program.{run, ServerState, ◌>>=◌, World, perform}
use multi_user_chat.Server.Handlers.{process_packet, dispatch, handle_private, forward}
use multi_user_chat.Server.Invariant.{IsSound}
use multi_user_chat.User.Query.{user_store_username_by_fd, user_store_get_fd}
use multi_user_chat.Server.Cleanup.{cleanup_offline_fd}
use multi_user_chat.Server.Sent.{IsSent, Reach-IsSent}
use multi_user_chat.Server.Away.{IsAway}
use multi_user_chat.Net.Sockets.{
  Network, Sockets, open_socket, attempt, create_tcp_server_socket, create_udp_broadcast_sender,
}
use multi_user_chat.Files.{made, ensure_directory, split_last}
use multi_user_chat.User.Load.{fgets_lines, load_users, user_store_load, ensure_storage_parent}
use multi_user_chat.Client.Udp.{udp_thread, broadcast_line}
use multi_user_chat.Server.Console.{Console, console_handler}
use multi_user_chat.Server.Broadcast.{
  typed, Ended, datagrams, broadcasts, console_handler-udp_thread,
}
use multi_user_chat.Server.Startup
use multi_user_chat.Server.Startup.{Main, start_users, start_server}
use multi_user_chat.Server.Started.{Started, start_server-Started, start_server-Reach}
use multi_user_chat.Server.Port.{parse_port}
use multi_user_chat.Server.PortText.{PortText, parse_port_lem}
use multi_user_chat.Server.Leaving.{cleanup_offline_fd_lem}
use multi_user_chat.Server.Threads.{
  Server, Reach, start, next, accepted, received, worked, Reach-IsSound,
}
use multi_user_chat.Server.Total.{Halts, process_packet-Halts}

-- A digest of 32 bytes in place of SHA-256.
abbrev toy_digest : Bytes → Option Bytes
toy_digest bs = some (replicate 32 (length bs % 256))

-- Every call succeeds.
abbrev kind_world : World
kind_world = record {
  sha256 = toy_digest;
  random = λ n. some (replicate 16 7);
  allocated = λ n. true;
  disk = λ n. written;
  outcomes = λ n. count 2000 ∷ count 2000 ∷ [];
}

abbrev ann : Bytes
ann = bytes "ann"

abbrev password : Bytes
password = bytes "secret"

abbrev registered : UserStore
registered =
    (user_store_register toy_digest (some (replicate 16 7)) true written (user_store_init []) ann
      password).1

-- One user, online with descriptor 5.
abbrev one_online : UserStore
one_online = (user_store_login toy_digest registered ann password 5).1

one_online-IsSound : Invariant.IsSound one_online
one_online-IsSound = user_store_login-IsSound toy_digest registered ann password 5 (
    user_store_register-IsSound toy_digest (some (replicate 16 7)) true written (user_store_init [])
      ann password (user_store_init-IsSound []))

abbrev first_state : ServerState
first_state = record { users = one_online; groups = group_store_init; sent = []; clock = 0 }

first_state-IsSound : IsSound first_state
unfolding group_store_init
first_state-IsSound = record {
  users = one_online-IsSound;
  groups = group_store_init-IsValid;
  young = omega arith;
}

unfoldable users_run : Unit {0}
unfolding user_store_register user_store_login add_account hash_password verify_password
    hex_to_bytes hex_pairs hex_value bytes_to_hex hex_digit generate_salt_hex hash_loop
    hash_username valid_username valid_password find_in find_user_locked insert_user_locked
    create_user append_user_record user_store_init str_eq contains
users_run = tt

one_is_online : online one_online ≡ 1
unfolding users_run online_in
one_is_online = refl

-- A text to oneself.
abbrev hello : Packet
hello = record {
  type = 3;
  length = 3;
  sender = fill 32 ann;
  receiver = fill 32 ann;
  payload = fill 1024 (bytes "hi" ++ (0 ∷ []));
}

process_packet-Halts_example : Halts kind_world (process_packet 2 5 hello) first_state
process_packet-Halts_example =
    process_packet-Halts kind_world 2 5 hello first_state one_online-IsSound.indexed
      (omega (arith, one_is_online))

abbrev first_server : Server
first_server = record { state = first_state; threads = [] }

hello_arrives : (recv_packet (count 72 ∷ count 3 ∷ []) (wire hello)).status ≡ done
unfolding recv_packet recv_all wire_header htonl from_header ntohl
hello_arrives = refl

-- The thread of one client reads a packet and makes its first step.
one_thread : (s : Server) × Reach kind_world first_server s × (s.state.clock ≡ 1)
unfolding process_packet dispatch handle_private forward message_type ◌>>=◌ perform recv_packet
    recv_all wire_header htonl from_header ntohl
one_thread = (
  _,
  next
      (next (next start (accepted first_server 5))
        (received _ 0 5 2 (count 72 ∷ count 3 ∷ []) (wire hello) refl hello_arrives))
      (worked _ 0 5 _ _ refl),
  refl,
)

Reach-IsSound_example : IsSound one_thread.0.state
Reach-IsSound_example = Reach-IsSound first_state-IsSound one_thread.1 (omega (arith, one_thread.2))

five_is_ann : user_store_username_by_fd one_online 5 32 ≡ (user_ok, ann)
unfolding users_run user_store_username_by_fd find_fd
five_is_ann = refl

cleanup_offline_fd_lem_example :
    (end : ServerState) × (run kind_world (cleanup_offline_fd 2 5) first_state ≡ some (tt, end))
    × IsAway ann end
cleanup_offline_fd_lem_example =
    cleanup_offline_fd_lem kind_world 2 5 ann first_state one_online-IsSound.indexed
      first_state-IsSound.groups (omega (arith, one_is_online)) five_is_ann

-- Its second step is the call of `send_packet`.
two_steps : (s : Server) × Reach kind_world first_server s
unfolding one_thread users_run user_store_get_fd c_str process_packet dispatch handle_private
    forward message_type ◌>>=◌ perform recv_packet recv_all wire_header htonl from_header ntohl
two_steps = (_, next one_thread.1 (worked _ 0 5 _ _ refl))

Reach-IsSent_example : All IsSent two_steps.0.state.sent
Reach-IsSent_example = Reach-IsSent refl two_steps.1

-- A number with something behind it.
no_port : parse_port (some (bytes "9000x")) 8080 ≡ 8080
unfolding parse_port strtol skip_spaces read_long read_digits
no_port = refl

parse_port_lem_example :
    (parse_port none 8080 ≡ 8080)
    × (((p : PortText (bytes " +9000")) × (parse_port (some (bytes " +9000")) 8080
            ≡ decimal_value 0 p.digits))
        ⊎ ((¬ PortText (bytes " +9000")) × (parse_port (some (bytes " +9000")) 8080 ≡ 8080)))
parse_port_lem_example = parse_port_lem (bytes " +9000") 8080

-- Descriptor 3 for the first socket and 4 for the next, and every call works.
abbrev network : Network
network = record {
  opens = λ i. if i == 0 then some 3 else some 4;
  succeeds = λ i c. true;
  inet_pton = λ ip. none;
}

-- A machine without the directory data, and so without accounts.
abbrev machine : Startup.Host
machine = record {
  found = none;
  mkdir = made;
  found_later = some true;
  mkdir_later = made;
  user_mutex = true;
  group_mutex = true;
  file = [];
  file_opens = true;
  allocated = λ n. true;
  network = network;
}

abbrev standard : Sockets
standard = record { opened = 2 ∷ 1 ∷ 0 ∷ []; calls = []; clock = 0 }

start_server-Started_example :
    Started (2 ∷ 1 ∷ 0 ∷ []) (start_server machine (some (bytes "8080")) none standard)
start_server-Started_example = start_server-Started machine (some (bytes "8080")) none standard

abbrev fresh_main : Main
fresh_main = record {
  users = user_store_init [];
  groups = group_store_init;
  listen_fd = 3;
  udp_fd = 4;
  tcp_port = 9000;
  udp_port = 9001;
}

it_starts : (start_server machine none none standard).0 ≡ some fresh_main
unfolding start_server start_users ensure_directory ensure_storage_parent split_last user_store_load
    load_users fgets_lines create_tcp_server_socket create_udp_broadcast_sender open_socket attempt
    parse_port user_store_init
it_starts = refl

-- Its first client, and the first step of a text from it.
started_thread :
    (s : Server) × Reach kind_world
      (record { state = Startup.first_state fresh_main; threads = [] })
      s
    × (s.state.clock ≡ 1)
unfolding one_thread process_packet dispatch handle_private forward message_type ◌>>=◌ perform
    recv_packet recv_all wire_header htonl from_header ntohl
started_thread = (
  _,
  next
      (next (next start (accepted _ 5))
        (received _ 0 5 2 (count 72 ∷ count 3 ∷ []) (wire hello) refl hello_arrives))
      (worked _ 0 5 _ _ refl),
  refl,
)

start_server-Reach_example : IsSound started_thread.0.state × All IsSent started_thread.0.state.sent
start_server-Reach_example =
    start_server-Reach machine kind_world none none standard fresh_main started_thread.0 it_starts
      started_thread.1 (omega (arith, started_thread.2))

abbrev console : Console
console = record {
  running = true;
  listen_fd = 3;
  udp_fd = 4;
  udp_port = 9001;
  input = typed (bytes "hello" ∷ bytes "bye" ∷ []) [];
  sockets = record standard { opened = 4 ∷ 3 ∷ 2 ∷ 1 ∷ 0 ∷ [] };
  printed = [];
}

console_handler-udp_thread_example :
    (end : Console) × (console_handler network 4 console ≡ some end)
    × Ended (bytes "hello" ∷ bytes "bye" ∷ []) [] console end
    × (udp_thread (datagrams (broadcasts 3 4 9001 (bytes "hello" ∷ bytes "bye" ∷ []))) []
        ≡ broadcast_line (bytes "hello") ∷ broadcast_line (bytes "bye") ∷ [])
console_handler-udp_thread_example =
    console_handler-udp_thread network (bytes "hello" ∷ bytes "bye" ∷ []) [] 4 console
      ((ground arith, omega arith, omega arith), ((ground arith, omega arith, omega arith), tt))
      refl refl (omega arith)
