-- ===== src/Net/Tests.antt =====
-- Runs of the loops around `send` and `recv`.
use multi_user_chat.Base.{◌+◌, ◌≤◌, ◌≡◌, refl, true, none, some, List, [], ◌∷◌, bytes, All, arith}
use multi_user_chat.Net.{Outcome, count, eintr, failed, done, error, blocked, send_all, recv_all}
use multi_user_chat.Net.Sockets.{
  sock_stream, sock_dgram, Network, Sockets, create_tcp_server_socket, connect_tcp_server,
  create_udp_broadcast_sender, create_udp_broadcast_receiver,
}
use multi_user_chat.Net.Course.{Opening, server_calls, client_calls, sender_calls, receiver_calls}
use multi_user_chat.Net.Opening.{sockets_lem}
use multi_user_chat.Net.Stream.{Works, calls, send_all_total}

-- A byte, an interruption, two bytes, and a call that asks for more than is left.
abbrev some_calls : List Outcome
some_calls = count 1 ∷ eintr ∷ count 2 ∷ count 100 ∷ []

send_in_pieces :
    send_all some_calls (bytes "hello")
    ≡ record { status = done; written = bytes "hello"; later = [] }
unfolding send_all
send_in_pieces = refl

send_fails :
    send_all (count 2 ∷ failed ∷ []) (bytes "hello")
    ≡ record { status = error; written = bytes "he"; later = [] }
unfolding send_all
send_fails = refl

-- The peer closes the connection after two bytes.
recv_closed :
    recv_all some_calls (bytes "he") 5
    ≡ record { status = error; got = bytes "he"; stream = []; later = [] }
unfolding recv_all
recv_closed = refl

recv_blocks :
    recv_all (count 1 ∷ []) (bytes "hello") 5
    ≡ record { status = blocked; got = bytes "h"; stream = bytes "ello"; later = [] }
unfolding recv_all
recv_blocks = refl

send_all_total_example :
    let r = send_all some_calls (bytes "ann") in
    (r.status ≡ done) × All Works r.later × (calls some_calls ≤ calls r.later + 3)
send_all_total_example =
    send_all_total some_calls (bytes "ann") (tt, (tt, (tt, (tt, tt)))) (omega arith)

-- Descriptor 7 for each socket, every call works, and only the empty text is no address.
abbrev network : Network
network = record {
  opens = λ i. some 7;
  succeeds = λ i c. true;
  inet_pton = λ ip. elim ip [ [] ↦ none | b ∷ bs ↦ some (127 ∷ 0 ∷ 0 ∷ 1 ∷ []) ];
}

-- Standard input, output and error are open.
abbrev standard : Sockets
standard = record { opened = 2 ∷ 1 ∷ 0 ∷ []; calls = []; clock = 0 }

sockets_lem_example :
    Opening network
      (some [])
      sock_stream
      (server_calls 9000 32)
      standard
      (create_tcp_server_socket network 9000 32 standard)
    × Opening network
        (some (127 ∷ 0 ∷ 0 ∷ 1 ∷ []))
        sock_stream
        (client_calls (some (127 ∷ 0 ∷ 0 ∷ 1 ∷ [])) 9000)
        standard
        (connect_tcp_server network (bytes "127.0.0.1") 9000 standard)
    × Opening network
        (some [])
        sock_dgram
        sender_calls
        standard
        (create_udp_broadcast_sender network standard)
    × Opening network
        (some [])
        sock_dgram
        (receiver_calls 9000)
        standard
        (create_udp_broadcast_receiver network 9000 standard)
sockets_lem_example = sockets_lem network 9000 32 (bytes "127.0.0.1") standard
