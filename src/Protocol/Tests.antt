-- ===== src/Protocol/Tests.antt =====
-- Runs of the packet operations.
use multi_user_chat.Base.{
  ℕ, zero, suc, ◌-◌, ◌≡◌, refl, none, some, List, [], ◌∷◌, ◌++◌, Bytes, bytes, get_or, replicate,
  All, c_str, arith,
}
use multi_user_chat.Net.{Outcome, count, failed, done, send_all, recv_all}
use multi_user_chat.Net.Stream.{Works}
use multi_user_chat.Protocol.{
  Packet, fill, copy_fixed_string, packet_init, packet_set_text, htonl, ntohl, wire_header,
  from_header, send_packet, recv_packet,
}
use multi_user_chat.Protocol.Init.{IsPacket, Initialised, packet_set_text-ok}
use multi_user_chat.Protocol.Wire.{wire, send_packet-done, send_packet-prefix}
use multi_user_chat.Protocol.Receive.{recv_packet-IsPacket, recv_packet-send_packet}

abbrev hello : Packet
hello = record {
  type = 3;
  length = 3;
  sender = fill 32 (bytes "ann");
  receiver = fill 32 (bytes "bob");
  payload = fill 1024 (bytes "hi" ++ (0 ∷ []));
}

-- The hypothesis of the theorems about packets holds of a packet.
hello-IsPacket : IsPacket hello
hello-IsPacket = record {
  small = omega arith;
  sender_size = refl;
  receiver_size = refl;
  sender_end = refl;
  receiver_end = refl;
  used = refl;
}

private_hello :
    packet_set_text 3 (some (bytes "ann")) (some (bytes "bob")) (some (bytes "hi")) ≡ some hello
unfolding packet_set_text packet_init copy_fixed_string
private_hello = refl

too_long : packet_init 3 none none none 1025 ≡ none
unfolding packet_init
too_long = refl

works : (n : ℕ) → All Works (replicate n (count 100))
works zero = tt
works (suc n) = (tt, works n)

abbrev enough : List Outcome
enough = replicate 75 (count 100)

two_calls : (send_packet (count 72 ∷ count 3 ∷ []) hello).status ≡ done
unfolding send_packet send_all wire_header htonl
two_calls = refl

received : (recv_packet (count 72 ∷ count 3 ∷ []) (wire hello)).status ≡ done
unfolding recv_packet recv_all wire_header htonl from_header ntohl
received = refl

packet_set_text-ok_example :
    (p : Packet) × (packet_set_text 3 (some (bytes "ann")) none (some (bytes "hi")) ≡ some p)
    × Initialised 3 (some (bytes "ann")) none (some (bytes "hi" ++ (0 ∷ []))) 3 p
    × (c_str p.payload ≡ bytes "hi")
    × (get_or p.payload (p.length - 1) 1 ≡ 0)
packet_set_text-ok_example =
    packet_set_text-ok 3 (some (bytes "ann")) none (bytes "hi") (omega arith)
      (omega arith, (omega arith, tt))

send_packet-done_example : (send_packet (count 72 ∷ count 3 ∷ []) hello).written ≡ wire hello
send_packet-done_example = send_packet-done (count 72 ∷ count 3 ∷ []) hello (omega arith) two_calls

-- The second call fails.
send_packet-prefix_example :
    (rest : Bytes) × ((send_packet (count 72 ∷ failed ∷ []) hello).written ++ rest ≡ wire hello)
send_packet-prefix_example = send_packet-prefix (count 72 ∷ failed ∷ []) hello (omega arith)

recv_packet-IsPacket_example : IsPacket (recv_packet (count 72 ∷ count 3 ∷ []) (wire hello)).packet
recv_packet-IsPacket_example = recv_packet-IsPacket (count 72 ∷ count 3 ∷ []) (wire hello) received

recv_packet-send_packet_example :
    let s = send_packet enough hello in
    let r = recv_packet enough (s.written ++ wire hello) in
    (s.status ≡ done) × (r.status ≡ done) × (r.packet ≡ hello) × (r.stream ≡ wire hello)
recv_packet-send_packet_example =
    recv_packet-send_packet hello enough enough (wire hello) hello-IsPacket (omega arith) (works 75)
      (omega arith) (works 75) (omega arith)
