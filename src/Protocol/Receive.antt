-- ===== src/Protocol/Receive.antt =====
-- common/protocol.c: what `recv_packet` makes of the bytes on the wire.
use multi_user_chat.Base.{
  ℕ, zero, suc, ◌+◌, ◌^◌, ◌≤◌, ◌<◌, ◌≡◌, refl, sym, ap, ◌∙◌, List, [], ◌++◌, Bytes, length, take,
  drop, set, get_or, All, arith, length-append, length-take, length-drop, append_assoc,
  append-injective, length-set, get_or-set_default,
}
use multi_user_chat.Limits.{packet_data_max}
use multi_user_chat.Net.{Outcome, done, Received, recv_all}
use multi_user_chat.Net.Stream.{Works, calls, recv_all-prefix, length-recv_all, recv_all_total}
use multi_user_chat.Protocol.{
  Packet, fill, header_size, wire_header, from_header, send_packet, recv_packet,
}
use multi_user_chat.Protocol.Init.{IsPacket, length-fill, take-fill}
use multi_user_chat.Protocol.Wire.{
  wire, length-wire_header, from_header-wire_header, send_packet-done, send_packet_total,
}

from_header-payload : (h : Bytes) → (from_header h).payload ≡ fill packet_data_max []
unfolding from_header
from_header-payload h = refl

recv_all-zero :
    (os : List Outcome) (stream : Bytes) (n : ℕ)
    → n ≡ 0
    → recv_all os stream n ≡ record { status = done; got = []; stream = stream; later = os }
unfolding recv_all
recv_all-zero os stream zero e = refl
recv_all-zero os stream (suc n) e = absurd (omega arith)

-- The two calls of `recv_all` behind a success of `recv_packet`.
module _ (os : List Outcome) (stream : Bytes) where
  abbrev first_recv : Received
  first_recv = recv_all os stream header_size

  abbrev header_packet : Packet
  header_packet = from_header first_recv.got

  abbrev second_recv : Received
  second_recv = recv_all first_recv.later first_recv.stream header_packet.length

  recv_packet-done :
      (recv_packet os stream).status ≡ done
      → (first_recv.status ≡ done)
        × (header_packet.length ≤ 1024)
        × (second_recv.status ≡ done)
        × ((recv_packet os stream).packet
            ≡ record header_packet { payload = fill packet_data_max second_recv.got })
        × ((recv_packet os stream).stream ≡ second_recv.stream)
  unfolding recv_packet
  recv_packet-done h = ground (
    arith,
    recv_all-zero first_recv.later first_recv.stream header_packet.length,
    from_header-payload first_recv.got,
  )

  recv_packet-ends :
      first_recv.status ≡ done
      → header_packet.length ≤ 1024
      → second_recv.status ≡ done
      → (recv_packet os stream).status ≡ done
  unfolding recv_packet
  recv_packet-ends a b c = ground arith

length-take-payload : (p : Packet) → IsPacket p → length (take p.length p.payload) ≡ p.length
length-take-payload p v =
    let e : length p.payload ≡ length (fill packet_data_max (take p.length p.payload)) =
      ap length v.used in
    omega (
      arith,
      length-take p.length p.payload,
      length-fill packet_data_max (take p.length p.payload)
          (omega (arith, v.small, length-take p.length p.payload)),
    )

-- What `recv_packet` reads from a stream that begins with the wire form of a packet.
module _ (p : Packet) (v : IsPacket p) (t : p.type < 2 ^ 32) (os : List Outcome)
    (rest : Bytes) where
  stream-of : wire p ++ rest ≡ wire_header p ++ (take p.length p.payload ++ rest)
  stream-of = append_assoc (wire_header p) (take p.length p.payload) rest

  header_read :
      (first_recv os (wire p ++ rest)).status ≡ done
      → (header_packet os (wire p ++ rest) ≡ record p { payload = fill packet_data_max [] })
        × ((first_recv os (wire p ++ rest)).stream ≡ take p.length p.payload ++ rest)
  header_read e =
      let h = first_recv os (wire p ++ rest) in
      let whole = recv_all-prefix os (wire p ++ rest) header_size in
      let size = length-recv_all os (wire p ++ rest) header_size e in
      let (got, left) =
        append-injective h.got h.stream (wire_header p) (take p.length p.payload ++ rest)
          (whole ∙ stream-of) (size ∙ sym (length-wire_header p v)) in
      (ap from_header got ∙ from_header-wire_header p v t, left)

  -- A packet that was sent is received unchanged: on success `recv_packet` returns it, and leaves
  -- the stream behind it.
  pub recv_packet-wire :
      (recv_packet os (wire p ++ rest)).status ≡ done
      → ((recv_packet os (wire p ++ rest)).packet ≡ p)
        × ((recv_packet os (wire p ++ rest)).stream ≡ rest)
  recv_packet-wire e =
      let (first, small, second, packet, stream) = recv_packet-done os (wire p ++ rest) e in
      let (header, left) = header_read first in
      let d = second_recv os (wire p ++ rest) in
      let whole =
        recv_all-prefix (first_recv os (wire p ++ rest)).later
          (first_recv os (wire p ++ rest)).stream (header_packet os (wire p ++ rest)).length in
      let size =
        length-recv_all (first_recv os (wire p ++ rest)).later
          (first_recv os (wire p ++ rest)).stream (header_packet os (wire p ++ rest)).length
          second in
      let (got, after) =
        append-injective d.got d.stream (take p.length p.payload) rest (whole ∙ left)
          (size ∙ ap (λ q. q.length) header ∙ sym (length-take-payload p v)) in
      (
        packet
            ∙ (λ i. record (header i) { payload = fill packet_data_max (got i) })
            ∙ ap (λ b. record p { payload = b }) (sym v.used),
        stream ∙ after,
      )

  pub recv_packet-total :
      All Works os → 72 + p.length ≤ calls os → (recv_packet os (wire p ++ rest)).status ≡ done
  recv_packet-total w n =
      let stream = wire p ++ rest in
      let h = first_recv os stream in
      let size : length stream ≡ 72 + p.length + length rest = omega (
        arith,
        length-append (wire p) rest,
        length-append (wire_header p) (take p.length p.payload),
        length-wire_header p v,
        length-take-payload p v,
      ) in
      let (first, works, used) = recv_all_total os stream 72 w (omega arith) (omega arith) in
      let (header, left) = header_read first in
      let len : (header_packet os stream).length ≡ p.length = ap (λ q. q.length) header in
      let (second, _, _) =
        recv_all_total h.later h.stream (header_packet os stream).length works
          (omega (arith, used, len))
          (omega (
            arith,
            len,
            ap length left,
            length-append (take p.length p.payload) rest,
            length-take-payload p v,
          )) in
      recv_packet-ends os stream first (omega (arith, len, v.small)) second

length-name_field :
    (h : Bytes) (k : ℕ) → k + 32 ≤ length h → length (set (take 32 (drop k h)) 31 0) ≡ 32
length-name_field h k l =
    omega (arith, length-set (take 32 (drop k h)) 31 0, length-take 32 (drop k h), length-drop k h)

from_header-sender : (h : Bytes) → (from_header h).sender ≡ set (take 32 (drop 8 h)) 31 0
unfolding from_header
from_header-sender h = refl

from_header-receiver : (h : Bytes) → (from_header h).receiver ≡ set (take 32 (drop 40 h)) 31 0
unfolding from_header
from_header-receiver h = refl

-- Whatever comes from the wire, a packet that `recv_packet` returns is well formed: at most 1024
-- bytes, both names terminated inside their arrays, and the buffer zero behind the received bytes.
pub recv_packet-IsPacket :
    (os : List Outcome) (stream : Bytes)
    → (recv_packet os stream).status ≡ done
    → IsPacket (recv_packet os stream).packet
recv_packet-IsPacket os stream e =
    let (first, small, second, packet, _) = recv_packet-done os stream e in
    let h = first_recv os stream in
    let d = second_recv os stream in
    let size = length-recv_all os stream header_size first in
    let size' = length-recv_all h.later h.stream (header_packet os stream).length second in
    rw packet (record {
      small = small;
      sender_size =
          ap length (from_header-sender h.got) ∙ length-name_field h.got 8 (omega (arith, size));
      receiver_size =
          ap length (from_header-receiver h.got) ∙ length-name_field h.got 40 (omega (arith, size));
      sender_end =
          ap (λ a. get_or a 31 0) (from_header-sender h.got)
          ∙ get_or-set_default (take 32 (drop 8 h.got)) 31 0;
      receiver_end =
          ap (λ a. get_or a 31 0) (from_header-receiver h.got)
          ∙ get_or-set_default (take 32 (drop 40 h.got)) 31 0;
      used = ap (fill packet_data_max) (
          sym (take-fill packet_data_max d.got)
          ∙ ap (λ k. take k (fill packet_data_max d.got)) size');
    })

-- A well-formed packet goes through a connection: where no call fails and one for each byte makes
-- progress, `send_packet` and then `recv_packet` succeed, the receiver has the packet, and what
-- follows in the stream is untouched.
pub recv_packet-send_packet :
    (p : Packet) (os os' : List Outcome) (rest : Bytes)
    → IsPacket p
    → p.type < 2 ^ 32
    → All Works os
    → 72 + p.length ≤ calls os
    → All Works os'
    → 72 + p.length ≤ calls os'
    → let s = send_packet os p in
      let r = recv_packet os' (s.written ++ rest) in
      (s.status ≡ done) × (r.status ≡ done) × (r.packet ≡ p) × (r.stream ≡ rest)
recv_packet-send_packet p os os' rest v t w n w' n' =
    let sent = send_packet_total os p v w n in
    let written = send_packet-done os p v.small sent in
    let received = recv_packet-total p v t os' rest w' n' in
    let (packet, stream) = recv_packet-wire p v t os' rest received in
    rw written (sent, received, packet, stream)
