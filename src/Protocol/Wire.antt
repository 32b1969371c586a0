-- ===== src/Protocol/Wire.antt =====
-- common/protocol.c: the form of a packet on the wire, and what `send_packet` writes of it.
use multi_user_chat.Base.{
  ℕ, zero, suc, ◌+◌, ◌^◌, ◌≤◌, ◌<◌, ◌≡◌, ◌≢◌, ◌⊎◌, refl, sym, ap, ap₂, ◌∙◌, List, [], ◌∷◌, ◌++◌,
  Bytes, length, take, drop, set, get_or, All, arith, inl, inr, length-append, length-take,
  drop-length-append, take-length-append, append_assoc, append-nil,
}
use multi_user_chat.Limits.{packet_data_max}
use multi_user_chat.Net.{Outcome, done, error, send_all}
use multi_user_chat.Net.Stream.{
  Works, calls, unsent, send_all-prefix, send_all-done, send_all_total,
}
use multi_user_chat.Protocol.{Packet, fill, htonl, ntohl, wire_header, from_header, send_packet}
use multi_user_chat.Protocol.Init.{IsPacket}

-- The form of a packet on the wire.
abbrev pub wire : Packet → Bytes
wire p = wire_header p ++ take p.length p.payload

ntohl-htonl : (n : ℕ) (rest : Bytes) → n < 2 ^ 32 → ntohl (htonl n ++ rest) ≡ n
unfolding ntohl htonl
ntohl-htonl n rest h = omega arith

pub set-get_or : (xs : Bytes) (i v : ℕ) → get_or xs i v ≡ v → set xs i v ≡ xs
set-get_or [] i v h = refl
set-get_or (x ∷ xs) zero v h = ap (λ y. y ∷ xs) (sym h)
set-get_or (x ∷ xs) (suc i) v h = ap (λ r. x ∷ r) (set-get_or xs i v h)

pub length-wire_header : (p : Packet) → IsPacket p → length (wire_header p) ≡ 72
unfolding wire_header htonl
length-wire_header p v =
    omega (arith, length-append p.sender p.receiver, v.sender_size, v.receiver_size)

header-type : (p : Packet) → p.type < 2 ^ 32 → ntohl (wire_header p) ≡ p.type
unfolding wire_header
header-type p t = ntohl-htonl p.type _ t

header-length : (p : Packet) → IsPacket p → ntohl (drop 4 (wire_header p)) ≡ p.length
unfolding wire_header htonl
header-length p v = ntohl-htonl p.length (p.sender ++ p.receiver) (omega arith)

header-sender : (p : Packet) → IsPacket p → set (take 32 (drop 8 (wire_header p))) 31 0 ≡ p.sender
unfolding wire_header htonl
header-sender p v =
    ap (λ a. set a 31 0) (take-length-append p.sender p.receiver 32 (sym v.sender_size))
    ∙ set-get_or p.sender 31 0 v.sender_end

header-receiver :
    (p : Packet) → IsPacket p → set (take 32 (drop 40 (wire_header p))) 31 0 ≡ p.receiver
unfolding wire_header htonl
header-receiver p v =
    ap (λ a. set (take 32 a) 31 0) (drop-length-append p.sender p.receiver 32 (sym v.sender_size))
    ∙ ap (λ a. set a 31 0)
        (ap (take 32) (sym (append-nil p.receiver))
          ∙ take-length-append p.receiver [] 32 (sym v.receiver_size))
    ∙ set-get_or p.receiver 31 0 v.receiver_end

-- A header is read back as it was written.
pub from_header-wire_header :
    (p : Packet)
    → IsPacket p
    → p.type < 2 ^ 32
    → from_header (wire_header p) ≡ record p { payload = fill packet_data_max [] }
unfolding from_header
from_header-wire_header p v t = λ i. record {
  type = header-type p t i;
  length = header-length p v i;
  sender = header-sender p v i;
  receiver = header-receiver p v i;
  payload = fill packet_data_max [];
}

send_all-nil :
    (os : List Outcome) (n : ℕ) (bs : Bytes)
    → n ≡ 0
    → send_all os (take n bs) ≡ record { status = done; written = []; later = os }
unfolding send_all
send_all-nil [] zero bs e = refl
send_all-nil (o ∷ os) zero bs e = refl
send_all-nil os (suc n) bs e = absurd (omega arith)

-- `send_packet` as two calls of `send_all`, the second for an empty payload too.
send_packet-cases :
    (os : List Outcome) (p : Packet)
    → p.length ≤ 1024
    → let r = send_packet os p in
      let h = send_all os (wire_header p) in
      let d = send_all h.later (take p.length p.payload) in
      ((h.status ≢ done) × (r.status ≡ h.status) × (r.written ≡ h.written))
      ⊎ ((h.status ≡ done) × (r.status ≡ d.status) × (r.written ≡ h.written ++ d.written))
unfolding send_packet
send_packet-cases os p small =
    let h = send_all os (wire_header p) in
    ground (arith, append-nil h.written, send_all-nil h.later p.length p.payload)

-- A success of `send_packet` of a packet of at most 1024 bytes has written the packet's whole wire
-- form.
pub send_packet-done :
    (os : List Outcome) (p : Packet)
    → p.length ≤ 1024
    → (send_packet os p).status ≡ done
    → (send_packet os p).written ≡ wire p
send_packet-done os p small e =
    let h = send_all os (wire_header p) in
    let bs = take p.length p.payload in
    let d = send_all h.later bs in
    elim (send_packet-cases os p small) [
      | inl (stopped, status, _) ↦ absurd (stopped (sym status ∙ e))
      | inr (whole, status, written) ↦
          written
          ∙ ap₂ ◌++◌ (send_all-done os (wire_header p) whole)
              (send_all-done h.later bs (sym status ∙ e))
    ]

-- Whatever the calls return, and however `send_packet` of a packet of at most 1024 bytes ends, it
-- has written a beginning of the packet's wire form.
pub send_packet-prefix :
    (os : List Outcome) (p : Packet)
    → p.length ≤ 1024
    → (rest : Bytes) × ((send_packet os p).written ++ rest ≡ wire p)
send_packet-prefix os p small =
    let h = send_all os (wire_header p) in
    let bs = take p.length p.payload in
    let d = send_all h.later bs in
    elim (send_packet-cases os p small) [
      | inl (_, _, written) ↦ (
        unsent os (wire_header p) ++ bs,
        rw written (
            sym (append_assoc h.written (unsent os (wire_header p)) bs)
            ∙ ap (λ k. k ++ bs) (send_all-prefix os (wire_header p))),
      )
      | inr (whole, _, written) ↦ (
        unsent h.later bs,
        rw (written, send_all-done os (wire_header p) whole)
            (append_assoc (wire_header p) d.written (unsent h.later bs)
              ∙ ap (λ k. wire_header p ++ k) (send_all-prefix h.later bs)),
      )
    ]

-- A packet with too many bytes is refused, and nothing is written.
pub send_packet-big :
    (os : List Outcome) (p : Packet)
    → 1024 < p.length
    → ((send_packet os p).status ≡ error) × ((send_packet os p).written ≡ [])
unfolding send_packet
send_packet-big os p h = ground arith

-- `send_packet` succeeds where no call fails and one for each byte makes progress.
pub send_packet_total :
    (os : List Outcome) (p : Packet)
    → IsPacket p
    → All Works os
    → 72 + p.length ≤ calls os
    → (send_packet os p).status ≡ done
send_packet_total os p v w n =
    let bs = take p.length p.payload in
    let (whole, works, used) =
      send_all_total os (wire_header p) w (omega (arith, length-wire_header p v)) in
    let (ends, _, _) =
      send_all_total (send_all os (wire_header p)).later bs works
        (omega (arith, used, length-wire_header p v, length-take p.length p.payload)) in
    elim (send_packet-cases os p v.small) [
      | inl (stopped, _, _) ↦ absurd (stopped whole)
      | inr (_, status, _) ↦ status ∙ ends
    ]
