-- ===== src/Protocol/Made.antt =====
-- common/protocol.c: whatever packet is made is well formed.
use multi_user_chat.Base.{
  ℕ, ◌≤◌, ◌<◌, ◌≡◌, ◌⊎◌, Option, none, some, [], ◌∷◌, Bytes, length-append, ltb, arith, subst,
  Bool-cases, inl, inr,
}
use multi_user_chat.Protocol.{Packet, packet_init, packet_set_text, text_buffer, text_length}
use multi_user_chat.Protocol.Init.{IsPacket, HasBytes, packet_init-ok, packet_init-big}

le_or_lt : (a b : ℕ) → (a ≤ b) ⊎ (b < a)
le_or_lt a b = elim (Bool-cases (ltb b a)) [
  | inl above ↦ inr (ground arith)
  | inr within ↦ inl (ground arith)
]

pub packet_init-IsPacket :
    (type : ℕ) (sender receiver buffer : Option Bytes) (len : ℕ) (p : Packet)
    → HasBytes buffer len
    → packet_init type sender receiver buffer len ≡ some p
    → IsPacket p
packet_init-IsPacket type sender receiver buffer len p b made = elim (le_or_lt len 1024) [
  | inl small ↦
      let (q, e, i) = packet_init-ok type sender receiver buffer len small b in
      let same : q ≡ p = cc in subst IsPacket same i.packet
  | inr big ↦ let e = packet_init-big type sender receiver buffer len big in absurd (cc)
]

text_buffer-HasBytes : (text : Option Bytes) → HasBytes (text_buffer text) (text_length text)
text_buffer-HasBytes none = tt
text_buffer-HasBytes (some text) = omega (arith, length-append text (0 ∷ []))

pub packet_set_text-IsPacket :
    (type : ℕ) (sender receiver text : Option Bytes) (p : Packet)
    → packet_set_text type sender receiver text ≡ some p
    → IsPacket p
unfolding packet_set_text
packet_set_text-IsPacket type sender receiver text p made =
    elim (Bool-cases (ltb 1024 (text_length text))) [
      | inl big ↦ let none_made : none ≡ some p = rw big at made in absurd (cc)
      | inr fits ↦
          packet_init-IsPacket type sender receiver (text_buffer text) (text_length text) p
            (text_buffer-HasBytes text) (rw (packet_set_text, fits) at made)
    ]
