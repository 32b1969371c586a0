-- ===== src/Queue/Window.antt =====
-- common/message_queue.c: a run of places in the array of the ring, around its end.
use multi_user_chat.Base.{
  ℕ, zero, suc, ◌+◌, ◌-◌, ◌%◌, ◌≤◌, ◌<◌, ◌≡◌, ◌≢◌, refl, ap, ◌∙◌, List, [], ◌∷◌, ◌++◌, length, set,
  get_or, ltb, ltb→lt, if◌then◌else◌, arith, Bool-cases, inl, inr,
}
use native.Mathlib.Nat.{mod-eq_of_lt, mod_self}
use multi_user_chat.Protocol.{Packet, no_packet}

-- A position that is at most one round too far.
abbrev pub wrap : ℕ → ℕ → ℕ
wrap capacity i = if ltb i capacity then i else i - capacity

-- `n` packets from position `i` on, around the end of the array.
unfoldable pub window : List Packet → ℕ → ℕ → ℕ → List Packet
window items capacity i zero = []
window items capacity i (suc n) =
    get_or items i no_packet ∷ window items capacity (wrap capacity (i + 1)) n

pub mod-wrap : (capacity i : ℕ) → i < capacity → (i + 1) % capacity ≡ wrap capacity (i + 1)
mod-wrap capacity i h = elim (Bool-cases (ltb (i + 1) capacity)) [
  | inl inside ↦ rw (mod-eq_of_lt (ltb→lt (i + 1) capacity inside)) (ground (arith, inside))
  | inr outside ↦
      let last : i + 1 ≡ capacity = ground (arith, outside) in
      ap (λ n. n % capacity) last ∙ mod_self capacity ∙ ground (arith, last)
]

get_or-set_other :
    (items : List Packet) (i j : ℕ) (p : Packet)
    → i ≢ j
    → get_or (set items j p) i no_packet ≡ get_or items i no_packet
get_or-set_other [] i j p h = refl
get_or-set_other (x ∷ xs) zero zero p h = absurd (h refl)
get_or-set_other (x ∷ xs) zero (suc j) p h = refl
get_or-set_other (x ∷ xs) (suc i) zero p h = refl
get_or-set_other (x ∷ xs) (suc i) (suc j) p h = get_or-set_other xs i j p (λ e. h (ap suc e))

pub get_or-set_same :
    (items : List Packet) (j : ℕ) (p : Packet)
    → j < length items
    → get_or (set items j p) j no_packet ≡ p
get_or-set_same [] j p h = absurd (omega arith)
get_or-set_same (x ∷ xs) zero p h = refl
get_or-set_same (x ∷ xs) (suc j) p h = get_or-set_same xs j p (omega arith)

-- A write outside of the window does not change it.
pub window-set :
    (items : List Packet) (capacity i n d : ℕ) (p : Packet)
    → i < capacity
    → n ≤ d
    → d < capacity
    → window (set items (wrap capacity (i + d)) p) capacity i n ≡ window items capacity i n
unfolding window
window-set items capacity i zero d p h k l = refl
window-set items capacity i (suc n) zero p h k l = absurd (omega arith)
window-set items capacity i (suc n) (suc d) p h k l =
    let same : wrap capacity (i + suc d) ≡ wrap capacity (wrap capacity (i + 1) + d) =
      ground arith in
    rw (get_or-set_other items i (wrap capacity (i + suc d)) p (λ e. ground (arith, e))) (
      ap (λ r. get_or items i no_packet ∷ r)
        (ap (λ j. window (set items j p) capacity (wrap capacity (i + 1)) n) same
          ∙ window-set items capacity (wrap capacity (i + 1)) n d p (ground arith) (omega arith)
              (omega arith)))

pub window-suc :
    (items : List Packet) (capacity i n : ℕ)
    → i < capacity
    → n < capacity
    → window items capacity i (suc n)
      ≡ window items capacity i n ++ (get_or items (wrap capacity (i + n)) no_packet ∷ [])
unfolding window
window-suc items capacity i zero h k = ap (λ j. get_or items j no_packet ∷ []) (ground arith)
window-suc items capacity i (suc n) h k =
    let same : wrap capacity (wrap capacity (i + 1) + n) ≡ wrap capacity (i + suc n) =
      ground arith in
    ap (λ r. get_or items i no_packet ∷ r)
      (window-suc items capacity (wrap capacity (i + 1)) n (ground arith) (omega arith)
        ∙ ap
            (λ j.
              window items capacity (wrap capacity (i + 1)) n ++ (get_or items j no_packet ∷ []))
            same)

pub length-window :
    (items : List Packet) (capacity i n : ℕ) → length (window items capacity i n) ≡ n
unfolding window
length-window items capacity i zero = refl
length-window items capacity i (suc n) =
    ap suc (length-window items capacity (wrap capacity (i + 1)) n)
