-- ===== src/Server/Port.antt =====
-- server/server.c: `parse_port`, which client/client.c has too.
use multi_user_chat.Base.{
  is_empty, ℕ, ◌+◌, ◌*◌, ◌≤◌, ◌<◌, ◌≡◌, ◌∙◌, ◌⊎◌, Bool, true, false, not, ◌&&◌, Option, none, some,
  Bytes, ltb, ◌==◌, strtol, skip_spaces, read_long, read_digits, is_space, is_digit, IsDigits,
  decimal, decimal_value, decimal-IsDigits, decimal_value-decimal, print_size, min, ◌^◌, ◌-◌, [],
  ◌∷◌, if◌then◌else◌, inl, inr, refl, Option-cases, Bool-cases, arith,
}
use multi_user_chat.Base.{Long}

-- Whether the text is rejected, with nothing or with what `strtol` read of it.
abbrev pub is_port : Long → Bool
is_port n =
    is_empty n.end && (not n.negative && (not (n.magnitude == 0) && not (ltb 65535 n.magnitude)))

-- `none` is NULL.
unfoldable pub parse_port : Option Bytes → ℕ → ℕ
parse_port none fallback = fallback
parse_port (some text) fallback = elim (strtol text) [
  | none ↦ fallback
  | some n ↦ if is_port n then n.magnitude else fallback
]

port_bounds : (n : Long) → is_port n ≡ true → (0 < n.magnitude) × (n.magnitude ≤ 65535)
port_bounds n h = ground arith

-- `parse_port` gives the fallback or a number from 1 to 65535, whatever the text.
pub parse_port_bounds :
    (text : Option Bytes) (fallback : ℕ)
    → (parse_port text fallback ≡ fallback)
      ⊎ ((0 < parse_port text fallback) × (parse_port text fallback ≤ 65535))
unfolding parse_port
parse_port_bounds none fallback = inl refl
parse_port_bounds (some text) fallback = elim (Option-cases (strtol text)) [
  | inl e ↦ inl (rw (parse_port, e) refl)
  | inr (n, e) ↦ elim (Bool-cases (is_port n)) [
    | inr bad ↦ inl (rw (parse_port, e, bad) refl)
    | inl good ↦ inr (rw (parse_port, e, good) (port_bounds n good))
  ]
]

read_digits-IsDigits :
    (acc : ℕ) (ds : Bytes) → IsDigits ds → read_digits acc ds ≡ (decimal_value acc ds, [])
unfolding read_digits decimal_value
read_digits-IsDigits acc [] h = refl
read_digits-IsDigits acc (d ∷ ds) h =
    let digit : is_digit d ≡ true = ground (arith, h.0) in
    rw (read_digits, digit) (read_digits-IsDigits (10 * acc + (d - 48)) ds h.1)

strtol-IsDigits :
    (d : ℕ) (ds : Bytes)
    → IsDigits (d ∷ ds)
    → decimal_value 0 (d ∷ ds) ≤ 65535
    → strtol (d ∷ ds)
      ≡ some (record { negative = false; magnitude = decimal_value 0 (d ∷ ds); end = [] })
unfolding strtol skip_spaces read_long
strtol-IsDigits d ds h small =
    let space : is_space d ≡ false = ground (arith, h.0) in
    let minus : (d == 0x2d) ≡ false = ground (arith, h.0) in
    let plus : (d == 0x2b) ≡ false = ground (arith, h.0) in
    let digit : is_digit d ≡ true = ground (arith, h.0) in
    let within : min (decimal_value 0 (d ∷ ds)) (2 ^ 63 - 1) ≡ decimal_value 0 (d ∷ ds) =
      omega (arith, small) in
    rw (strtol, space, minus, plus, digit, read_digits-IsDigits 0 (d ∷ ds) h, within) refl

pub parse_port-IsDigits :
    (ds : Bytes) (fallback : ℕ)
    → IsDigits ds
    → 0 < decimal_value 0 ds
    → decimal_value 0 ds ≤ 65535
    → parse_port (some ds) fallback ≡ decimal_value 0 ds
unfolding parse_port decimal_value
parse_port-IsDigits [] fallback h pos small = absurd (omega arith)
parse_port-IsDigits (d ∷ ds) fallback h pos small =
    let good : is_port (record { negative = false; magnitude = decimal_value 0 (d ∷ ds); end = [] })
        ≡ true =
      ground arith in
    rw (parse_port, strtol-IsDigits d ds h small, good) refl

-- `parse_port` reads the decimal text of every number from 1 to 65535 as that number.
pub parse_port-print_size :
    (n fallback : ℕ) → 0 < n → n ≤ 65535 → parse_port (some (print_size n)) fallback ≡ n
parse_port-print_size n fallback pos small =
    let value = decimal_value-decimal 20 n (omega (arith, small)) in
    parse_port-IsDigits (decimal 20 n) fallback (decimal-IsDigits 20 n) (omega (arith, value, pos))
      (omega (arith, value, small))
    ∙ value
