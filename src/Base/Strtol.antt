-- ===== src/Base/Strtol.antt =====
-- What `strtol` reads of a text, and what it passes over.
use Prim.Native.Nat.{ℕ, ◌+◌, ◌-◌, ◌*◌, ◌^◌, ◌<◌, min}
use mathlib.Core.Path.{◌≡◌, refl, ap}
use mathlib.Core.Logic.{inl, inr}
use mathlib.Core.Bool.{Bool, true, false}
use mathlib.Core.Option.{some}
use mathlib.Core.List.{[], ◌∷◌, ◌++◌}
use native.Mathlib.Omega.{arith}
use multi_user_chat.Base.Tests.{◌==◌, if◌then◌else◌, Bool-cases}
use multi_user_chat.Base.Lists.{All}
use multi_user_chat.Base.Text.{Bytes}
use multi_user_chat.Base.Decimal.{IsDigits, decimal_value}
use multi_user_chat.Base.Stdio.{
  is_space, is_digit, skip_spaces, read_digits, starts_digit, Long, read_long, read_sign, strtol,
}

pub skip_spaces-append :
    (spaces rest : Bytes)
    → All (λ c. is_space c ≡ true) spaces
    → skip_spaces (spaces ++ rest) ≡ skip_spaces rest
unfolding skip_spaces
skip_spaces-append [] rest h = refl
skip_spaces-append (c ∷ spaces) rest h = rw (skip_spaces, h.0) (skip_spaces-append spaces rest h.1)

-- What is in front of what `skip_spaces` leaves.
pub skip_spaces_lem :
    (text : Bytes)
    → (spaces : Bytes) × All (λ c. is_space c ≡ true) spaces × (text ≡ spaces ++ skip_spaces text)
unfolding skip_spaces
skip_spaces_lem [] = ([], tt, refl)
skip_spaces_lem (c ∷ text) = elim (Bool-cases (is_space c)) [
  | inl space ↦
      let (spaces, h, e) = skip_spaces_lem text in
      (c ∷ spaces, (space, h), rw (skip_spaces, space) (ap (λ t. c ∷ t) e))
  | inr other ↦ ([], tt, rw (skip_spaces, other) refl)
]

-- The digits that `read_digits` reads.
pub read_digits_lem :
    (acc : ℕ) (cs : Bytes)
    → (ds : Bytes) × IsDigits ds
      × (cs ≡ ds ++ (read_digits acc cs).1)
      × ((read_digits acc cs).0 ≡ decimal_value acc ds)
unfolding read_digits decimal_value
read_digits_lem acc [] = ([], tt, refl, refl)
read_digits_lem acc (c ∷ cs) = elim (Bool-cases (is_digit c)) [
  | inl digit ↦
      let (ds, h, e, value) = read_digits_lem (10 * acc + (c - 48)) cs in
      (
        c ∷ ds,
        (ground (arith, digit), h),
        rw (read_digits, digit) (ap (λ t. c ∷ t) e),
        rw (read_digits, digit) value,
      )
  | inr other ↦ ([], tt, rw (read_digits, other) refl, rw (read_digits, other) refl)
]

pub strtol-spaces :
    (spaces rest : Bytes)
    → All (λ c. is_space c ≡ true) spaces
    → strtol (spaces ++ rest) ≡ strtol rest
unfolding strtol
strtol-spaces spaces rest h = ap read_sign (skip_spaces-append spaces rest h)

pub strtol-plus :
    (digits : Bytes)
    → IsDigits digits
    → 0 < decimal_value 0 digits
    → strtol (0x2b ∷ digits) ≡ strtol digits
unfolding strtol skip_spaces decimal_value
strtol-plus [] h pos = absurd (omega (arith, pos))
strtol-plus (d ∷ ds) h pos =
    let space : is_space d ≡ false = ground (arith, h.0) in
    let minus : (d == 0x2d) ≡ false = ground (arith, h.0) in
    let plus : (d == 0x2b) ≡ false = ground (arith, h.0) in rw (space, minus, plus) refl

pub read_long-some :
    (negative : Bool) (cs : Bytes) (n : Long)
    → read_long negative cs ≡ some n
    → (let m : Long = record {
      negative = negative;
      magnitude = min (read_digits 0 cs).0 (if negative then 2 ^ 63 else 2 ^ 63 - 1);
      end = (read_digits 0 cs).1;
    } in
        m ≡ n)
unfolding read_long
read_long-some negative cs n e = elim (Bool-cases (starts_digit cs)) [
  | inr other ↦ absurd (let e' = rw (read_long, other) at e in cc)
  | inl there ↦ let e' = rw (read_long, there) at e in cc
]
