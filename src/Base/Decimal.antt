-- ===== src/Base/Decimal.antt =====
-- printf's decimal numbers.
use Prim.Native.Nat.{ℕ, zero, suc, ◌+◌, ◌-◌, ◌*◌, ◌/◌, ◌%◌, ◌^◌, ◌≤◌, ◌<◌}
use mathlib.Core.Path.{◌≡◌, refl, ap, ◌∙◌, sym}
use mathlib.Core.List.{[], ◌∷◌, ◌++◌}
use native.Mathlib.Omega.{arith}
use native.Mathlib.Nat.{pow-suc}
use multi_user_chat.Base.Tests.{ltb, if◌then◌else◌}
use multi_user_chat.Base.Lists.{length, replicate, All, All-append, length-append}
use multi_user_chat.Base.Text.{Bytes}

-- The digits of `n`, at most `fuel` of them: enough for every n < 10 ^ fuel.
unfoldable pub decimal : ℕ → ℕ → Bytes
decimal zero n = []
decimal (suc fuel) n =
    let rest = decimal fuel (n / 10) in
    if ltb n 10 then (48 + n) ∷ [] else rest ++ ((48 + n % 10) ∷ [])

-- "%zu" of a 64-bit number, and "%06u" of a 32-bit one.
abbrev pub print_size : ℕ → Bytes
print_size n = decimal 20 n

abbrev pub print_padded : ℕ → Bytes
print_padded n = let d = decimal 10 n in replicate (6 - length d) 48 ++ d

-- What a run of digits stands for, after a prefix that stands for `acc`.
unfoldable pub decimal_value : ℕ → Bytes → ℕ
decimal_value acc [] = acc
decimal_value acc (d ∷ ds) = decimal_value (10 * acc + (d - 48)) ds

decimal_value-append :
    (acc : ℕ) (a b : Bytes) → decimal_value acc (a ++ b) ≡ decimal_value (decimal_value acc a) b
unfolding decimal_value
decimal_value-append acc [] b = refl
decimal_value-append acc (d ∷ ds) b = decimal_value-append (10 * acc + (d - 48)) ds b

pub decimal_value-decimal : (fuel n : ℕ) → n < 10 ^ fuel → decimal_value 0 (decimal fuel n) ≡ n
unfolding decimal decimal_value
decimal_value-decimal zero n h = omega arith
decimal_value-decimal (suc fuel) n h = ground (
  arith,
  pow-suc 10 fuel,
  decimal_value-append 0 (decimal fuel (n / 10)) ((48 + n % 10) ∷ []),
  decimal_value-decimal fuel (n / 10),
)

decimal_value-zeros :
    (k : ℕ) (b : Bytes) → decimal_value 0 (replicate k 48 ++ b) ≡ decimal_value 0 b
unfolding decimal_value
decimal_value-zeros zero b = refl
decimal_value-zeros (suc k) b = decimal_value-zeros k b

pub decimal_value-print_padded : (n : ℕ) → n < 2 ^ 32 → decimal_value 0 (print_padded n) ≡ n
decimal_value-print_padded n h =
    decimal_value-zeros (6 - length (decimal 10 n)) (decimal 10 n)
    ∙ decimal_value-decimal 10 n (omega arith)

-- Distinct 32-bit numbers print differently.
pub print_padded-injective :
    (m n : ℕ) → m < 2 ^ 32 → n < 2 ^ 32 → print_padded m ≡ print_padded n → m ≡ n
print_padded-injective m n hm hn e =
    sym (decimal_value-print_padded m hm) ∙ ap (decimal_value 0) e ∙ decimal_value-print_padded n hn

pub length-decimal-le : (fuel n : ℕ) → length (decimal fuel n) ≤ fuel
unfolding decimal
length-decimal-le zero n = omega arith
length-decimal-le (suc fuel) n = ground (
  arith,
  length-decimal-le fuel (n / 10),
  length-append (decimal fuel (n / 10)) ((48 + n % 10) ∷ []),
)

abbrev pub IsDigits : Bytes → Type 0
IsDigits s = All (λ d. (48 ≤ d) × (d ≤ 57)) s

pub decimal-IsDigits : (fuel n : ℕ) → IsDigits (decimal fuel n)
unfolding decimal
decimal-IsDigits zero n = tt
decimal-IsDigits (suc fuel) n = ground (
  arith,
  All-append (λ d. (48 ≤ d) × (d ≤ 57)) (decimal fuel (n / 10)) ((48 + n % 10) ∷ [])
      (decimal-IsDigits fuel (n / 10)) ((omega arith, omega arith), tt),
)
