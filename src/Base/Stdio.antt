-- ===== src/Base/Stdio.antt =====
-- The functions of the C library that read lines and numbers from text.
use Prim.Native.Nat.{ℕ, zero, suc, ◌+◌, ◌-◌, ◌*◌, ◌%◌, ◌^◌, ◌<◌, min}
use mathlib.Core.Path.{◌≡◌, refl}
use mathlib.Core.Logic.{◌≢◌}
use mathlib.Core.Bool.{Bool, true, false, ◌&&◌, ◌||◌}
use mathlib.Core.Option.{Option, none, some}
use mathlib.Core.List.{[], ◌∷◌, ◌++◌}
use native.Mathlib.Omega.{arith}
use multi_user_chat.Base.Tests.{leb, ◌==◌, if◌then◌else◌}
use multi_user_chat.Base.Lists.{length, All, All-map}
use multi_user_chat.Base.Text.{Bytes, IsCString}

-- What `fgets` puts into an array with room for so many bytes and the NUL, and what it leaves.
unfoldable pub fgets : ℕ → Bytes → Bytes × Bytes
fgets zero input = ([], input)
fgets (suc room) [] = ([], [])
fgets (suc room) (b ∷ bs) =
    let (line, rest) = fgets room bs in if b == 0x0a then (b ∷ [], bs) else (b ∷ line, rest)

abbrev pub is_line_end : ℕ → Bool
is_line_end b = b == 0x0d || b == 0x0a

-- `s[strcspn(s, "\r\n")] = '\0'`
unfoldable pub cut_line : Bytes → Bytes
cut_line [] = []
cut_line (b ∷ bs) = let rest = cut_line bs in if is_line_end b then [] else b ∷ rest

abbrev pub is_space : ℕ → Bool
is_space c = c == 0x20 || (leb 0x09 c && leb c 0x0d)

abbrev pub is_digit : ℕ → Bool
is_digit c = leb 0x30 c && leb c 0x39

unfoldable pub skip_spaces : Bytes → Bytes
skip_spaces [] = []
skip_spaces (c ∷ cs) = let rest = skip_spaces cs in if is_space c then rest else c ∷ cs

-- The digits at the start, read after a prefix that stands for `acc`, and what follows them.
unfoldable pub read_digits : ℕ → Bytes → ℕ × Bytes
read_digits acc [] = (acc, [])
read_digits acc (c ∷ cs) =
    let rest = read_digits (10 * acc + (c - 0x30)) cs in if is_digit c then rest else (acc, c ∷ cs)

abbrev pub starts_digit : Bytes → Bool
starts_digit [] = false
starts_digit (c ∷ cs) = is_digit c

-- What `strtol` reads in base 10: the sign, the number, and what follows; `none` if there is no
-- number. A `long` is at most 2 ^ 63 - 1 and at least -2 ^ 63.
pub record Long : Type 0 where
  pub negative : Bool
  pub magnitude : ℕ
  pub end : Bytes

unfoldable pub read_long : Bool → Bytes → Option Long
read_long negative digits =
    if starts_digit digits
    then (let (n, rest) = read_digits 0 digits in
        some (record {
          negative = negative;
          magnitude = min n (if negative then 2 ^ 63 else 2 ^ 63 - 1);
          end = rest;
        }))
    else none

abbrev pub read_sign : Bytes → Option Long
read_sign [] = none
read_sign (c ∷ cs) =
    if c == 0x2d
    then read_long true cs
    else (if c == 0x2b then read_long false cs else read_long false (c ∷ cs))

unfoldable pub strtol : Bytes → Option Long
strtol text = read_sign (skip_spaces text)

-- The 32 bits of an `int` from those of the `long`; `atoi` gives 0 where there is no number.
unfoldable pub atoi : Bytes → ℕ
atoi text = elim (strtol text) [
  | none ↦ 0
  | some n ↦ (if n.negative then 2 ^ 64 - n.magnitude else n.magnitude) % 2 ^ 32
]

-- A line that fits, with its newline, is read whole.
pub fgets-line :
    (room : ℕ) (s rest : Bytes)
    → All (λ b. is_line_end b ≡ false) s
    → length s < room
    → fgets room (s ++ (0x0a ∷ rest)) ≡ (s ++ (0x0a ∷ []), rest)
unfolding fgets
fgets-line (suc room) [] rest h fits = refl
fgets-line (suc room) (b ∷ s) rest h fits = ground (arith, h.0, fgets-line room s rest h.1)
fgets-line zero s rest h fits = absurd (omega arith)

pub cut_line-line :
    (s rest : Bytes) → All (λ b. is_line_end b ≡ false) s → cut_line (s ++ (0x0a ∷ rest)) ≡ s
unfolding cut_line
cut_line-line [] rest h = refl
cut_line-line (b ∷ s) rest h = ground (arith, h.0, cut_line-line s rest h.1)

-- A line that is typed: no line end and no NUL in it.
abbrev pub IsLine : Bytes → Type 0
IsLine s = All (λ b. (is_line_end b ≡ false) × (b ≢ 0)) s

pub IsLine-IsCString : (s : Bytes) → IsLine s → IsCString s
IsLine-IsCString s h = All-map (λ b k. k.1) s h

pub IsLine-ends : (s : Bytes) → IsLine s → All (λ b. is_line_end b ≡ false) s
IsLine-ends s h = All-map (λ b k. k.0) s h
