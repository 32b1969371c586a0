-- ===== src/Base/Text.antt =====
-- Byte strings. A C string is the list of its bytes before the terminating NUL.
use Prim.Native.Nat.{ℕ, ◌+◌, ◌-◌, ◌/◌, ◌%◌, ◌≤◌}
use Prim.Native.Char.{code}
use Prim.Native.String.{String}
use mathlib.Core.Path.{◌≡◌, refl}
use mathlib.Core.Logic.{◌≢◌, ◌↔◌}
use mathlib.Core.Bool.{Bool, true, false, ◌&&◌, ◌||◌}
use mathlib.Core.List.{List, [], ◌∷◌, ◌++◌}
use native.Mathlib.Omega.{arith}
use multi_user_chat.Base.Tests.{ltb, ◌==◌, if◌then◌else◌}
use multi_user_chat.Base.Lists.{length, take, replicate, All}

abbrev pub Bytes : Type 0
Bytes = List ℕ

-- The UTF-8 bytes of a character below 0x10000, which the literals of the program stay in.
abbrev utf8 : ℕ → Bytes
utf8 c =
    if ltb c 0x80
    then c ∷ []
    else (if ltb c 0x800
        then (0xc0 + c / 64) ∷ (0x80 + c % 64) ∷ []
        else (0xe0 + c / 4096) ∷ (0x80 + c / 64 % 64) ∷ (0x80 + c % 64) ∷ [])

-- A literal's bytes.
abbrev pub bytes : String → Bytes
bytes String.[] = []
bytes (String.◌∷◌ c s) = utf8 (code c) ++ bytes s

-- strcmp(a, b) == 0
unfoldable pub str_eq : Bytes → Bytes → Bool
str_eq [] [] = true
str_eq [] (b ∷ bs) = false
str_eq (a ∷ as') [] = false
str_eq (a ∷ as') (b ∷ bs) = a == b && str_eq as' bs

pub str_eq_iff : (a b : Bytes) → (str_eq a b ≡ true) ↔ (a ≡ b)
unfolding str_eq
str_eq_iff [] [] = ((λ _. refl), (λ _. refl))
str_eq_iff [] (b ∷ bs) = ((λ h. cc), (λ h. cc))
str_eq_iff (a ∷ as') [] = ((λ h. cc), (λ h. cc))
str_eq_iff (a ∷ as') (b ∷ bs) =
    ((λ h. ground (arith, str_eq_iff as' bs)), (λ h. ground (arith, str_eq_iff as' bs)))

pub str_eq_refl : (a : Bytes) → str_eq a a ≡ true
str_eq_refl a = (str_eq_iff a a).1 refl

-- strchr(s, c) != NULL, for c other than NUL
unfoldable pub contains : ℕ → Bytes → Bool
contains c [] = false
contains c (b ∷ bs) = b == c || contains c bs

-- A string has no NUL inside.
abbrev pub IsCString : Bytes → Type 0
IsCString s = All (λ b. b ≢ 0) s

abbrev pub is_empty : Bytes → Bool
is_empty [] = true
is_empty (_ ∷ _) = false

pub is_empty-append : (s rest : Bytes) (b : ℕ) → is_empty (s ++ (b ∷ rest)) ≡ false
is_empty-append [] rest b = refl
is_empty-append (c ∷ s) rest b = refl

-- The string that starts at a buffer's first byte: up to the first NUL, or the whole buffer.
unfoldable pub c_str : Bytes → Bytes
c_str [] = []
c_str (b ∷ bs) = let rest = c_str bs in if b == 0 then [] else b ∷ rest

-- The string that a char array of `size` bytes holds after `memset(dest, 0, size)` and
-- `strncpy(dest, src, size - 1)`.
abbrev pub copy_fixed : ℕ → Bytes → Bytes
copy_fixed size src = take (size - 1) src

pub c_str-IsCString : (s : Bytes) → IsCString (c_str s)
unfolding c_str
c_str-IsCString [] = tt
c_str-IsCString (b ∷ bs) = ground (arith, c_str-IsCString bs)

pub length-c_str-le : (s : Bytes) → length (c_str s) ≤ length s
unfolding c_str
length-c_str-le [] = omega arith
length-c_str-le (b ∷ bs) = ground (arith, length-c_str-le bs)

pub c_str-plain : (s : Bytes) → IsCString s → c_str s ≡ s
unfolding c_str
c_str-plain [] h = refl
c_str-plain (b ∷ s) h = ground (arith, c_str-plain s h.1)

-- A terminated string is read back, whatever follows it.
pub c_str-append : (s r : Bytes) → IsCString s → c_str (s ++ (0 ∷ r)) ≡ s
unfolding c_str
c_str-append [] r h = refl
c_str-append (b ∷ bs) r h = ground (arith, c_str-append bs r h.1)

pub c_str-append_nul : (s r : Bytes) → c_str (s ++ (0 ∷ r)) ≡ c_str s
unfolding c_str
c_str-append_nul [] r = refl
c_str-append_nul (b ∷ bs) r = ground (arith, c_str-append_nul bs r)

abbrev pub zeros : ℕ → Bytes
zeros n = replicate n 0
