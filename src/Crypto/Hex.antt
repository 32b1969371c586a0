-- ===== src/Crypto/Hex.antt =====
-- common/crypto_utils.c: hexadecimal text as bytes, and hashes against passwords.
use multi_user_chat.Base.{
  ℕ, zero, suc, subst, sym, Bool-cases, ◌+◌, ◌*◌, ◌/◌, ◌%◌, ◌<◌, ◌≡◌, refl, ap, true, Option, some,
  [], ◌∷◌, ◌++◌, Bytes, length, All, ◌==◌, ==_iff, arith, str_eq_refl, Option-cases, inl, inr,
}
use multi_user_chat.Crypto.{
  hex_value, hex_digit, hex_pairs, hex_to_bytes, bytes_to_hex, hash_password, verify_password,
}

pub length-bytes_to_hex : (bs : Bytes) → length (bytes_to_hex bs) ≡ length bs * 2
unfolding bytes_to_hex
length-bytes_to_hex [] = refl
length-bytes_to_hex (b ∷ bs) = omega (arith, length-bytes_to_hex bs)

-- A property of the numbers under a bound, as a tuple.
Each : (ℕ → Type 0) → ℕ → Type 0
Each P zero = Unit
Each P (suc bound) = P bound × Each P bound

each_at : (P : ℕ → Type 0) (bound k : ℕ) → k < bound → Each P bound → P k
unfolding Each
each_at P zero k small h = absurd (omega arith)
each_at P (suc bound) k small (here, h) = elim (Bool-cases (k == bound)) [
  | inl same ↦ subst P (sym ((==_iff k bound).0 same)) here
  | inr other ↦ each_at P bound k (ground (arith, other)) h
]

digits_read : Each (λ n. hex_value (hex_digit n) ≡ some n) 16
unfolding Each hex_value hex_digit
digits_read = (
  refl,
  (
    refl,
    (
      refl,
      (
        refl,
        (
          refl,
          (
            refl,
            (refl, (refl, (refl, (refl, (refl, (refl, (refl, (refl, (refl, (refl, tt)))))))))),
          ),
        ),
      ),
    ),
  ),
)

hex_value-hex_digit : (n : ℕ) → n < 16 → hex_value (hex_digit n) ≡ some n
hex_value-hex_digit n small = each_at (λ k. hex_value (hex_digit k) ≡ some k) 16 n small digits_read

hex_pairs-bytes_to_hex :
    (bs : Bytes) → All (λ b. b < 256) bs → hex_pairs (bytes_to_hex bs) ≡ some bs
unfolding hex_pairs bytes_to_hex
hex_pairs-bytes_to_hex [] h = refl
hex_pairs-bytes_to_hex (b ∷ bs) h =
    let whole : b / 16 % 16 * 16 + b % 16 ≡ b = omega (arith, h.0) in
    rw
      (
        hex_value-hex_digit (b / 16 % 16) (omega arith),
        hex_value-hex_digit (b % 16) (omega arith),
        hex_pairs-bytes_to_hex bs h.1,
      )
      (ap (λ a. some (a ∷ bs)) whole)

length-hash :
    (sha256 : Bytes → Option Bytes) (password salt_hex hash : Bytes)
    → hash_password sha256 password salt_hex ≡ some hash
    → length hash ≡ 64
unfolding hash_password
length-hash sha256 password salt_hex hash h = elim (Option-cases (hex_to_bytes salt_hex 16)) [
  | inl bad ↦ ground arith
  | inr (salt, good) ↦ elim (Option-cases (sha256 (salt ++ password))) [
    | inl bad ↦ ground arith
    | inr (digest, made) ↦ ground (arith, length-bytes_to_hex digest)
  ]
]

-- The hexadecimal text of bytes below 256 is read back as these bytes.
pub hex_to_bytes-bytes_to_hex :
    (bs : Bytes) → All (λ b. b < 256) bs → hex_to_bytes (bytes_to_hex bs) (length bs) ≡ some bs
unfolding hex_to_bytes
hex_to_bytes-bytes_to_hex bs h = ground (arith, length-bytes_to_hex bs, hex_pairs-bytes_to_hex bs h)

-- A hash that `hash_password` made has 64 digits, and verifies the password that it was made of,
-- under the same salt.
pub verify_password-hash_password :
    (sha256 : Bytes → Option Bytes) (password salt_hex hash : Bytes)
    → hash_password sha256 password salt_hex ≡ some hash
    → (length hash ≡ 64) × (verify_password sha256 password salt_hex hash ≡ true)
verify_password-hash_password sha256 password salt_hex hash h =
    let size = length-hash sha256 password salt_hex hash h in
    (size, unfold verify_password in rw (h, size) (str_eq_refl hash))

-- A salt that `hash_password` accepts has 32 digits.
pub length-salt :
    (sha256 : Bytes → Option Bytes) (password salt_hex hash : Bytes)
    → hash_password sha256 password salt_hex ≡ some hash
    → length salt_hex ≡ 32
unfolding hash_password hex_to_bytes
length-salt sha256 password salt_hex hash h = ground arith
