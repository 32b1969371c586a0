-- ===== src/Crypto.antt =====
-- common/crypto_utils.c: salts and password hashes in hexadecimal. OpenSSL is a parameter: what
-- `RAND_bytes` returns is an argument, and the digest is a function that may fail.
pub mod Hex
mod Tests
use multi_user_chat.Base.{
  ℕ, ◌+◌, ◌-◌, ◌*◌, ◌/◌, ◌%◌, Bool, true, false, not, ◌&&◌, Option, none, some, List, [], ◌∷◌, ◌++◌,
  Bytes, bytes, length, get_or, leb, ◌==◌, str_eq, if◌then◌else◌,
}

abbrev pub salt_bytes : ℕ
salt_bytes = 16

abbrev pub salt_hex_len : ℕ
salt_hex_len = 32

abbrev pub password_hash_bytes : ℕ
password_hash_bytes = 32

abbrev pub password_hash_hex_len : ℕ
password_hash_hex_len = 64

-- `none` is -1.
unfoldable pub hex_value : ℕ → Option ℕ
hex_value c =
    if leb b'0' c && leb c b'9'
    then some (c - b'0')
    else (if leb b'a' c && leb c b'f'
        then some (c - b'a' + 10)
        else (if leb b'A' c && leb c b'F' then some (c - b'A' + 10) else none))

abbrev pub pair_value : Option ℕ → Option ℕ → Option Bytes → Option Bytes
pair_value (some hi) (some lo) (some rest) = some ((hi * 16 + lo) ∷ rest)
pair_value _ _ _ = none

-- The loop of `hex_to_bytes`; `(hi << 4) | lo` is a sum, since `lo` is below 16.
unfoldable pub hex_pairs : Bytes → Option Bytes
hex_pairs [] = some []
hex_pairs (h ∷ []) = none
hex_pairs (h ∷ l ∷ rest) = pair_value (hex_value h) (hex_value l) (hex_pairs rest)

unfoldable pub hex_to_bytes : Bytes → ℕ → Option Bytes
hex_to_bytes hex out_len = if length hex == out_len * 2 then hex_pairs hex else none

unfoldable pub hex_digit : ℕ → ℕ
hex_digit n = get_or (bytes "0123456789abcdef") n 0

unfoldable pub bytes_to_hex : Bytes → Bytes
bytes_to_hex [] = []
bytes_to_hex (b ∷ bs) = hex_digit (b / 16 % 16) ∷ hex_digit (b % 16) ∷ bytes_to_hex bs

-- `random` is what `RAND_bytes` filled in, or `none` if it failed. The callers' buffers are large
-- enough.
unfoldable pub generate_salt_hex : Option Bytes → Option Bytes
generate_salt_hex none = none
generate_salt_hex (some salt) = some (bytes_to_hex salt)

abbrev digest_hex : Option Bytes → Option Bytes
digest_hex none = none
digest_hex (some digest) =
    if length digest == password_hash_bytes then some (bytes_to_hex digest) else none

-- The digest of all the bytes of the two updates, or `none` if a call of OpenSSL fails.
module _ (sha256 : Bytes → Option Bytes) where
  unfoldable pub hash_password : Bytes → Bytes → Option Bytes
  hash_password password salt_hex = elim (hex_to_bytes salt_hex salt_bytes) [
    | none ↦ none
    | some salt ↦ digest_hex (sha256 (salt ++ password))
  ]

  unfoldable pub verify_password : Bytes → Bytes → Bytes → Bool
  verify_password password salt_hex expected_hash =
      if not (length expected_hash == password_hash_hex_len)
      then false
      else elim (hash_password password salt_hex) [
        | none ↦ false
        | some actual ↦ str_eq actual expected_hash
      ]
