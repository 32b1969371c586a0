-- ===== src/Crypto/Tests.antt =====
-- Runs of the hexadecimal conversions and of a hash.
use multi_user_chat.Base.{
  ◌%◌, ◌≡◌, refl, Option, none, some, [], ◌∷◌, Bytes, bytes, length, replicate,
}
use multi_user_chat.Crypto.{
  hex_value, hex_pairs, hex_to_bytes, hex_digit, bytes_to_hex, hash_password,
}

-- A digest of 32 bytes in place of SHA-256.
abbrev toy_digest : Bytes → Option Bytes
toy_digest bs = some (replicate 32 (length bs % 256))

abbrev salt : Bytes
salt = bytes "000102030405060708090a0b0c0d0e0f"

abbrev toy_hash : Bytes
toy_hash = bytes "1313131313131313131313131313131313131313131313131313131313131313"

hash_runs : hash_password toy_digest (bytes "abc") salt ≡ some toy_hash
unfolding hash_password hex_to_bytes hex_pairs hex_value bytes_to_hex hex_digit
hash_runs = refl

odd_hex_refused : hex_to_bytes (bytes "abc") 2 ≡ none
unfolding hex_to_bytes
odd_hex_refused = refl

upper_case_read : hex_to_bytes (bytes "AbFf") 2 ≡ some (0xab ∷ 0xff ∷ [])
unfolding hex_to_bytes hex_pairs hex_value
upper_case_read = refl
