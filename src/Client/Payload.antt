-- ===== src/Client/Payload.antt =====
-- include/protocol.h: `FileBeginPayload`, as it lies in memory. Its size is a `uint64_t` in the
-- order of the machine, little-endian, with its least significant byte first.
use multi_user_chat.Base.{
  ℕ, zero, suc, ◌+◌, ◌*◌, ◌/◌, ◌%◌, ◌^◌, ◌<◌, ◌≡◌, refl, sym, ap, [], ◌∷◌, ◌++◌, Bytes, length,
  take, drop, arith, append_assoc, length-append, take-length-append, drop-length-append,
}
use multi_user_chat.Files.{file_name_max_len}
use native.Mathlib.Nat.{pow-suc}

pub record FileBeginPayload : Type 0 where
  pub filename : Bytes
  pub filesize : ℕ

-- `sizeof(FileBeginPayload)`
abbrev pub begin_size : ℕ
begin_size = 264

-- So many bytes of a number, and the number that bytes are.
unfoldable pub stored : ℕ → ℕ → Bytes
stored zero n = []
stored (suc k) n = (n % 256) ∷ stored k (n / 256)

unfoldable pub loaded : Bytes → ℕ
loaded [] = 0
loaded (b ∷ bs) = b + 256 * loaded bs

unfoldable pub payload_bytes : FileBeginPayload → Bytes
payload_bytes p = p.filename ++ stored 8 p.filesize

unfoldable pub payload_of : Bytes → FileBeginPayload
payload_of b = record {
  filename = take file_name_max_len b;
  filesize = loaded (take 8 (drop file_name_max_len b));
}

loaded-stored : (k n : ℕ) → n < 256 ^ k → loaded (stored k n) ≡ n
unfolding loaded stored
loaded-stored zero n h = omega arith
loaded-stored (suc k) n h =
    let below : n / 256 < 256 ^ k = omega (arith, h, pow-suc 256 k) in
    omega (arith, loaded-stored k (n / 256) below)

pub length-stored : (k n : ℕ) → length (stored k n) ≡ k
unfolding stored
length-stored zero n = refl
length-stored (suc k) n = ap suc (length-stored k (n / 256))

pub length-payload_bytes :
    (p : FileBeginPayload) → length p.filename ≡ 256 → length (payload_bytes p) ≡ 264
unfolding payload_bytes
length-payload_bytes p h =
    omega (arith, h, length-append p.filename (stored 8 p.filesize), length-stored 8 p.filesize)

-- Whatever follows in the array, the payload is read back.
pub payload_of-payload_bytes :
    (p : FileBeginPayload) (rest : Bytes)
    → length p.filename ≡ 256
    → p.filesize < 2 ^ 64
    → payload_of (payload_bytes p ++ rest) ≡ p
unfolding payload_of payload_bytes
payload_of-payload_bytes p rest h small =
    let size = stored 8 p.filesize in
    let front : take 256 (p.filename ++ (size ++ rest)) ≡ p.filename =
      take-length-append p.filename (size ++ rest) 256 (sym h) in
    let back : drop 256 (p.filename ++ (size ++ rest)) ≡ size ++ rest =
      drop-length-append p.filename (size ++ rest) 256 (sym h) in
    let eight : take 8 (size ++ rest) ≡ size =
      take-length-append size rest 8 (sym (length-stored 8 p.filesize)) in
    let value : loaded size ≡ p.filesize = loaded-stored 8 p.filesize (omega (arith, small)) in
    rw (append_assoc p.filename size rest, front, back, eight, value) refl
