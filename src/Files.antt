-- ===== src/Files.antt =====
-- common/file_utils.c: a directory, and the path under which a received file is saved. The file system is a
-- parameter: whether the directory can be had, whether a path exists, and how many bytes `malloc`
-- gives. A string is the list of its bytes.
pub mod Download
mod Tests
use multi_user_chat.Base.{
  is_empty, ℕ, zero, suc, ◌+◌, ◌-◌, Bool, true, false, not, ◌&&◌, ◌||◌, Option, none, some, List,
  [], ◌∷◌, ◌++◌, Bytes, bytes, length, take, ltb, leb, ◌==◌, print_size, if◌then◌else◌,
}

abbrev pub file_name_max_len : ℕ
file_name_max_len = 256

-- What is before the last `c`, and what is after it: `strrchr`.
unfoldable pub split_last : ℕ → Bytes → Option (Bytes × Bytes)
split_last c [] = none
split_last c (x ∷ xs) = elim (split_last c xs) [
  | some (front, back) ↦ some (x ∷ front, back)
  | none ↦ if x == c then some ([], xs) else none
]

-- What `mkdir` does: it makes the directory, finds that the name is taken, or fails.
pub data Mkdir : Type 0 where
  made exists failed : Mkdir

-- `found` tells what `stat` gives: nothing, or whether it is a directory. The result is true for 0.
unfoldable pub ensure_directory : Option Bool → Mkdir → Bytes → Bool
ensure_directory found mkdir [] = false
ensure_directory (some is_directory) mkdir (c ∷ path) = is_directory
ensure_directory none made (c ∷ path) = true
ensure_directory none exists (c ∷ path) = true
ensure_directory none failed (c ∷ path) = false

unfoldable pub base_filename : Bytes → Bytes
base_filename path = elim (split_last 0x2f path) [ none ↦ path | some (_, name) ↦ name ]

abbrev pub safe_char : ℕ → ℕ
safe_char c =
    if c == 0x2f || (c == 0x5c || (c == 0x3a || (c == 0x0a || c == 0x0d))) then 0x5f else c

-- The loop of `sanitize_component`, with room for so many more bytes.
unfoldable pub sanitize_loop : Bytes → ℕ → Bytes
sanitize_loop [] room = []
sanitize_loop (c ∷ cs) zero = []
sanitize_loop (c ∷ cs) (suc room) = safe_char c ∷ sanitize_loop cs room

unfoldable pub sanitize_component : Bytes → ℕ → Bytes
sanitize_component input out_size = sanitize_loop input (out_size - 1)

-- `stem` and `ext`: a dot at the start is no extension.
unfoldable pub split_extension : Bytes → Bytes × Bytes
split_extension file = elim (split_last 0x2e file) [
  | none ↦ (file, [])
  | some (stem, ext) ↦ if is_empty stem then (file, []) else (stem, 0x2e ∷ ext)
]

-- "_%d" from the second candidate on.
abbrev pub number : ℕ → Bytes
number zero = []
number (suc i) = 0x5f ∷ print_size (suc i)

-- The file's name in the directory: "%s_%s%s" or "%s_%s_%d%s".
unfoldable pub candidate_name : Bytes → Bytes → Bytes → ℕ → Bytes
candidate_name sender stem ext i = sender ++ (0x5f ∷ (stem ++ (number i ++ ext)))

module _ (exists_at allocates : Bytes → Bool) where
  -- The loop from number `i` on, with so many rounds left. `none` is -1.
  unfoldable pub find_free : Bytes → (ℕ → Bytes) → ℕ → ℕ → ℕ → Option Bytes
  find_free dir name out_size i zero = none
  find_free dir name out_size i (suc rounds) =
      let path = dir ++ (0x2f ∷ name i) in
      let rest = find_free dir name out_size (i + 1) rounds in
      if ltb out_size (length path + 1)
      then none
      else (if not (allocates path) then none else (if exists_at path then rest else some path))

  -- `has_directory` is the result of `ensure_directory`; `out_size` is not 0.
  unfoldable pub build_unique_download_path : Bool → Bytes → Bytes → Bytes → ℕ → Option Bytes
  build_unique_download_path has_directory dir sender filename out_size =
      if not has_directory
      then none
      else (let safe_sender = sanitize_component sender 128 in
          let safe_file = sanitize_component (base_filename filename) file_name_max_len in
          if is_empty safe_sender || is_empty safe_file
          then none
          else (let (stem, ext) = split_extension safe_file in
              find_free dir (candidate_name safe_sender stem ext) out_size 0 1000))
