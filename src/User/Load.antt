-- ===== src/User/Load.antt =====
-- common/user.c: `user_store_load`, which reads the accounts back from the storage file, and
-- `ensure_storage_parent`, which makes its directory.
use multi_user_chat.Base.{
  is_empty, ltb, Option, ℕ, suc, ◌-◌, Bool, true, false, not, ◌||◌, none, some, List, [], ◌∷◌,
  Bytes, length, leb, ◌==◌, c_str, if◌then◌else◌,
}
use multi_user_chat.Crypto.{salt_hex_len, password_hash_hex_len}
use multi_user_chat.Group.{is_some}
use multi_user_chat.Files.{Mkdir, split_last, ensure_directory}
use multi_user_chat.User.{
  UserResult, user_ok, user_err_io, UserStore, valid_username, find_user_locked, insert_user_locked,
  create_user,
}

-- A byte before the first line, or before the first token.
abbrev pub prepend : ℕ → List Bytes → List Bytes
prepend b [] = (b ∷ []) ∷ []
prepend b (line ∷ lines) = (b ∷ line) ∷ lines

-- What `fgets` gives with 512 bytes, call by call; the first call has room for so many more bytes.
unfoldable pub fgets_lines : ℕ → Bytes → List Bytes
fgets_lines room [] = []
fgets_lines room (b ∷ bs) = elim (b == 0x0a || leb room 1) [
  | true ↦ (b ∷ []) ∷ fgets_lines 511 bs
  | false ↦ prepend b (fgets_lines (room - 1) bs)
]

-- The delimiters ":\n".
abbrev pub is_delimiter : ℕ → Bool
is_delimiter b = b == 0x3a || b == 0x0a

abbrev pub starts_token : Bytes → Bool
starts_token [] = false
starts_token (b ∷ bs) = not (is_delimiter b)

-- What `strtok` gives, call by call.
unfoldable pub strtok : Bytes → List Bytes
strtok [] = []
strtok (b ∷ bs) =
    let rest = strtok bs in
    if is_delimiter b then rest else (if starts_token bs then prepend b rest else (b ∷ []) ∷ rest)

-- The body of the loop, from the tokens on.
unfoldable pub load_user : Bool → List Bytes → UserStore → UserStore
load_user allocated (username ∷ salt ∷ hash ∷ _) store =
    if not (valid_username username)
      || (not (length salt == salt_hex_len)
          || (not (length hash == password_hash_hex_len)
              || is_some (find_user_locked store username)))
    then store
    else (if not allocated
        then store
        else elim (insert_user_locked store (create_user username salt hash)) [
          | none ↦ store
          | some store' ↦ store'
        ])
load_user allocated _ store = store

-- The loop; whether `calloc` succeeds is an argument for each line.
unfoldable pub load_users : (ℕ → Bool) → ℕ → List Bytes → UserStore → UserStore
load_users allocated i [] store = store
load_users allocated i (line ∷ lines) store =
    load_users allocated (suc i) lines (load_user (allocated i) (strtok (c_str line)) store)

-- `stat` and `mkdir` as for `ensure_directory`; the result is true for 0.
unfoldable pub ensure_storage_parent : Option Bool → Mkdir → Bytes → Bool
ensure_storage_parent found mkdir path =
    if not (ltb (length path) 512) then false else elim (split_last 0x2f path) [
      | none ↦ true
      | some (dir, _) ↦ if is_empty dir then true else ensure_directory found mkdir dir
    ]

-- What `ensure_storage_parent` gives, and whether the file can be opened, are arguments.
unfoldable pub user_store_load : Bool → Bool → (ℕ → Bool) → UserStore → UserResult × UserStore
user_store_load has_parent opens allocated store =
    if not has_parent
    then (user_err_io, store)
    else (if not opens
        then (user_err_io, store)
        else (user_ok, load_users allocated 0 (fgets_lines 511 store.file) store))
