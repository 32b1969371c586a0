-- ===== src/User.antt =====
-- common/user.c: the store of users. A user is a node on the heap that two chains share: the list
-- from `head` through `next`, and the chain of its hash bucket through `hash_next`. The model keeps
-- the nodes in a heap, where an address is a position, and each chain as its list of addresses, so
-- that a write through one chain is seen through the other. Nodes are freed only with the store.
-- A char array is modelled by the string that it holds; a file descriptor of -1 is `none`.
pub mod Session
pub mod Query
pub mod Index
pub mod Account
pub mod Login
pub mod Register
pub mod Descriptor
pub mod Invariant
pub mod Online
pub mod Failure
pub mod Load
pub mod Record
pub mod Reload
mod Tests
use multi_user_chat.Base.{
  is_empty, ℕ, zero, suc, ◌+◌, ◌-◌, ◌*◌, ◌%◌, ◌^◌, ◌≡◌, Bool, true, false, not, ◌&&◌, ◌||◌, Option,
  none, some, List, [], ◌∷◌, ◌++◌, Bytes, length, get_or, set, replicate, ltb, leb, ◌==◌, str_eq,
  contains, copy_fixed, if◌then◌else◌,
}
use multi_user_chat.Limits.{username_max_len, password_max_len}
use multi_user_chat.Group.{is_some}
use multi_user_chat.Crypto.{salt_hex_len, password_hash_hex_len}
use Prim.Native.String.{String}

abbrev pub user_hash_buckets : ℕ
user_hash_buckets = 101

-- USER_OK and USER_ERR_*
pub data UserResult : Type 0 where
  user_ok user_err_exists user_err_not_found user_err_bad_password user_err_already_online
        user_err_offline :
      UserResult
  user_err_invalid user_err_io : UserResult

abbrev pub is_ok : UserResult → Bool
is_ok user_ok = true
is_ok _ = false

pub record User : Type 0 where
  pub username : Bytes
  pub salt : Bytes
  pub password_hash : Bytes
  pub socket_fd : Option ℕ
  pub online : Bool

abbrev pub Address : Type 0
Address = ℕ

pub record UserStore : Type 0 where
  pub heap : List User
  pub head : List Address
  pub buckets : List (List Address)
  pub file : Bytes

abbrev pub no_user : User
no_user = record { username = []; salt = []; password_hash = []; socket_fd = none; online = false }

abbrev pub user_at : List User → Address → User
user_at heap a = get_or heap a no_user

-- `int c = *username`: a `char` is signed, so a byte from 128 on is negative, and is added to an
-- `unsigned int` modulo 2^32.
abbrev pub char_value : ℕ → ℕ
char_value c = if ltb c 128 then c else c + 2 ^ 32 - 256

-- The loop of `hash_username`.
unfoldable pub hash_loop : ℕ → Bytes → ℕ
hash_loop hash [] = hash
hash_loop hash (c ∷ cs) =
    hash_loop (((hash * 2 ^ 5 % 2 ^ 32 + hash) % 2 ^ 32 + char_value c) % 2 ^ 32) cs

unfoldable pub hash_username : Bytes → ℕ
hash_username username = hash_loop 5381 username % user_hash_buckets

unfoldable pub valid_username : Bytes → Bool
valid_username username =
    not (is_empty username)
    && (ltb (length username) username_max_len
        && (not (contains 0x3a username) && not (contains 0x0a username)))

unfoldable pub valid_password : Bytes → Bool
valid_password password =
    not (is_empty password)
    && (ltb (length password) password_max_len && not (contains 0x0a password))

-- A walk along a chain to the first node with the name.
unfoldable pub find_in : List User → List Address → Bytes → Option Address
find_in heap [] username = none
find_in heap (a ∷ chain) username =
    if str_eq (user_at heap a).username username then some a else find_in heap chain username

unfoldable pub find_user_locked : UserStore → Bytes → Option Address
find_user_locked store username =
    if valid_username username
    then find_in store.heap (get_or store.buckets (hash_username username) []) username
    else none

-- The node gets the next address. `none` is -1.
unfoldable pub insert_user_locked : UserStore → User → Option UserStore
insert_user_locked store user =
    if is_some (find_user_locked store user.username)
    then none
    else (let a = length store.heap in
        let bucket = hash_username user.username in
        some (record store {
          heap = store.heap ++ (user ∷ []);
          head = a ∷ store.head;
          buckets = set store.buckets bucket (a ∷ get_or store.buckets bucket []);
        }))

unfoldable pub create_user : Bytes → Bytes → Bytes → User
create_user username salt hash = record {
  username = copy_fixed username_max_len username;
  salt = copy_fixed (salt_hex_len + 1) salt;
  password_hash = copy_fixed (password_hash_hex_len + 1) hash;
  socket_fd = none;
  online = false;
}

-- How the calls of stdio go: all well, or a failure, with what reached the file before it.
pub data Write : Type 0 where
  written : Write
  broken : Bytes → Write

abbrev pub user_record : User → Bytes
user_record user =
    user.username ++ (0x3a ∷ (user.salt ++ (0x3a ∷ (user.password_hash ++ (0x0a ∷ [])))))

unfoldable pub append_user_record : Write → UserStore → User → UserResult × UserStore
append_user_record written store user =
    (user_ok, record store { file = store.file ++ user_record user })
append_user_record (broken rest) store user =
    (user_err_io, record store { file = store.file ++ rest })

-- The empty store; `file` is what the storage file holds.
unfoldable pub user_store_init : Bytes → UserStore
user_store_init file = record {
  heap = [];
  head = [];
  buckets = replicate user_hash_buckets [];
  file = file;
}

-- The nodes that are freed, in this order, and the zeroed store; the storage file stays.
unfoldable pub user_store_destroy : UserStore → List Address × UserStore
user_store_destroy store = (
  store.head,
  record { heap = []; head = []; buckets = replicate user_hash_buckets []; file = store.file },
)

unfoldable pub user_result_message : UserResult → String
user_result_message user_ok = "成功"
user_result_message user_err_exists = "用户名已存在"
user_result_message user_err_not_found = "用户不存在"
user_result_message user_err_bad_password = "密码错误"
user_result_message user_err_already_online = "用户已经在线"
user_result_message user_err_offline = "用户不在线"
user_result_message user_err_invalid = "输入不合法"
user_result_message user_err_io = "系统读写错误"
