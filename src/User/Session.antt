-- ===== src/User/Session.antt =====
-- common/user.c: the operations that change the store. Each is one critical section under the
-- store's mutex, so a call is one step.
use multi_user_chat.Base.{
  ℕ, Bool, true, false, not, ◌&&◌, ◌||◌, Option, none, some, List, [], ◌∷◌, Bytes, set, ◌==◌,
  if◌then◌else◌,
}
use multi_user_chat.User.{
  UserResult, user_ok, user_err_exists, user_err_not_found, user_err_bad_password,
  user_err_already_online, user_err_invalid, user_err_io, User, Address, UserStore, user_at,
  valid_username, valid_password, find_user_locked, insert_user_locked, create_user, Write,
  append_user_record,
}
use multi_user_chat.Crypto.{generate_salt_hex, hash_password, verify_password}

-- A write to the node at an address.
abbrev pub update_user : UserStore → Address → User → UserStore
update_user store a user = record store { heap = set store.heap a user }

abbrev pub went_online : ℕ → User → User
went_online fd user = record user { online = true; socket_fd = some fd }

abbrev pub went_offline : User → User
went_offline user = record user { online = false; socket_fd = none }

-- `user->online && user->socket_fd == fd`
abbrev pub has_fd : ℕ → User → Bool
has_fd fd user = user.online && elim user.socket_fd [ none ↦ false | some k ↦ k == fd ]

-- The first node of a chain that is online with the descriptor.
unfoldable pub find_fd : List User → List Address → ℕ → Option Address
find_fd heap [] fd = none
find_fd heap (a ∷ chain) fd = if has_fd fd (user_at heap a) then some a else find_fd heap chain fd

-- The part of `user_store_register` under the lock.
unfoldable pub add_account :
    Bool → Write → UserStore → Bytes → Bytes → Bytes → UserResult × UserStore
add_account allocated disk store username salt hash = elim (find_user_locked store username) [
  | some _ ↦ (user_err_exists, store)
  | none ↦
      if not allocated
      then (user_err_io, store)
      else (let user = create_user username salt hash in
          elim (insert_user_locked store user) [
            | none ↦ (user_err_io, store)
            | some store' ↦ append_user_record disk store' user
          ])
]

-- `random` is what RAND_bytes gives, `allocated` tells whether calloc succeeds, and `disk` how the
-- write to the storage file goes.
module _ (sha256 : Bytes → Option Bytes) where
  unfoldable pub user_store_register :
      Option Bytes → Bool → Write → UserStore → Bytes → Bytes → UserResult × UserStore
  user_store_register random allocated disk store username password =
      if not (valid_username username) || not (valid_password password)
      then (user_err_invalid, store)
      else elim (generate_salt_hex random) [
        | none ↦ (user_err_io, store)
        | some salt ↦ elim (hash_password sha256 password salt) [
          | none ↦ (user_err_io, store)
          | some hash ↦ add_account allocated disk store username salt hash
        ]
      ]

  unfoldable pub user_store_login : UserStore → Bytes → Bytes → ℕ → UserResult × UserStore
  user_store_login store username password socket_fd =
      if not (valid_username username) || not (valid_password password)
      then (user_err_invalid, store)
      else elim (find_user_locked store username) [
        | none ↦ (user_err_not_found, store)
        | some a ↦
            let user = user_at store.heap a in
            if not (verify_password sha256 password user.salt user.password_hash)
            then (user_err_bad_password, store)
            else (if user.online
                then (user_err_already_online, store)
                else (user_ok, update_user store a (went_online socket_fd user)))
      ]

unfoldable pub user_store_logout : UserStore → Bytes → UserResult × UserStore
user_store_logout store username =
    if not (valid_username username)
    then (user_err_invalid, store)
    else elim (find_user_locked store username) [
      | none ↦ (user_err_not_found, store)
      | some a ↦ (user_ok, update_user store a (went_offline (user_at store.heap a)))
    ]

unfoldable pub user_store_logout_fd : UserStore → ℕ → UserResult × UserStore
user_store_logout_fd store socket_fd = elim (find_fd store.heap store.head socket_fd) [
  | none ↦ (user_err_not_found, store)
  | some a ↦ (user_ok, update_user store a (went_offline (user_at store.heap a)))
]
