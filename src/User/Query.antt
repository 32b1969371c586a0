-- ===== src/User/Query.antt =====
-- common/user.c: the operations that only read the store.
use multi_user_chat.Base.{
  ℕ, zero, suc, ◌+◌, ◌-◌, Bool, true, false, not, Option, none, some, List, [], ◌∷◌, ◌++◌, Bytes,
  bytes, length, take, leb, ◌==◌, copy_fixed, if◌then◌else◌,
}
use multi_user_chat.Group.{is_some}
use multi_user_chat.User.{
  UserResult, user_ok, user_err_not_found, user_err_offline, user_err_invalid, user_err_io, User,
  Address, UserStore, user_at, valid_username, find_user_locked,
}
use multi_user_chat.User.Session.{find_fd}

unfoldable pub user_store_has_user : UserStore → Bytes → Bool
user_store_has_user store username =
    if valid_username username then is_some (find_user_locked store username) else false

-- The option is what is written through `socket_fd`.
unfoldable pub user_store_get_fd : UserStore → Bytes → UserResult × Option ℕ
user_store_get_fd store username =
    if not (valid_username username)
    then (user_err_invalid, none)
    else elim (find_user_locked store username) [
      | none ↦ (user_err_not_found, none)
      | some a ↦
          if not (user_at store.heap a).online
          then (user_err_offline, none)
          else (user_ok, (user_at store.heap a).socket_fd)
    ]

-- The loop of `user_store_online_list`: the text so far, of `used` bytes, and the number of names.
unfoldable pub list_loop : List User → List Address → ℕ → Bytes → ℕ → UserResult × Bytes × ℕ
list_loop heap [] out_size text count = (user_ok, text, count)
list_loop heap (a ∷ chain) out_size text count = elim (user_at heap a).online [
  | false ↦ list_loop heap chain out_size text count
  | true ↦
      let piece = (if count == 0 then [] else 0x0a ∷ []) ++ (user_at heap a).username in
      elim (leb (out_size - length text) (length piece)) [
        | true ↦ (user_err_io, text ++ take (out_size - length text - 1) piece, count)
        | false ↦ list_loop heap chain out_size (text ++ piece) (count + 1)
      ]
]

abbrev pub nobody_online : Bytes
nobody_online = bytes "当前没有在线用户"

-- The text in `out`; `out_size` is not 0.
unfoldable pub user_store_online_list : UserStore → ℕ → UserResult × Bytes
user_store_online_list store out_size =
    let (rc, text, count) = list_loop store.heap store.head out_size [] 0 in
    elim rc [
      | user_ok ↦ (user_ok, if count == 0 then copy_fixed out_size nobody_online else text)
      | error ↦ (error, text)
    ]

-- The descriptor that the loop takes from one user.
abbrev pub other_fd : ℕ → User → Option ℕ
other_fd except_fd user =
    if user.online
    then elim user.socket_fd [ none ↦ none | some fd ↦ if fd == except_fd then none else some fd ]
    else none

-- The loop of `user_store_snapshot_online_fds`, with `room` for so many more descriptors.
unfoldable pub snapshot_loop : List User → List Address → ℕ → ℕ → List ℕ
snapshot_loop heap [] except_fd room = []
snapshot_loop heap (a ∷ chain) except_fd zero = []
snapshot_loop heap (a ∷ chain) except_fd (suc room) = elim (other_fd except_fd (user_at heap a)) [
  | none ↦ snapshot_loop heap chain except_fd (suc room)
  | some fd ↦ fd ∷ snapshot_loop heap chain except_fd room
]

-- The descriptors in `fds`; their number is `*count`.
unfoldable pub user_store_snapshot_online_fds : UserStore → ℕ → ℕ → List ℕ
user_store_snapshot_online_fds store except_fd max_fds =
    snapshot_loop store.heap store.head except_fd max_fds

unfoldable pub user_store_username_by_fd : UserStore → ℕ → ℕ → UserResult × Bytes
user_store_username_by_fd store socket_fd out_size =
    elim (find_fd store.heap store.head socket_fd) [
      | none ↦ (user_err_not_found, [])
      | some a ↦ (user_ok, copy_fixed out_size (user_at store.heap a).username)
    ]
