-- ===== src/User/Login.antt =====
-- common/user.c: logging in and logging out, as they change the map of accounts.
use multi_user_chat.Base.{
  ℕ, ◌≡◌, refl, ap, ◌∙◌, true, false, not, ◌&&◌, Option, none, some, Bytes, str_eq, str_eq_iff,
  if◌then◌else◌, arith, Bool-cases, Option-cases, inl, inr,
}
use multi_user_chat.Crypto.{verify_password}
use multi_user_chat.User.{
  is_ok, UserResult, user_ok, user_err_not_found, user_err_bad_password, user_err_already_online,
  user_err_offline, user_err_invalid, User, Address, UserStore, user_at, valid_username,
  valid_password, find_user_locked,
}
use multi_user_chat.User.Index.{IsIndexed}
use multi_user_chat.User.Account.{
  account, find_user_locked_sound, update_user-IsIndexed, account-update_user,
}
use multi_user_chat.User.Session.{
  update_user, went_online, went_offline, user_store_login, user_store_logout,
}
use multi_user_chat.User.Query.{user_store_get_fd}

-- A change to the node at an address, if there is one.
abbrev pub change : (User → User) → UserStore → Option Address → UserStore
change f store none = store
change f store (some a) = update_user store a (f (user_at store.heap a))

abbrev pub changed : (User → User) → Option User → Option User
changed f none = none
changed f (some user) = some (f user)

-- A change of the node of a name that keeps the name is a change of that account alone.
account-change :
    (f : User → User) (store : UserStore) (u w : Bytes)
    → ((user : User) → (f user).username ≡ user.username)
    → IsIndexed store
    → account (change f store (find_user_locked store u)) w
      ≡ (if str_eq u w then changed f (account store u) else account store w)
account-change f store u w keep v = elim (Option-cases (find_user_locked store u)) [
  | inl gone ↦ ground (arith, gone, str_eq_iff u w, ap (find_user_locked store) {x = u} {y = w})
  | inr (a, found) ↦
      let (_, _, named, _) = find_user_locked_sound store u a v found in
      rw found (
        account-update_user store u a (f (user_at store.heap a)) w v found
          (keep (user_at store.heap a) ∙ named))
]

change-IsIndexed :
    (f : User → User) (store : UserStore) (u : Bytes)
    → ((user : User) → (f user).username ≡ user.username)
    → IsIndexed store
    → IsIndexed (change f store (find_user_locked store u))
change-IsIndexed f store u keep v = elim (Option-cases (find_user_locked store u)) [
  | inl gone ↦ rw gone v
  | inr (a, found) ↦
      let (_, _, _, inside) = find_user_locked_sound store u a v found in
      rw found (
        update_user-IsIndexed store a (f (user_at store.heap a)) v inside
          (keep (user_at store.heap a)))
]

module _ (sha256 : Bytes → Option Bytes) where
  -- The result of a login, by the account with the name.
  abbrev pub login_result : Option User → Bytes → UserResult
  login_result none password = user_err_not_found
  login_result (some user) password =
      if not (verify_password sha256 password user.salt user.password_hash)
      then user_err_bad_password
      else (if user.online then user_err_already_online else user_ok)

  abbrev pub login_check : UserStore → Bytes → Bytes → UserResult
  login_check store u password =
      if valid_username u && valid_password password
      then login_result (account store u) password
      else user_err_invalid

  pub login-change :
      (store : UserStore) (u password : Bytes) (fd : ℕ)
      → user_store_login sha256 store u password fd ≡ (
        login_check store u password,
        if is_ok (login_check store u password)
            then change (went_online fd) store (find_user_locked store u)
            else store,
      )
  unfolding user_store_login
  login-change store u password fd = elim (Option-cases (find_user_locked store u)) [
    | inl gone ↦ ground (arith, gone)
    | inr (a, found) ↦ ground (arith, found)
  ]

  -- In an indexed store `user_store_login` decides by the account with the name alone: invalid
  -- input, no account, wrong password, already online, in this order; on success that account is
  -- online with the descriptor and every other is as before; on failure all are as before.
  pub user_store_login_lem :
      (store : UserStore) (u password : Bytes) (fd : ℕ)
      → IsIndexed store
      → let (rc, store') = user_store_login sha256 store u password fd in
        (rc ≡ login_check store u password)
        × ((w : Bytes)
            → account store' w ≡ (
                if is_ok rc && str_eq u w
                then changed (went_online fd) (account store u)
                else account store w))
        × IsIndexed store'
  user_store_login_lem store u password fd v =
      rw (login-change store u password fd)
        (elim (Bool-cases (is_ok (login_check store u password))) [
          | inl good ↦ rw good (
            refl,
            (λ w. account-change (went_online fd) store u w (λ _. refl) v),
            change-IsIndexed (went_online fd) store u (λ _. refl) v,
          )
          | inr bad ↦ rw bad (refl, (λ w. refl), v)
        ])

find-invalid :
    (store : UserStore) (u : Bytes) → valid_username u ≡ false → find_user_locked store u ≡ none
unfolding find_user_locked
find-invalid store u h = rw h

logout-change :
    (store : UserStore) (u : Bytes)
    → user_store_logout store u ≡ (
      (if valid_username u
          then (elim (account store u) [ none ↦ user_err_not_found | some _ ↦ user_ok ])
          else user_err_invalid),
      change went_offline store (find_user_locked store u),
    )
unfolding user_store_logout
logout-change store u = elim (Option-cases (find_user_locked store u)) [
  | inl gone ↦ ground (arith, gone)
  | inr (a, found) ↦ ground (arith, found, find-invalid store u)
]

-- In an indexed store `user_store_logout` makes the account with the name offline, online or not,
-- and changes no other; without such an account nothing changes.
pub user_store_logout_lem :
    (store : UserStore) (u : Bytes)
    → IsIndexed store
    → let (rc, store') = user_store_logout store u in
      (rc ≡ (
        if valid_username u
        then (elim (account store u) [ none ↦ user_err_not_found | some _ ↦ user_ok ])
        else user_err_invalid))
      × ((w : Bytes)
          → account store' w
            ≡ (if str_eq u w then changed went_offline (account store u) else account store w))
      × IsIndexed store'
user_store_logout_lem store u v = rw (logout-change store u) (
  refl,
  (λ w. account-change went_offline store u w (λ _. refl) v),
  change-IsIndexed went_offline store u (λ _. refl) v,
)

-- `user_store_get_fd` reads the account with the name.
pub user_store_get_fd_lem :
    (store : UserStore) (u : Bytes)
    → valid_username u ≡ true
    → user_store_get_fd store u ≡ (elim (account store u) [
      | none ↦ (user_err_not_found, none)
      | some user ↦ if user.online then (user_ok, user.socket_fd) else (user_err_offline, none)
    ])
unfolding user_store_get_fd
user_store_get_fd_lem store u n = elim (Option-cases (find_user_locked store u)) [
  | inl gone ↦ ground (arith, n, gone)
  | inr (a, found) ↦ ground (arith, n, found)
]
