-- ===== src/User/Register.antt =====
-- common/user.c: registering, and a login after it.
use multi_user_chat.Base.{
  ℕ, ◌≡◌, refl, sym, ap, ap₂, ◌∙◌, Bool, true, false, Option, none, some, ◌++◌, Bytes, take-all,
  str_eq, str_eq_refl, if◌then◌else◌, arith, Option-cases, inl, inr,
}
use multi_user_chat.Crypto.{generate_salt_hex, hash_password, verify_password}
use multi_user_chat.Crypto.Hex.{length-salt, verify_password-hash_password}
use multi_user_chat.User.{
  user_ok, user_err_not_found, user_err_offline, User, UserStore, valid_username, valid_password,
  find_user_locked, create_user, Write, written, broken, append_user_record, user_record,
}
use multi_user_chat.User.Index.{IsIndexed, inserted, inserted-IsIndexed, insert_user_locked_lem}
use multi_user_chat.User.Account.{account, account_at, account-inserted}
use multi_user_chat.User.Session.{went_online, add_account, user_store_register, user_store_login}
use multi_user_chat.User.Login.{login_check, user_store_login_lem, user_store_get_fd_lem}
use multi_user_chat.User.Query.{user_store_get_fd}

-- What a success of `user_store_register` has done.
pub record Registered (sha256 : Bytes → Option Bytes) (store : UserStore) (u password : Bytes)
    (store' : UserStore) : Type 0 where
  pub salt : Bytes
  pub hash : Bytes
  pub hashed : hash_password sha256 password salt ≡ some hash
  pub name : valid_username u ≡ true
  pub word : valid_password password ≡ true
  pub new : find_user_locked store u ≡ none
  pub result : store' ≡ record (inserted store (create_user u salt hash)) {
    file = store.file ++ user_record (create_user u salt hash);
  }

pub create_user-username :
    (u salt hash : Bytes) → valid_username u ≡ true → (create_user u salt hash).username ≡ u
unfolding create_user valid_username
create_user-username u salt hash h = take-all 31 u (ground arith)

add_account-ok :
    (allocated : Bool) (disk : Write) (store : UserStore) (u salt hash : Bytes)
    → (add_account allocated disk store u salt hash).0 ≡ user_ok
    → (find_user_locked store u ≡ none)
      × ((add_account allocated disk store u salt hash).1
          ≡ record (inserted store (create_user u salt hash)) {
            file = store.file ++ user_record (create_user u salt hash);
          })
unfolding add_account append_user_record
add_account-ok allocated written store u salt hash h =
    ground (arith, insert_user_locked_lem store (create_user u salt hash))
add_account-ok allocated (broken rest) store u salt hash h =
    ground (arith, insert_user_locked_lem store (create_user u salt hash))

register-add_account :
    (sha256 : Bytes → Option Bytes) (random : Option Bytes) (allocated : Bool) (disk : Write)
    (store : UserStore) (u password : Bytes)
    → (user_store_register sha256 random allocated disk store u password).0 ≡ user_ok
    → (valid_username u ≡ true)
      × (valid_password password ≡ true)
      × ((salt : Bytes) × (hash : Bytes) × (hash_password sha256 password salt ≡ some hash)
          × (user_store_register sha256 random allocated disk store u password
              ≡ add_account allocated disk store u salt hash))
unfolding user_store_register
register-add_account sha256 random allocated disk store u password h = (
  ground arith,
  ground arith,
  elim (Option-cases (generate_salt_hex random)) [
    | inl bad ↦ absurd (ground arith)
    | inr (salt, made) ↦ elim (Option-cases (hash_password sha256 password salt)) [
      | inl bad ↦ absurd (ground arith)
      | inr (hash, hashed) ↦ (salt, hash, hashed, ground arith)
    ]
  ],
)

pub user_store_register-Registered :
    (sha256 : Bytes → Option Bytes) (random : Option Bytes) (allocated : Bool) (disk : Write)
    (store : UserStore) (u password : Bytes)
    → (user_store_register sha256 random allocated disk store u password).0 ≡ user_ok
    → Registered sha256 store u password
        (user_store_register sha256 random allocated disk store u password).1
user_store_register-Registered sha256 random allocated disk store u password h =
    let (name, word, made) = register-add_account sha256 random allocated disk store u password h in
    let (salt, hash, hashed, eq) = made in
    let (new, result) =
      add_account-ok allocated disk store u salt hash (ap (λ r. r.0) (sym eq) ∙ h) in
    record {
      salt = salt;
      hash = hash;
      hashed = hashed;
      name = name;
      word = word;
      new = new;
      result = ap (λ r. r.1) eq ∙ result;
    }

-- The file is no part of the map.
account-file :
    (store : UserStore) (file w : Bytes)
    → account (record store { file = file }) w ≡ account store w
unfolding find_user_locked
account-file store file w = refl

pub file-IsIndexed :
    (store : UserStore) (file : Bytes) → IsIndexed store → IsIndexed (record store { file = file })
file-IsIndexed store file v = record {
  allocated = v.allocated;
  size = v.size;
  index = v.index;
  named = v.named;
  unique = v.unique;
}

module _ (sha256 : Bytes → Option Bytes) {store store' : UserStore} {u password : Bytes}
    (v : IsIndexed store) (r : Registered sha256 store u password store') where
  abbrev registered : User
  registered = create_user u r.salt r.hash

  username-registered : registered.username ≡ u
  username-registered = create_user-username u r.salt r.hash r.name

  Registered-account :
      (w : Bytes) → account store' w ≡ (if str_eq u w then some registered else account store w)
  Registered-account w =
      ap (λ s. account s w) r.result
      ∙ account-file (inserted store registered) (store.file ++ user_record registered) w
      ∙ (account-inserted store registered w v (ap valid_username username-registered ∙ r.name)
            (ap (find_user_locked store) username-registered ∙ r.new)
          ∙ ap (λ n. if str_eq n w then some registered else account store w) username-registered)

  Registered-IsIndexed : IsIndexed store'
  Registered-IsIndexed = rw r.result (
      file-IsIndexed (inserted store registered) (store.file ++ user_record registered) (
        inserted-IsIndexed store registered v (ap valid_username username-registered ∙ r.name)
          (ap (find_user_locked store) username-registered ∙ r.new)))

  salt-registered : registered.salt ≡ r.salt
  unfolding create_user
  salt-registered =
      take-all 32 r.salt (omega (arith, length-salt sha256 password r.salt r.hash r.hashed))

  hash-registered : registered.password_hash ≡ r.hash
  unfolding create_user
  hash-registered =
      take-all 64 r.hash
        (omega (arith, (verify_password-hash_password sha256 password r.salt r.hash r.hashed).0))

  offline-registered : registered.online ≡ false
  unfolding create_user
  offline-registered = refl

  verify-registered :
      verify_password sha256 password registered.salt registered.password_hash ≡ true
  verify-registered =
      ap₂ (verify_password sha256 password) salt-registered hash-registered
      ∙ (verify_password-hash_password sha256 password r.salt r.hash r.hashed).1

-- In an indexed store a successful `user_store_register` adds one new account, offline, whose salt
-- and hash verify the password; it leaves every other account as it is, appends one line to the
-- file and keeps the store indexed.
pub user_store_register_lem :
    (sha256 : Bytes → Option Bytes) (random : Option Bytes) (allocated : Bool) (disk : Write)
    (store : UserStore) (u password : Bytes)
    → IsIndexed store
    → (user_store_register sha256 random allocated disk store u password).0 ≡ user_ok
    → let store' = (user_store_register sha256 random allocated disk store u password).1 in
      (user : User) × ((w : Bytes)
        → account store' w ≡ (if str_eq u w then some user else account store w))
      × (account store u ≡ none)
      × (user.username ≡ u)
      × (verify_password sha256 password user.salt user.password_hash ≡ true)
      × (user.online ≡ false)
      × (store'.file ≡ store.file ++ user_record user)
      × IsIndexed store'
user_store_register_lem sha256 random allocated disk store u password v h =
    let r = user_store_register-Registered sha256 random allocated disk store u password h in
    (
      create_user u r.salt r.hash,
      Registered-account sha256 v r,
      ap (account_at store.heap) r.new,
      username-registered sha256 v r,
      verify-registered sha256 v r,
      offline-registered sha256 v r,
      ap (λ s. s.file) r.result,
      Registered-IsIndexed sha256 v r,
    )

-- In an indexed store, who has just registered can log in with the same password, and is then
-- found under the descriptor of that login.
pub user_store_login-user_store_register :
    (sha256 : Bytes → Option Bytes) (random : Option Bytes) (allocated : Bool) (disk : Write)
    (store : UserStore) (u password : Bytes) (fd : ℕ)
    → IsIndexed store
    → (user_store_register sha256 random allocated disk store u password).0 ≡ user_ok
    → let store' = (user_store_register sha256 random allocated disk store u password).1 in
      let (rc, store'') = user_store_login sha256 store' u password fd in
      (rc ≡ user_ok) × (user_store_get_fd store'' u ≡ (user_ok, some fd))
user_store_login-user_store_register sha256 random allocated disk store u password fd v h =
    let store' = (user_store_register sha256 random allocated disk store u password).1 in
    let r = user_store_register-Registered sha256 random allocated disk store u password h in
    let found : account store' u ≡ some (create_user u r.salt r.hash) =
      Registered-account sha256 v r u ∙ rw (str_eq_refl u) in
    let (rc, accounts, _) =
      user_store_login_lem sha256 store' u password fd (Registered-IsIndexed sha256 v r) in
    let good : login_check sha256 store' u password ≡ user_ok =
      rw (found, r.name, r.word, verify-registered sha256 v r, offline-registered sha256 v r) in
    let ends = rc ∙ good in
    let store'' = (user_store_login sha256 store' u password fd).1 in
    let seen : account store'' u ≡ some (went_online fd (create_user u r.salt r.hash)) =
      accounts u ∙ rw (ends, str_eq_refl u, found) in
    (
      ends,
      user_store_get_fd_lem store'' u r.name
          ∙ ap
              (λ o. elim o [
                | none ↦ (user_err_not_found, none)
                | some user ↦
                    if user.online then (user_ok, user.socket_fd) else (user_err_offline, none)
              ])
              seen,
    )
