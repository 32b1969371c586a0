-- ===== src/User/Invariant.antt =====
-- common/user.c: what each operation that writes does to the invariant of the store.
use multi_user_chat.Base.{
  ℕ, zero, suc, ◌<◌, ◌≡◌, ◌⊎◌, refl, ap, ◌∙◌, Bool, true, false, not, ◌||◌, Option, none, some,
  List, [], ◌∷◌, ◌++◌, Bytes, length, set, All, All-append, if◌then◌else◌, arith, Bool-cases,
  Option-cases, inl, inr,
}
use multi_user_chat.Crypto.{generate_salt_hex, hash_password}
use multi_user_chat.Group.{is_some}
use multi_user_chat.User.{
  is_ok, UserResult, user_ok, user_err_io, User, Address, UserStore, user_at, valid_username,
  valid_password, find_user_locked, create_user, Write, written, broken, user_record,
  insert_user_locked, append_user_record, user_store_init,
}
use multi_user_chat.User.Session.{
  update_user, went_online, went_offline, find_fd, add_account, user_store_register,
  user_store_login, user_store_logout_fd,
}
use multi_user_chat.User.Index.{
  IsIndexed, inserted, inserted-IsIndexed, insert_user_locked_lem, user_store_init-IsIndexed,
}
use multi_user_chat.User.Account.{update_user-IsIndexed, find_user_locked_sound}
use multi_user_chat.User.Login.{login_check, login-change}
use multi_user_chat.User.Register.{create_user-username, file-IsIndexed}
use multi_user_chat.User.Descriptor.{find_fd-All}

-- Who is online has a descriptor.
abbrev pub IsConnected : User → Type 0
IsConnected user = (not user.online || is_some user.socket_fd) ≡ true

pub record IsSound (store : UserStore) : Type 0 where
  pub indexed : IsIndexed store
  pub connected : All IsConnected store.heap

pub user_store_init-IsSound : (file : Bytes) → IsSound (user_store_init file)
unfolding user_store_init
user_store_init-IsSound file = record { indexed = user_store_init-IsIndexed file; connected = tt }

All-set :
    (heap : List User) (a : Address) (user : User)
    → All IsConnected heap
    → IsConnected user
    → All IsConnected (set heap a user)
All-set [] a user h k = tt
All-set (x ∷ heap) zero user h k = (k, h.1)
All-set (x ∷ heap) (suc a) user h k = (h.0, All-set heap a user h.1 k)

update_user-IsSound :
    (store : UserStore) (a : Address) (user : User)
    → IsSound store
    → a < length store.heap
    → user.username ≡ (user_at store.heap a).username
    → IsConnected user
    → IsSound (update_user store a user)
update_user-IsSound store a user v inside same k = record {
  indexed = update_user-IsIndexed store a user v.indexed inside same;
  connected = All-set store.heap a user v.connected k;
}

-- The two ends of a registration: the store is as it was, or one account is new, whatever became
-- of its record in the file.
abbrev pub Refused : UserStore → UserResult × UserStore → Type 0
Refused store r = (is_ok r.0 ≡ false) × (r.1 ≡ store)

pub record Added (u : Bytes) (store : UserStore) (r : UserResult × UserStore) : Type 0 where
  pub salt : Bytes
  pub hash : Bytes
  pub file : Bytes
  pub code : (r.0 ≡ user_ok) ⊎ (r.0 ≡ user_err_io)
  pub name : valid_username u ≡ true
  pub new : find_user_locked store u ≡ none
  pub result : r.1 ≡ record (inserted store (create_user u salt hash)) { file = file }

append_user_record-Added :
    (disk : Write) (store : UserStore) (u salt hash : Bytes)
    → valid_username u ≡ true
    → find_user_locked store u ≡ none
    → Added u store (
        append_user_record disk
          (inserted store (create_user u salt hash))
          (create_user u salt hash))
unfolding append_user_record
append_user_record-Added written store u salt hash n new = record {
  salt = salt;
  hash = hash;
  file = store.file ++ user_record (create_user u salt hash);
  code = inl refl;
  name = n;
  new = new;
  result = refl;
}
append_user_record-Added (broken rest) store u salt hash n new = record {
  salt = salt;
  hash = hash;
  file = store.file ++ rest;
  code = inr refl;
  name = n;
  new = new;
  result = refl;
}

pub insert-created :
    (store : UserStore) (u salt hash : Bytes)
    → valid_username u ≡ true
    → find_user_locked store u ≡ none
    → insert_user_locked store (create_user u salt hash)
      ≡ some (inserted store (create_user u salt hash))
insert-created store u salt hash n new =
    insert_user_locked_lem store (create_user u salt hash)
    ∙ ap (λ o. if is_some o then none else some (inserted store (create_user u salt hash)))
        (ap (find_user_locked store) (create_user-username u salt hash n) ∙ new)

add_account-cases :
    (allocated : Bool) (disk : Write) (store : UserStore) (u salt hash : Bytes)
    → valid_username u ≡ true
    → let r = add_account allocated disk store u salt hash in Refused store r ⊎ Added u store r
unfolding add_account
add_account-cases allocated disk store u salt hash n =
    elim (Option-cases (find_user_locked store u)) [
      | inr (a, there) ↦ rw (add_account, there) (inl (refl, refl))
      | inl new ↦ elim (Bool-cases allocated) [
        | inr full ↦ rw (add_account, new, full) (inl (refl, refl))
        | inl room ↦
            rw (add_account, new, room, insert-created store u salt hash n new)
              (inr (append_user_record-Added disk store u salt hash n new))
      ]
    ]

pub user_store_register-cases :
    (sha256 : Bytes → Option Bytes) (random : Option Bytes) (allocated : Bool) (disk : Write)
    (store : UserStore) (u password : Bytes)
    → let r = user_store_register sha256 random allocated disk store u password in
      Refused store r ⊎ Added u store r
unfolding user_store_register
user_store_register-cases sha256 random allocated disk store u password =
    elim (Bool-cases (not (valid_username u) || not (valid_password password))) [
      | inl bad ↦ rw (user_store_register, bad) (inl (refl, refl))
      | inr good ↦
          let n : valid_username u ≡ true = ground (arith, good) in
          elim (Option-cases (generate_salt_hex random)) [
            | inl none_made ↦ rw (user_store_register, good, none_made) (inl (refl, refl))
            | inr (salt, made) ↦ elim (Option-cases (hash_password sha256 password salt)) [
              | inl failed ↦ rw (user_store_register, good, made, failed) (inl (refl, refl))
              | inr (hash, hashed) ↦
                  rw (user_store_register, good, made, hashed)
                    (add_account-cases allocated disk store u salt hash n)
            ]
          ]
    ]

create_user-IsConnected : (u salt hash : Bytes) → IsConnected (create_user u salt hash)
unfolding create_user
create_user-IsConnected u salt hash = refl

pub created-IsSound :
    (store : UserStore) (u salt hash : Bytes)
    → IsSound store
    → valid_username u ≡ true
    → find_user_locked store u ≡ none
    → IsSound (inserted store (create_user u salt hash))
created-IsSound store u salt hash v n new =
    let user = create_user u salt hash in
    let e = create_user-username u salt hash n in
    record {
      indexed =
          inserted-IsIndexed store user v.indexed (ap valid_username e ∙ n)
            (ap (find_user_locked store) e ∙ new);
      connected =
          All-append IsConnected store.heap (user ∷ []) v.connected
            (create_user-IsConnected u salt hash, tt);
    }

Added-IsSound :
    {u : Bytes} {store : UserStore} {r : UserResult × UserStore}
    → IsSound store
    → Added u store r
    → IsSound r.1
Added-IsSound {u} {store} v a =
    let w = created-IsSound store u a.salt a.hash v a.name a.new in
    rw a.result (record {
      indexed = file-IsIndexed (inserted store (create_user u a.salt a.hash)) a.file w.indexed;
      connected = w.connected;
    })

pub user_store_register-IsSound :
    (sha256 : Bytes → Option Bytes) (random : Option Bytes) (allocated : Bool) (disk : Write)
    (store : UserStore) (u password : Bytes)
    → IsSound store
    → IsSound (user_store_register sha256 random allocated disk store u password).1
user_store_register-IsSound sha256 random allocated disk store u password v =
    elim (user_store_register-cases sha256 random allocated disk store u password) [
      | inl (_, same) ↦ rw same v
      | inr a ↦ Added-IsSound v a
    ]

pub user_store_login-IsSound :
    (sha256 : Bytes → Option Bytes) (store : UserStore) (u password : Bytes) (fd : ℕ)
    → IsSound store
    → IsSound (user_store_login sha256 store u password fd).1
user_store_login-IsSound sha256 store u password fd v =
    rw (login-change sha256 store u password fd)
      (elim (Bool-cases (is_ok (login_check sha256 store u password))) [
        | inr bad ↦ rw bad v
        | inl good ↦ elim (Option-cases (find_user_locked store u)) [
          | inl gone ↦ rw (good, gone) v
          | inr (a, found) ↦
              let (_, _, _, inside) = find_user_locked_sound store u a v.indexed found in
              rw (good, found)
                (update_user-IsSound store a (went_online fd (user_at store.heap a)) v inside refl
                  refl)
        ]
      ])

pub user_store_logout_fd-IsSound :
    (store : UserStore) (fd : ℕ) → IsSound store → IsSound (user_store_logout_fd store fd).1
unfolding user_store_logout_fd
user_store_logout_fd-IsSound store fd v = elim (Option-cases (find_fd store.heap store.head fd)) [
  | inl gone ↦ rw (user_store_logout_fd, gone) v
  | inr (a, found) ↦
      let inside =
        find_fd-All (λ b. b < length store.heap) store.heap store.head fd a v.indexed.allocated
          found in
      rw (user_store_logout_fd, found)
        (update_user-IsSound store a (went_offline (user_at store.heap a)) v inside refl refl)
]
