-- ===== src/User/Failure.antt =====
-- common/user.c: what a `user_store_register` that fails leaves behind.
use multi_user_chat.Base.{
  ◌≡◌, ◌⊎◌, refl, ap, ◌∙◌, Bool, true, false, Option, none, some, Bytes, length, str_eq,
  str_eq_refl, if◌then◌else◌, inl, inr,
}
use multi_user_chat.User.{
  is_ok, UserResult, user_err_io, UserStore, Write, valid_username, find_user_locked, create_user,
}
use multi_user_chat.User.Session.{user_store_register}
use multi_user_chat.User.Index.{IsIndexed, inserted}
use multi_user_chat.User.Account.{find_user_locked-inserted}
use multi_user_chat.User.Register.{create_user-username}
use multi_user_chat.User.Invariant.{Added, user_store_register-cases}

-- The account is in memory, although the client was told that it is not.
pub record Orphaned (u : Bytes) (store : UserStore) (r : UserResult × UserStore) : Type 0 where
  pub code : r.0 ≡ user_err_io
  pub new : find_user_locked store u ≡ none
  pub there : find_user_locked r.1 u ≡ some (length store.heap)

found_in_file :
    (store : UserStore) (file u : Bytes)
    → find_user_locked (record store { file = file }) u ≡ find_user_locked store u
unfolding find_user_locked
found_in_file store file u = refl

Added-Orphaned :
    (store : UserStore) (u : Bytes) (r : UserResult × UserStore)
    → IsIndexed store
    → is_ok r.0 ≡ false
    → Added u store r
    → Orphaned u store r
Added-Orphaned store u r v failed a =
    let user = create_user u a.salt a.hash in
    let e = create_user-username u a.salt a.hash a.name in
    let same : str_eq user.username u ≡ true = ap (λ n. str_eq n u) e ∙ str_eq_refl u in
    record {
      code = elim a.code [ inl good ↦ absurd (cc) | inr bad ↦ bad ];
      new = a.new;
      there =
          ap (λ s. find_user_locked s u) a.result
          ∙ found_in_file (inserted store user) a.file u
          ∙ find_user_locked-inserted store user u v (ap valid_username e ∙ a.name)
              (ap (find_user_locked store) e ∙ a.new)
          ∙ ap (λ b. if b then some (length store.heap) else find_user_locked store u) same;
    }

-- In an indexed store a `user_store_register` that fails leaves the store as it was, or else the
-- result is USER_ERR_IO, the name was free, and its new account is found in the store all the
-- same.
pub user_store_register-failed :
    (sha256 : Bytes → Option Bytes) (random : Option Bytes) (allocated : Bool) (disk : Write)
    (store : UserStore) (u password : Bytes)
    → IsIndexed store
    → is_ok (user_store_register sha256 random allocated disk store u password).0 ≡ false
    → let r = user_store_register sha256 random allocated disk store u password in
      (r.1 ≡ store) ⊎ Orphaned u store r
user_store_register-failed sha256 random allocated disk store u password v failed =
    elim (user_store_register-cases sha256 random allocated disk store u password) [
      | inl refused ↦ inl refused.1
      | inr a ↦ inr (Added-Orphaned store u _ v failed a)
    ]
