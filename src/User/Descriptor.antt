-- ===== src/User/Descriptor.antt =====
-- common/user.c: the operations that look for a descriptor.
use multi_user_chat.Base.{
  ℕ, ◌<◌, ◌≡◌, ◌⊎◌, subst, refl, sym, ap, ◌∙◌, true, false, none, some, List, [], ◌∷◌, Bytes,
  length, All, str_eq, str_eq_iff, str_eq_refl, copy_fixed, take-all, if◌then◌else◌, arith,
  Bool-cases, Option-cases, inl, inr,
}
use multi_user_chat.Group.Member.{Distinct, elem}
use multi_user_chat.User.{
  UserResult, user_ok, user_err_not_found, User, Address, UserStore, user_at, valid_username,
  find_in, find_user_locked,
}
use multi_user_chat.User.Index.{IsIndexed, name_at, names, find_user_locked_lem}
use multi_user_chat.User.Account.{update_user-IsIndexed}
use multi_user_chat.User.Session.{
  find_fd, update_user, went_offline, user_store_logout, user_store_logout_fd,
}
use multi_user_chat.User.Query.{user_store_username_by_fd}

find_fd-cons :
    (heap : List User) (b : Address) (chain : List Address) (fd : ℕ) (a : Address)
    → find_fd heap (b ∷ chain) fd ≡ some a
    → (b ≡ a) ⊎ (find_fd heap chain fd ≡ some a)
unfolding find_fd
find_fd-cons heap b chain fd a h = ground arith

pub find_fd-All :
    (P : Address → Type 0) (heap : List User) (chain : List Address) (fd : ℕ) (a : Address)
    → All P chain
    → find_fd heap chain fd ≡ some a
    → P a
find_fd-All P heap [] fd a p h = unfold find_fd in (cc)
find_fd-All P heap (b ∷ chain) fd a p h = elim (find_fd-cons heap b chain fd a h) [
  | inl same ↦ subst P same p.0
  | inr later ↦ find_fd-All P heap chain fd a p.1 later
]

elem-find_fd :
    (heap : List User) (chain : List Address) (fd : ℕ) (a : Address)
    → find_fd heap chain fd ≡ some a
    → elem (name_at heap a) (names heap chain) ≡ true
unfolding elem
elem-find_fd heap [] fd a h = unfold find_fd in (cc)
elem-find_fd heap (b ∷ chain) fd a h = elim (find_fd-cons heap b chain fd a h) [
  | inl same ↦ rw same (ground (arith, str_eq_refl (name_at heap a)))
  | inr later ↦ ground (arith, elem-find_fd heap chain fd a later)
]

-- Names are distinct, so the node with a descriptor is the node with its name.
find_in-find_fd :
    (heap : List User) (chain : List Address) (fd : ℕ) (a : Address)
    → Distinct (names heap chain)
    → find_fd heap chain fd ≡ some a
    → find_in heap chain (name_at heap a) ≡ some a
unfolding find_in
find_in-find_fd heap [] fd a d h = unfold find_fd in (cc)
find_in-find_fd heap (b ∷ chain) fd a d h = elim (find_fd-cons heap b chain fd a h) [
  | inl same ↦ rw (same, str_eq_refl (name_at heap a)) refl
  | inr later ↦ elim (Bool-cases (str_eq (name_at heap b) (name_at heap a))) [
    | inl twice ↦
        let e : name_at heap b ≡ name_at heap a = (str_eq_iff _ _).0 twice in
        let no = elem-find_fd heap chain fd a later in
        let yes : elem (name_at heap a) (names heap chain) ≡ false =
          subst (λ n. elem n (names heap chain) ≡ false) e d.0 in
        cc
    | inr differ ↦ rw differ (find_in-find_fd heap chain fd a d.1 later)
  ]
]

abbrev pub name_of : UserStore → Address → Bytes
name_of store a = name_at store.heap a

pub find_user_locked-find_fd :
    (store : UserStore) (fd : ℕ) (a : Address)
    → IsIndexed store
    → find_fd store.heap store.head fd ≡ some a
    → (valid_username (name_of store a) ≡ true)
      × (find_user_locked store (name_of store a) ≡ some a)
find_user_locked-find_fd store fd a v h =
    let valid =
      find_fd-All (λ b. valid_username (name_of store b) ≡ true) store.heap store.head fd a v.named
        h in
    (
      valid,
      find_user_locked_lem store (name_of store a) v
          ∙ ap (λ b. if b then find_in store.heap store.head (name_of store a) else none) valid
          ∙ find_in-find_fd store.heap store.head fd a v.unique h,
    )

username_fits : (u : Bytes) → valid_username u ≡ true → copy_fixed 32 u ≡ u
unfolding valid_username
username_fits u h = take-all 31 u (ground (arith, h))

module _ (store : UserStore) (fd : ℕ) (a : Address) (v : IsIndexed store)
    (found : find_fd store.heap store.head fd ≡ some a) where
  abbrev logged_out : UserResult × UserStore
  logged_out = (user_ok, update_user store a (went_offline (user_at store.heap a)))

  pub username_by_fd-eq : user_store_username_by_fd store fd 32 ≡ (user_ok, name_of store a)
  unfolding user_store_username_by_fd
  username_by_fd-eq =
      let (valid, _) = find_user_locked-find_fd store fd a v found in
      rw (user_store_username_by_fd, found)
        (ap (λ n. (user_ok, n)) (username_fits (name_of store a) valid))

  logout_fd-eq : user_store_logout_fd store fd ≡ logged_out
  unfolding user_store_logout_fd
  logout_fd-eq = rw (user_store_logout_fd, found) refl

  logout-eq : user_store_logout store (name_of store a) ≡ logged_out
  unfolding user_store_logout
  logout-eq =
      let (valid, same) = find_user_locked-find_fd store fd a v found in rw (valid, same) refl

-- The logout of the name that was found, if there was one.
abbrev pub logout_named : UserStore → UserResult × Bytes → UserResult × UserStore
logout_named store (user_ok, u) = user_store_logout store u
logout_named store (_, u) = (user_err_not_found, store)

pub logout_fd-gone :
    (store : UserStore) (fd : ℕ)
    → find_fd store.heap store.head fd ≡ none
    → (user_store_username_by_fd store fd 32 ≡ (user_err_not_found, []))
      × (user_store_logout_fd store fd ≡ (user_err_not_found, store))
unfolding user_store_username_by_fd user_store_logout_fd
logout_fd-gone store fd gone =
    rw (user_store_username_by_fd, user_store_logout_fd, gone) (refl, refl)

-- In an indexed store, to log out a descriptor is to log out the name that
-- `user_store_username_by_fd` finds under it with a buffer of 32 bytes; where it finds none, the
-- result is USER_ERR_NOT_FOUND and nothing changes.
pub user_store_logout_fd_lem :
    (store : UserStore) (fd : ℕ)
    → IsIndexed store
    → user_store_logout_fd store fd ≡ logout_named store (user_store_username_by_fd store fd 32)
user_store_logout_fd_lem store fd v = elim (Option-cases (find_fd store.heap store.head fd)) [
  | inl gone ↦
      let (unnamed, same) = logout_fd-gone store fd gone in
      same ∙ sym (ap (logout_named store) unnamed)
  | inr (a, found) ↦
      logout_fd-eq store fd a v found
      ∙ sym (logout-eq store fd a v found)
      ∙ sym (ap (logout_named store) (username_by_fd-eq store fd a v found))
]

pub user_store_logout_fd-IsIndexed :
    (store : UserStore) (fd : ℕ) → IsIndexed store → IsIndexed (user_store_logout_fd store fd).1
unfolding user_store_logout_fd
user_store_logout_fd-IsIndexed store fd v = elim (Option-cases (find_fd store.heap store.head fd)) [
  | inl gone ↦ rw (user_store_logout_fd, gone) v
  | inr (a, found) ↦
      rw (user_store_logout_fd, found)
        (update_user-IsIndexed store a (went_offline (user_at store.heap a)) v
          (find_fd-All (λ b. b < length store.heap) store.heap store.head fd a v.allocated found)
          refl)
]
