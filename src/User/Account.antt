-- ===== src/User/Account.antt =====
-- common/user.c: the store as a map from names to accounts. What a write to one node, or a new
-- node, does to this map.
use multi_user_chat.Base.{
  ℕ, zero, suc, ◌<◌, ◌≡◌, ◌⊎◌, refl, sym, ap, ap₂, subst, ◌∙◌, true, Option, none, some, List, [],
  ◌∷◌, Bytes, length, set, All, All-map, ◌==◌, str_eq, str_eq_iff, if◌then◌else◌, arith, Bool-cases,
  Option-cases, inl, inr, length-set,
}
use multi_user_chat.Group.Member.{Distinct}
use multi_user_chat.User.{
  User, Address, UserStore, user_at, valid_username, find_in, find_user_locked,
}
use multi_user_chat.User.Index.{
  name_at, names, in_bucket, IsIndexed, find_user_locked_lem, inserted, inserted-IsIndexed,
  user_at-append, user_at-append_new, find_in-append,
}
use multi_user_chat.User.Session.{update_user}

abbrev pub account_at : List User → Option Address → Option User
account_at heap none = none
account_at heap (some a) = some (user_at heap a)

-- The account with a name.
abbrev pub account : UserStore → Bytes → Option User
account store u = account_at store.heap (find_user_locked store u)

find_in-cons :
    (heap : List User) (b : Address) (chain : List Address) (u : Bytes) (a : Address)
    → find_in heap (b ∷ chain) u ≡ some a
    → ((name_at heap b ≡ u) × (b ≡ a)) ⊎ (find_in heap chain u ≡ some a)
unfolding find_in
find_in-cons heap b chain u a h = ground (arith, str_eq_iff (name_at heap b) u)

-- What a walk finds has the name, and is on the chain.
pub find_in_sound :
    (heap : List User) (chain : List Address) (u : Bytes) (a : Address)
    → All (λ b. b < length heap) chain
    → find_in heap chain u ≡ some a
    → (name_at heap a ≡ u) × (a < length heap)
find_in_sound heap [] u a p h = unfold find_in in (cc)
find_in_sound heap (b ∷ chain) u a p h = elim (find_in-cons heap b chain u a h) [
  | inl (named, same) ↦
      (subst (λ k. name_at heap k ≡ u) same named, subst (λ k. k < length heap) same p.0)
  | inr later ↦ find_in_sound heap chain u a p.1 later
]

-- The node that the hash table gives for a name.
pub find_user_locked_sound :
    (store : UserStore) (u : Bytes) (a : Address)
    → IsIndexed store
    → find_user_locked store u ≡ some a
    → (valid_username u ≡ true)
      × (find_in store.heap store.head u ≡ some a)
      × (name_at store.heap a ≡ u)
      × (a < length store.heap)
find_user_locked_sound store u a v h =
    let e = sym (find_user_locked_lem store u v) ∙ h in
    elim (Bool-cases (valid_username u)) [
      | inl n ↦
          let found : find_in store.heap store.head u ≡ some a = rw n at e in
          let (named, inside) = find_in_sound store.heap store.head u a v.allocated found in
          (n, found, named, inside)
      | inr bad ↦ let no : ◌≡◌ {A = Option Address} none (some a) = rw bad at e in cc
    ]

pub get_or-set :
    (heap : List User) (i j : Address) (user : User)
    → i < length heap
    → user_at (set heap i user) j ≡ (if i == j then user else user_at heap j)
get_or-set [] i j user h = absurd (omega arith)
get_or-set (x ∷ heap) zero zero user h = refl
get_or-set (x ∷ heap) zero (suc j) user h = ground arith
get_or-set (x ∷ heap) (suc i) zero user h = ground arith
get_or-set (x ∷ heap) (suc i) (suc j) user h = ground (arith, get_or-set heap i j user)

-- A write that keeps the name of a node.
module _ (heap : List User) (a : Address) (user : User) (inside : a < length heap)
    (same : user.username ≡ name_at heap a) where
  name_at-set : (b : Address) → name_at (set heap a user) b ≡ name_at heap b
  name_at-set b =
      ground (arith, get_or-set heap a b user inside, same, ap (name_at heap) {x = a} {y = b})

  pub names-set : (chain : List Address) → names (set heap a user) chain ≡ names heap chain
  names-set [] = refl
  names-set (b ∷ chain) = ap₂ ◌∷◌ (name_at-set b) (names-set chain)

  pub find_in-set :
      (chain : List Address) (u : Bytes) → find_in (set heap a user) chain u ≡ find_in heap chain u
  unfolding find_in
  find_in-set [] u = refl
  find_in-set (b ∷ chain) u = ground (arith, name_at-set b, find_in-set chain u)

  in_bucket-set :
      (k : ℕ) (chain : List Address) → in_bucket (set heap a user) k chain ≡ in_bucket heap k chain
  unfolding in_bucket
  in_bucket-set k [] = refl
  in_bucket-set k (b ∷ chain) = ground (arith, name_at-set b, in_bucket-set k chain)

  named-set :
      (chain : List Address)
      → All (λ b. valid_username (name_at heap b) ≡ true) chain
      → All (λ b. valid_username (name_at (set heap a user) b) ≡ true) chain
  named-set chain = All-map (λ b n. ap valid_username (name_at-set b) ∙ n) chain

-- A write through any chain that keeps the name of a node keeps the index.
pub update_user-IsIndexed :
    (store : UserStore) (a : Address) (user : User)
    → IsIndexed store
    → a < length store.heap
    → user.username ≡ name_at store.heap a
    → IsIndexed (update_user store a user)
update_user-IsIndexed store a user v inside same = record {
  allocated = All-map (λ b l. omega (arith, length-set store.heap a user)) store.head v.allocated;
  size = v.size;
  index = λ b. v.index b ∙ sym (in_bucket-set store.heap a user inside same b store.head);
  named = named-set store.heap a user inside same store.head v.named;
  unique = subst Distinct (sym (names-set store.heap a user inside same store.head)) v.unique;
}

-- A write to the node of a name changes the account with that name, and no other.
pub account-update_user :
    (store : UserStore) (u : Bytes) (a : Address) (user : User) (w : Bytes)
    → IsIndexed store
    → find_user_locked store u ≡ some a
    → user.username ≡ u
    → account (update_user store a user) w ≡ (if str_eq u w then some user else account store w)
account-update_user store u a user w v h n =
    let (valid, found, named, inside) = find_user_locked_sound store u a v h in
    let same : user.username ≡ name_at store.heap a = n ∙ sym named in
    let v' = update_user-IsIndexed store a user v inside same in
    let e : find_user_locked (update_user store a user) w ≡ find_user_locked store w =
      find_user_locked_lem (update_user store a user) w v'
      ∙ ap (λ o. if valid_username w then o else none)
          (find_in-set store.heap a user inside same store.head w)
      ∙ sym (find_user_locked_lem store w v) in
    ap (account_at (set store.heap a user)) e ∙ elim (Option-cases (find_user_locked store w)) [
      | inl gone ↦
          ground (arith, str_eq_iff u w, h, gone, ap (find_user_locked store) {x = u} {y = w})
      | inr (b, found') ↦ ground (
        arith,
        str_eq_iff u w,
        get_or-set store.heap a b user inside,
        find_user_locked_sound store w b v found',
        ap (find_user_locked store) {x = u} {y = w},
      )
    ]

find_in-inserted :
    (store : UserStore) (user : User) (w : Bytes)
    → IsIndexed store
    → find_in (inserted store user).heap (inserted store user).head w ≡ (
        if str_eq user.username w
        then some (length store.heap)
        else find_in store.heap store.head w)
unfolding find_in
find_in-inserted store user w v = ground (
  arith,
  user_at-append_new store.heap user,
  find_in-append store.heap user store.head w v.allocated,
)

-- A new node is found under its name, and every other name as before.
pub find_user_locked-inserted :
    (store : UserStore) (user : User) (w : Bytes)
    → IsIndexed store
    → valid_username user.username ≡ true
    → find_user_locked store user.username ≡ none
    → find_user_locked (inserted store user) w
      ≡ (if str_eq user.username w then some (length store.heap) else find_user_locked store w)
find_user_locked-inserted store user w v n new =
    rw
      (
        find_user_locked_lem (inserted store user) w (inserted-IsIndexed store user v n new),
        find_user_locked_lem store w v,
        find_in-inserted store user w v,
      )
      (ground (arith, n, str_eq_iff user.username w, ap valid_username {x = user.username} {y = w}))

-- A new node is the account of its name, and changes no other.
pub account-inserted :
    (store : UserStore) (user : User) (w : Bytes)
    → IsIndexed store
    → valid_username user.username ≡ true
    → find_user_locked store user.username ≡ none
    → account (inserted store user) w
      ≡ (if str_eq user.username w then some user else account store w)
account-inserted store user w v n new =
    ap (account_at (inserted store user).heap) (find_user_locked-inserted store user w v n new)
    ∙ elim (Option-cases (find_user_locked store w)) [
      | inl gone ↦ ground (arith, user_at-append_new store.heap user)
      | inr (b, found') ↦ ground (
        arith,
        user_at-append_new store.heap user,
        user_at-append store.heap user b,
        find_user_locked_sound store w b v found',
      )
    ]
