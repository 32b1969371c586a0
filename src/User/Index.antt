-- ===== src/User/Index.antt =====
-- common/user.c: the hash index and the list.
use multi_user_chat.Base.{
  ℕ, zero, suc, ◌<◌, ◌≡◌, refl, sym, ap, ap₂, subst, ◌∙◌, true, false, none, some, List, [], ◌∷◌,
  ◌++◌, map, Bytes, length, get_or, set, replicate, All, All-map, ◌==◌, ==_iff, str_eq, str_eq_iff,
  if◌then◌else◌, arith, Bool-cases, inl, inr, length-append, length-set, length-replicate,
}
use multi_user_chat.Group.{is_some}
use multi_user_chat.Group.Member.{elem, Distinct}
use multi_user_chat.User.{
  User, Address, UserStore, user_at, hash_username, valid_username, find_in, find_user_locked,
  insert_user_locked, user_store_init,
}

abbrev pub name_at : List User → Address → Bytes
name_at heap a = (user_at heap a).username

-- The addresses of a chain whose names belong in bucket `b`.
unfoldable pub in_bucket : List User → ℕ → List Address → List Address
in_bucket heap b [] = []
in_bucket heap b (a ∷ chain) =
    let rest = in_bucket heap b chain in
    if hash_username (name_at heap a) == b then a ∷ rest else rest

abbrev pub names : List User → List Address → List Bytes
names heap chain = map (name_at heap) chain

pub record IsIndexed (store : UserStore) : Type 0 where
  pub allocated : All (λ a. a < length store.heap) store.head
  pub size : length store.buckets ≡ 101
  pub index : (b : ℕ) → get_or store.buckets b [] ≡ in_bucket store.heap b store.head
  pub named : All (λ a. valid_username (name_at store.heap a) ≡ true) store.head
  pub unique : Distinct (names store.heap store.head)

hash_username-lt : (u : Bytes) → hash_username u < 101
unfolding hash_username
hash_username-lt u = omega arith

pub find_in-in_bucket :
    (heap : List User) (chain : List Address) (u : Bytes)
    → find_in heap (in_bucket heap (hash_username u) chain) u ≡ find_in heap chain u
unfolding find_in in_bucket
find_in-in_bucket heap [] u = refl
find_in-in_bucket heap (a ∷ chain) u = elim (Bool-cases (str_eq (name_at heap a) u)) [
  | inl same ↦
      let e : name_at heap a ≡ u = (str_eq_iff (name_at heap a) u).0 same in
      let h : (hash_username (name_at heap a) == hash_username u) ≡ true =
        (==_iff _ _).1 (ap hash_username e) in
      rw (h, same)
  | inr other ↦ elim (Bool-cases (hash_username (name_at heap a) == hash_username u)) [
    | inl here ↦ rw (here, other) (find_in-in_bucket heap chain u)
    | inr there ↦ rw (there, other) (find_in-in_bucket heap chain u)
  ]
]

-- In an indexed store the lookup through the hash table finds what a walk through the whole list
-- finds.
pub find_user_locked_lem :
    (store : UserStore) (u : Bytes)
    → IsIndexed store
    → find_user_locked store u
      ≡ (if valid_username u then find_in store.heap store.head u else none)
unfolding find_user_locked
find_user_locked_lem store u v =
    rw (v.index (hash_username u), find_in-in_bucket store.heap store.head u)

get_or-replicate : (n b : ℕ) → get_or (replicate n (◌++◌ {A = Address} [] [])) b [] ≡ []
get_or-replicate zero b = refl
get_or-replicate (suc n) zero = refl
get_or-replicate (suc n) (suc b) = get_or-replicate n b

pub user_store_init-IsIndexed : (file : Bytes) → IsIndexed (user_store_init file)
unfolding user_store_init in_bucket
user_store_init-IsIndexed file = record {
  allocated = tt;
  size = length-replicate {A = List Address} 101 [];
  index = λ b. get_or-replicate 101 b;
  named = tt;
  unique = tt;
}

pub user_at-append :
    (heap : List User) (user : User) (a : Address)
    → a < length heap
    → user_at (heap ++ (user ∷ [])) a ≡ user_at heap a
user_at-append [] user a h = absurd (omega arith)
user_at-append (x ∷ heap) user zero h = refl
user_at-append (x ∷ heap) user (suc a) h = user_at-append heap user a (omega arith)

pub user_at-append_new :
    (heap : List User) (user : User) → user_at (heap ++ (user ∷ [])) (length heap) ≡ user
user_at-append_new [] user = refl
user_at-append_new (x ∷ heap) user = user_at-append_new heap user

in_bucket-append :
    (heap : List User) (user : User) (b : ℕ) (chain : List Address)
    → All (λ a. a < length heap) chain
    → in_bucket (heap ++ (user ∷ [])) b chain ≡ in_bucket heap b chain
unfolding in_bucket
in_bucket-append heap user b [] h = refl
in_bucket-append heap user b (a ∷ chain) h =
    ground (arith, user_at-append heap user a h.0, in_bucket-append heap user b chain h.1)

pub find_in-append :
    (heap : List User) (user : User) (chain : List Address) (u : Bytes)
    → All (λ a. a < length heap) chain
    → find_in (heap ++ (user ∷ [])) chain u ≡ find_in heap chain u
unfolding find_in
find_in-append heap user [] u h = refl
find_in-append heap user (a ∷ chain) u h =
    ground (arith, user_at-append heap user a h.0, find_in-append heap user chain u h.1)

pub names-append :
    (heap : List User) (user : User) (chain : List Address)
    → All (λ a. a < length heap) chain
    → names (heap ++ (user ∷ [])) chain ≡ names heap chain
names-append heap user [] h = refl
names-append heap user (a ∷ chain) h =
    ap₂ ◌∷◌ (ap (λ u. u.username) (user_at-append heap user a h.0))
      (names-append heap user chain h.1)

-- A name that the walk does not find is not in the list.
elem-names :
    (heap : List User) (chain : List Address) (u : Bytes)
    → find_in heap chain u ≡ none
    → elem u (names heap chain) ≡ false
unfolding find_in elem
elem-names heap [] u h = refl
elem-names heap (a ∷ chain) u h = ground (arith, elem-names heap chain u)

get_or-set_bucket :
    (buckets : List (List Address)) (i j : ℕ) (v : List Address)
    → i < length buckets
    → get_or (set buckets i v) j [] ≡ (if i == j then v else get_or buckets j [])
get_or-set_bucket [] i j v h = absurd (omega arith)
get_or-set_bucket (x ∷ buckets) zero zero v h = refl
get_or-set_bucket (x ∷ buckets) zero (suc j) v h = ground arith
get_or-set_bucket (x ∷ buckets) (suc i) zero v h = ground arith
get_or-set_bucket (x ∷ buckets) (suc i) (suc j) v h =
    ground (arith, get_or-set_bucket buckets i j v)

-- The store after a node is linked into both chains.
abbrev pub inserted : UserStore → User → UserStore
inserted store user = record store {
  heap = store.heap ++ (user ∷ []);
  head = length store.heap ∷ store.head;
  buckets =
      set store.buckets (hash_username user.username)
        (length store.heap ∷ get_or store.buckets (hash_username user.username) []);
}

-- An insertion is refused exactly if the name is there.
pub insert_user_locked_lem :
    (store : UserStore) (user : User)
    → insert_user_locked store user ≡ (
        if is_some (find_user_locked store user.username) then none else some (inserted store user))
unfolding insert_user_locked
insert_user_locked_lem store user = refl

in_bucket-cons_new :
    (heap : List User) (user : User) (b : ℕ) (chain : List Address)
    → All (λ a. a < length heap) chain
    → in_bucket (heap ++ (user ∷ [])) b (length heap ∷ chain) ≡ (
        if hash_username user.username == b
        then length heap ∷ in_bucket heap b chain
        else in_bucket heap b chain)
unfolding in_bucket
in_bucket-cons_new heap user b chain h =
    ground (arith, user_at-append_new heap user, in_bucket-append heap user b chain h)

allocated-append :
    (heap : List User) (user : User) (chain : List Address)
    → All (λ a. a < length heap) chain
    → All (λ a. a < length (heap ++ (user ∷ []))) (length heap ∷ chain)
allocated-append heap user chain h = (
  omega (arith, length-append heap (user ∷ [])),
  All-map (λ a l. omega (arith, length-append heap (user ∷ []))) chain h,
)

named-append :
    (heap : List User) (user : User) (chain : List Address)
    → All (λ a. a < length heap) chain
    → All (λ a. valid_username (name_at heap a) ≡ true) chain
    → All (λ a. valid_username (name_at (heap ++ (user ∷ [])) a) ≡ true) chain
named-append heap user [] h n = tt
named-append heap user (a ∷ chain) h n = (
  ap (λ u. valid_username u.username) (user_at-append heap user a h.0) ∙ n.0,
  named-append heap user chain h.1 n.1,
)

inserted-index :
    (store : UserStore) (user : User) (b : ℕ)
    → IsIndexed store
    → get_or (inserted store user).buckets b []
      ≡ in_bucket (inserted store user).heap b (inserted store user).head
inserted-index store user b v =
    let k = hash_username user.username in
    let small : k < length store.buckets = omega (arith, v.size, hash_username-lt user.username) in
    get_or-set_bucket store.buckets k b (length store.heap ∷ get_or store.buckets k []) small
    ∙ elim (Bool-cases (k == b)) [
      | inl same ↦
          let e : k ≡ b = (==_iff k b).0 same in
          rw (in_bucket-cons_new store.heap user b store.head v.allocated, same)
            (ap (λ r. length store.heap ∷ r) (ap (λ c. get_or store.buckets c []) e ∙ v.index b))
      | inr other ↦
          rw (in_bucket-cons_new store.heap user b store.head v.allocated, other) (v.index b)
    ]

-- An insertion of a valid new name keeps the index.
pub inserted-IsIndexed :
    (store : UserStore) (user : User)
    → IsIndexed store
    → valid_username user.username ≡ true
    → find_user_locked store user.username ≡ none
    → IsIndexed (inserted store user)
inserted-IsIndexed store user v n new = record {
  allocated = allocated-append store.heap user store.head v.allocated;
  size =
      length-set store.buckets (hash_username user.username)
        (length store.heap ∷ get_or store.buckets (hash_username user.username) [])
      ∙ v.size;
  index = λ b. inserted-index store user b v;
  named = (
    ap (λ u. valid_username u.username) (user_at-append_new store.heap user) ∙ n,
    named-append store.heap user store.head v.allocated v.named,
  );
  unique =
      subst Distinct
        (sym (
          ap₂ ◌∷◌ (ap (λ u. u.username) (user_at-append_new store.heap user))
            (names-append store.heap user store.head v.allocated)))
        (
          elem-names store.heap store.head user.username
              (sym (find_user_locked_lem store user.username v ∙ rw n) ∙ new),
          v.unique,
        );
}
