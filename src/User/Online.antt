-- ===== src/User/Online.antt =====
-- common/user.c: how many accounts are online, as logging out changes it.
use multi_user_chat.Base.{
  ℕ, ◌+◌, ◌≤◌, ◌<◌, ◌≡◌, true, some, List, [], ◌∷◌, length, set, if◌then◌else◌, arith, Bool-cases,
  Option-cases, inl, inr,
}
use multi_user_chat.User.{User, Address, UserStore, user_at}
use multi_user_chat.User.Session.{went_offline, has_fd, find_fd, user_store_logout_fd}
use multi_user_chat.User.Index.{IsIndexed}
use multi_user_chat.User.Account.{get_or-set}
use multi_user_chat.User.Descriptor.{find_fd-All}

unfoldable pub online_in : List User → List Address → ℕ
online_in heap [] = 0
online_in heap (a ∷ chain) =
    let rest = online_in heap chain in if (user_at heap a).online then rest + 1 else rest

-- The number of accounts that are online.
abbrev pub online : UserStore → ℕ
online store = online_in store.heap store.head

offline_le :
    (heap : List User) (a : Address) (chain : List Address)
    → a < length heap
    → online_in (set heap a (went_offline (user_at heap a))) chain ≤ online_in heap chain
unfolding online_in
offline_le heap a [] h = omega arith
offline_le heap a (b ∷ chain) h =
    ground (arith, get_or-set heap a b (went_offline (user_at heap a)) h, offline_le heap a chain h)

has_fd-online : (fd : ℕ) (user : User) → has_fd fd user ≡ true → user.online ≡ true
has_fd-online fd user h = ground arith

offline_lt :
    (heap : List User) (a : Address) (chain : List Address) (fd : ℕ)
    → a < length heap
    → find_fd heap chain fd ≡ some a
    → online_in (set heap a (went_offline (user_at heap a))) chain < online_in heap chain
unfolding online_in find_fd
offline_lt heap a [] fd h f = cc
offline_lt heap a (b ∷ chain) fd h f = elim (Bool-cases (has_fd fd (user_at heap b))) [
  | inl here ↦ ground (
    arith,
    here,
    has_fd-online fd (user_at heap b) here,
    get_or-set heap a b (went_offline (user_at heap a)) h,
    offline_le heap a chain h,
  )
  | inr other ↦ ground (
    arith,
    other,
    get_or-set heap a b (went_offline (user_at heap a)) h,
    offline_lt heap a chain fd h (rw other at f),
  )
]

-- To log out a descriptor never adds to the number, and takes one from it if the descriptor is
-- in use.
pub user_store_logout_fd-online :
    (store : UserStore) (fd : ℕ)
    → IsIndexed store
    → (online (user_store_logout_fd store fd).1 ≤ online store)
      × ((a : Address)
          → find_fd store.heap store.head fd ≡ some a
          → online (user_store_logout_fd store fd).1 < online store)
unfolding user_store_logout_fd
user_store_logout_fd-online store fd v = elim (Option-cases (find_fd store.heap store.head fd)) [
  | inl gone ↦ rw (user_store_logout_fd, gone) (omega arith, λ a h. cc)
  | inr (b, found) ↦
      let inside =
        find_fd-All (λ c. c < length store.heap) store.heap store.head fd b v.allocated found in
      rw (user_store_logout_fd, found)
        (
          offline_le store.heap b store.head inside,
          λ a h. offline_lt store.heap b store.head fd inside found,
        )
]
