-- ===== src/User/Reload.antt =====
-- common/user.c: what `user_store_load` makes of the storage file.
use multi_user_chat.Base.{
  ℕ, suc, ◌≡◌, refl, sym, ap, ap₂, subst, ◌∙◌, Bool, true, false, not, ◌||◌, Option, none, some,
  List, [], ◌∷◌, ◌++◌, map, Bytes, length, ◌==◌, ==_iff, str_eq, str_eq_iff, c_str, All, arith,
  append_assoc, append-nil, take-all, if◌then◌else◌, Bool-cases, inl, inr,
}
use multi_user_chat.Group.{is_some}
use multi_user_chat.Group.Member.{elem, Distinct}
use multi_user_chat.User.{
  user_ok, User, UserStore, valid_username, find_in, find_user_locked, create_user, user_record,
  user_store_init,
}
use multi_user_chat.User.Session.{went_offline}
use multi_user_chat.User.Account.{account, account_at, account-inserted, find_user_locked-inserted}
use multi_user_chat.User.Register.{create_user-username}
use multi_user_chat.User.Index.{
  IsIndexed, inserted, user_store_init-IsIndexed, find_user_locked_lem,
}
use multi_user_chat.User.Invariant.{
  IsSound, user_store_init-IsSound, insert-created, created-IsSound,
}
use multi_user_chat.User.Load.{fgets_lines, strtok, load_user, load_users, user_store_load}
use multi_user_chat.User.Record.{IsAccount, username-size, fgets_lines-record, strtok-record}

create_user-went_offline :
    (u : User) → IsAccount u → create_user u.username u.salt u.password_hash ≡ went_offline u
unfolding create_user
create_user-went_offline u a =
    rw
      (
        take-all 31 u.username (omega (arith, username-size u.username a.valid)),
        take-all 32 u.salt (omega (arith, a.salt_size)),
        take-all 64 u.password_hash (omega (arith, a.hash_size)),
      )
      refl

load_user-new :
    (u : User) (store : UserStore)
    → IsAccount u
    → find_user_locked store u.username ≡ none
    → load_user true (u.username ∷ u.salt ∷ u.password_hash ∷ []) store
      ≡ inserted store (create_user u.username u.salt u.password_hash)
unfolding load_user
load_user-new u store a new =
    let salt : (length u.salt == 32) ≡ true = (==_iff (length u.salt) 32).1 a.salt_size in
    let hash : (length u.password_hash == 64) ≡ true =
      (==_iff (length u.password_hash) 64).1 a.hash_size in
    rw
      (
        load_user,
        a.valid,
        salt,
        hash,
        new,
        insert-created store u.username u.salt u.password_hash a.valid new,
      )
      refl

abbrev pub records : List User → Bytes
records [] = []
records (u ∷ us) = user_record u ++ records us

still_new :
    (store : UserStore) (user : User) (ms : List User)
    → IsIndexed store
    → valid_username user.username ≡ true
    → find_user_locked store user.username ≡ none
    → elem user.username (map (λ u. u.username) ms) ≡ false
    → All (λ u. find_user_locked store u.username ≡ none) ms
    → All (λ u. find_user_locked (inserted store user) u.username ≡ none) ms
unfolding elem
still_new store user [] v n new other h = tt
still_new store user (m ∷ ms) v n new other h =
    let differ : str_eq user.username m.username ≡ false =
      ground (arith, str_eq_iff user.username m.username, str_eq_iff m.username user.username) in
    (
      find_user_locked-inserted store user m.username v n new
          ∙ ap (λ b. if b then some (length store.heap) else find_user_locked store m.username)
              differ
          ∙ h.0,
      still_new store user ms v n new (ground arith) h.1,
    )

-- The account of a name in the file, offline.
abbrev pub saved : List User → Bytes → Option User
saved [] name = none
saved (u ∷ us) name = if str_eq u.username name then some (went_offline u) else saved us name

abbrev or_before : Option User → Option User → Option User
or_before none before = before
or_before (some u) before = some u

saved-absent :
    (us : List User) (name : Bytes)
    → elem name (map (λ u. u.username) us) ≡ false
    → saved us name ≡ none
unfolding elem
saved-absent [] name h = refl
saved-absent (u ∷ us) name h = ground (arith, saved-absent us name)

-- One account more, in front of those that follow it.
saved-inserted :
    (u : User) (us : List User) (name : Bytes) (before after : Option User)
    → elem u.username (map (λ u. u.username) us) ≡ false
    → after ≡ (if str_eq u.username name then some (went_offline u) else before)
    → or_before (saved us name) after ≡ or_before (saved (u ∷ us) name) before
saved-inserted u us name before after other e = elim (Bool-cases (str_eq u.username name)) [
  | inl same ↦
      let absent : saved us name ≡ none = saved-absent us name (
        subst (λ n. elem n (map (λ u. u.username) us) ≡ false) ((str_eq_iff u.username name).0 same)
          other) in
      rw (absent, e, same) refl
  | inr differ ↦ rw (e, differ) refl
]

-- The accounts in the store, after those that were there, and what is found under each name.
record Loaded (us : List User) (store store' : UserStore) : Type 0 where
  pub sound : IsSound store'
  pub accounts : store'.heap ≡ store.heap ++ map went_offline us
  pub found : (name : Bytes) → account store' name ≡ or_before (saved us name) (account store name)

account-created :
    (store : UserStore) (u : User) (name : Bytes)
    → IsIndexed store
    → IsAccount u
    → find_user_locked store u.username ≡ none
    → account (inserted store (create_user u.username u.salt u.password_hash)) name
      ≡ (if str_eq u.username name then some (went_offline u) else account store name)
account-created store u name v a new =
    ap (λ x. account (inserted store x) name) (create_user-went_offline u a)
    ∙ account-inserted store (went_offline u) name v a.valid new

load_users-records :
    (allocated : ℕ → Bool) (i : ℕ) (us : List User) (store : UserStore)
    → ((j : ℕ) → allocated j ≡ true)
    → IsSound store
    → All IsAccount us
    → Distinct (map (λ u. u.username) us)
    → All (λ u. find_user_locked store u.username ≡ none) us
    → Loaded us store (load_users allocated i (fgets_lines 511 (records us)) store)
unfolding load_users fgets_lines
load_users-records allocated i [] store room v as' other new = record {
  sound = v;
  accounts = sym (append-nil store.heap);
  found = λ name. refl;
}
load_users-records allocated i (u ∷ us) store room v as' other new =
    let user = create_user u.username u.salt u.password_hash in
    let store' = inserted store user in
    let a = as'.0 in
    let named = create_user-username u.username u.salt u.password_hash a.valid in
    let step : load_user (allocated i) (strtok (c_str (user_record u))) store ≡ store' =
      ap₂ (λ b l. load_user b l store) (room i) (strtok-record u a)
      ∙ load_user-new u store a new.0 in
    let rest =
      load_users-records allocated (suc i) us store' room
        (created-IsSound store u.username u.salt u.password_hash v a.valid new.0) as'.1 other.1
        (still_new store user us v.indexed (ap valid_username named ∙ a.valid)
          (ap (find_user_locked store) named ∙ new.0)
          (ap (λ n. elem n (map (λ u. u.username) us)) named ∙ other.0) new.1) in
    let same : load_users allocated i (fgets_lines 511 (records (u ∷ us))) store
        ≡ load_users allocated (suc i) (fgets_lines 511 (records us)) store' =
      ap (λ l. load_users allocated i l store) (fgets_lines-record u (records us) a)
      ∙ ap (load_users allocated (suc i) (fgets_lines 511 (records us))) step in
    subst (Loaded (u ∷ us) store) (sym same) (record {
      sound = rest.sound;
      accounts =
          rest.accounts
          ∙ append_assoc store.heap (user ∷ []) (map went_offline us)
          ∙ ap (λ x. store.heap ++ (x ∷ map went_offline us)) (create_user-went_offline u a);
      found = λ name.
          rest.found name
          ∙ saved-inserted u us name (account store name) (account store' name) other.0
              (account-created store u name v.indexed a new.0);
    })

either_way : (b : Bool) (x : Option ℕ) → (if b then x else x) ≡ x
either_way true x = refl
either_way false x = refl

not_yet : (file name : Bytes) → find_user_locked (user_store_init file) name ≡ none
unfolding find_in user_store_init
not_yet file name =
    find_user_locked_lem (user_store_init file) name (user_store_init-IsIndexed file)
    ∙ either_way (valid_username name) none

nobody_yet : (file name : Bytes) → account (user_store_init file) name ≡ none
nobody_yet file name = ap (account_at (user_store_init file).heap) (not_yet file name)

or_before-none : (o : Option User) → or_before o none ≡ o
or_before-none none = refl
or_before-none (some u) = refl

none_yet :
    (file : Bytes) (us : List User)
    → All (λ u. find_user_locked (user_store_init file) u.username ≡ none) us
none_yet file [] = tt
none_yet file (u ∷ us) = (not_yet file u.username, none_yet file us)

-- Where every calloc succeeds, loading a file of records of accounts with valid and different
-- names, 32 bytes of salt and 64 of hash, and no colon, newline or NUL in them, makes these
-- accounts, offline and in order, in a sound store, where `find_user_locked` finds under the name
-- of each of them just that account, and none under any other name.
pub user_store_load-records :
    (allocated : ℕ → Bool) (us : List User)
    → ((i : ℕ) → allocated i ≡ true)
    → All IsAccount us
    → Distinct (map (λ u. u.username) us)
    → let r = user_store_load true true allocated (user_store_init (records us)) in
      (r.0 ≡ user_ok)
      × (r.1.heap ≡ map went_offline us)
      × ((name : Bytes) → account r.1 name ≡ saved us name)
      × IsSound r.1
unfolding user_store_load user_store_init
user_store_load-records allocated us room as' other =
    let file = records us in
    let l =
      load_users-records allocated 0 us (user_store_init file) room (user_store_init-IsSound file)
        as' other (none_yet file us) in
    (
      refl,
      l.accounts,
      (λ name.
          l.found name
          ∙ ap (or_before (saved us name)) (nobody_yet file name)
          ∙ or_before-none (saved us name)),
      l.sound,
    )

load_user-IsSound :
    (allocated : Bool) (tokens : List Bytes) (store : UserStore)
    → IsSound store
    → IsSound (load_user allocated tokens store)
unfolding load_user
load_user-IsSound allocated [] store v = v
load_user-IsSound allocated (u ∷ []) store v = v
load_user-IsSound allocated (u ∷ salt ∷ []) store v = v
load_user-IsSound allocated (u ∷ salt ∷ hash ∷ more) store v =
    elim (Bool-cases (
      not (valid_username u)
      || (not (length salt == 32)
          || (not (length hash == 64) || is_some (find_user_locked store u))))) [
            | inl bad ↦ rw (load_user, bad) v
            | inr good ↦ elim (Bool-cases allocated) [
              | inr full ↦ rw (load_user, good, full) v
              | inl room ↦
                  let n : valid_username u ≡ true = ground (arith, good) in
                  let new : find_user_locked store u ≡ none = ground (arith, good) in
                  rw (load_user, good, room, insert-created store u salt hash n new)
                    (created-IsSound store u salt hash v n new)
            ]
          ]

load_users-IsSound :
    (allocated : ℕ → Bool) (i : ℕ) (lines : List Bytes) (store : UserStore)
    → IsSound store
    → IsSound (load_users allocated i lines store)
unfolding load_users
load_users-IsSound allocated i [] store v = v
load_users-IsSound allocated i (line ∷ lines) store v =
    load_users-IsSound allocated (suc i) lines _
      (load_user-IsSound (allocated i) (strtok (c_str line)) store v)

-- Whatever the file holds, `user_store_load` keeps a store sound: indexed, and with a descriptor
-- for whoever is online.
pub user_store_load-IsSound :
    (has_parent opens : Bool) (allocated : ℕ → Bool) (store : UserStore)
    → IsSound store
    → IsSound (user_store_load has_parent opens allocated store).1
unfolding user_store_load
user_store_load-IsSound false opens allocated store v = v
user_store_load-IsSound true false allocated store v = v
user_store_load-IsSound true true allocated store v =
    load_users-IsSound allocated 0 (fgets_lines 511 store.file) store v
