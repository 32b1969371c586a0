-- ===== src/User/Tests.antt =====
-- Runs of the user operations.
use multi_user_chat.Base.{
  ℕ, zero, suc, ◌%◌, ◌≡◌, ◌⊎◌, refl, arith, List, ◌∷◌, map, true, false, ◌&&◌, Option, none, some,
  [], ◌++◌, Bytes, bytes, length, replicate, str_eq, contains, if◌then◌else◌,
}
use multi_user_chat.Crypto.{
  hex_value, hex_pairs, hex_to_bytes, hex_digit, bytes_to_hex, hash_password, verify_password,
  generate_salt_hex,
}
use multi_user_chat.User.{
  is_ok, user_ok, user_err_exists, user_err_bad_password, User, UserStore, hash_loop, hash_username,
  valid_username, valid_password, find_in, find_user_locked, insert_user_locked, create_user,
  written, broken, user_record, append_user_record, user_store_init,
}
use multi_user_chat.User.Session.{
  user_store_logout_fd, find_fd, add_account, user_store_register, user_store_login,
  user_store_logout, went_online, went_offline,
}
use multi_user_chat.User.Query.{user_store_username_by_fd, user_store_get_fd}
use multi_user_chat.User.Descriptor.{user_store_logout_fd_lem}
use multi_user_chat.User.Index.{IsIndexed, user_store_init-IsIndexed, find_user_locked_lem}
use multi_user_chat.User.Account.{account}
use multi_user_chat.Group.Member.{elem, Distinct}
use multi_user_chat.User.Invariant.{IsSound, user_store_init-IsSound}
use multi_user_chat.User.Failure.{Orphaned, user_store_register-failed}
use multi_user_chat.User.Load.{user_store_load}
use multi_user_chat.User.Record.{IsPlain, IsAccount}
use multi_user_chat.User.Reload.{records, saved, user_store_load-records, user_store_load-IsSound}
use multi_user_chat.User.Login.{changed, login_check, user_store_login_lem, user_store_logout_lem}
use multi_user_chat.User.Register.{user_store_register_lem, user_store_login-user_store_register}

-- A digest of 32 bytes in place of SHA-256.
abbrev toy_digest : Bytes → Option Bytes
toy_digest bs = some (replicate 32 (length bs % 256))

abbrev random : Option Bytes
random = some (replicate 16 7)

abbrev ann : Bytes
ann = bytes "ann"

abbrev bob : Bytes
bob = bytes "bob"

abbrev password : Bytes
password = bytes "secret"

abbrev empty_store : UserStore
empty_store = user_store_init []

abbrev one_user : UserStore
one_user = (user_store_register toy_digest random true written empty_store ann password).1

unfoldable user_run : Unit {0}
unfolding user_store_register user_store_login user_store_logout add_account hash_password
    verify_password hex_to_bytes hex_pairs hex_value bytes_to_hex hex_digit generate_salt_hex
    hash_loop hash_username valid_username valid_password find_in find_user_locked
    insert_user_locked create_user append_user_record user_store_init str_eq contains
user_run = tt

register_ann :
    (user_store_register toy_digest random true written empty_store ann password).0 ≡ user_ok
unfolding user_run
register_ann = refl

register_twice :
    (user_store_register toy_digest random true written one_user ann password).0 ≡ user_err_exists
unfolding user_run
register_twice = refl

wrong_password :
    (user_store_login toy_digest one_user ann (bytes "secret2") 5).0 ≡ user_err_bad_password
unfolding user_run
wrong_password = refl

user_store_register_lem_example :
    (user : User) × ((w : Bytes)
      → account one_user w ≡ (if str_eq ann w then some user else account empty_store w))
    × (account empty_store ann ≡ none)
    × (user.username ≡ ann)
    × (verify_password toy_digest password user.salt user.password_hash ≡ true)
    × (user.online ≡ false)
    × (one_user.file ≡ empty_store.file ++ user_record user)
    × IsIndexed one_user
user_store_register_lem_example =
    user_store_register_lem toy_digest random true written empty_store ann password
      (user_store_init-IsIndexed []) register_ann

one_user-IsIndexed : IsIndexed one_user
one_user-IsIndexed = let (_, _, _, _, _, _, _, v) = user_store_register_lem_example in v

find_user_locked_lem_example :
    find_user_locked one_user bob
    ≡ (if valid_username bob then find_in one_user.heap one_user.head bob else none)
find_user_locked_lem_example = find_user_locked_lem one_user bob one_user-IsIndexed

user_store_login_lem_example :
    let (rc, store') = user_store_login toy_digest one_user ann password 5 in
    (rc ≡ login_check toy_digest one_user ann password)
    × ((w : Bytes)
        → account store' w ≡ (
            if is_ok rc && str_eq ann w
            then changed (went_online 5) (account one_user ann)
            else account one_user w))
    × IsIndexed store'
user_store_login_lem_example =
    user_store_login_lem toy_digest one_user ann password 5 one_user-IsIndexed

user_store_logout_lem_example :
    let (rc, store') = user_store_logout one_user ann in
    (rc ≡ user_ok)
    × ((w : Bytes)
        → account store' w ≡ (
            if str_eq ann w
            then changed went_offline (account one_user ann)
            else account one_user w))
    × IsIndexed store'
unfolding user_run
user_store_logout_lem_example = user_store_logout_lem one_user ann one_user-IsIndexed

user_store_login-user_store_register_example :
    let (rc, store') = user_store_login toy_digest one_user ann password 5 in
    (rc ≡ user_ok) × (user_store_get_fd store' ann ≡ (user_ok, some 5))
user_store_login-user_store_register_example =
    user_store_login-user_store_register toy_digest random true written empty_store ann password 5
      (user_store_init-IsIndexed []) register_ann

abbrev ann_online : UserStore
ann_online = (user_store_login toy_digest one_user ann password 5).1

ann_online-IsIndexed : IsIndexed ann_online
ann_online-IsIndexed = let (_, _, v) = user_store_login_lem_example in v

user_store_logout_fd_lem_example :
    user_store_logout_fd ann_online 5 ≡ user_store_logout ann_online ann
unfolding user_run user_store_username_by_fd find_fd
user_store_logout_fd_lem_example = user_store_logout_fd_lem ann_online 5 ann_online-IsIndexed

replicate-IsPlain : (n : ℕ) → IsPlain (replicate n 97)
replicate-IsPlain zero = tt
replicate-IsPlain (suc n) = ((refl, omega arith), replicate-IsPlain n)

abbrev saved_user : Bytes → User
saved_user name = record {
  username = name;
  salt = replicate 32 97;
  password_hash = replicate 64 97;
  socket_fd = some 4;
  online = true;
}

abbrev both : List User
both = saved_user ann ∷ saved_user bob ∷ []

ann-IsAccount : IsAccount (saved_user ann)
unfolding user_run
ann-IsAccount = record {
  valid = refl;
  name = ((refl, omega arith), ((refl, omega arith), ((refl, omega arith), tt)));
  salt = replicate-IsPlain 32;
  hash = replicate-IsPlain 64;
  salt_size = refl;
  hash_size = refl;
}

bob-IsAccount : IsAccount (saved_user bob)
unfolding user_run
bob-IsAccount = record {
  valid = refl;
  name = ((refl, omega arith), ((refl, omega arith), ((refl, omega arith), tt)));
  salt = replicate-IsPlain 32;
  hash = replicate-IsPlain 64;
  salt_size = refl;
  hash_size = refl;
}

two_names : Distinct (map (λ (u : User). u.username) both)
unfolding elem str_eq
two_names = (refl, (refl, tt))

user_store_load-records_example :
    let r = user_store_load true true (λ i. true) (user_store_init (records both)) in
    (r.0 ≡ user_ok)
    × (r.1.heap ≡ map went_offline both)
    × ((name : Bytes) → account r.1 name ≡ saved both name)
    × IsSound r.1
user_store_load-records_example =
    user_store_load-records (λ i. true) both (λ i. refl) (ann-IsAccount, (bob-IsAccount, tt))
      two_names

-- A file that no run of the program wrote.
user_store_load-IsSound_example :
    IsSound (user_store_load true true (λ i. true) (user_store_init (bytes "ann:1:2"))).1
user_store_load-IsSound_example =
    user_store_load-IsSound true true (λ i. true) (user_store_init (bytes "ann:1:2"))
      (user_store_init-IsSound (bytes "ann:1:2"))

no_disk :
    is_ok (user_store_register toy_digest random true (broken []) empty_store ann password).0
    ≡ false
unfolding user_run
no_disk = refl

-- The storage file cannot be written: the account stays.
user_store_register-failed_example :
    let r = user_store_register toy_digest random true (broken []) empty_store ann password in
    (r.1 ≡ empty_store) ⊎ Orphaned ann empty_store r
user_store_register-failed_example =
    user_store_register-failed toy_digest random true (broken []) empty_store ann password
      (user_store_init-IsIndexed []) no_disk
