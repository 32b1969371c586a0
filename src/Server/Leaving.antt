-- ===== src/Server/Leaving.antt =====
-- server/server.c: what `cleanup_offline_fd` does to the one who leaves.
use multi_user_chat.Base.{
  ℕ, zero, suc, ◌<◌, ◌≡◌, refl, sym, ap, ◌∙◌, subst, arith, true, some, Bytes, str_eq_refl,
  Option-cases, inl, inr, if◌then◌else◌,
}
use multi_user_chat.User.{user_ok, valid_username}
use multi_user_chat.User.Session.{find_fd, went_offline, user_store_logout}
use multi_user_chat.User.Query.{user_store_username_by_fd}
use multi_user_chat.User.Index.{IsIndexed}
use multi_user_chat.User.Account.{account}
use multi_user_chat.User.Online.{online}
use multi_user_chat.User.Login.{changed, user_store_logout_lem}
use multi_user_chat.User.Descriptor.{
  find_user_locked-find_fd, user_store_logout_fd_lem, user_store_logout_fd-IsIndexed, logout_named,
  logout_fd-gone, username_by_fd-eq, name_of,
}
use multi_user_chat.Group.Store.{GroupStore, group_store_remove_member}
use multi_user_chat.Group.Invariant.{IsValid}
use multi_user_chat.Group.Leave.{group_store_remove_member_lem}
use multi_user_chat.Group.Survivors.{groups_without-elem, group_store_remove_member-IsValid}
use multi_user_chat.Group.{valid_member_name}
use multi_user_chat.Server.Program.{ServerState, World, perform, Program, run}
use multi_user_chat.Server.Cleanup.{cleanup_offline_fd}
use multi_user_chat.Server.Closed.{all-push_changes}
use multi_user_chat.Server.Uses.{Uses, uses, run-Uses, cleanup_offline_fd-Uses}
use multi_user_chat.Server.Fuel.{
  cleanup_offline_fd-Ends, cleanup_offline_fd-found, logged_out, changes_of,
}
use multi_user_chat.Server.Away.{
  Leaving, Leaving-of-Cleaning, IsOffline, Absent, IsAway, changed-IsOffline, perform-IsAway,
}

valid_member_name-eq : (u : Bytes) → valid_member_name u ≡ valid_username u
unfolding valid_member_name valid_username
valid_member_name-eq u = refl

remove_member-Absent_self :
    (store : GroupStore) (u : Bytes) (max : ℕ)
    → IsValid store
    → valid_member_name u ≡ true
    → Absent u (group_store_remove_member store u max).1.groups
remove_member-Absent_self store u max v n =
    let (eq, _, _, _, _) = group_store_remove_member_lem store u max v n in
    subst (Absent u) (sym eq) (groups_without-elem u store.groups)

-- Behind its first three steps the one who leaves is away.
logged_out-IsAway :
    (world : World) (s : ServerState) (fd : ℕ) (a : ℕ)
    → IsIndexed s.users
    → IsValid s.groups
    → find_fd s.users.heap s.users.head fd ≡ some a
    → IsAway (name_of s.users a) (logged_out world s fd (name_of s.users a))
unfolding perform
logged_out-IsAway world s fd a v w found =
    let u = name_of s.users a in
    let (named, _) = find_user_locked-find_fd s.users fd a v found in
    let named_member = valid_member_name-eq u ∙ named in
    let same =
      user_store_logout_fd_lem s.users fd v
      ∙ ap (logout_named s.users) (username_by_fd-eq s.users fd a v found) in
    let (_, accounts, _) = user_store_logout_lem s.users u v in
    let gone : account (user_store_logout s.users u).1 u
        ≡ changed went_offline (account s.users u) =
      accounts u
      ∙ ap (λ b. if b then changed went_offline (account s.users u) else account s.users u)
          (str_eq_refl u) in
    record {
      indexed = user_store_logout_fd-IsIndexed s.users fd v;
      valid = group_store_remove_member-IsValid s.groups u 64 w;
      offline =
          subst IsOffline (sym (ap (λ r. account r.1 u) same ∙ gone))
            (changed-IsOffline (account s.users u));
      absent = remove_member-Absent_self s.groups u 64 w named_member;
    }

run-IsAway :
    (world : World) (u : Bytes) (s end : ServerState) (r : Program (Unit {0}))
    → Uses Leaving r
    → IsAway u s
    → run world r s ≡ some (tt, end)
    → IsAway u end
run-IsAway world u s end r h v e =
    run-Uses Leaving world (IsAway u) r s end tt (λ c t. perform-IsAway world u c t) h v e

-- In an indexed store of users and a valid one of groups, with fewer users online than the fuel
-- and no other thread running, `cleanup_offline_fd` runs to its end however the sends go; the user
-- whose name `user_store_username_by_fd` finds under the descriptor is then offline and a member
-- of no group, and the stores are indexed and valid.
pub cleanup_offline_fd_lem :
    (world : World) (fuel fd : ℕ) (u : Bytes) (s : ServerState)
    → IsIndexed s.users
    → IsValid s.groups
    → online s.users < fuel
    → user_store_username_by_fd s.users fd 32 ≡ (user_ok, u)
    → (end : ServerState) × (run world (cleanup_offline_fd fuel fd) s ≡ some (tt, end))
      × IsAway u end
cleanup_offline_fd_lem world zero fd u s v w few named = absurd (omega (arith, few))
cleanup_offline_fd_lem world (suc fuel) fd u s v w few named =
    elim (Option-cases (find_fd s.users.heap s.users.head fd)) [
      | inl gone ↦ let (unnamed, _) = logout_fd-gone s.users fd gone in absurd (cc)
      | inr (a, found) ↦
          let e : name_of s.users a ≡ u =
            let named' = username_by_fd-eq s.users fd a v found in cc in
          let r = cleanup_offline_fd-Ends world (suc fuel) fd s v few in
          let later =
            all-push_changes (uses Leaving (λ fd p h. h)) Leaving-of-Cleaning
              (cleanup_offline_fd fuel)
              (cleanup_offline_fd-Uses Leaving (λ fd p h. h) Leaving-of-Cleaning fuel)
              (changes_of world s (name_of s.users a)) in
          (
            r.end,
            r.runs,
            subst (λ n. IsAway n r.end) e
                (run-IsAway world (name_of s.users a) (logged_out world s fd (name_of s.users a))
                  r.end _ later (logged_out-IsAway world s fd a v w found)
                  (sym (cleanup_offline_fd-found world fuel fd s a v found) ∙ r.runs)),
          )
    ]
