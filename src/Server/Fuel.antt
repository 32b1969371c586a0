-- ===== src/Server/Fuel.antt =====
-- server/server.c: how deep `cleanup_offline_fd` calls itself, where no other thread runs.
use multi_user_chat.Base.{
  ℕ, zero, suc, ◌+◌, ◌<◌, ◌≡◌, refl, sym, ap, ◌∙◌, none, some, List, Bytes, subst, arith,
  Option-cases, inl, inr,
}
use multi_user_chat.User.{Address}
use multi_user_chat.Group.Store.{group_store_remove_member}
use multi_user_chat.User.Session.{find_fd, user_store_logout_fd}
use multi_user_chat.User.Query.{user_store_username_by_fd}
use multi_user_chat.User.Index.{IsIndexed}
use multi_user_chat.User.Online.{online, user_store_logout_fd-online}
use multi_user_chat.User.Descriptor.{
  user_store_logout_fd-IsIndexed, logout_fd-gone, username_by_fd-eq, name_of,
}
use multi_user_chat.Group.{GroupChange}
use multi_user_chat.Server.Program.{
  ServerState, World, perform, username_by_fd, logout_fd, remove_member, ◌>>=◌, run,
}
use multi_user_chat.Server.Cleanup.{push_changes, cleanup_user, cleanup_offline_fd}
use multi_user_chat.Server.Closed.{Plain-of-Cleaning, all-push_changes}
use multi_user_chat.Server.Ends.{Ends, ends_below, Quiet-of-Plain}

module _ (world : World) where
  -- The state after `fd` was logged out.
  abbrev pub logged_out : ServerState → ℕ → Bytes → ServerState
  logged_out s fd u =
      (perform world (logout_fd fd)
        (perform world (remove_member u 64) (perform world (username_by_fd fd 32) s).1).1).1

  abbrev pub changes_of : ServerState → Bytes → List GroupChange
  changes_of s u = (group_store_remove_member s.groups u 64).2

  cleanup_offline_fd-named :
      (fuel fd : ℕ) (s : ServerState)
      → run world (cleanup_offline_fd (suc fuel) fd) s
        ≡ run world
            (cleanup_user (cleanup_offline_fd fuel) fd (user_store_username_by_fd s.users fd 32))
            (record s { clock = s.clock + 1 })
  unfolding cleanup_offline_fd run ◌>>=◌ perform
  cleanup_offline_fd-named fuel fd s = refl

  cleanup_offline_fd-gone :
      (fuel fd : ℕ) (s : ServerState)
      → find_fd s.users.heap s.users.head fd ≡ none
      → run world (cleanup_offline_fd (suc fuel) fd) s
        ≡ some (tt, record s { clock = s.clock + 1 + 1 })
  unfolding run ◌>>=◌ perform cleanup_user
  cleanup_offline_fd-gone fuel fd s gone =
      let (unnamed, same) = logout_fd-gone s.users fd gone in
      cleanup_offline_fd-named fuel fd s
      ∙ ap
          (λ r.
            run world (cleanup_user (cleanup_offline_fd fuel) fd r)
              (record s { clock = s.clock + 1 }))
          unnamed
      ∙ ap (λ r. some (tt, record s { users = r.1; clock = s.clock + 1 + 1 })) same

  pub cleanup_offline_fd-found :
      (fuel fd : ℕ) (s : ServerState) (a : Address)
      → IsIndexed s.users
      → find_fd s.users.heap s.users.head fd ≡ some a
      → run world (cleanup_offline_fd (suc fuel) fd) s
        ≡ run world
            (push_changes (cleanup_offline_fd fuel) (changes_of s (name_of s.users a)))
            (logged_out s fd (name_of s.users a))
  unfolding run ◌>>=◌ perform cleanup_user
  cleanup_offline_fd-found fuel fd s a v found =
      cleanup_offline_fd-named fuel fd s
      ∙ ap
          (λ r.
            run world (cleanup_user (cleanup_offline_fd fuel) fd r)
              (record s { clock = s.clock + 1 }))
          (username_by_fd-eq s.users fd a v found)

  pub logged_out-users :
      (s : ServerState) (fd : ℕ) (u : Bytes)
      → (logged_out s fd u).users ≡ (user_store_logout_fd s.users fd).1
  unfolding perform
  logged_out-users s fd u = refl

  -- One more than the number of users online is fuel enough for `cleanup_offline_fd`, in an indexed
  -- store where no other thread runs.
  pub cleanup_offline_fd-Ends :
      (fuel fd : ℕ) (s : ServerState)
      → IsIndexed s.users
      → online s.users < fuel
      → Ends world (cleanup_offline_fd fuel fd) s
  cleanup_offline_fd-Ends zero fd s v few = absurd (omega (arith, few))
  cleanup_offline_fd-Ends (suc fuel) fd s v few =
      elim (Option-cases (find_fd s.users.heap s.users.head fd)) [
        | inl gone ↦ record {
          result = tt;
          end = record s { clock = s.clock + 1 + 1 };
          runs = cleanup_offline_fd-gone fuel fd s gone;
          indexed = v;
          fewer = omega arith;
        }
        | inr (a, found) ↦
            let u = name_of s.users a in
            let s' = logged_out s fd u in
            let v' =
              subst IsIndexed (sym (logged_out-users s fd u))
                (user_store_logout_fd-IsIndexed s.users fd v) in
            let less : online s'.users < online s.users =
              subst (λ t. online t < online s.users) (sym (logged_out-users s fd u))
                ((user_store_logout_fd-online s.users fd v).1 a found) in
            let r =
              all-push_changes (ends_below world (online s'.users))
                (λ call h. Quiet-of-Plain call (Plain-of-Cleaning call h)) (cleanup_offline_fd fuel)
                (λ fd t w below.
                  cleanup_offline_fd-Ends fuel fd t w (omega (arith, below, less, few)))
                (changes_of s u) s' v' (omega arith) in
            record {
              result = tt;
              end = r.end;
              runs = cleanup_offline_fd-found fuel fd s a v found ∙ r.runs;
              indexed = r.indexed;
              fewer = omega (arith, less, r.fewer);
            }
      ]
