-- ===== src/Server/Invariant.antt =====
-- server/server.c: the invariant of the shared state across every step.
use multi_user_chat.Base.{
  ℕ, ◌+◌, ◌^◌, ◌≤◌, ◌<◌, ◌≡◌, refl, Bool, List, Bytes, arith, Bool-cases, inl, inr,
}
use multi_user_chat.User.Invariant
use multi_user_chat.User.Invariant.{
  user_store_init-IsSound, user_store_register-IsSound, user_store_login-IsSound,
  user_store_logout_fd-IsSound,
}
use multi_user_chat.Group.Store.{GroupStore, group_store_create, group_store_remove_member}
use multi_user_chat.Group.Invariant.{
  IsValid, group_store_create-IsValid, group_store_create-Created, group_store_create-failed,
  is_ok-cases,
}
use multi_user_chat.Group.Survivors.{group_store_remove_member-IsValid}
use multi_user_chat.Group.Leave.{group_store_remove_member_lem, group_store_remove_member-invalid}
use multi_user_chat.Group.{valid_member_name}
use multi_user_chat.Server.Program.{
  ServerState, Call, World, perform, register, login, online_list, get_fd, username_by_fd,
  logout_fd, snapshot_online_fds, create, get_snapshot, build_list_payload, remove_member, send,
}

-- Both stores are sound, and a group has been made in at most each step so far.
pub record IsSound (s : ServerState) : Type 0 where
  pub users : Invariant.IsSound s.users
  pub groups : IsValid s.groups
  pub young : s.groups.next_id ≤ s.clock + 1

create-next_id :
    (allocated : Bool) (store : GroupStore) (creator name : Bytes) (members : List Bytes)
    → IsValid store
    → store.next_id + 1 < 2 ^ 32
    → (group_store_create allocated store creator name members).1.next_id ≤ store.next_id + 1
create-next_id allocated store creator name members v h =
    elim (is_ok-cases (group_store_create allocated store creator name members).0) [
      | inl good ↦
          let c = group_store_create-Created allocated store creator name members good in
          omega (arith, c.next)
      | inr bad ↦
          rw ((group_store_create-failed allocated store creator name members bad).0) (omega arith)
    ]

remove_member-next_id :
    (store : GroupStore) (u : Bytes) (max : ℕ)
    → IsValid store
    → (group_store_remove_member store u max).1.next_id ≡ store.next_id
remove_member-next_id store u max v = elim (Bool-cases (valid_member_name u)) [
  | inl n ↦ let (_, _, same, _, _) = group_store_remove_member_lem store u max v n in same
  | inr bad ↦ rw (group_store_remove_member-invalid store u max bad) refl
]

-- A step that only reads.
looked-IsSound : {s : ServerState} → IsSound s → IsSound (record s { clock = s.clock + 1 })
looked-IsSound v = record { users = v.users; groups = v.groups; young = omega (arith, v.young) }

module _ (world : World) where
  -- Every step keeps the invariant, as long as fewer than 2^32 - 2 were made.
  pub perform-IsSound :
      (c : Call) (s : ServerState)
      → IsSound s
      → s.clock + 2 < 2 ^ 32
      → IsSound (perform world c s).1
  unfolding perform
  perform-IsSound (register u p) s v h = record {
    users =
        user_store_register-IsSound world.sha256 (world.random s.clock) (world.allocated s.clock)
          (world.disk s.clock) s.users u p v.users;
    groups = v.groups;
    young = omega (arith, v.young);
  }
  perform-IsSound (login u p fd) s v h = record {
    users = user_store_login-IsSound world.sha256 s.users u p fd v.users;
    groups = v.groups;
    young = omega (arith, v.young);
  }
  perform-IsSound (online_list n) s v h = looked-IsSound v
  perform-IsSound (get_fd u) s v h = looked-IsSound v
  perform-IsSound (username_by_fd fd n) s v h = looked-IsSound v
  perform-IsSound (logout_fd fd) s v h = record {
    users = user_store_logout_fd-IsSound s.users fd v.users;
    groups = v.groups;
    young = omega (arith, v.young);
  }
  perform-IsSound (snapshot_online_fds fd n) s v h = looked-IsSound v
  perform-IsSound (create creator name members) s v h =
      let small : s.groups.next_id + 1 < 2 ^ 32 = omega (arith, v.young) in
      record {
        users = v.users;
        groups =
            group_store_create-IsValid (world.allocated s.clock) s.groups creator name members small
              v.groups;
        young = omega (
          arith,
          v.young,
          create-next_id (world.allocated s.clock) s.groups creator name members v.groups small,
        );
      }
  perform-IsSound (get_snapshot id) s v h = looked-IsSound v
  perform-IsSound (build_list_payload u) s v h = looked-IsSound v
  perform-IsSound (remove_member u n) s v h = record {
    users = v.users;
    groups = group_store_remove_member-IsValid s.groups u n v.groups;
    young = omega (arith, v.young, remove_member-next_id s.groups u n v.groups);
  }
  perform-IsSound (send fd p) s v h = record {
    users = v.users;
    groups = v.groups;
    young = omega (arith, v.young);
  }

  pub perform-clock : (c : Call) (s : ServerState) → (perform world c s).1.clock ≡ s.clock + 1
  unfolding perform
  perform-clock (register u p) s = refl
  perform-clock (login u p fd) s = refl
  perform-clock (online_list n) s = refl
  perform-clock (get_fd u) s = refl
  perform-clock (username_by_fd fd n) s = refl
  perform-clock (logout_fd fd) s = refl
  perform-clock (snapshot_online_fds fd n) s = refl
  perform-clock (create creator name members) s = refl
  perform-clock (get_snapshot id) s = refl
  perform-clock (build_list_payload u) s = refl
  perform-clock (remove_member u n) s = refl
  perform-clock (send fd p) s = refl
