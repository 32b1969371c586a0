-- ===== src/Server/Away.antt =====
-- server/server.c: a user who is away stays away while others are cleaned up.
use multi_user_chat.Base.{
  ℕ, ◌≡◌, refl, sym, ap, ◌∙◌, subst, arith, false, Option, none, some, List, [], ◌∷◌, Bytes, str_eq,
  All, Bool-cases, inl, inr, if◌then◌else◌,
}
use multi_user_chat.Protocol.Init.{IsPacket}
use multi_user_chat.User.{User, UserResult, user_ok, UserStore}
use multi_user_chat.User.Session.{went_offline, user_store_logout, user_store_logout_fd}
use multi_user_chat.User.Query.{user_store_username_by_fd}
use multi_user_chat.User.Index.{IsIndexed}
use multi_user_chat.User.Account.{account}
use multi_user_chat.User.Login.{changed, user_store_logout_lem}
use multi_user_chat.User.Descriptor.{
  user_store_logout_fd_lem, user_store_logout_fd-IsIndexed, logout_named,
}
use multi_user_chat.Group.{GroupSnapshot}
use multi_user_chat.Group.Member.{elem, without, elem-without}
use multi_user_chat.Group.Store.{GroupStore, is_nil, group_store_remove_member}
use multi_user_chat.Group.Invariant.{IsValid}
use multi_user_chat.Group.Leave.{
  groups_without, group_store_remove_member_lem, group_store_remove_member-invalid,
}
use multi_user_chat.Group.Survivors.{group_store_remove_member-IsValid}
use multi_user_chat.Group.{valid_member_name}
use multi_user_chat.Server.Program.{
  ServerState, World, Call, perform, register, login, online_list, get_fd, username_by_fd,
  logout_fd, snapshot_online_fds, create, get_snapshot, build_list_payload, remove_member, send,
}
use multi_user_chat.Server.Closed.{Cleaning}

-- The calls of `cleanup_offline_fd`, of which every packet that is sent is well formed.
abbrev pub Leaving : Call → Type 0
Leaving (send fd p) = IsPacket p
Leaving c = Cleaning c

pub Leaving-of-Cleaning : (c : Call) → Cleaning c → Leaving c
Leaving-of-Cleaning (get_fd u) h = tt
Leaving-of-Cleaning (username_by_fd fd n) h = tt
Leaving-of-Cleaning (logout_fd fd) h = tt
Leaving-of-Cleaning (remove_member u n) h = tt
Leaving-of-Cleaning (send fd p) h = absurd h
Leaving-of-Cleaning (register u p) h = absurd h
Leaving-of-Cleaning (login u p fd) h = absurd h
Leaving-of-Cleaning (online_list n) h = absurd h
Leaving-of-Cleaning (snapshot_online_fds fd n) h = absurd h
Leaving-of-Cleaning (create u name ms) h = absurd h
Leaving-of-Cleaning (get_snapshot id) h = absurd h
Leaving-of-Cleaning (build_list_payload u) h = absurd h

-- There is no such account, or it is offline.
abbrev pub IsOffline : Option User → Type 0
IsOffline none = Unit
IsOffline (some user) = user.online ≡ false

abbrev pub Absent : Bytes → List GroupSnapshot → Type 0
Absent u gs = All (λ (g : GroupSnapshot). elem u g.members ≡ false) gs

-- The user is offline and in no group.
pub record IsAway (u : Bytes) (s : ServerState) : Type 0 where
  pub indexed : IsIndexed s.users
  pub valid : IsValid s.groups
  pub offline : IsOffline (account s.users u)
  pub absent : Absent u s.groups.groups

pub changed-IsOffline : (o : Option User) → IsOffline (changed went_offline o)
changed-IsOffline none = tt
changed-IsOffline (some user) = refl

logout-IsOffline :
    (store : UserStore) (w u : Bytes)
    → IsIndexed store
    → IsOffline (account store u)
    → IsOffline (account (user_store_logout store w).1 u)
logout-IsOffline store w u v h =
    let (_, accounts, _) = user_store_logout_lem store w v in
    elim (Bool-cases (str_eq w u)) [
      | inl same ↦
          subst IsOffline
            (sym (
              accounts u
              ∙ ap (λ b. if b then changed went_offline (account store w) else account store u)
                  same))
            (changed-IsOffline (account store w))
      | inr other ↦
          subst IsOffline
            (sym (
              accounts u
              ∙ ap (λ b. if b then changed went_offline (account store w) else account store u)
                  other))
            h
    ]

logout_named-IsOffline :
    (store : UserStore) (found : UserResult × Bytes) (u : Bytes)
    → IsIndexed store
    → IsOffline (account store u)
    → IsOffline (account (logout_named store found).1 u)
logout_named-IsOffline store (user_ok, w) u v h = logout-IsOffline store w u v h
logout_named-IsOffline store (_, w) u v h = h

logout_fd-IsOffline :
    (store : UserStore) (fd : ℕ) (u : Bytes)
    → IsIndexed store
    → IsOffline (account store u)
    → IsOffline (account (user_store_logout_fd store fd).1 u)
logout_fd-IsOffline store fd u v h =
    rw (user_store_logout_fd_lem store fd v)
      (logout_named-IsOffline store (user_store_username_by_fd store fd 32) u v h)

groups_without-Absent :
    (w u : Bytes) (gs : List GroupSnapshot) → Absent u gs → Absent u (groups_without w gs)
unfolding groups_without
groups_without-Absent w u [] h = tt
groups_without-Absent w u (g ∷ gs) h = elim (Bool-cases (is_nil (without w g.members))) [
  | inl e ↦ rw e (groups_without-Absent w u gs h.1)
  | inr e ↦ rw e (ground (arith, elem-without w u g.members, h.0), groups_without-Absent w u gs h.1)
]

remove_member-Absent :
    (store : GroupStore) (w u : Bytes) (max : ℕ)
    → IsValid store
    → Absent u store.groups
    → Absent u (group_store_remove_member store w max).1.groups
remove_member-Absent store w u max v h = elim (Bool-cases (valid_member_name w)) [
  | inr bad ↦ rw (group_store_remove_member-invalid store w max bad) h
  | inl n ↦
      let (eq, _, _, _, _) = group_store_remove_member_lem store w max v n in
      subst (Absent u) (sym eq) (groups_without-Absent w u store.groups h)
]

pub perform-IsAway :
    (world : World) (u : Bytes) (c : Call) (s : ServerState)
    → Leaving c
    → IsAway u s
    → IsAway u (perform world c s).1
unfolding perform
perform-IsAway world u (get_fd w) s h v = record {
  indexed = v.indexed;
  valid = v.valid;
  offline = v.offline;
  absent = v.absent;
}
perform-IsAway world u (username_by_fd fd n) s h v = record {
  indexed = v.indexed;
  valid = v.valid;
  offline = v.offline;
  absent = v.absent;
}
perform-IsAway world u (send fd p) s h v = record {
  indexed = v.indexed;
  valid = v.valid;
  offline = v.offline;
  absent = v.absent;
}
perform-IsAway world u (logout_fd fd) s h v = record {
  indexed = user_store_logout_fd-IsIndexed s.users fd v.indexed;
  valid = v.valid;
  offline = logout_fd-IsOffline s.users fd u v.indexed v.offline;
  absent = v.absent;
}
perform-IsAway world u (remove_member w n) s h v = record {
  indexed = v.indexed;
  valid = group_store_remove_member-IsValid s.groups w n v.valid;
  offline = v.offline;
  absent = remove_member-Absent s.groups w u n v.valid v.absent;
}
perform-IsAway world u (register w p) s h v = absurd h
perform-IsAway world u (login w p fd) s h v = absurd h
perform-IsAway world u (online_list n) s h v = absurd h
perform-IsAway world u (snapshot_online_fds fd n) s h v = absurd h
perform-IsAway world u (create w name ms) s h v = absurd h
perform-IsAway world u (get_snapshot id) s h v = absurd h
perform-IsAway world u (build_list_payload w) s h v = absurd h
