-- ===== src/Server/Program.antt =====
-- server/server.c: the shared state, the steps on it, and programs of steps.
use multi_user_chat.Base.{ℕ, ◌+◌, Bool, Option, none, some, List, [], ◌∷◌, ◌++◌, Bytes}
use multi_user_chat.Net.{Outcome, is_done}
use multi_user_chat.Protocol.{Packet, send_packet}
use multi_user_chat.User.{UserResult, UserStore, Write}
use multi_user_chat.User.Session.{user_store_register, user_store_login, user_store_logout_fd}
use multi_user_chat.User.Query.{
  user_store_get_fd, user_store_online_list, user_store_snapshot_online_fds,
  user_store_username_by_fd,
}
use multi_user_chat.Group.{GroupResult, GroupSnapshot, GroupChange}
use multi_user_chat.Group.Payload.{GroupPayload}
use multi_user_chat.Group.Store.{
  GroupStore, group_store_create, group_store_get_snapshot, group_store_build_list_payload,
  group_store_remove_member,
}

-- A call of `send_packet` that has returned: the bytes that it wrote, and whether it returned 0.
pub record Delivery : Type 0 where
  pub fd : ℕ
  pub packet : Packet
  pub bytes_sent : Bytes
  pub succeeded : Bool

-- The shared part of `ServerState`, with the calls of `send_packet` so far, the oldest first, and
-- the number of steps.
pub record ServerState : Type 0 where
  pub users : UserStore
  pub groups : GroupStore
  pub sent : List Delivery
  pub clock : ℕ

-- The steps: the calls of the stores, and `send_packet`.
pub data Call : Type 0 where
  register : Bytes → Bytes → Call
  login : Bytes → Bytes → ℕ → Call
  online_list : ℕ → Call
  get_fd : Bytes → Call
  username_by_fd : ℕ → ℕ → Call
  logout_fd : ℕ → Call
  snapshot_online_fds : ℕ → ℕ → Call
  create : Bytes → Bytes → List Bytes → Call
  get_snapshot : Bytes → Call
  build_list_payload : Bytes → Call
  remove_member : Bytes → ℕ → Call
  send : ℕ → Packet → Call

abbrev pub Answer : Call → Type 0
Answer (register username password) = UserResult
Answer (login username password fd) = UserResult
Answer (online_list out_size) = UserResult × Bytes
Answer (get_fd username) = UserResult × Option ℕ
Answer (username_by_fd fd out_size) = UserResult × Bytes
Answer (logout_fd fd) = UserResult
Answer (snapshot_online_fds except_fd max_fds) = List ℕ
Answer (create creator name members) = GroupResult × Option GroupSnapshot
Answer (get_snapshot group_id) = GroupResult × Option GroupSnapshot
Answer (build_list_payload username) = GroupResult × GroupPayload
Answer (remove_member username max_changes) = List GroupChange
Answer (send fd packet) = Bool

-- What the program does not decide, at each step: RAND_bytes, calloc, the storage file, and the
-- system calls of one `send_packet`. A list of outcomes that runs out stands for a connection that
-- breaks there.
pub record World : Type 0 where
  pub sha256 : Bytes → Option Bytes
  pub random : ℕ → Option Bytes
  pub allocated : ℕ → Bool
  pub disk : ℕ → Write
  pub outcomes : ℕ → List Outcome

-- One step: its answer, and the state after it.
module _ (world : World) where
  abbrev ticked : ServerState → ServerState
  ticked s = record s { clock = s.clock + 1 }

  abbrev pub delivery : ServerState → ℕ → Packet → Delivery
  delivery s fd packet =
      let r = send_packet (world.outcomes s.clock) packet in
      record { fd = fd; packet = packet; bytes_sent = r.written; succeeded = is_done r.status }

  unfoldable pub perform : (c : Call) → ServerState → Answer c × ServerState
  perform (register username password) s =
      let (rc, users') =
        user_store_register world.sha256 (world.random s.clock) (world.allocated s.clock)
          (world.disk s.clock) s.users username password in
      (rc, record s { users = users'; clock = s.clock + 1 })
  perform (login username password fd) s =
      let (rc, users') = user_store_login world.sha256 s.users username password fd in
      (rc, record s { users = users'; clock = s.clock + 1 })
  perform (online_list out_size) s = (user_store_online_list s.users out_size, ticked s)
  perform (get_fd username) s = (user_store_get_fd s.users username, ticked s)
  perform (username_by_fd fd out_size) s = (user_store_username_by_fd s.users fd out_size, ticked s)
  perform (logout_fd fd) s =
      let (rc, users') = user_store_logout_fd s.users fd in
      (rc, record s { users = users'; clock = s.clock + 1 })
  perform (snapshot_online_fds except_fd max_fds) s =
      (user_store_snapshot_online_fds s.users except_fd max_fds, ticked s)
  perform (create creator name members) s =
      let (rc, groups', out) =
        group_store_create (world.allocated s.clock) s.groups creator name members in
      ((rc, out), record s { groups = groups'; clock = s.clock + 1 })
  perform (get_snapshot group_id) s = (group_store_get_snapshot s.groups group_id, ticked s)
  perform (build_list_payload username) s =
      (group_store_build_list_payload s.groups username, ticked s)
  perform (remove_member username max_changes) s =
      let (_, groups', changes) = group_store_remove_member s.groups username max_changes in
      (changes, record s { groups = groups'; clock = s.clock + 1 })
  perform (send fd packet) s =
      let d = delivery s fd packet in
      (d.succeeded, record s { sent = s.sent ++ (d ∷ []); clock = s.clock + 1 })

-- A program: a result, a step and what follows each of its answers, or recursion deeper than the
-- fuel.
pub data Program (A : Type 0) : Type 0 where
  ret : A → Program A
  call : (c : Call) → (Answer c → Program A) → Program A
  out_of_fuel : Program A

infixl 5 ◌>>=◌ ◌>>◌
unfoldable pub ◌>>=◌ : {A B : Type 0} → Program A → (A → Program B) → Program B
ret a >>= f = f a
call c k >>= f = call c (λ r. k r >>= f)
out_of_fuel >>= f = out_of_fuel

abbrev pub ◌>>◌ : {A B : Type 0} → Program A → Program B → Program B
m >> k = m >>= λ _. k

abbrev pub step : (c : Call) → Program (Answer c)
step c = call c (λ r. ret r)

-- A program run with no other thread in between; `none` if the fuel does not suffice.
unfoldable pub run : {A : Type 0} → World → Program A → ServerState → Option (A × ServerState)
run world (ret a) s = some (a, s)
run world (call c k) s = let (r, s') = perform world c s in run world (k r) s'
run world out_of_fuel s = none
