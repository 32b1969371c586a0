-- ===== src/Server/Cleanup.antt =====
-- server/server.c: answers in text, and the removal of a client that is gone. `cleanup_offline_fd`
-- tells the members of the user's groups, and cleans up each member that cannot be told, so it
-- calls itself through `push_group_event` and `send_group_payload_to_fd`; these take the call as an
-- argument, and it recurs on fuel.
use multi_user_chat.Base.{
  ℕ, zero, suc, Bool, false, Option, none, some, List, [], ◌∷◌, Bytes, bytes, length, if◌then◌else◌,
}
use multi_user_chat.Limits.{username_max_len, group_event_max_changes}
use multi_user_chat.Protocol.{MessageType, msg_group_event, type_code, packet_init, packet_set_text}
use multi_user_chat.User.{UserResult, user_ok}
use multi_user_chat.Group.{ok, GroupSnapshot, GroupChange}
use multi_user_chat.Group.Payload.{GroupPayload, group_payload_build_event}
use multi_user_chat.Server.Program.{
  Program, ret, out_of_fuel, ◌>>=◌, ◌>>◌, step, username_by_fd, remove_member, logout_fd, get_fd,
  send,
}

-- The result is true for 0.
unfoldable pub send_text_response : ℕ → MessageType → Bytes → Program Bool
send_text_response fd type message =
    elim (packet_set_text (type_code type) (some (bytes "server")) (some []) (some message)) [
      | none ↦ ret false
      | some packet ↦ step (send fd packet)
    ]

-- The handlers make it their last call and ignore its result.
unfoldable pub respond : ℕ → MessageType → Bytes → Program (Unit {0})
respond fd type message = do _ ← send_text_response fd type message; ret tt

unfoldable pub send_group_payload_to_fd :
    (ℕ → Program (Unit {0})) → ℕ → MessageType → Bytes → Bytes → GroupPayload → Program (Unit {0})
send_group_payload_to_fd cleanup fd type sender receiver payload =
    elim (packet_init (type_code type) (some sender) (some receiver) (some payload)
      (length payload)) [
        | none ↦ cleanup fd
        | some packet ↦ do sent ← step (send fd packet); if sent then ret tt else cleanup fd
      ]

-- The descriptor that `user_store_get_fd` gave with USER_OK; an account that is online has one.
abbrev pub found_fd : UserResult × Option ℕ → Option ℕ
found_fd (user_ok, fd) = fd
found_fd (_, fd) = none

-- The loop over the members that `push_group_event` and `handle_group_message` have.
unfoldable pub send_to_members :
    (ℕ → Program (Unit {0}))
    → List Bytes
    → MessageType
    → Bytes
    → Bytes
    → GroupPayload
    → Program (Unit {0})
send_to_members cleanup [] type sender receiver payload = ret tt
send_to_members cleanup (m ∷ ms) type sender receiver payload = do
  found ← step (get_fd m)
  elim (found_fd found) [
    | none ↦ send_to_members cleanup ms type sender receiver payload
    | some member_fd ↦ do
      send_group_payload_to_fd cleanup member_fd type sender receiver payload
      send_to_members cleanup ms type sender receiver payload
  ]

unfoldable pub push_group_event :
    (ℕ → Program (Unit {0})) → Bytes → GroupSnapshot → Program (Unit {0})
push_group_event cleanup event snapshot =
    let (rc, payload) = group_payload_build_event event snapshot in
    elim rc [
      | ok ↦
          send_to_members cleanup snapshot.members msg_group_event (bytes "server") snapshot.id
            payload
      | _ ↦ ret tt
    ]

-- The last loop of `cleanup_offline_fd`.
unfoldable pub push_changes : (ℕ → Program (Unit {0})) → List GroupChange → Program (Unit {0})
push_changes cleanup [] = ret tt
push_changes cleanup (c ∷ cs) = do push_group_event cleanup c.event c.group; push_changes cleanup cs

-- `cleanup_offline_fd` behind the search for the name.
unfoldable pub cleanup_user : (ℕ → Program (Unit {0})) → ℕ → UserResult × Bytes → Program (Unit {0})
cleanup_user cleanup fd (user_ok, username) = do
  changes ← step (remove_member username group_event_max_changes)
  _ ← step (logout_fd fd)
  push_changes cleanup changes
cleanup_user cleanup fd (_, username) = do _ ← step (logout_fd fd); ret tt

unfoldable pub cleanup_offline_fd : ℕ → ℕ → Program (Unit {0})
cleanup_offline_fd zero fd = out_of_fuel
cleanup_offline_fd (suc fuel) fd = do
  found ← step (username_by_fd fd username_max_len)
  cleanup_user (cleanup_offline_fd fuel) fd found
