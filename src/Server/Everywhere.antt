-- ===== src/Server/Everywhere.antt =====
-- server/server.c: the handlers, for properties of programs that are closed. `handle_register` and
-- `handle_login`, whose calls bring users in, are not among them.
use multi_user_chat.Base.{ℕ, Bool, true, false, Option, none, some, List, [], ◌∷◌, Bytes, c_str}
use multi_user_chat.Protocol.{MessageType, Packet, msg_error}
use multi_user_chat.Server.Program.{Call, get_fd, create, step}
use multi_user_chat.Server.Cleanup.{
  send_group_payload_to_fd, send_to_members, push_group_event, cleanup_offline_fd, found_fd,
}
use multi_user_chat.Group.{GroupResult, GroupSnapshot}
use multi_user_chat.Group.Payload.{GroupPayload}
use multi_user_chat.Server.GroupChat.{
  send_to_group, create_checked, check_members, create_group, handle_group_create,
  handle_group_list, send_group_message, handle_group_message,
}
use multi_user_chat.Server.Handlers.{
  handle_file_packet, forward, handle_private, send_to_fds, handle_group, handle_online_list,
}
use multi_user_chat.Server.Closed.{
  Closed, Good, Plain, Cleaning, Plain-of-Cleaning, all-ret, all-step, all-send, all->>=, all-if,
  all-option, all-respond, all-send_payload, all-send_to_members, all-push_event,
}

module _ (c : Closed) (plain : (call : Call) → Plain call → c.Allowed call) (fuel : ℕ)
    (clean : (fd : ℕ) → Good c (cleanup_offline_fd fuel fd)) where
  all-Plain : (call : Call) → Plain call → Good c (step call)
  all-Plain call h = all-step c call (plain call h)

  cleaning : (call : Call) → Cleaning call → c.Allowed call
  cleaning call h = plain call (Plain-of-Cleaning call h)

  all-payload :
      (fd : ℕ) (type : MessageType) (sender receiver : Bytes) (payload : GroupPayload)
      → Good c (send_group_payload_to_fd (cleanup_offline_fd fuel) fd type sender receiver payload)
  all-payload = all-send_payload c cleaning (cleanup_offline_fd fuel) clean

  all-members :
      (ms : List Bytes) (type : MessageType) (sender receiver : Bytes) (payload : GroupPayload)
      → Good c (send_to_members (cleanup_offline_fd fuel) ms type sender receiver payload)
  all-members = all-send_to_members c cleaning (cleanup_offline_fd fuel) clean

  all-event :
      (event : Bytes) (g : GroupSnapshot)
      → Good c (push_group_event (cleanup_offline_fd fuel) event g)
  all-event = all-push_event c cleaning (cleanup_offline_fd fuel) clean

  all-clean : (fd : ℕ) → Good c (cleanup_offline_fd fuel fd)
  all-clean fd = clean fd

  ruleset closed =
      (all->>=, all-Plain, all-send, all-ret, all-if, all-option, all-respond, all-clean)

  pub all-online_list : (fd : ℕ) → Good c (handle_online_list fd)
  unfolding handle_online_list
  all-online_list fd = search closed

  all-forward : (fd : ℕ) (p : Packet) → c.Sendable p → Good c (forward fuel fd p)
  unfolding forward
  all-forward fd p sendable =
      all->>= c _ _ (all-Plain (get_fd (c_str p.receiver)) tt)
        (λ r. all-option c (found_fd r) _ _ (search closed) (λ t _. search closed))

  pub all-private : (fd : ℕ) (p : Packet) → c.Sendable p → Good c (handle_private fuel fd p)
  unfolding handle_private
  all-private fd p sendable = search (closed, all-forward)

  pub all-file_packet : (fd : ℕ) (p : Packet) → c.Sendable p → Good c (handle_file_packet fuel fd p)
  unfolding handle_file_packet
  all-file_packet fd p sendable = search (closed, all-forward)

  all-send_to_fds : (fds : List ℕ) (p : Packet) → c.Sendable p → Good c (send_to_fds fuel fds p)
  unfolding send_to_fds
  all-send_to_fds [] p sendable = all-ret c tt
  all-send_to_fds (other ∷ fds) p sendable = search (closed, all-send_to_fds fds p sendable)

  pub all-group : (fd : ℕ) (p : Packet) → c.Sendable p → Good c (handle_group fuel fd p)
  unfolding handle_group
  all-group fd p sendable = search (closed, all-send_to_fds)

  all-check_members : (u : Bytes) (ms : List Bytes) (flag : Bool) → Good c (check_members u ms flag)
  unfolding check_members
  all-check_members u [] flag = all-ret c (some flag)
  all-check_members u (m ∷ ms) flag = search (closed, all-check_members u ms)

  all-create_group :
      (fd : ℕ) (u name : Bytes) (ms : List Bytes) → Good c (create_group fuel fd u name ms)
  unfolding create_group
  all-create_group fd u name ms =
      all->>= c _ _ (all-Plain (create u name ms) tt)
        (λ r. all-option c r.1 _ _ (search closed) (λ g _. search (closed, all-event)))

  all-create_checked :
      (fd : ℕ) (u name : Bytes) (ms : List Bytes) (checked : Option Bool)
      → Good c (create_checked fuel fd u name ms checked)
  unfolding create_checked
  all-create_checked fd u name ms none = all-respond c fd msg_error _
  all-create_checked fd u name ms (some false) = all-respond c fd msg_error _
  all-create_checked fd u name ms (some true) = all-create_group fd u name ms

  pub all-group_create : (fd : ℕ) (p : Packet) → Good c (handle_group_create fuel fd p)
  unfolding handle_group_create
  all-group_create fd p = search (closed, all-check_members, all-create_checked)

  pub all-group_list : (fd : ℕ) → Good c (handle_group_list fuel fd)
  unfolding handle_group_list
  all-group_list fd = search (closed, all-payload)

  all-send_message :
      (fd : ℕ) (u : Bytes) (g : GroupSnapshot) (text : Bytes)
      → Good c (send_group_message fuel fd u g text)
  unfolding send_group_message
  all-send_message fd u g text = search (closed, all-members)

  all-send_to_group :
      (fd : ℕ) (u text : Bytes) (found : GroupResult × Option GroupSnapshot)
      → Good c (send_to_group fuel fd u text found)
  unfolding send_to_group
  all-send_to_group fd u text (rc, none) = all-respond c fd msg_error _
  all-send_to_group fd u text (rc, some g) = search (closed, all-send_message)

  pub all-group_message : (fd : ℕ) (p : Packet) → Good c (handle_group_message fuel fd p)
  unfolding handle_group_message
  all-group_message fd p = search (closed, all-send_to_group) depth 8
