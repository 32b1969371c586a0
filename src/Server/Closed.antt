-- ===== src/Server/Closed.antt =====
-- server/server.c: properties of programs that are closed under `ret`, `>>=` and some of the calls,
-- and the functions that they pass through.
use multi_user_chat.Base.{
  ℕ, ◌≡◌, refl, Bool, true, false, Option, none, some, List, [], ◌∷◌, Bytes, bytes, length,
  if◌then◌else◌, arith,
}
use multi_user_chat.Protocol.{MessageType, msg_group_event, Packet, type_code}
use multi_user_chat.Protocol.Init.{IsPacket}
use multi_user_chat.Protocol.Made.{packet_init-IsPacket, packet_set_text-IsPacket}
use multi_user_chat.User.{UserResult, user_ok}
use multi_user_chat.Group.{GroupSnapshot, GroupChange, ok}
use multi_user_chat.Group.Payload.{GroupPayload, group_payload_build_event}
use multi_user_chat.Server.Program.{
  Call, Answer, get_fd, username_by_fd, logout_fd, remove_member, send, register, login,
  online_list, snapshot_online_fds, create, get_snapshot, build_list_payload, Program, ret, ◌>>=◌,
  step,
}
use multi_user_chat.Server.Cleanup.{
  send_text_response, respond, send_group_payload_to_fd, send_to_members, push_group_event,
  push_changes, cleanup_user, found_fd,
}

-- The calls of `cleanup_offline_fd`, but for `send`.
abbrev pub Cleaning : Call → Type 0
Cleaning (get_fd u) = Unit
Cleaning (username_by_fd fd n) = Unit
Cleaning (logout_fd fd) = Unit
Cleaning (remove_member u n) = Unit
Cleaning _ = ⊥

-- The calls of the handlers but `handle_register` and `handle_login`, but for `send`.
abbrev pub Plain : Call → Type 0
Plain (register u p) = ⊥
Plain (login u p fd) = ⊥
Plain (send fd p) = ⊥
Plain _ = Unit

pub Plain-of-Cleaning : (call : Call) → Cleaning call → Plain call
Plain-of-Cleaning (get_fd u) h = tt
Plain-of-Cleaning (username_by_fd fd n) h = tt
Plain-of-Cleaning (logout_fd fd) h = tt
Plain-of-Cleaning (remove_member u n) h = tt
Plain-of-Cleaning (register u p) h = absurd h
Plain-of-Cleaning (login u p fd) h = absurd h
Plain-of-Cleaning (online_list n) h = tt
Plain-of-Cleaning (snapshot_online_fds fd n) h = tt
Plain-of-Cleaning (create u name ms) h = tt
Plain-of-Cleaning (get_snapshot id) h = tt
Plain-of-Cleaning (build_list_payload u) h = tt
Plain-of-Cleaning (send fd p) h = absurd h

pub record Closed : Type 1 where
  pub Holds : (A : Type 0) → Program A → Type 0
  pub Allowed : Call → Type 0
  pub Sendable : Packet → Type 0
  pub on_ret : (A : Type 0) (a : A) → Holds A (ret a)
  pub on_bind :
      (A B : Type 0) (m : Program A) (f : A → Program B)
      → Holds A m
      → ((a : A) → Holds B (f a))
      → Holds B (m >>= f)
  pub on_call : (c : Call) → Allowed c → Holds (Answer c) (step c)
  pub on_send : (fd : ℕ) (p : Packet) → Sendable p → Holds Bool (step (send fd p))
  pub made : (p : Packet) → IsPacket p → Sendable p

module _ (c : Closed) where
  abbrev pub Good : {A : Type 0} → Program A → Type 0
  Good {A} p = c.Holds A p

  pub all-ret : {A : Type 0} (a : A) → Good (ret a)
  all-ret {A} a = c.on_ret A a

  pub all-step : (call : Call) → c.Allowed call → Good (step call)
  all-step call h = c.on_call call h

  pub all-send : (fd : ℕ) (p : Packet) → c.Sendable p → Good (step (send fd p))
  all-send fd p h = c.on_send fd p h

  pub all->>= :
      {A B : Type 0} (m : Program A) (f : A → Program B)
      → Good m
      → ((a : A) → Good (f a))
      → Good (m >>= f)
  all->>= {A} {B} m f h next = c.on_bind A B m f h next

  pub all-if :
      {A : Type 0} (b : Bool) (x y : Program A) → Good x → Good y → Good (if b then x else y)
  all-if true x y p q = p
  all-if false x y p q = q

  pub all-option :
      {X A : Type 0} (o : Option X) (x : Program A) (f : X → Program A)
      → Good x
      → ((a : X) → o ≡ some a → Good (f a))
      → Good (elim o [ none ↦ x | some a ↦ f a ])
  all-option none x f p q = p
  all-option (some a) x f p q = q a refl

  pub all-respond : (fd : ℕ) (type : MessageType) (message : Bytes) → Good (respond fd type message)
  unfolding respond send_text_response
  all-respond fd type message =
      all->>= _ _
        (all-option _ _ _ (all-ret false) (λ p made.
          all-send fd p (c.made p (packet_set_text-IsPacket (type_code type) _ _ _ p made))))
        (λ _. all-ret tt)

  -- What holds of `cleanup` holds of the functions that call it.
  module _ (cleaning : (call : Call) → Cleaning call → c.Allowed call)
      (cleanup : ℕ → Program (Unit {0})) (cleans : (fd : ℕ) → Good (cleanup fd)) where
    pub all-send_payload :
        (fd : ℕ) (type : MessageType) (sender receiver : Bytes) (payload : GroupPayload)
        → Good (send_group_payload_to_fd cleanup fd type sender receiver payload)
    unfolding send_group_payload_to_fd
    all-send_payload fd type sender receiver payload = all-option _ _ _ (cleans fd) (λ p made.
        all->>= _ _
          (all-send fd p (
            c.made p (
              packet_init-IsPacket (type_code type) (some sender) (some receiver) (some payload)
                (length payload) p (omega arith) made)))
          (λ sent. all-if sent _ _ (all-ret tt) (cleans fd)))

    pub all-send_to_members :
        (ms : List Bytes) (type : MessageType) (sender receiver : Bytes) (payload : GroupPayload)
        → Good (send_to_members cleanup ms type sender receiver payload)
    unfolding send_to_members
    all-send_to_members [] type sender receiver payload = all-ret tt
    all-send_to_members (m ∷ ms) type sender receiver payload =
        let rest = all-send_to_members ms type sender receiver payload in
        all->>= _ _ (all-step (get_fd m) (cleaning (get_fd m) tt)) (λ found.
          all-option (found_fd found) _ _ rest
            (λ fd _. all->>= _ _ (all-send_payload fd type sender receiver payload) (λ _. rest)))

    pub all-push_event :
        (event : Bytes) (g : GroupSnapshot) → Good (push_group_event cleanup event g)
    unfolding push_group_event
    all-push_event event g =
        elim (group_payload_build_event event g).0
          as (λ rc. Good (elim rc [
            | ok ↦
                send_to_members cleanup g.members msg_group_event (bytes "server") g.id
                  (group_payload_build_event event g).1
            | _ ↦ ret tt
          ])) [
            | ok ↦
                all-send_to_members g.members msg_group_event (bytes "server") g.id
                  (group_payload_build_event event g).1
            | _ ↦ all-ret tt
          ]

    pub all-push_changes : (cs : List GroupChange) → Good (push_changes cleanup cs)
    unfolding push_changes
    all-push_changes [] = all-ret tt
    all-push_changes (change ∷ cs) =
        all->>= _ _ (all-push_event change.event change.group) (λ _. all-push_changes cs)

    pub all-cleanup_user :
        (fd : ℕ) (found : UserResult × Bytes) → Good (cleanup_user cleanup fd found)
    unfolding cleanup_user
    all-cleanup_user fd (user_ok, u) =
        all->>= _ _ (all-step (remove_member u 64) (cleaning (remove_member u 64) tt)) (λ changes.
          all->>= _ _ (all-step (logout_fd fd) (cleaning (logout_fd fd) tt))
            (λ _. all-push_changes changes))
    all-cleanup_user fd (_, u) =
        all->>= _ _ (all-step (logout_fd fd) (cleaning (logout_fd fd) tt)) (λ _. all-ret tt)
