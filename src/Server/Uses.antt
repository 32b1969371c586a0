-- ===== src/Server/Uses.antt =====
-- server/server.c: the calls that a program may make, whatever the answers.
use multi_user_chat.Base.{ℕ, c_str, zero, suc, subst, ◌≡◌, Option, some}
use multi_user_chat.Protocol.{
  MessageType, message_type, Packet, msg_ok, msg_error, msg_register, msg_login, msg_private,
  msg_group, msg_online_list, msg_file_begin, msg_file_chunk, msg_file_end, msg_logout,
  msg_group_create, msg_group_list, msg_group_message,
}
use multi_user_chat.Protocol.Init.{IsPacket}
use multi_user_chat.User.{is_ok}
use multi_user_chat.Server.Program.{
  online_list, get_fd, snapshot_online_fds, create, get_snapshot, build_list_payload, Call, Answer,
  register, login, logout_fd, send, remove_member, username_by_fd, Program, ret, call, out_of_fuel,
  ◌>>=◌, World, ServerState, perform, run,
}
use multi_user_chat.Server.Cleanup.{cleanup_offline_fd}
use multi_user_chat.Server.Handlers.{
  handle_register, handle_login, dispatch, process_packet, text_of_payload,
}
use multi_user_chat.Server.Closed.{
  Closed, Plain, Cleaning, Plain-of-Cleaning, all-step, all->>=, all-if, all-respond,
  all-cleanup_user,
}
use multi_user_chat.Server.Everywhere.{
  all-online_list, all-private, all-group, all-group_create, all-group_list, all-group_message,
  all-file_packet,
}

module _ (P : Call → Type 0) where
  abbrev pub Uses : {A : Type 0} → Program A → Type 0
  Uses (ret a) = Unit
  Uses (call c k) = P c × ((r : Answer c) → Uses (k r))
  Uses out_of_fuel = Unit

  pub Uses->>= :
      {A B : Type 0} (m : Program A) (f : A → Program B)
      → Uses m
      → ((a : A) → Uses (f a))
      → Uses (m >>= f)
  unfolding ◌>>=◌
  Uses->>= (ret a) f h next = next a
  Uses->>= (call c k) f h next = (h.0, λ r. Uses->>= (k r) f (h.1 r) next)
  Uses->>= out_of_fuel f h next = tt

  -- What all the calls keep, a run keeps.
  pub run-Uses :
      {A : Type 0} (world : World) (J : ServerState → Type 0) (p : Program A) (s end : ServerState)
      (a : A)
      → ((c : Call) (t : ServerState) → P c → J t → J (perform world c t).1)
      → Uses p
      → J s
      → run world p s ≡ some (a, end)
      → J end
  unfolding run
  run-Uses world J (ret b) s end a keep h j e = let same : s ≡ end = cc in subst J same j
  run-Uses world J (call c k) s end a keep h j e =
      run-Uses world J (k (perform world c s).0) (perform world c s).1 end a keep
        (h.1 (perform world c s).0) (keep c s h.0 j) e
  run-Uses world J out_of_fuel s end a keep h j e = absurd (cc)

  -- To make only calls of `P`, of which every packet that is sent is well formed.
  abbrev pub uses : ((fd : ℕ) (p : Packet) → IsPacket p → P (send fd p)) → Closed
  uses sends = record {
    Holds = λ A p. Uses p;
    Allowed = P;
    Sendable = IsPacket;
    on_ret = λ A a. tt;
    on_bind = λ A B m f h next. Uses->>= m f h next;
    on_call = λ c h. (h, λ r. tt);
    on_send = λ fd p v. (sends fd p v, λ r. tt);
    made = λ p v. v;
  }

  module _ (sends : (fd : ℕ) (p : Packet) → IsPacket p → P (send fd p))
      (cleaning : (c : Call) → Cleaning c → P c) where
    pub cleanup_offline_fd-Uses : (fuel fd : ℕ) → Uses (cleanup_offline_fd fuel fd)
    unfolding cleanup_offline_fd
    cleanup_offline_fd-Uses zero fd = tt
    cleanup_offline_fd-Uses (suc fuel) fd =
        all->>= (uses sends) _ _
          (all-step (uses sends) (username_by_fd fd 32) (cleaning (username_by_fd fd 32) tt))
          (all-cleanup_user (uses sends) cleaning (cleanup_offline_fd fuel)
            (cleanup_offline_fd-Uses fuel) fd)

-- To send only well-formed packets; the other calls are free.
abbrev pub SendsPackets : Call → Type 0
SendsPackets (send fd p) = IsPacket p
SendsPackets _ = Unit

SendsPackets-of-Plain : (c : Call) → Plain c → SendsPackets c
SendsPackets-of-Plain (register u p) h = absurd h
SendsPackets-of-Plain (login u p fd) h = absurd h
SendsPackets-of-Plain (send fd p) h = absurd h
SendsPackets-of-Plain (online_list n) h = tt
SendsPackets-of-Plain (get_fd u) h = tt
SendsPackets-of-Plain (username_by_fd fd n) h = tt
SendsPackets-of-Plain (logout_fd fd) h = tt
SendsPackets-of-Plain (snapshot_online_fds fd n) h = tt
SendsPackets-of-Plain (create creator name members) h = tt
SendsPackets-of-Plain (get_snapshot id) h = tt
SendsPackets-of-Plain (build_list_payload u) h = tt
SendsPackets-of-Plain (remove_member u n) h = tt

abbrev packets_only : Closed
packets_only = uses SendsPackets (λ fd p v. v)

pub cleanup_offline_fd-SendsPackets : (fuel fd : ℕ) → Uses SendsPackets (cleanup_offline_fd fuel fd)
cleanup_offline_fd-SendsPackets =
    cleanup_offline_fd-Uses SendsPackets (λ fd p v. v)
      (λ c h. SendsPackets-of-Plain c (Plain-of-Cleaning c h))

handle_register-SendsPackets : (fd : ℕ) (p : Packet) → Uses SendsPackets (handle_register fd p)
unfolding handle_register
handle_register-SendsPackets fd p =
    all->>= packets_only _ _
      (all-step packets_only (register (c_str p.sender) (text_of_payload p)) tt)
      (λ rc.
        all-if packets_only (is_ok rc) _ _ (all-respond packets_only fd msg_ok _)
          (all-respond packets_only fd msg_error _))

handle_login-SendsPackets : (fd : ℕ) (p : Packet) → Uses SendsPackets (handle_login fd p)
unfolding handle_login
handle_login-SendsPackets fd p =
    all->>= packets_only _ _
      (all-step packets_only (login (c_str p.sender) (text_of_payload p) fd) tt)
      (λ rc.
        all-if packets_only (is_ok rc) _ _ (all-respond packets_only fd msg_ok _)
          (all-respond packets_only fd msg_error _))

module _ (fuel fd : ℕ) (p : Packet) (v : IsPacket p) where
  dispatch-SendsPackets : (type : Option MessageType) → Uses SendsPackets (dispatch fuel type fd p)
  unfolding dispatch
  dispatch-SendsPackets (some msg_register) = handle_register-SendsPackets fd p
  dispatch-SendsPackets (some msg_login) = handle_login-SendsPackets fd p
  dispatch-SendsPackets (some msg_online_list) =
      all-online_list packets_only SendsPackets-of-Plain fuel (cleanup_offline_fd-SendsPackets fuel)
        fd
  dispatch-SendsPackets (some msg_private) =
      all-private packets_only SendsPackets-of-Plain fuel (cleanup_offline_fd-SendsPackets fuel) fd
        p v
  dispatch-SendsPackets (some msg_group) =
      all-group packets_only SendsPackets-of-Plain fuel (cleanup_offline_fd-SendsPackets fuel) fd p
        v
  dispatch-SendsPackets (some msg_group_create) =
      all-group_create packets_only SendsPackets-of-Plain fuel
        (cleanup_offline_fd-SendsPackets fuel) fd p
  dispatch-SendsPackets (some msg_group_list) =
      all-group_list packets_only SendsPackets-of-Plain fuel (cleanup_offline_fd-SendsPackets fuel)
        fd
  dispatch-SendsPackets (some msg_group_message) =
      all-group_message packets_only SendsPackets-of-Plain fuel
        (cleanup_offline_fd-SendsPackets fuel) fd p
  dispatch-SendsPackets (some msg_file_begin) =
      all-file_packet packets_only SendsPackets-of-Plain fuel (cleanup_offline_fd-SendsPackets fuel)
        fd p v
  dispatch-SendsPackets (some msg_file_chunk) =
      all-file_packet packets_only SendsPackets-of-Plain fuel (cleanup_offline_fd-SendsPackets fuel)
        fd p v
  dispatch-SendsPackets (some msg_file_end) =
      all-file_packet packets_only SendsPackets-of-Plain fuel (cleanup_offline_fd-SendsPackets fuel)
        fd p v
  dispatch-SendsPackets (some msg_logout) =
      all->>= packets_only _ _ (cleanup_offline_fd-SendsPackets fuel fd)
        (λ _. all-respond packets_only fd msg_ok _)
  dispatch-SendsPackets _ = all-respond packets_only fd _ _

  pub process_packet-SendsPackets : Uses SendsPackets (process_packet fuel fd p)
  unfolding process_packet
  process_packet-SendsPackets = dispatch-SendsPackets (message_type p.type)
