-- ===== src/Server/Total.antt =====
-- server/server.c: every packet is processed to the end, where no other thread runs.
use multi_user_chat.Base.{
  ℕ, ◌<◌, arith, ◌≡◌, refl, Bool, true, false, Option, some, [], Bytes, bytes, if◌then◌else◌,
  Option-cases, inl, inr,
}
use multi_user_chat.Protocol.{
  MessageType, message_type, Packet, packet_set_text, type_code, msg_ok, msg_error, msg_register,
  msg_login, msg_private, msg_group, msg_online_list, msg_file_begin, msg_file_chunk, msg_file_end,
  msg_logout, msg_group_create, msg_group_list, msg_group_message,
}
use multi_user_chat.User.{is_ok}
use multi_user_chat.User.Index.{IsIndexed}
use multi_user_chat.User.Online.{online}
use multi_user_chat.Server.Program.{
  ServerState, Answer, World, perform, Program, ret, call, out_of_fuel, ◌>>=◌, run,
}
use multi_user_chat.Server.Cleanup.{send_text_response, respond, cleanup_offline_fd}
use multi_user_chat.Server.Handlers.{handle_register, handle_login, dispatch, process_packet}
use multi_user_chat.Server.Fuel.{cleanup_offline_fd-Ends}
use multi_user_chat.Server.Ends.{ends_below, Quiet-of-Plain}
use multi_user_chat.Server.Closed.{Closed, Good, all->>=, all-respond}
use multi_user_chat.Server.Everywhere.{
  all-file_packet, all-group, all-group_create, all-group_list, all-group_message, all-online_list,
  all-private,
}

-- A program that never runs out of fuel.
abbrev FuelFree : {A : Type 0} → Program A → Type 0
FuelFree (ret a) = Unit
FuelFree (call c k) = (r : Answer c) → FuelFree (k r)
FuelFree out_of_fuel = ⊥

FuelFree-run :
    {A : Type 0} (world : World) (p : Program A) (s : ServerState)
    → FuelFree p
    → (a : A) × (end : ServerState) × (run world p s ≡ some (a, end))
unfolding run
FuelFree-run world (ret a) s f = (a, s, refl)
FuelFree-run world (call c k) s f =
    FuelFree-run world (k (perform world c s).0) (perform world c s).1 (f (perform world c s).0)
FuelFree-run world out_of_fuel s f = absurd f

FuelFree-if :
    {A : Type 0} (b : Bool) (x y : Program A)
    → FuelFree x
    → FuelFree y
    → FuelFree (if b then x else y)
FuelFree-if true x y p q = p
FuelFree-if false x y p q = q

respond-FuelFree :
    (fd : ℕ) (type : MessageType) (message : Bytes) → FuelFree (respond fd type message)
unfolding respond send_text_response ◌>>=◌
respond-FuelFree fd type message =
    elim (Option-cases
      (packet_set_text (type_code type) (some (bytes "server")) (some []) (some message))) [
        | inl e ↦ rw (respond, send_text_response, e) tt
        | inr (p, e) ↦ rw (respond, send_text_response, e) (λ r. tt)
      ]

handle_register-FuelFree : (fd : ℕ) (p : Packet) → FuelFree (handle_register fd p)
unfolding handle_register ◌>>=◌
handle_register-FuelFree fd p = λ rc.
    FuelFree-if (is_ok rc) _ _ (respond-FuelFree fd msg_ok _) (respond-FuelFree fd msg_error _)

handle_login-FuelFree : (fd : ℕ) (p : Packet) → FuelFree (handle_login fd p)
unfolding handle_login ◌>>=◌
handle_login-FuelFree fd p = λ rc.
    FuelFree-if (is_ok rc) _ _ (respond-FuelFree fd msg_ok _) (respond-FuelFree fd msg_error _)

-- The program ends.
abbrev pub Halts : World → Program (Unit {0}) → ServerState → Type 0
Halts world p s = (end : ServerState) × (run world p s ≡ some (tt, end))

free : (world : World) (p : Program (Unit {0})) (s : ServerState) → FuelFree p → Halts world p s
free world p s f = let (a, end, e) = FuelFree-run world p s f in (end, e)

module _ (world : World) (fuel fd : ℕ) (p : Packet) (s : ServerState) (v : IsIndexed s.users)
    (few : online s.users < fuel) where
  abbrev below : Closed
  below = ends_below world (online s.users)

  -- A handler ends if all programs of its kind do with no more users online than now.
  quietly : (m : Program (Unit {0})) → Good below m → Halts world m s
  quietly m e = let r = e s v (omega arith) in (r.end, r.runs)

  clean : (other : ℕ) → Good below (cleanup_offline_fd fuel other)
  clean other t w fewer = cleanup_offline_fd-Ends world fuel other t w (omega (arith, fewer, few))

  dispatch-Halts : (type : Option MessageType) → Halts world (dispatch fuel type fd p) s
  unfolding dispatch
  dispatch-Halts (some msg_register) = free world _ s (handle_register-FuelFree fd p)
  dispatch-Halts (some msg_login) = free world _ s (handle_login-FuelFree fd p)
  dispatch-Halts (some msg_online_list) =
      quietly _ (all-online_list below Quiet-of-Plain fuel clean fd)
  dispatch-Halts (some msg_private) =
      quietly _ (all-private below Quiet-of-Plain fuel clean fd p tt)
  dispatch-Halts (some msg_group) = quietly _ (all-group below Quiet-of-Plain fuel clean fd p tt)
  dispatch-Halts (some msg_group_create) =
      quietly _ (all-group_create below Quiet-of-Plain fuel clean fd p)
  dispatch-Halts (some msg_group_list) =
      quietly _ (all-group_list below Quiet-of-Plain fuel clean fd)
  dispatch-Halts (some msg_group_message) =
      quietly _ (all-group_message below Quiet-of-Plain fuel clean fd p)
  dispatch-Halts (some msg_file_begin) =
      quietly _ (all-file_packet below Quiet-of-Plain fuel clean fd p tt)
  dispatch-Halts (some msg_file_chunk) =
      quietly _ (all-file_packet below Quiet-of-Plain fuel clean fd p tt)
  dispatch-Halts (some msg_file_end) =
      quietly _ (all-file_packet below Quiet-of-Plain fuel clean fd p tt)
  dispatch-Halts (some msg_logout) =
      quietly _ (all->>= below _ _ (clean fd) (λ _. all-respond below fd msg_ok _))
  dispatch-Halts _ = free world _ s (respond-FuelFree fd _ _)

-- In an indexed store with fewer users online than the fuel, `process_packet` of every packet runs
-- to its end where no other thread runs, however the sends go.
pub process_packet-Halts :
    (world : World) (fuel fd : ℕ) (packet : Packet) (s : ServerState)
    → IsIndexed s.users
    → online s.users < fuel
    → Halts world (process_packet fuel fd packet) s
unfolding process_packet
process_packet-Halts world fuel fd packet s v few =
    dispatch-Halts world fuel fd packet s v few (message_type packet.type)
