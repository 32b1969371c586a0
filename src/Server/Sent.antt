-- ===== src/Server/Sent.antt =====
-- server/server.c: what the threads of the clients send, in every interleaving.
use multi_user_chat.Base.{
  ℕ, arith, zero, suc, ◌≡◌, ◌⊎◌, sym, subst, true, false, some, List, [], ◌∷◌, ◌++◌, Bytes,
  get_elem?, set, All, All-append, Bool-cases, inl, inr,
}
use multi_user_chat.Net.{Status, done, is_done}
use multi_user_chat.Protocol.{Packet}
use multi_user_chat.Protocol.Init.{IsPacket}
use multi_user_chat.Protocol.Wire.{wire, send_packet-prefix, send_packet-done}
use multi_user_chat.Protocol.Receive.{recv_packet-IsPacket}
use multi_user_chat.Server.Program.{
  Delivery, ServerState, Call, World, delivery, perform, send, register, login, online_list, get_fd,
  username_by_fd, logout_fd, snapshot_online_fds, create, get_snapshot, build_list_payload,
  remove_member, call,
}
use multi_user_chat.Server.Threads.{
  Phase, reading, closed, working, closing, Thread, Server, resume, acted, answer, Step, accepted,
  received, processed, hung_up, left, worked, cleaned, Reach, start, next,
}
use multi_user_chat.Server.Uses.{
  Uses, SendsPackets, cleanup_offline_fd-SendsPackets, process_packet-SendsPackets,
}

-- A call of `send_packet` as it should be: of a well-formed packet, of whose wire form a beginning
-- was written, and all of it if the call succeeded.
pub record IsSent (d : Delivery) : Type 0 where
  pub packet : IsPacket d.packet
  pub rest : Bytes
  pub beginning : d.bytes_sent ++ rest ≡ wire d.packet
  pub whole : (d.succeeded ≡ false) ⊎ (d.bytes_sent ≡ wire d.packet)

is_done-true : (status : Status) → is_done status ≡ true → status ≡ done
is_done-true status h = ground arith

delivery_whole :
    (world : World) (s : ServerState) (fd : ℕ) (p : Packet)
    → IsPacket p
    → let d = delivery world s fd p in (d.succeeded ≡ false) ⊎ (d.bytes_sent ≡ wire p)
delivery_whole world s fd p v = elim (Bool-cases (delivery world s fd p).succeeded) [
  | inl good ↦ inr (send_packet-done (world.outcomes s.clock) p v.small (is_done-true _ good))
  | inr bad ↦ inl bad
]

delivery-IsSent :
    (world : World) (s : ServerState) (fd : ℕ) (p : Packet)
    → IsPacket p
    → IsSent (delivery world s fd p)
delivery-IsSent world s fd p v =
    let (rest, prefix) = send_packet-prefix (world.outcomes s.clock) p v.small in
    record { packet = v; rest = rest; beginning = prefix; whole = delivery_whole world s fd p v }

perform-IsSent :
    (world : World) (c : Call) (s : ServerState)
    → SendsPackets c
    → All IsSent s.sent
    → All IsSent (perform world c s).1.sent
unfolding perform
perform-IsSent world (send fd p) s h v =
    All-append IsSent s.sent (delivery world s fd p ∷ []) v (delivery-IsSent world s fd p h, tt)
perform-IsSent world (register u p) s h v = v
perform-IsSent world (login u p fd) s h v = v
perform-IsSent world (online_list n) s h v = v
perform-IsSent world (get_fd u) s h v = v
perform-IsSent world (username_by_fd fd n) s h v = v
perform-IsSent world (logout_fd fd) s h v = v
perform-IsSent world (snapshot_online_fds fd n) s h v = v
perform-IsSent world (create creator name members) s h v = v
perform-IsSent world (get_snapshot id) s h v = v
perform-IsSent world (build_list_payload u) s h v = v
perform-IsSent world (remove_member u n) s h v = v

-- What a thread has still to do.
abbrev Sends : Phase → Type 0
Sends (working p) = Uses SendsPackets p
Sends (closing p) = Uses SendsPackets p
Sends _ = Unit

pub record IsOrderly (server : Server) : Type 0 where
  pub so_far : All IsSent server.state.sent
  pub to_come : All (λ (t : Thread). Sends t.phase) server.threads

All-get_elem? :
    (threads : List Thread) (i : ℕ) (t : Thread)
    → All (λ (t : Thread). Sends t.phase) threads
    → get_elem? threads i ≡ some t
    → Sends t.phase
All-get_elem? [] i t h e = absurd (cc)
All-get_elem? (x ∷ threads) zero t h e =
    let same : x ≡ t = cc in subst (λ (t : Thread). Sends t.phase) same h.0
All-get_elem? (x ∷ threads) (suc i) t h e = All-get_elem? threads i t h.1 e

All-set :
    (threads : List Thread) (i : ℕ) (t : Thread)
    → All (λ (t : Thread). Sends t.phase) threads
    → Sends t.phase
    → All (λ (t : Thread). Sends t.phase) (set threads i t)
All-set [] i t h k = tt
All-set (x ∷ threads) zero t h k = (k, h.1)
All-set (x ∷ threads) (suc i) t h k = (h.0, All-set threads i t h.1 k)

resume-IsOrderly :
    (server : Server) (i fd : ℕ) (phase : Phase)
    → IsOrderly server
    → Sends phase
    → IsOrderly (resume server i fd phase)
resume-IsOrderly server i fd phase v k = record {
  so_far = v.so_far;
  to_come = All-set server.threads i (record { fd = fd; phase = phase }) v.to_come k;
}

acted-IsOrderly :
    (world : World) (server : Server) (c : Call)
    → SendsPackets c
    → IsOrderly server
    → IsOrderly (acted world server c)
acted-IsOrderly world server c h v = record {
  so_far = perform-IsSent world c server.state h v.so_far;
  to_come = v.to_come;
}

Step-IsOrderly : {world : World} {s t : Server} → Step world s t → IsOrderly s → IsOrderly t
Step-IsOrderly (accepted s fd) v = record {
  so_far = v.so_far;
  to_come = All-append (λ (t : Thread). Sends t.phase) s.threads _ v.to_come (tt, tt);
}
Step-IsOrderly (received s i fd fuel os stream a e) v =
    resume-IsOrderly s i fd _ v
      (process_packet-SendsPackets fuel fd _ (recv_packet-IsPacket os stream e))
Step-IsOrderly (processed s i fd a) v = resume-IsOrderly s i fd reading v tt
Step-IsOrderly (hung_up s i fd fuel a) v =
    resume-IsOrderly s i fd _ v (cleanup_offline_fd-SendsPackets fuel fd)
Step-IsOrderly (left s i fd a) v = resume-IsOrderly s i fd closed v tt
Step-IsOrderly {world} (worked s i fd c k a) v =
    let todo : Uses SendsPackets (call c k) = All-get_elem? s.threads i _ v.to_come a in
    resume-IsOrderly (acted world s c) i fd _ (acted-IsOrderly world s c todo.0 v)
      (todo.1 (answer world s c))
Step-IsOrderly {world} (cleaned s i fd c k a) v =
    let todo : Uses SendsPackets (call c k) = All-get_elem? s.threads i _ v.to_come a in
    resume-IsOrderly (acted world s c) i fd _ (acted-IsOrderly world s c todo.0 v)
      (todo.1 (answer world s c))

Reach-IsOrderly :
    {world : World} {first s : Server} → IsOrderly first → Reach world first s → IsOrderly s
Reach-IsOrderly v start = v
Reach-IsOrderly v (next r st) = Step-IsOrderly st (Reach-IsOrderly v r)

-- Where nothing was sent before the first thread starts, and whatever the threads of the clients
-- receive and in whatever order their steps come: every `send_packet` so far was of a well-formed
-- packet, and wrote a beginning of its wire form, the whole of it if it succeeded.
pub Reach-IsSent :
    {world : World} {state : ServerState} {s : Server}
    → state.sent ≡ []
    → Reach world (record { state = state; threads = [] }) s
    → All IsSent s.state.sent
Reach-IsSent none_yet r =
    (Reach-IsOrderly (record { so_far = subst (All IsSent) (sym none_yet) tt; to_come = tt })
      r).so_far
