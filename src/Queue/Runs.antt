-- ===== src/Queue/Runs.antt =====
-- common/message_queue.c: whole runs of a queue, against a list that never holds more packets than
-- the queue has room for.
use multi_user_chat.Base.{
  ℕ, zero, suc, ◌<◌, ◌≡◌, refl, ap, ap₂, ◌∙◌, Bool, true, false, Option, List, [], ◌∷◌, arith, ◌==◌,
}
use multi_user_chat.Protocol.{Packet}
use multi_user_chat.Queue.{
  MessageQueue, message_queue_init, message_queue_enqueue, message_queue_dequeue,
  message_queue_is_empty,
}
use multi_user_chat.Queue.Window.{window}
use multi_user_chat.Queue.Fifo.{
  IsQueue, contents, array, fifo_enqueue, fifo_dequeue, message_queue_init-IsQueue,
  message_queue_enqueue_lem, message_queue_dequeue_lem,
}

pub data Operation : Type 0 where
  enqueue : Packet → Operation
  dequeue is_empty : Operation

pub data Reply : Type 0 where
  accepted : Bool → Reply
  taken : Option Packet → Reply
  empty : Bool → Reply

-- What the operations return, in order.
unfoldable pub replies : MessageQueue → List Operation → List Reply
replies q [] = []
replies q (enqueue p ∷ ops) =
    let (rc, q') = message_queue_enqueue q p in accepted rc ∷ replies q' ops
replies q (dequeue ∷ ops) = let (out, q') = message_queue_dequeue q in taken out ∷ replies q' ops
replies q (is_empty ∷ ops) = empty (message_queue_is_empty q) ∷ replies q ops

abbrev pub no_packets : List Packet → Bool
no_packets [] = true
no_packets (_ ∷ _) = false

-- The same of a list of packets.
unfoldable pub fifo_replies : ℕ → List Packet → List Operation → List Reply
fifo_replies capacity ps [] = []
fifo_replies capacity ps (enqueue p ∷ ops) =
    let (rc, ps') = fifo_enqueue capacity ps p in accepted rc ∷ fifo_replies capacity ps' ops
fifo_replies capacity ps (dequeue ∷ ops) =
    let (out, ps') = fifo_dequeue ps in taken out ∷ fifo_replies capacity ps' ops
fifo_replies capacity ps (is_empty ∷ ops) = empty (no_packets ps) ∷ fifo_replies capacity ps ops

no_packets-window :
    (items : List Packet) (capacity i n : ℕ) → (n == 0) ≡ no_packets (window items capacity i n)
unfolding window
no_packets-window items capacity i zero = refl
no_packets-window items capacity i (suc n) = ground arith

message_queue_is_empty_lem : (q : MessageQueue) → message_queue_is_empty q ≡ no_packets (contents q)
unfolding message_queue_is_empty
message_queue_is_empty_lem q = no_packets-window (array q) q.capacity q.head q.size

-- In every state.
pub replies_lem :
    (ops : List Operation) (q : MessageQueue)
    → IsQueue q
    → replies q ops ≡ fifo_replies q.capacity (contents q) ops
unfolding replies fifo_replies
replies_lem [] q v = refl
replies_lem (enqueue p ∷ ops) q v =
    let (same, room, v') = message_queue_enqueue_lem q p v in
    let (rc, q') = message_queue_enqueue q p in
    ap (λ r. accepted rc ∷ r) (replies_lem ops q' v')
    ∙ ap₂ (λ c r. accepted r.0 ∷ fifo_replies c r.1 ops) room same
replies_lem (dequeue ∷ ops) q v =
    let (same, room, v') = message_queue_dequeue_lem q v in
    let (out, q') = message_queue_dequeue q in
    ap (λ r. taken out ∷ r) (replies_lem ops q' v')
    ∙ ap₂ (λ c r. taken r.0 ∷ fifo_replies c r.1 ops) room same
replies_lem (is_empty ∷ ops) q v =
    ap₂ (λ b r. empty b ∷ r) (message_queue_is_empty_lem q) (replies_lem ops q v)

-- A queue that `message_queue_init` made for at least one packet returns, in every sequence of
-- enqueues, dequeues and tests for emptiness, what a list of packets returns that takes them in
-- order, holds at most as many as the capacity, and gives back the oldest.
pub replies-message_queue_init :
    (q : MessageQueue) (capacity : ℕ) (ops : List Operation)
    → 0 < capacity
    → replies (message_queue_init true q capacity).1 ops ≡ fifo_replies capacity [] ops
replies-message_queue_init q capacity ops h =
    let (_, none_yet, room, v) = message_queue_init-IsQueue q capacity h in
    replies_lem ops (message_queue_init true q capacity).1 v
    ∙ ap₂ (λ c ps. fifo_replies c ps ops) room none_yet
