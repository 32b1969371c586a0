-- ===== src/Queue/Tests.antt =====
-- Runs of the message queue.
use multi_user_chat.Base.{◌≡◌, true, false, none, some, List, [], ◌∷◌, arith}
use multi_user_chat.Protocol.{Packet, no_packet}
use multi_user_chat.Queue.{zeroed, message_queue_init}
use multi_user_chat.Queue.Runs.{
  Operation, enqueue, dequeue, is_empty, accepted, taken, empty, replies, fifo_replies,
  replies-message_queue_init,
}

abbrev first : Packet
first = record no_packet { type = 1 }

abbrev second : Packet
second = record no_packet { type = 2 }

-- Two packets fit, and the third is refused.
abbrev some_operations : List Operation
some_operations =
    is_empty
    ∷ enqueue first
    ∷ enqueue second
    ∷ enqueue second
    ∷ dequeue
    ∷ enqueue first
    ∷ dequeue
    ∷ dequeue
    ∷ dequeue
    ∷ []

replies-message_queue_init_example :
    replies (message_queue_init true zeroed 2).1 some_operations
    ≡ empty true
      ∷ accepted true
      ∷ accepted true
      ∷ accepted false
      ∷ taken (some first)
      ∷ accepted true
      ∷ taken (some second)
      ∷ taken (some first)
      ∷ taken none
      ∷ []
unfolding fifo_replies
replies-message_queue_init_example =
    replies-message_queue_init zeroed 2 some_operations (omega arith)
