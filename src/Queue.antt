-- ===== src/Queue.antt =====
-- common/message_queue.c: a ring buffer of packets. A freed or missing array is `none`, and the
-- results 0 and -1 are true and false.
pub mod Window
pub mod Fifo
pub mod Runs
mod Tests
use multi_user_chat.Base.{
  ℕ, ◌+◌, ◌-◌, ◌%◌, Bool, true, false, Option, none, some, List, [], ◌∷◌, set, get_or, replicate,
  ◌==◌, if◌then◌else◌,
}
use multi_user_chat.Protocol.{Packet, no_packet}

pub record MessageQueue : Type 0 where
  pub items : Option (List Packet)
  pub capacity : ℕ
  pub head : ℕ
  pub tail : ℕ
  pub size : ℕ

-- What `memset` makes of a queue.
abbrev pub zeroed : MessageQueue
zeroed = record { items = none; capacity = 0; head = 0; tail = 0; size = 0 }

-- `allocated` tells whether `calloc` succeeded.
unfoldable pub message_queue_init : Bool → MessageQueue → ℕ → Bool × MessageQueue
message_queue_init allocated queue capacity =
    if capacity == 0
    then (false, queue)
    else (if allocated
        then (
          true,
          record zeroed { items = some (replicate capacity no_packet); capacity = capacity },
        )
        else (false, zeroed))

unfoldable pub message_queue_destroy : MessageQueue → MessageQueue
message_queue_destroy queue = zeroed

unfoldable pub message_queue_enqueue : MessageQueue → Packet → Bool × MessageQueue
message_queue_enqueue queue packet = elim queue.items [
  | none ↦ (false, queue)
  | some items ↦ if queue.size == queue.capacity then (false, queue) else (
    true,
    record queue {
      items = some (set items queue.tail packet);
      tail = (queue.tail + 1) % queue.capacity;
      size = queue.size + 1;
    },
  )
]

-- The packet, or `none` for -1.
unfoldable pub message_queue_dequeue : MessageQueue → Option Packet × MessageQueue
message_queue_dequeue queue = elim queue.items [
  | none ↦ (none, queue)
  | some items ↦ if queue.size == 0 then (none, queue) else (
    some (get_or items queue.head no_packet),
    record queue { head = (queue.head + 1) % queue.capacity; size = queue.size - 1 },
  )
]

unfoldable pub message_queue_is_empty : MessageQueue → Bool
message_queue_is_empty queue = queue.size == 0
