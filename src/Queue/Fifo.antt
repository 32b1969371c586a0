-- ===== src/Queue/Fifo.antt =====
-- common/message_queue.c: the ring buffer against a list with the packets in their order.
use multi_user_chat.Base.{
  ℕ, suc, ◌+◌, ◌-◌, ◌%◌, ◌≤◌, ◌<◌, ◌≡◌, refl, sym, ap, ap₂, ◌∙◌, Bool, true, false, Option, none,
  some, List, [], ◌∷◌, ◌++◌, length, set, get_or, replicate, length-set, length-replicate, ◌==◌,
  if◌then◌else◌, arith, Bool-cases, inl, inr,
}
use multi_user_chat.Protocol.{Packet, no_packet}
use multi_user_chat.Queue.{
  zeroed, MessageQueue, message_queue_init, message_queue_enqueue, message_queue_dequeue,
}
use multi_user_chat.Queue.Window.{
  wrap, window, mod-wrap, get_or-set_same, window-set, window-suc, length-window,
}

abbrev pub array : MessageQueue → List Packet
array q = elim q.items [ none ↦ [] | some items ↦ items ]

-- A queue as the operations make it: `tail` is `size` places after `head`.
pub record IsQueue (q : MessageQueue) : Type 0 where
  pub has_items : q.items ≡ some (array q)
  pub room : length (array q) ≡ q.capacity
  pub head_inside : q.head < q.capacity
  pub size_inside : q.size ≤ q.capacity
  pub tail_place : q.tail ≡ wrap q.capacity (q.head + q.size)

-- The packets in the queue, the oldest first.
abbrev pub contents : MessageQueue → List Packet
contents q = window (array q) q.capacity q.head q.size

abbrev pub fifo_enqueue : ℕ → List Packet → Packet → Bool × List Packet
fifo_enqueue capacity ps p = if length ps == capacity then (false, ps) else (true, ps ++ (p ∷ []))

abbrev pub fifo_dequeue : List Packet → Option Packet × List Packet
fifo_dequeue [] = (none, [])
fifo_dequeue (p ∷ ps) = (some p, ps)

init-eq :
    (q : MessageQueue) (capacity : ℕ)
    → 0 < capacity
    → message_queue_init true q capacity
      ≡ (true, record zeroed { items = some (replicate capacity no_packet); capacity = capacity })
unfolding message_queue_init
init-eq q capacity h = ground arith

pub message_queue_init-IsQueue :
    (q : MessageQueue) (capacity : ℕ)
    → 0 < capacity
    → let (rc, q') = message_queue_init true q capacity in
      (rc ≡ true) × (contents q' ≡ []) × (q'.capacity ≡ capacity) × IsQueue q'
unfolding window
message_queue_init-IsQueue q capacity h = rw (init-eq q capacity h) (
  refl,
  refl,
  refl,
  record {
    has_items = refl;
    room = length-replicate capacity no_packet;
    head_inside = h;
    size_inside = omega arith;
    tail_place = ground arith;
  },
)

abbrev after_enqueue : MessageQueue → Packet → MessageQueue
after_enqueue q p = record q {
  items = some (set (array q) q.tail p);
  tail = (q.tail + 1) % q.capacity;
  size = q.size + 1;
}

abbrev after_dequeue : MessageQueue → MessageQueue
after_dequeue q = record q { head = (q.head + 1) % q.capacity; size = q.size - 1 }

enqueue-eq :
    (q : MessageQueue) (p : Packet)
    → q.items ≡ some (array q)
    → message_queue_enqueue q p
      ≡ (if q.size == q.capacity then (false, q) else (true, after_enqueue q p))
unfolding message_queue_enqueue
enqueue-eq q p h =
    ap
      (λ o. elim o [
        | none ↦ (false, q)
        | some items ↦ if q.size == q.capacity then (false, q) else (
          true,
          record q {
            items = some (set items q.tail p);
            tail = (q.tail + 1) % q.capacity;
            size = q.size + 1;
          },
        )
      ])
      h

dequeue-eq :
    (q : MessageQueue)
    → q.items ≡ some (array q)
    → message_queue_dequeue q ≡ (
        if q.size == 0
        then (none, q)
        else (some (get_or (array q) q.head no_packet), after_dequeue q))
unfolding message_queue_dequeue
dequeue-eq q h =
    ap
      (λ o. elim o [
        | none ↦ (none, q)
        | some items ↦ if q.size == 0 then (none, q) else (
          some (get_or items q.head no_packet),
          record q { head = (q.head + 1) % q.capacity; size = q.size - 1 },
        )
      ])
      h

tail_inside : (q : MessageQueue) → IsQueue q → q.size < q.capacity → q.tail < q.capacity
tail_inside q v free = ground (arith, v.tail_place, v.head_inside, v.size_inside)

after_enqueue-IsQueue :
    (q : MessageQueue) (p : Packet) → IsQueue q → q.size < q.capacity → IsQueue (after_enqueue q p)
after_enqueue-IsQueue q p v free = record {
  has_items = refl;
  room = length-set (array q) q.tail p ∙ v.room;
  head_inside = v.head_inside;
  size_inside = omega (arith, free);
  tail_place =
      mod-wrap q.capacity q.tail (tail_inside q v free)
      ∙ ground (arith, v.tail_place, v.head_inside, free);
}

after_enqueue-contents :
    (q : MessageQueue) (p : Packet)
    → IsQueue q
    → q.size < q.capacity
    → contents (after_enqueue q p) ≡ contents q ++ (p ∷ [])
after_enqueue-contents q p v free =
    let written = set (array q) q.tail p in
    let one_more : q.size + 1 ≡ suc q.size = omega arith in
    let kept : window written q.capacity q.head q.size ≡ contents q =
      ap (λ j. window (set (array q) j p) q.capacity q.head q.size) v.tail_place
      ∙ window-set (array q) q.capacity q.head q.size q.size p v.head_inside (omega arith) free in
    let last : get_or written (wrap q.capacity (q.head + q.size)) no_packet ≡ p =
      ap (λ j. get_or written j no_packet) (sym v.tail_place)
      ∙ get_or-set_same (array q) q.tail p (omega (arith, tail_inside q v free, v.room)) in
    ap (window written q.capacity q.head) one_more
    ∙ window-suc written q.capacity q.head q.size v.head_inside free
    ∙ ap₂ (λ ps r. ps ++ (r ∷ [])) kept last

after_dequeue-IsQueue : (q : MessageQueue) → IsQueue q → 0 < q.size → IsQueue (after_dequeue q)
after_dequeue-IsQueue q v some_left =
    let next = mod-wrap q.capacity q.head v.head_inside in
    record {
      has_items = v.has_items;
      room = v.room;
      head_inside = ground (arith, next, v.head_inside);
      size_inside = omega (arith, v.size_inside);
      tail_place = ground (arith, next, v.tail_place, v.head_inside, v.size_inside, some_left);
    }

after_dequeue-contents :
    (q : MessageQueue)
    → IsQueue q
    → 0 < q.size
    → contents q ≡ get_or (array q) q.head no_packet ∷ contents (after_dequeue q)
unfolding window
after_dequeue-contents q v some_left =
    let one_more : q.size ≡ suc (q.size - 1) = omega arith in
    ap (window (array q) q.capacity q.head) one_more
    ∙ ap (λ i. get_or (array q) q.head no_packet ∷ window (array q) q.capacity i (q.size - 1))
        (sym (mod-wrap q.capacity q.head v.head_inside))

pub message_queue_enqueue_lem :
    (q : MessageQueue) (p : Packet)
    → IsQueue q
    → let (rc, q') = message_queue_enqueue q p in
      ((rc, contents q') ≡ fifo_enqueue q.capacity (contents q) p)
      × (q'.capacity ≡ q.capacity)
      × IsQueue q'
message_queue_enqueue_lem q p v = elim (Bool-cases (q.size == q.capacity)) [
  | inl full ↦
      rw (enqueue-eq q p v.has_items, length-window (array q) q.capacity q.head q.size, full)
        (refl, refl, v)
  | inr other ↦
      let free : q.size < q.capacity = ground (arith, other, v.size_inside) in
      rw (enqueue-eq q p v.has_items, length-window (array q) q.capacity q.head q.size, other)
        (
          ap (λ ps. (true, ps)) (after_enqueue-contents q p v free),
          refl,
          after_enqueue-IsQueue q p v free,
        )
]

pub message_queue_dequeue_lem :
    (q : MessageQueue)
    → IsQueue q
    → let (out, q') = message_queue_dequeue q in
      ((out, contents q') ≡ fifo_dequeue (contents q)) × (q'.capacity ≡ q.capacity) × IsQueue q'
unfolding window
message_queue_dequeue_lem q v = elim (Bool-cases (q.size == 0)) [
  | inl empty ↦
      let none_left : q.size ≡ 0 = ground (arith, empty) in
      rw (dequeue-eq q v.has_items, empty)
        (
          ap (λ n. (none, window (array q) q.capacity q.head n)) none_left
              ∙ sym (ap (λ n. fifo_dequeue (window (array q) q.capacity q.head n)) none_left),
          refl,
          v,
        )
  | inr other ↦
      let some_left : 0 < q.size = ground (arith, other) in
      rw (dequeue-eq q v.has_items, other)
        (
          sym (ap fifo_dequeue (after_dequeue-contents q v some_left)),
          refl,
          after_dequeue-IsQueue q v some_left,
        )
]
