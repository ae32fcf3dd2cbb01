-- ===== src/MessageQueue.antt =====
-- skynet-src/skynet_mq.c, the part that concerns one queue: a ring of messages that doubles when
-- it is full. The list of queues that wait for a worker is in `GlobalQueue`.
pub mod Ring
pub mod Fifo
mod Tests
use m2_server.Common.{
  ℕ, zero, suc, ◌+◌, ◌-◌, ◌*◌, ◌%◌, ◌^◌, Option, none, some, List, [], ◌∷◌, ◌++◌, ltb, leb, ◌==◌,
  if◌then◌else◌, get_elem?, replicate, ◌>>=◌, assert, store, ◌>>◌,
}

-- `struct skynet_message`; `payload` is the pointer `data`.
pub record Message : Type 0 where
  pub source : ℕ
  pub session : ℕ
  pub payload : ℕ
  pub sz : ℕ

-- A cell of the array: `none` until it is written.
abbrev pub Cell : Type 0
Cell = Option Message

-- `struct message_queue`, without its lock: each operation below runs under it. `next` links the
-- queues of the global list, and names a queue by its address.
pub record MessageQueue : Type 0 where
  pub handle : ℕ
  pub cap : ℕ
  pub head : ℕ
  pub tail : ℕ
  pub release : ℕ
  pub in_global : ℕ
  pub overload : ℕ
  pub overload_threshold : ℕ
  pub queue : List Cell
  pub next : Option ℕ

abbrev pub default_queue_size : ℕ
default_queue_size = 64

abbrev pub mq_in_global : ℕ
mq_in_global = 1

abbrev pub mq_overload : ℕ
mq_overload = 1024

-- The values of a C `int` lie below.
abbrev pub int_limit : ℕ
int_limit = 2 ^ 31

unfoldable pub create : ℕ → MessageQueue
create handle = record {
  handle = handle;
  cap = default_queue_size;
  head = 0;
  tail = 0;
  release = 0;
  in_global = mq_in_global;
  overload = 0;
  overload_threshold = mq_overload;
  queue = replicate default_queue_size none;
  next = none;
}

-- `skynet_mq_length`
unfoldable pub mq_length : MessageQueue → ℕ
mq_length q = if leb q.head q.tail then q.tail - q.head else q.tail + q.cap - q.head

-- `skynet_mq_overload` reads the mark and clears it.
unfoldable pub take_overload : MessageQueue → ℕ × MessageQueue
take_overload q = if q.overload == 0 then (0, q) else (q.overload, record q { overload = 0 })

-- The loop of `skynet_mq_pop` over `overload` and `overload_threshold`.
unfoldable pub raise_threshold : ℕ → ℕ → ℕ → ℕ → Option (ℕ × ℕ)
raise_threshold zero length overload threshold = none
raise_threshold (suc fuel) length overload threshold =
    let rest = raise_threshold fuel length length (threshold * 2) in
    if ltb threshold length then rest else some (overload, threshold)

-- The index after `i` in a ring of `cap` cells.
abbrev pub next_index : ℕ → ℕ → ℕ
next_index cap i = if leb cap (i + 1) then 0 else i + 1

-- `length = tail - head; if (length < 0) length += cap;`
abbrev pub gap : ℕ → ℕ → ℕ → ℕ
gap cap head tail = if ltb tail head then tail + cap - head else tail - head

-- The branch of `skynet_mq_pop` that finds a message.
unfoldable pub take_message : MessageQueue → Option (Option Message × MessageQueue)
take_message q = do
  cell ← get_elem? q.queue q.head
  message ← cell
  let head = next_index q.cap q.head
  let length = gap q.cap head q.tail
  raised ← raise_threshold (length + 1) length q.overload q.overload_threshold
  some (some message, record q { head = head; overload = raised.0; overload_threshold = raised.1 })

-- `skynet_mq_pop`: the message is `none` where C returns 1.
unfoldable pub pop : MessageQueue → Option (Option Message × MessageQueue)
pop q =
    if q.head == q.tail
    then some (none, record q { overload_threshold = mq_overload; in_global = 0 })
    else take_message q

-- `new_queue[i] = q->queue[(q->head + i) % q->cap]` for the `n` indices from `i` on.
unfoldable pub gather {ℓ} : {A : Type ℓ} → List A → ℕ → ℕ → ℕ → ℕ → Option (List A)
gather queue cap head zero i = some []
gather queue cap head (suc n) i = do
  cell ← get_elem? queue ((head + i) % cap)
  rest ← gather queue cap head n (i + 1)
  some (cell ∷ rest)

unfoldable pub expand_queue : MessageQueue → Option MessageQueue
expand_queue q = do
  assert (ltb (q.cap * 2) int_limit)
  cells ← gather q.queue q.cap q.head q.cap 0
  some (record q { queue = cells ++ replicate q.cap none; head = 0; tail = q.cap; cap = q.cap * 2 })

-- `skynet_mq_push` up to the test of `in_global`.
unfoldable pub put : MessageQueue → Message → Option MessageQueue
put q message = do
  cells ← store q.queue q.tail (some message)
  let tail = next_index q.cap q.tail
  let stored = record q { queue = cells; tail = tail }
  if q.head == tail then expand_queue stored else some stored
