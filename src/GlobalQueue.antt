-- ===== src/GlobalQueue.antt =====
-- skynet-src/skynet_mq.c, the part that concerns many queues: the linked list of the queues that
-- wait for a worker, and the operations of a queue that move it onto that list.
pub mod Chain
pub mod Links
pub mod Ops
pub mod Release
use m2_server.Common.{
  ℕ, zero, suc, ◌+◌, Bool, true, false, Option, none, some, List, [], ◌∷◌, ◌==◌, if◌then◌else◌,
  ◌>>=◌, ◌>>◌, assert, update,
}
use m2_server.MessageQueue.{Message, MessageQueue, create, pop, put, mq_length, mq_in_global}

-- The heap of queues by address (`none` is no allocated queue), and `struct global_queue`.
pub record World : Type 0 where
  pub mq : ℕ → Option MessageQueue
  pub head : Option ℕ
  pub tail : Option ℕ

abbrev pub write : ℕ → MessageQueue → World → World
write p q w = record w { mq = update w.mq p (some q) }

abbrev pub is_null : Option ℕ → Bool
is_null none = true
is_null (some p) = false

abbrev pub points_to : ℕ → Option ℕ → Bool
points_to p none = false
points_to p (some t) = p == t

-- The branches of `skynet_globalmq_push` on `q->tail`.
append_queue : ℕ → Option ℕ → World → Option World
append_queue p none w = some (record w { head = some p; tail = some p })
append_queue p (some t) w = do
  last ← w.mq t
  some (record (write t (record last { next = some p }) w) { tail = some p })

unfoldable pub globalmq_push : ℕ → World → Option World
unfolding append_queue
globalmq_push p w = do q ← w.mq p; assert (is_null q.next); append_queue p w.tail w

-- The new tail, once the head `p` with its successor is unlinked.
tail_after : ℕ → Option ℕ → Option ℕ → Option (Option ℕ)
tail_after p (some n) tail = some tail
tail_after p none tail = do assert (points_to p tail); some none

-- The branches of `skynet_globalmq_pop` on `q->head`.
take_first : Option ℕ → World → Option (Option ℕ × World)
unfolding tail_after
take_first none w = some (none, w)
take_first (some p) w = do
  q ← w.mq p
  tail ← tail_after p q.next w.tail
  some (some p, record (write p (record q { next = none }) w) { head = q.next; tail = tail })

unfoldable pub globalmq_pop : World → Option (Option ℕ × World)
unfolding take_first
globalmq_pop w = take_first w.head w

-- `skynet_mq_create` at an address that the allocator returns.
unfoldable pub mq_create : ℕ → ℕ → World → World
mq_create p handle w = write p (create handle) w

-- `skynet_mq_push`
unfoldable pub mq_push : ℕ → Message → World → Option World
mq_push p message w = do
  q ← w.mq p
  q' ← put q message
  if q'.in_global == 0
      then globalmq_push p (write p (record q' { in_global = mq_in_global }) w)
      else some (write p q' w)

-- `skynet_mq_pop`
unfoldable pub mq_pop : ℕ → World → Option (Option Message × World)
mq_pop p w = do q ← w.mq p; r ← pop q; some (r.0, write p r.1 w)

-- `skynet_mq_mark_release`
unfoldable pub mark_release : ℕ → World → Option World
mark_release p w = do
  q ← w.mq p
  assert (q.release == 0)
  let w' = write p (record q { release = 1 }) w
  if q.in_global == mq_in_global then some w' else globalmq_push p w'

-- `_release`: the queue is freed.
free_queue : ℕ → World → Option World
free_queue p w = do q ← w.mq p; assert (is_null q.next); some (record w { mq = update w.mq p none })

-- No message was dropped; one message, and then others.
abbrev freed : Option World → Option (List Message × World)
freed w = w >>= λ w'. some ([], w')

abbrev dropped : Message → Option (List Message × World) → Option (List Message × World)
dropped m rest = rest >>= λ r. some (m ∷ r.0, r.1)

-- `_drop_queue`, with the messages that it hands to `drop_func`, in order.
unfoldable pub drop_queue : ℕ → ℕ → World → Option (List Message × World)
unfolding free_queue
drop_queue zero p w = none
drop_queue (suc fuel) p w = do
  r ← mq_pop p w
  elim r.0 [ none ↦ freed (free_queue p r.1) | some m ↦ dropped m (drop_queue fuel p r.1) ]

-- `skynet_mq_release`. The loop of `_drop_queue` makes one round for each message and one more.
unfoldable pub mq_release : ℕ → World → Option (List Message × World)
mq_release p w = do
  q ← w.mq p
  if q.release == 0 then freed (globalmq_push p w) else drop_queue (suc (mq_length q)) p w
