-- ===== src/Scheduler.antt =====
-- Who may touch a queue: the calls of skynet-src/skynet_mq.c that creators of services, worker
-- threads and senders make, in any order. Each call runs under its locks, so one is a step.
--
-- An owner is one activity that has a queue in hand: `skynet_context_new` between
-- `skynet_mq_create` and `skynet_globalmq_push`, or `skynet_context_message_dispatch` between
-- `skynet_globalmq_pop` and the next one (skynet-src/skynet_server.c).
pub mod Placement
pub mod Invariant
pub mod Steps
pub mod Messages
pub mod Endings
pub mod Safety
mod Tests
use m2_server.Common.{ℕ, ◌+◌, ◌^◌, ◌<◌, ◌≡◌, Option, none, some, List, [], ◌∷◌, ◌++◌, update}
use m2_server.MessageQueue.{Message, MessageQueue, mq_length}
use m2_server.GlobalQueue.{
  World, globalmq_push, globalmq_pop, mq_create, mq_push, mq_pop, mark_release, mq_release,
}

-- `held` is the queue in hand of each owner. The program does not keep `sent` and `got`: the
-- messages pushed to a queue since it was created, and those taken from it by a dispatcher.
pub record System : Type 0 where
  pub world : World
  pub held : ℕ → Option ℕ
  pub sent : ℕ → List Message
  pub got : ℕ → List Message

-- `skynet_mq_init`: no queue is allocated, and the list is empty.
unfoldable pub initial : System
initial = record {
  world = record { mq = λ p. none; head = none; tail = none };
  held = λ t. none;
  sent = λ p. [];
  got = λ p. [];
}

-- `pushes` goes through a handle that is alive, so the context was not deleted and `release` is
-- clear; so do `pops` and `drains`, whose dispatcher holds a reference of the context.
pub data Step (s : System) : System → Type 0 where
  creates :
      (t p handle : ℕ)
      → s.held t ≡ none
      → s.world.mq p ≡ none
      → Step s (record s {
        world = mq_create p handle s.world;
        held = update s.held t (some p);
        sent = update s.sent p [];
        got = update s.got p [];
      })
  puts_back :
      (t p : ℕ) (w : World)
      → s.held t ≡ some p
      → globalmq_push p s.world ≡ some w
      → Step s (record s { world = w; held = update s.held t none })
  takes :
      (t : ℕ) (r : Option ℕ) (w : World)
      → s.held t ≡ none
      → globalmq_pop s.world ≡ some (r, w)
      → Step s (record s { world = w; held = update s.held t r })
  pushes :
      (p : ℕ) (m : Message) (q : MessageQueue) (w : World)
      → s.world.mq p ≡ some q
      → q.release ≡ 0
      → mq_length q + 1 < 2 ^ 30
      → mq_push p m s.world ≡ some w
      → Step s (record s { world = w; sent = update s.sent p (s.sent p ++ m ∷ []) })
  pops :
      (t p : ℕ) (m : Message) (q : MessageQueue) (w : World)
      → s.held t ≡ some p
      → s.world.mq p ≡ some q
      → q.release ≡ 0
      → mq_pop p s.world ≡ some (some m, w)
      → Step s (record s { world = w; got = update s.got p (s.got p ++ m ∷ []) })
  drains :
      (t p : ℕ) (q : MessageQueue) (w : World)
      → s.held t ≡ some p
      → s.world.mq p ≡ some q
      → q.release ≡ 0
      → mq_pop p s.world ≡ some (none, w)
      → Step s (record s { world = w; held = update s.held t none })
  marks : (p : ℕ) (w : World) → mark_release p s.world ≡ some w → Step s (record s { world = w })
  releases :
      (t p : ℕ) (dropped : List Message) (w : World)
      → s.held t ≡ some p
      → mq_release p s.world ≡ some (dropped, w)
      → Step s (record s { world = w; held = update s.held t none })

pub data Reach : System → Type 0 where
  start : Reach initial
  later : {s s' : System} → Reach s → Step s s' → Reach s'

-- The queue at `p` is reached from the head of the global list.
pub data OnList (w : World) : ℕ → Type 0 where
  first : {p : ℕ} → w.head ≡ some p → OnList w p
  after : {i p : ℕ} (q : MessageQueue) → OnList w i → w.mq i ≡ some q → q.next ≡ some p → OnList w p
