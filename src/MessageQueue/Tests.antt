-- ===== src/MessageQueue/Tests.antt =====
-- Small rings: one that is full after the next message, one that wraps.
use m2_server.Common.{ℕ, zero, suc, ◌≡◌, refl, arith, none, some, [], ◌∷◌}
use m2_server.MessageQueue.{
  Message, MessageQueue, raise_threshold, pop, put, gather, expand_queue, take_overload,
}
use m2_server.MessageQueue.Fifo.{
  Represents, Popped, Pushed, Raised, pop_refines, put_refines, raise_threshold_lem,
}
use m2_server.MessageQueue.Ring.{Holds}

abbrev first_message : Message
first_message = record { source = 1; session = 1; payload = 10; sz = 3 }

abbrev second_message : Message
second_message = record { source = 2; session = 5; payload = 20; sz = 4 }

-- Two cells, the message in the last one.
abbrev wrapped : MessageQueue
wrapped = record {
  handle = 8;
  cap = 2;
  head = 1;
  tail = 0;
  release = 0;
  in_global = 1;
  overload = 0;
  overload_threshold = 1024;
  queue = none ∷ some first_message ∷ [];
  next = none;
}

wrapped-Holds : Holds wrapped.queue 2 1 (first_message ∷ [])
wrapped-Holds zero h = refl
wrapped-Holds (suc i) h = absurd (omega arith)

wrapped-Represents : Represents wrapped (first_message ∷ [])
wrapped-Represents = record {
  small = omega arith;
  size = refl;
  head_in = omega arith;
  room = omega arith;
  at_tail = refl;
  threshold = omega arith;
  cells = wrapped-Holds;
}

put-wrapped :
    put wrapped second_message
    ≡ some (record wrapped {
      cap = 4;
      head = 0;
      tail = 2;
      queue = some first_message ∷ some second_message ∷ none ∷ none ∷ [];
    })
unfolding put expand_queue gather
put-wrapped = refl

raise_threshold-run : raise_threshold 5000 3000 0 1024 ≡ some (3000, 4096)
unfolding raise_threshold
raise_threshold-run = refl

take_overload-run : take_overload (record wrapped { overload = 7 }) ≡ (7, wrapped)
unfolding take_overload
take_overload-run = refl

pop_refines_example :
    (q : MessageQueue) × (pop wrapped ≡ some (some first_message, q))
    × Popped wrapped (first_message ∷ []) q
pop_refines_example = pop_refines (first_message ∷ []) wrapped-Represents

put_refines_example :
    (q : MessageQueue) × (put wrapped second_message ≡ some q)
    × Pushed wrapped (first_message ∷ second_message ∷ []) q
put_refines_example = put_refines second_message wrapped-Represents (omega arith)

raise_threshold_lem_example :
    (r : ℕ × ℕ) × (raise_threshold 3000 2999 0 1024 ≡ some r) × Raised 2999 0 1024 r
raise_threshold_lem_example = raise_threshold_lem 2999 2999 0 1024 (omega arith) (omega arith)
