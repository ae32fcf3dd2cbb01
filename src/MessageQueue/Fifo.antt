-- ===== src/MessageQueue/Fifo.antt =====
-- A message queue of skynet_mq.c behaves as the list of the messages that it holds, oldest first.
use mathlib.Core.List.{head?, tail}
use native.Mathlib.Decide.{dec_lt}
use native.Mathlib.Nat.{mul_assoc}
use m2_server.Common.{
  ℕ, zero, suc, ◌+◌, ◌*◌, ◌%◌, ◌^◌, ◌≤◌, ◌<◌, ◌≡◌, ◌≢◌, refl, arith, ◌⊎◌, inl, inr, none, some,
  List, [], ◌∷◌, ◌++◌, length, get_elem?, set, map, ◌∙◌, sym, ap, replicate, ltb→lt, ltb→le, ltb,
  ◌==◌, if◌then◌else◌, true, Bool-cases, length-replicate, length-append, length-set, length-map,
  store-eq, lt→ltb, le→ltb, ne→==, eq→==,
}
use m2_server.MessageQueue.{
  Message, Cell, MessageQueue, create, mq_length, raise_threshold, take_message, pop, gather,
  expand_queue, put, next_index, gap, int_limit, mq_overload,
}
use m2_server.MessageQueue.Ring.{
  index_cases, Holds, Holds-set, Holds-tail, Holds-cells, gather_lem, index-suc,
}

-- The queue `q` holds `ms`: no index leaves the array, and the cells from `head` to `tail` are
-- written.
pub record Represents (q : MessageQueue) (ms : List Message) : Type 0 where
  pub small : q.cap < int_limit
  pub size : length q.queue ≡ q.cap
  pub head_in : q.head < q.cap
  pub room : length ms < q.cap
  pub at_tail : q.tail ≡ (q.head + length ms) % q.cap
  pub threshold : 0 < q.overload_threshold
  pub cells : Holds q.queue q.cap q.head ms

pub create-Represents : (handle : ℕ) → Represents (create handle) []
unfolding create
create-Represents handle = record {
  small = omega arith;
  size = refl;
  head_in = omega arith;
  room = omega arith;
  at_tail = refl;
  threshold = omega arith;
  cells = λ i h. absurd (omega arith);
}

pub mq_length-Represents :
    {q : MessageQueue} {ms : List Message} → Represents q ms → mq_length q ≡ length ms
unfolding mq_length
mq_length-Represents {q} {ms} r =
    ground (arith, index_cases q.cap q.head (length ms) r.head_in (omega arith))

-- What the overload loop computes, from the remaining length and the two fields.
pub record Raised (length overload threshold : ℕ) (r : ℕ × ℕ) : Type 0 where
  pub covers : length ≤ r.1
  pub grows : threshold ≤ r.1
  pub least : (r.1 ≡ threshold) ⊎ (r.1 < 2 * length)
  pub doubled : (n : ℕ) × (r.1 ≡ threshold * 2 ^ n)
  pub quiet : length ≤ threshold → (r.0 ≡ overload) × (r.1 ≡ threshold)
  pub marks : threshold < length → r.0 ≡ length

-- The loop ends at once, or behind one doubling more.
kept : (len o t : ℕ) → len ≤ t → Raised len o t (o, t)
kept len o t h = record {
  covers = h;
  grows = omega arith;
  least = inl refl;
  doubled = (0, omega arith);
  quiet = λ _. (refl, refl);
  marks = λ more. absurd (omega (arith, h, more));
}

twice : (len o t : ℕ) (r : ℕ × ℕ) → t < len → Raised len len (t * 2) r → Raised len o t r
twice len o t r more f =
    let (n, e) = f.doubled in
    record {
      covers = f.covers;
      grows = omega (arith, f.grows);
      least = ground (arith, f.least, more);
      doubled = (suc n, e ∙ double t n);
      quiet = λ few. absurd (omega (arith, few, more));
      marks = λ _. elim (dec_lt (t * 2) len) [
        | yes again ↦ f.marks again
        | no enough ↦ (f.quiet (omega (arith, enough))).0
      ];
    }
  where
    double : (t n : ℕ) → t * 2 * 2 ^ n ≡ t * 2 ^ suc n
    double t n = mul_assoc t 2 (2 ^ n) ∙ ap (λ x. t * x) (omega arith)

-- Where the threshold is positive, one round of fuel more than the length exceeds it by lets the
-- loop end. It ends with the threshold doubled as often as it takes to cover the length: the new one covers
-- it, is a power of two times the one before, and is that one or below twice the length. `overload` becomes the length where that was above the threshold, and nothing changes else.
pub raise_threshold_lem :
    (fuel length overload threshold : ℕ)
    → 0 < threshold
    → length ≤ fuel + threshold
    → (r : ℕ × ℕ) × (raise_threshold (suc fuel) length overload threshold ≡ some r)
      × Raised length overload threshold r
unfolding raise_threshold
raise_threshold_lem zero len o t p h =
    ((o, t), rw (le→ltb t len (omega arith)), kept len o t (omega arith))
raise_threshold_lem (suc fuel) len o t p h = elim (Bool-cases (ltb t len)) [
  | inl more ↦
      let (r, e, f) = raise_threshold_lem fuel len len (t * 2) (omega arith) (ground arith) in
      (r, rw more e, twice len o t r (ltb→lt t len more) f)
  | inr done ↦ ((o, t), rw done, kept len o t (ltb→le t len done))
]

-- The mark `in_global` after a pop from a queue that held `ms`.
abbrev pub in_global_after : List Message → ℕ → ℕ
in_global_after [] g = 0
in_global_after (m ∷ ms) g = g

-- What the operations below leave as it was.
pub record SameLinks (q q' : MessageQueue) : Type 0 where
  pub handle : q'.handle ≡ q.handle
  pub release : q'.release ≡ q.release
  pub next : q'.next ≡ q.next

-- `q'` is what `skynet_mq_pop` leaves of `q`, which held `ms`.
pub record Popped (q : MessageQueue) (ms : List Message) (q' : MessageQueue) : Type 0 where
  pub left : Represents q' (tail ms)
  pub same : SameLinks q q'
  pub in_global : q'.in_global ≡ in_global_after ms q.in_global

next_index-eq-mod :
    (cap head : ℕ)
    → head < cap
    → (next_index cap head ≡ (head + 1) % cap) × (next_index cap head < cap)
next_index-eq-mod cap head h = ground (arith, index_cases cap head 1 h (omega arith))

take_message_lem :
    {q : MessageQueue} (m : Message) (ms : List Message)
    → Represents q (m ∷ ms)
    → (q' : MessageQueue) × (take_message q ≡ some (some m, q')) × Popped q (m ∷ ms) q'
unfolding take_message
take_message_lem {q} m ms r =
    let head = next_index q.cap q.head in
    let len = gap q.cap head q.tail in
    let here : (q.head + 0) % q.cap ≡ q.head =
      omega (arith, index_cases q.cap q.head 0 r.head_in (omega arith)) in
    let read : get_elem? q.queue q.head ≡ some (some m) = rw here at (r.cells 0 (omega arith)) in
    let n : len + 1 ≡ suc len = omega arith in
    let (raised, e, grown) =
      raise_threshold_lem len len q.overload q.overload_threshold r.threshold (omega arith) in
    let moved = next_index-eq-mod q.cap q.head r.head_in in
    (
      record q { head = head; overload = raised.0; overload_threshold = raised.1 },
      rw read (rw n (rw e)),
      record {
        left = record {
          small = r.small;
          size = r.size;
          head_in = moved.1;
          room = omega arith;
          at_tail =
              r.at_tail
              ∙ sym
                  (index-suc q.cap q.head head (length ms) r.head_in moved.1 moved.0 (omega arith));
          threshold = omega arith;
          cells =
              Holds-tail q.queue q.cap q.head head m ms r.head_in moved.1 moved.0 (omega arith)
                r.cells;
        };
        same = record { handle = refl; release = refl; next = refl };
        in_global = refl;
      },
    )

-- On a queue that represents a list, `skynet_mq_pop` never reads a cell that was not written: it returns the oldest message, if there
-- is one, leaves the others, and clears `in_global` exactly when there was none.
pub pop_refines :
    {q : MessageQueue} (ms : List Message)
    → Represents q ms
    → (q' : MessageQueue) × (pop q ≡ some (head? ms, q')) × Popped q ms q'
unfolding pop
pop_refines {q} [] r =
    let e : q.head ≡ q.tail = omega (arith, index_cases q.cap q.head 0 r.head_in (omega arith)) in
    (
      record q { overload_threshold = mq_overload; in_global = 0 },
      ground arith,
      record {
        left = record {
          small = r.small;
          size = r.size;
          head_in = r.head_in;
          room = r.room;
          at_tail = r.at_tail;
          threshold = omega arith;
          cells = r.cells;
        };
        same = record { handle = refl; release = refl; next = refl };
        in_global = refl;
      },
    )
pop_refines {q} (m ∷ ms) r =
    let (q', e, p) = take_message_lem m ms r in
    let ne : q.head ≢ q.tail =
      omega (arith, index_cases q.cap q.head (suc (length ms)) r.head_in (omega arith)) in
    (q', rw (ne→== q.head q.tail ne) e, p)

-- `q'` is what `skynet_mq_push` makes of `q`, which then holds `ms`.
pub record Pushed (q : MessageQueue) (ms : List Message) (q' : MessageQueue) : Type 0 where
  pub holds : Represents q' ms
  pub same : SameLinks q q'
  pub in_global : q'.in_global ≡ q.in_global

-- A full ring, as `skynet_mq_push` leaves it for `expand_queue`.
expand_queue_lem :
    {q : MessageQueue} (ms : List Message)
    → q.head < q.cap
    → length ms ≡ q.cap
    → length ms < 2 ^ 30
    → 0 < q.overload_threshold
    → Holds q.queue q.cap q.head ms
    → (q' : MessageQueue) × (expand_queue q ≡ some q') × Pushed q ms q'
unfolding expand_queue
expand_queue_lem {q} ms hh full few pos holds =
    let cells = map some ms ++ replicate q.cap none in
    let fits : ltb (q.cap * 2) int_limit ≡ true = lt→ltb _ _ (omega arith) in
    let copied : gather q.queue q.cap q.head q.cap 0 ≡ some (map some ms) =
      gather_lem q.queue q.cap q.head ms holds q.cap 0 (omega arith) in
    let e : (0 + length ms) % (q.cap * 2) ≡ length ms =
      omega (arith, index_cases (q.cap * 2) 0 (length ms) (omega arith) (omega arith)) in
    (
      record q { queue = cells; head = 0; tail = q.cap; cap = q.cap * 2 },
      rw fits (rw copied),
      record {
        holds = record {
          small = omega arith;
          size = omega (
            arith,
            length-append (map some ms) (replicate q.cap none),
            length-map some ms,
            length-replicate {0} {A = Cell} q.cap none,
          );
          head_in = omega arith;
          room = omega arith;
          at_tail = omega arith;
          threshold = pos;
          cells = Holds-cells ms (replicate q.cap none) (q.cap * 2) (omega arith);
        };
        same = record { handle = refl; release = refl; next = refl };
        in_global = refl;
      },
    )

module _ {q : MessageQueue} {ms : List Message} (m : Message) (r : Represents q ms) where
  written : List Cell
  written = set q.queue q.tail (some m)

  stored : MessageQueue
  stored = record q { queue = written; tail = next_index q.cap q.tail }

  tail_in : q.tail < q.cap
  tail_in = omega (arith, r.at_tail, index_cases q.cap q.head (length ms) r.head_in (omega arith))

  written-Holds : Holds written q.cap q.head (ms ++ m ∷ [])
  unfolding written
  written-Holds = rw r.at_tail (Holds-set q.queue q.cap q.head ms m r.size r.head_in r.room r.cells)

  -- The write, then the test whether the ring is full.
  put-stored :
      put q m ≡ (if q.head == next_index q.cap q.tail then expand_queue stored else some stored)
  unfolding put stored written
  put-stored = rw (store-eq q.queue q.tail (some m) (omega (arith, tail_in, r.size))) refl

  put_room :
      length ms + 1 < q.cap → (q' : MessageQueue) × (put q m ≡ some q') × Pushed q (ms ++ m ∷ []) q'
  unfolding stored written
  put_room h =
      let ne : q.head ≢ next_index q.cap q.tail = omega (
        arith,
        next_index-eq-mod q.cap q.tail tail_in,
        index_cases q.cap q.head (length ms) r.head_in (omega arith),
        index_cases q.cap q.tail 1 tail_in (omega arith),
        r.at_tail,
      ) in
      (
        stored,
        put-stored ∙ (rw (ne→== _ _ ne)),
        record {
          holds = record {
            small = r.small;
            size = length-set q.queue q.tail (some m) ∙ r.size;
            head_in = r.head_in;
            room = omega (arith, length-append ms (m ∷ []));
            at_tail = omega (
              arith,
              next_index-eq-mod q.cap q.tail tail_in,
              length-append ms (m ∷ []),
              index_cases q.cap q.head (length ms) r.head_in (omega arith),
              index_cases q.cap q.tail 1 tail_in (omega arith),
              index_cases q.cap q.head (length (ms ++ m ∷ [])) r.head_in
                  (omega (arith, length-append ms (m ∷ []))),
            );
            threshold = r.threshold;
            cells = written-Holds;
          };
          same = record { handle = refl; release = refl; next = refl };
          in_global = refl;
        },
      )

  put_full :
      length ms + 1 ≡ q.cap
      → length ms + 1 < 2 ^ 30
      → (q' : MessageQueue) × (put q m ≡ some q') × Pushed q (ms ++ m ∷ []) q'
  unfolding stored written
  put_full full few =
      let len = length-append ms (m ∷ []) in
      let e : q.head ≡ next_index q.cap q.tail = omega (
        arith,
        next_index-eq-mod q.cap q.tail tail_in,
        index_cases q.cap q.head (length ms) r.head_in (omega arith),
        index_cases q.cap q.tail 1 tail_in (omega arith),
        r.at_tail,
      ) in
      let (q', e', p) =
        expand_queue_lem {q = stored} (ms ++ m ∷ []) r.head_in (omega arith) (omega arith)
          r.threshold written-Holds in
      (
        q',
        put-stored ∙ (rw (eq→== _ _ e) e'),
        record {
          holds = p.holds;
          same = record { handle = p.same.handle; release = p.same.release; next = p.same.next };
          in_global = p.in_global;
        },
      )

-- On a queue that represents a list of fewer than 2 ^ 30 - 1 messages, `skynet_mq_push` adds the message
-- behind the others, also when the array is full and doubles, and keeps within the array and `int`.
pub put_refines :
    {q : MessageQueue} {ms : List Message} (m : Message)
    → Represents q ms
    → length ms + 1 < 2 ^ 30
    → (q' : MessageQueue) × (put q m ≡ some q') × Pushed q (ms ++ m ∷ []) q'
put_refines {q} {ms} m r few = elim (dec_lt (length ms + 1) q.cap) [
  | yes h ↦ put_room m r h
  | no h ↦ put_full m r (omega (arith, r.room)) few
]
