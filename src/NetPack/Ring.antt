-- ===== src/NetPack/Ring.antt =====
-- lualib-src/lua-netpack.c: the ring of packets behaves as the list of the packets that it holds,
-- oldest first.
use mathlib.Core.List.{head?, tail}
use native.Mathlib.Decide.{dec_lt}
use m2_server.Common.{
  ℕ, suc, ◌+◌, ◌-◌, ◌%◌, ◌^◌, ◌<◌, ◌≡◌, ◌≢◌, refl, arith, Option, none, some, List, [], ◌∷◌, ◌++◌,
  length, get_elem?, set, map, ◌∙◌, sym, replicate, ltb, leb, ◌==◌, if◌then◌else◌, true,
  length-replicate, length-append, length-set, length-map, store-eq, lt→ltb, ne→==, eq→==, ◌>>=◌,
}
use m2_server.MessageQueue.{gather}
use m2_server.MessageQueue.Ring.{
  index_cases, Holds, Holds-set, Holds-tail, Holds-cells, gather_lem, index-suc,
}
use m2_server.NetPack.{
  NetPack, Queue, Uncomplete, queuesize, int_limit, new_queue, expand_queue, push_data, pop,
}

-- The ring of `q` holds `ms`: no index leaves the array, and the cells from `head` to `tail` are
-- written.
pub record Represents (q : Queue) (ms : List NetPack) : Type 0 where
  pub size : length q.queue ≡ q.cap
  pub head_in : q.head < q.cap
  pub room : length ms < q.cap
  pub at_tail : q.tail ≡ (q.head + length ms) % q.cap
  pub cells : Holds q.queue q.cap q.head ms

pub new_queue-Represents : Represents new_queue []
unfolding new_queue
new_queue-Represents = record {
  size = length-replicate {0} {A = Option NetPack} queuesize none;
  head_in = omega arith;
  room = omega arith;
  at_tail = refl;
  cells = λ i h. absurd (omega arith);
}

-- Chains and ring are apart.
pub Represents-hash :
    {q : Queue} {ms : List NetPack} (hash : ℕ → List Uncomplete)
    → Represents q ms
    → Represents (record q { hash = hash }) ms
Represents-hash hash r = record {
  size = r.size;
  head_in = r.head_in;
  room = r.room;
  at_tail = r.at_tail;
  cells = r.cells;
}

expand_queue_lem :
    (q : Queue) (ms : List NetPack)
    → q.head < q.cap
    → length ms ≡ q.cap
    → length ms < 2 ^ 30
    → Holds q.queue q.cap q.head ms
    → (q' : Queue) × (expand_queue q ≡ some q') × Represents q' ms × (q'.hash ≡ q.hash)
unfolding expand_queue
expand_queue_lem q ms hh full few holds =
    let cells = map some ms ++ replicate queuesize none in
    let fits : ltb (q.cap + queuesize) int_limit ≡ true = lt→ltb _ _ (omega arith) in
    let copied : gather q.queue q.cap q.head q.cap 0 ≡ some (map some ms) =
      gather_lem q.queue q.cap q.head ms holds q.cap 0 (omega arith) in
    (
      record q { queue = cells; head = 0; tail = q.cap; cap = q.cap + queuesize },
      rw fits (rw copied),
      record {
        size = omega (
          arith,
          length-append (map some ms) (replicate queuesize none),
          length-map some ms,
          length-replicate {0} {A = Option NetPack} queuesize none,
        );
        head_in = omega arith;
        room = omega arith;
        at_tail =
            omega
              (arith, index_cases (q.cap + queuesize) 0 (length ms) (omega arith) (omega arith));
        cells = Holds-cells ms (replicate queuesize none) (q.cap + queuesize) (omega arith);
      },
      refl,
    )

-- The index that `++q->tail` or `++q->head` leads to.
step_index :
    (cap i : ℕ)
    → i < cap
    → ((if leb cap (i + 1) then i + 1 - cap else i + 1) ≡ (i + 1) % cap)
      × ((if leb cap (i + 1) then 0 else i + 1) ≡ (i + 1) % cap)
      × ((i + 1) % cap < cap)
step_index cap i h = ground (arith, index_cases cap i 1 h (omega arith))

module _ {q : Queue} {ms : List NetPack} (fd : ℕ) (bytes : List ℕ) (r : Represents q ms) where
  abbrev new_pack : NetPack
  new_pack = record { id = fd; bytes = bytes }

  abbrev stored : Queue
  stored = record q {
    queue = set q.queue q.tail (some new_pack);
    tail = if leb q.cap (q.tail + 1) then q.tail + 1 - q.cap else q.tail + 1;
  }

  tail_in : q.tail < q.cap
  tail_in = omega (arith, r.at_tail, index_cases q.cap q.head (length ms) r.head_in (omega arith))

  stored-Holds : Holds stored.queue q.cap q.head (ms ++ new_pack ∷ [])
  stored-Holds =
      rw r.at_tail (Holds-set q.queue q.cap q.head ms new_pack r.size r.head_in r.room r.cells)

  push-stored :
      push_data q fd bytes ≡ (if q.head == stored.tail then expand_queue stored else some stored)
  unfolding push_data
  push-stored =
      rw (store-eq q.queue q.tail (some new_pack) (omega (arith, tail_in, r.size)), ◌>>=◌) refl

  -- With fewer than 2^30 - 1 packets in the ring, `push_data` adds the packet behind the others, also
  -- when the ring is full and grows, and leaves the chains alone.
  pub push_data_lem :
      length ms + 1 < 2 ^ 30
      → (q' : Queue) × (push_data q fd bytes ≡ some q')
        × Represents q' (ms ++ new_pack ∷ [])
        × (q'.hash ≡ q.hash)
  push_data_lem few = elim (dec_lt (length ms + 1) q.cap) [
    | yes h ↦
        let ne : q.head ≢ stored.tail = omega (
          arith,
          step_index q.cap q.tail tail_in,
          index_cases q.cap q.head (length ms) r.head_in (omega arith),
          index_cases q.cap q.tail 1 tail_in (omega arith),
          r.at_tail,
        ) in
        (
          stored,
          push-stored ∙ rw (ne→== q.head stored.tail ne) refl,
          record {
            size = length-set q.queue q.tail (some new_pack) ∙ r.size;
            head_in = r.head_in;
            room = omega (arith, length-append ms (new_pack ∷ []));
            at_tail = omega (
              arith,
              step_index q.cap q.tail tail_in,
              length-append ms (new_pack ∷ []),
              index_cases q.cap q.head (length ms) r.head_in (omega arith),
              index_cases q.cap q.tail 1 tail_in (omega arith),
              index_cases q.cap q.head (length (ms ++ new_pack ∷ [])) r.head_in
                  (omega (arith, length-append ms (new_pack ∷ []))),
              r.at_tail,
            );
            cells = stored-Holds;
          },
          refl,
        )
    | no h ↦
        let len = length-append ms (new_pack ∷ []) in
        let e : q.head ≡ stored.tail = omega (
          arith,
          step_index q.cap q.tail tail_in,
          index_cases q.cap q.head (length ms) r.head_in (omega arith),
          index_cases q.cap q.tail 1 tail_in (omega arith),
          r.at_tail,
          r.room,
        ) in
        let (q', e', represents, hash) =
          expand_queue_lem stored (ms ++ new_pack ∷ []) r.head_in (omega (arith, r.room))
            (omega arith) stored-Holds in
        (q', push-stored ∙ rw (eq→== q.head stored.tail e) e', represents, hash)
  ]

-- On a ring that holds a list, `lpop` never reads a cell that was not written: it returns the oldest
-- packet, if there is one, leaves the others, and leaves the chains alone.
pub pop_lem :
    {q : Queue} (ms : List NetPack)
    → Represents q ms
    → (q' : Queue) × (pop q ≡ some (head? ms, q')) × Represents q' (tail ms) × (q'.hash ≡ q.hash)
unfolding pop
pop_lem {q} [] r =
    let e : q.head ≡ q.tail =
      omega (arith, r.at_tail, index_cases q.cap q.head 0 r.head_in (omega arith)) in
    (q, rw (eq→== q.head q.tail e) refl, r, refl)
pop_lem {q} (m ∷ ms) r =
    let head = if leb q.cap (q.head + 1) then 0 else q.head + 1 in
    let moved = step_index q.cap q.head r.head_in in
    let here : (q.head + 0) % q.cap ≡ q.head =
      omega (arith, index_cases q.cap q.head 0 r.head_in (omega arith)) in
    let read : get_elem? q.queue q.head ≡ some (some m) = rw here at (r.cells 0 (omega arith)) in
    let ne : q.head ≢ q.tail = omega (
      arith,
      r.at_tail,
      r.room,
      index_cases q.cap q.head (suc (length ms)) r.head_in (omega (arith, r.room)),
    ) in
    let head_lt : head < q.cap = omega (arith, moved.1, moved.2) in
    (
      record q { head = head },
      rw (ne→== q.head q.tail ne) (rw read refl),
      record {
        size = r.size;
        head_in = head_lt;
        room = omega (arith, r.room);
        at_tail =
            r.at_tail
            ∙ sym (
                index-suc q.cap q.head head (length ms) r.head_in head_lt moved.1
                  (omega (arith, r.room)));
        cells =
            Holds-tail q.queue q.cap q.head head m ms r.head_in head_lt moved.1
              (omega (arith, r.room)) r.cells;
      },
      refl,
    )
