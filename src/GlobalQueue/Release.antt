-- ===== src/GlobalQueue/Release.antt =====
-- `skynet_mq_release`: a queue that is not marked goes back to the list; a marked one hands all its
-- messages to the drop function and is freed.
use m2_server.Common.{
  ℕ, suc, ◌≡◌, ◌≢◌, refl, false, none, some, List, [], ◌∷◌, ◌++◌, ◌∙◌, ◌==◌, update, occurs, length,
  update_self, update_ne, ne→==, eq→==, ap, sym, inl, inr, Bool-cases, eq_of_==, ne_of_==,
}
use m2_server.MessageQueue.{Message, MessageQueue}
use m2_server.MessageQueue.Fifo.{Represents, pop_refines, mq_length-Represents}
use m2_server.GlobalQueue.{World, write, mq_pop, free_queue, drop_queue, mq_release}
use m2_server.GlobalQueue.Chain.{Chain-ext}
use m2_server.GlobalQueue.Links.{Linked, SameQueues, globalmq_push_lem}

-- The queue at `p` is gone, and nothing else changed.
pub record Freed (p : ℕ) (w w' : World) : Type 0 where
  pub gone : w'.mq p ≡ none
  pub others : (j : ℕ) → j ≢ p → w'.mq j ≡ w.mq j
  pub head : w'.head ≡ w.head
  pub tail : w'.tail ≡ w.tail

-- The loop of `_drop_queue` ends: it drops the messages of the queue, oldest first.
pub drop_queue_lem :
    {w : World} (p : ℕ) (q : MessageQueue) (ms : List Message)
    → Represents q ms
    → w.mq p ≡ some q
    → q.next ≡ none
    → (w' : World) × (drop_queue (suc (length ms)) p w ≡ some (ms, w')) × Freed p w w'
unfolding drop_queue mq_pop free_queue
drop_queue_lem {w} p q [] r e n =
    let (q', f, popped) = pop_refines [] r in
    let w' = record (write p q' w) { mq = update (write p q' w).mq p none } in
    (
      w',
      rw e (rw f (rw (update_self w.mq p (some q')) (rw (popped.same.next ∙ n)))),
      record {
        gone = update_self (write p q' w).mq p none;
        others = λ j ne. update_ne (write p q' w).mq p j none ne ∙ update_ne w.mq p j (some q') ne;
        head = refl;
        tail = refl;
      },
    )
drop_queue_lem {w} p q (m ∷ ms) r e n =
    let (q', f, popped) = pop_refines (m ∷ ms) r in
    let (w', g, gone) =
      drop_queue_lem {w = write p q' w} p q' ms popped.left (update_self w.mq p (some q'))
        (popped.same.next ∙ n) in
    (
      w',
      rw e (rw f (rw g)),
      record {
        gone = gone.gone;
        others = λ j ne. gone.others j ne ∙ update_ne w.mq p j (some q') ne;
        head = gone.head;
        tail = gone.tail;
      },
    )

pub Freed-Linked :
    {w w' : World} {ids : List ℕ} (p : ℕ)
    → occurs p ids ≡ false
    → Freed p w w'
    → Linked w ids
    → Linked w' ids
Freed-Linked {w' = w'} p o f l = record {
  chain = Chain-ext p _ f.others o l.chain;
  at_head = f.head ∙ l.at_head;
  at_tail = f.tail ∙ l.at_tail;
  distinct = l.distinct;
  loose = λ j q e off. elim (Bool-cases (j == p)) [
    | inl same ↦ absurd (cc (sym f.gone ∙ ap w'.mq (sym (eq_of_== j p same)) ∙ e))
    | inr other ↦ l.loose j q (sym (f.others j (ne_of_== j p other)) ∙ e) off
  ];
}

pub mq_release_marked :
    {w : World} (p : ℕ) (q : MessageQueue) (ms : List Message)
    → Represents q ms
    → w.mq p ≡ some q
    → q.next ≡ none
    → q.release ≢ 0
    → (w' : World) × (mq_release p w ≡ some (ms, w')) × Freed p w w'
unfolding mq_release
mq_release_marked {w} p q ms r e n marked =
    let (w', f, gone) = drop_queue_lem p q ms r e n in
    (w', rw e (rw (ne→== _ _ marked) (rw (mq_length-Represents r) f)), gone)

pub mq_release_back :
    {w : World} {ids : List ℕ} (p : ℕ) (q : MessageQueue)
    → Linked w ids
    → w.mq p ≡ some q
    → q.release ≡ 0
    → occurs p ids ≡ false
    → (w' : World) × (mq_release p w ≡ some ([], w')) × Linked w' (ids ++ p ∷ []) × SameQueues w w'
unfolding mq_release
mq_release_back {w} {ids} p q l e r o =
    let (w', f, l', s) = globalmq_push_lem p q ids l e o in
    (w', rw e (rw (eq→== _ _ r) (rw f)), l', s)
