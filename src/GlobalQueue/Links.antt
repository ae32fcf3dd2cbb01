-- ===== src/GlobalQueue/Links.antt =====
-- The global list of skynet_mq.c as a list of addresses: `skynet_globalmq_push` adds behind the
-- others, `skynet_globalmq_pop` takes the first, and no assertion of theirs fails.
use mathlib.Core.List.{head?, tail}
use m2_server.Common.{
  some_inj, ℕ, ◌≡◌, refl, arith, false, Option, none, some, List, [], ◌∷◌, ◌++◌, ◌∙◌, update,
  occurs, Distinct, Distinct-snoc, last?, last?-cons, last?-snoc, occurs-last, inl, inr, sym, subst,
  update-inv, update-some, occurs-ne, occurs-cons_ne, ==_self, occurs_of_append,
}
use m2_server.MessageQueue.{MessageQueue}
use m2_server.GlobalQueue.{
  World, write, append_queue, tail_after, take_first, globalmq_push, globalmq_pop,
}
use m2_server.GlobalQueue.Chain.{Chain, Chain-update, Chain-snoc, Chain-get}

-- The queues at `ids`, in this order, are on the global list.
pub record Linked (w : World) (ids : List ℕ) : Type 0 where
  pub chain : Chain w.mq ids
  pub at_head : w.head ≡ head? ids
  pub at_tail : w.tail ≡ last? ids
  pub distinct : Distinct ids
  pub loose : (p : ℕ) (q : MessageQueue) → w.mq p ≡ some q → occurs p ids ≡ false → q.next ≡ none

-- The same queues are allocated, with the same fields but for `next`.
pub record SameQueues (w w' : World) : Type 0 where
  pub back :
      (p : ℕ) (q' : MessageQueue)
      → w'.mq p ≡ some q'
      → (q : MessageQueue) × (w.mq p ≡ some q) × (q' ≡ record q { next = q'.next })
  pub forth :
      (p : ℕ) (q : MessageQueue) → w.mq p ≡ some q → (q' : MessageQueue) × (w'.mq p ≡ some q')

same_queues :
    (w : World) (head tail : Option ℕ) → SameQueues w (record w { head = head; tail = tail })
same_queues w head tail = record { back = λ p q e. (q, e, refl); forth = λ p q e. (q, e) }

-- A write of `next`.
relink :
    (w : World) (t : ℕ) (last : MessageQueue) (n head tail : Option ℕ)
    → w.mq t ≡ some last
    → SameQueues w (record (write t (record last { next = n }) w) { head = head; tail = tail })
relink w t last n head tail e = record { back = back; forth = forth }
  where
    back :
        (p : ℕ) (q' : MessageQueue)
        → update w.mq t (some (record last { next = n })) p ≡ some q'
        → (q : MessageQueue) × (w.mq p ≡ some q) × (q' ≡ record q { next = q'.next })
    back p q' h = elim (update-inv w.mq t _ p h) [
      | inl (same, v) ↦
          subst (λ r. (q : MessageQueue) × (w.mq p ≡ some q) × (r ≡ record q { next = r.next }))
            (some_inj v) (last, rw same e, refl)
      | inr (other, h') ↦ (q', h', refl)
    ]

    forth :
        (p : ℕ) (q : MessageQueue)
        → w.mq p ≡ some q
        → (q' : MessageQueue) × (update w.mq t (some (record last { next = n })) p ≡ some q')
    forth p q h = update-some w.mq t _ p q h

push_empty :
    {w : World} (p : ℕ) (q : MessageQueue)
    → Linked w []
    → w.mq p ≡ some q
    → (w' : World) × (globalmq_push p w ≡ some w') × Linked w' (p ∷ []) × SameQueues w w'
unfolding globalmq_push append_queue
push_empty {w} p q l e = (
  record w { head = some p; tail = some p },
  ground (arith, l.loose p q),
  record {
    chain = (q, e, l.loose p q e refl, tt);
    at_head = refl;
    at_tail = refl;
    distinct = (refl, tt);
    loose = λ j r e' o. l.loose j r e' refl;
  },
  same_queues w (some p) (some p),
)

push_behind :
    {w : World} (p : ℕ) (q : MessageQueue) (i : ℕ) (ids : List ℕ)
    → Linked w (i ∷ ids)
    → w.mq p ≡ some q
    → occurs p (i ∷ ids) ≡ false
    → (w' : World) × (globalmq_push p w ≡ some w')
      × Linked w' ((i ∷ ids) ++ p ∷ [])
      × SameQueues w w'
unfolding globalmq_push append_queue
push_behind {w} p q i ids l e o =
    let (t, et) = last?-cons i ids in
    let (last, el) = Chain-get w.mq t (i ∷ ids) (occurs-last i ids t et) l.chain in
    let n = l.loose p q e o in
    (
      record (write t (record last { next = some p }) w) { tail = some p },
      rw e (rw n (rw (l.at_tail ∙ et) (rw el))),
      record {
        chain = Chain-snoc w.mq p t q last (i ∷ ids) et l.distinct o e n el l.chain;
        at_head = l.at_head;
        at_tail = sym (last?-snoc (i ∷ ids) p);
        distinct = Distinct-snoc (i ∷ ids) p o l.distinct;
        loose = λ j r e' o'. elim (update-inv w.mq t _ j e') [
          | inl (same, v) ↦ absurd (
              occurs-ne j t (i ∷ ids) (occurs_of_append j (i ∷ ids) (p ∷ []) o').0
                (occurs-last i ids t et) same)
          | inr (other, h) ↦ l.loose j r h (occurs_of_append j (i ∷ ids) (p ∷ []) o').0
        ];
      },
      relink w t last (some p) w.head (some p) el,
    )

-- `skynet_globalmq_push` puts an allocated queue that is not on the list behind all others.
pub globalmq_push_lem :
    {w : World} (p : ℕ) (q : MessageQueue) (ids : List ℕ)
    → Linked w ids
    → w.mq p ≡ some q
    → occurs p ids ≡ false
    → (w' : World) × (globalmq_push p w ≡ some w') × Linked w' (ids ++ p ∷ []) × SameQueues w w'
globalmq_push_lem p q [] l e o = push_empty p q l e
globalmq_push_lem p q (i ∷ ids) l e o = push_behind p q i ids l e o

-- The list once its first queue is gone.
pop_rest :
    {w : World} (p : ℕ) (q : MessageQueue) (ids : List ℕ) (t : Option ℕ)
    → Linked w (p ∷ ids)
    → w.mq p ≡ some q
    → t ≡ last? ids
    → Linked (record (write p (record q { next = none }) w) { head = head? ids; tail = t }) ids
pop_rest {w} p q ids t l e et = record {
  chain = Chain-update w.mq p _ ids l.distinct.0 l.chain.3;
  at_head = refl;
  at_tail = et;
  distinct = l.distinct.1;
  loose = λ j r e' o. elim (update-inv w.mq p _ j e') [
    | inl (same, v) ↦ subst (λ (x : MessageQueue). x.next ≡ none) (some_inj v) refl
    | inr (other, h) ↦ l.loose j r h (occurs-cons_ne j p ids other o)
  ];
}

-- `skynet_globalmq_pop` takes the first queue of the list, if there is one.
pub globalmq_pop_lem :
    {w : World} (ids : List ℕ)
    → Linked w ids
    → (w' : World) × (globalmq_pop w ≡ some (head? ids, w'))
      × Linked w' (tail ids)
      × SameQueues w w'
unfolding globalmq_pop take_first tail_after
globalmq_pop_lem {w} [] l = (w, rw l.at_head, l, same_queues w w.head w.tail)
globalmq_pop_lem {w} (p ∷ []) l =
    let (q, e, n, c) = l.chain in
    (
      record (write p (record q { next = none }) w) { head = none; tail = none },
      rw l.at_head (rw e (rw n (rw l.at_tail (rw (==_self p))))),
      pop_rest p q [] none l e refl,
      relink w p q none none none e,
    )
globalmq_pop_lem {w} (p ∷ i ∷ ids) l =
    let (q, e, n, c) = l.chain in
    (
      record (write p (record q { next = none }) w) { head = some i; tail = w.tail },
      rw l.at_head (rw e (rw n)),
      pop_rest p q (i ∷ ids) w.tail l e l.at_tail,
      relink w p q none (some i) w.tail e,
    )
