-- ===== src/GlobalQueue/Ops.antt =====
-- `skynet_mq_push`, `skynet_mq_pop` and `skynet_mq_mark_release` on a heap of queues: which queue
-- changes, and how the global list does.
use m2_server.Common.{
  some_inj, ℕ, ◌≡◌, ◌≢◌, refl, false, Option, none, some, List, [], ◌∷◌, ◌++◌, ◌∙◌, ◌==◌, occurs,
  inl, inr, sym, subst, update-inv, update-some, ◌>>=◌, Option-cases, update_self, update_ne, ne→==,
  eq→==, Bool-cases, eq_of_==,
}
use m2_server.MessageQueue.{Message, MessageQueue, put, pop, mq_in_global}
use m2_server.GlobalQueue.{World, write, mq_push, mq_pop, mark_release}
use m2_server.GlobalQueue.Chain.{Chain-set}
use m2_server.GlobalQueue.Links.{Linked, SameQueues, globalmq_push_lem}

-- The queue at `p` becomes `new`, the other queues keep their fields, but for `next`.
pub record Changed (p : ℕ) (new : MessageQueue) (w w' : World) : Type 0 where
  pub here : (q' : MessageQueue) → w'.mq p ≡ some q' → q' ≡ record new { next = q'.next }
  pub there :
      (j : ℕ) (q' : MessageQueue)
      → j ≢ p
      → w'.mq j ≡ some q'
      → (q : MessageQueue) × (w.mq j ≡ some q) × (q' ≡ record q { next = q'.next })
  pub alive :
      (j : ℕ) (q : MessageQueue) → w.mq j ≡ some q → (q' : MessageQueue) × (w'.mq j ≡ some q')

pub SameQueues-Changed :
    {w w' : World} (p : ℕ) (q : MessageQueue) → w.mq p ≡ some q → SameQueues w w' → Changed p q w w'
SameQueues-Changed {w} {w'} p q e s = record {
  here = λ q' e'.
      let (r, er, f) = s.back p q' e' in
      subst (λ x. q' ≡ record x { next = q'.next }) (some_inj (sym er ∙ e)) f;
  there = λ j q' ne e'. s.back j q' e';
  alive = s.forth;
}

pub write-Changed : (w : World) (p : ℕ) (q' : MessageQueue) → Changed p q' w (write p q' w)
write-Changed w p q' = record {
  here = λ r e.
      let f : q' ≡ r = some_inj (sym (update_self w.mq p (some q')) ∙ e) in
      subst (λ x. x ≡ record q' { next = x.next }) f refl;
  there = λ j r ne e. (r, sym (update_ne w.mq p j (some q') ne) ∙ e, refl);
  alive = λ j q e. update-some w.mq p q' j q e;
}

pub Changed-trans :
    {w w' w'' : World} (p : ℕ) (q' : MessageQueue)
    → w'.mq p ≡ some q'
    → Changed p q' w w'
    → SameQueues w' w''
    → Changed p q' w w''
Changed-trans p q' e c s = record {
  here = λ r f.
      let (x, ex, g) = s.back p r f in
      subst (λ y. r ≡ record y { next = r.next }) (some_inj (sym ex ∙ e)) g;
  there = λ j r ne f.
      let (x, ex, g) = s.back j r f in
      let (y, ey, h) = c.there j x ne ex in
      (y, ey, subst (λ z. r ≡ record z { next = r.next }) h g);
  alive = λ j q f. let (x, ex) = c.alive j q f in s.forth j x ex;
}

-- A write that keeps `next` keeps the list.
pub write-Linked :
    {w : World} {ids : List ℕ} (p : ℕ) (q q' : MessageQueue)
    → w.mq p ≡ some q
    → q'.next ≡ q.next
    → Linked w ids
    → Linked (write p q' w) ids
write-Linked {w} {ids} p q q' e n l = record {
  chain = Chain-set w.mq p q q' ids e n l.chain;
  at_head = l.at_head;
  at_tail = l.at_tail;
  distinct = l.distinct;
  loose = λ j r e' o. elim (update-inv w.mq p (some q') j e') [
    | inl (same, v) ↦
        subst (λ x. x.next ≡ none) (some_inj v)
          (n ∙ l.loose p q e (subst (λ x. occurs x ids ≡ false) same o))
    | inr (other, h) ↦ l.loose j r h o
  ];
}

-- `skynet_mq_push` on a queue that is marked as scheduled leaves the list as it is.
pub mq_push_busy :
    {w : World} {ids : List ℕ} (p : ℕ) (m : Message) (q q' : MessageQueue)
    → Linked w ids
    → w.mq p ≡ some q
    → put q m ≡ some q'
    → q'.next ≡ q.next
    → q'.in_global ≢ 0
    → (mq_push p m w ≡ some (write p q' w))
      × Linked (write p q' w) ids
      × Changed p q' w (write p q' w)
unfolding mq_push
mq_push_busy {w} p m q q' l e f n g =
    (rw e (rw f (rw (ne→== _ _ g))), write-Linked p q q' e n l, write-Changed w p q')

-- Otherwise it marks the queue and puts it behind the others on the list.
pub mq_push_idle :
    {w : World} {ids : List ℕ} (p : ℕ) (m : Message) (q q' : MessageQueue)
    → Linked w ids
    → w.mq p ≡ some q
    → put q m ≡ some q'
    → q'.next ≡ q.next
    → q'.in_global ≡ 0
    → occurs p ids ≡ false
    → (w' : World) × (mq_push p m w ≡ some w')
      × Linked w' (ids ++ p ∷ [])
      × Changed p (record q' { in_global = mq_in_global }) w w'
unfolding mq_push
mq_push_idle {w} {ids} p m q q' l e f n g o =
    let marked : MessageQueue = record q' { in_global = mq_in_global } in
    let at_p = update_self w.mq p (some marked) in
    let (w', done, l', s) =
      globalmq_push_lem {w = write p marked w} p marked ids (write-Linked p q marked e n l) at_p
        o in
    (
      w',
      rw e (rw f (rw (eq→== _ _ g) done)),
      l',
      Changed-trans p marked at_p (write-Changed w p marked) s,
    )

pub mq_pop_lem :
    {w : World} {ids : List ℕ} {r : Option Message} (p : ℕ) (q q' : MessageQueue)
    → Linked w ids
    → w.mq p ≡ some q
    → pop q ≡ some (r, q')
    → q'.next ≡ q.next
    → (mq_pop p w ≡ some (r, write p q' w))
      × Linked (write p q' w) ids
      × Changed p q' w (write p q' w)
unfolding mq_pop
mq_pop_lem {w} p q q' l e f n = (rw e (rw f), write-Linked p q q' e n l, write-Changed w p q')

-- `skynet_mq_mark_release` on a scheduled queue, and on one that is not.
pub mark_release_busy :
    {w : World} {ids : List ℕ} (p : ℕ) (q : MessageQueue)
    → Linked w ids
    → w.mq p ≡ some q
    → q.release ≡ 0
    → q.in_global ≡ mq_in_global
    → let w' = write p (record q { release = 1 }) w in
      (mark_release p w ≡ some w') × Linked w' ids × Changed p (record q { release = 1 }) w w'
unfolding mark_release
mark_release_busy {w} p q l e r g = (
  rw e (rw (eq→== _ _ r) (rw (eq→== _ _ g))),
  write-Linked p q (record q { release = 1 }) e refl l,
  write-Changed w p (record q { release = 1 }),
)

pub mark_release_idle :
    {w : World} {ids : List ℕ} (p : ℕ) (q : MessageQueue)
    → Linked w ids
    → w.mq p ≡ some q
    → q.release ≡ 0
    → q.in_global ≢ mq_in_global
    → occurs p ids ≡ false
    → (w' : World) × (mark_release p w ≡ some w')
      × Linked w' (ids ++ p ∷ [])
      × Changed p (record q { release = 1 }) w w'
unfolding mark_release
mark_release_idle {w} {ids} p q l e r g o =
    let marked : MessageQueue = record q { release = 1 } in
    let at_p = update_self w.mq p (some marked) in
    let (w', done, l', s) =
      globalmq_push_lem {w = write p marked w} p marked ids (write-Linked p q marked e refl l) at_p
        o in
    (
      w',
      rw e (rw (eq→== _ _ r) (rw (ne→== _ _ g) done)),
      l',
      Changed-trans p marked at_p (write-Changed w p marked) s,
    )

-- `skynet_mq_mark_release` asserts that the queue is not marked yet.
pub mark_release-inv :
    (w : World) {w' : World} (p : ℕ)
    → mark_release p w ≡ some w'
    → (q : MessageQueue) × (w.mq p ≡ some q) × (q.release ≡ 0)
unfolding mark_release
mark_release-inv w p h = elim (Option-cases (w.mq p)) [
  | inl e ↦ absurd (cc (rw (e, ◌>>=◌) at h))
  | inr (q, e) ↦ elim (Bool-cases (q.release == 0)) [
    | inl clear ↦ (q, e, eq_of_== _ _ clear)
    | inr set ↦ absurd (cc (rw set at (rw e at h)))
  ]
]
