-- ===== src/Scheduler/Safety.antt =====
-- What every reachable state of the scheduler satisfies.
use mathlib.Core.List.{head?}
use m2_server.Common.{
  some_inj, ap, subst, head-occurs, occurs-one, occurs-cons, Bool-cases, ◌==◌, eq_of_==, ne_of_==,
  false_not_true, ℕ, ◌+◌, ◌^◌, ◌<◌, ◌≡◌, ◌≢◌, refl, arith, true, Option, some, List, [], ◌∷◌, ◌++◌,
  ◌∙◌, sym, occurs, ◌⊎◌, inl, inr, length,
}
use m2_server.MessageQueue.{Message, MessageQueue, mq_length}
use m2_server.MessageQueue.Fifo.{Represents, mq_length-Represents, pop_refines, put_refines}
use m2_server.GlobalQueue.{
  World, globalmq_push, globalmq_pop, mq_push, mq_pop, mark_release, mq_release,
}
use m2_server.GlobalQueue.Chain.{Chain}
use m2_server.GlobalQueue.Links.{Linked, globalmq_push_lem, globalmq_pop_lem}
use m2_server.GlobalQueue.Ops.{
  mq_push_busy, mq_push_idle, mq_pop_lem, mark_release_busy, mark_release_idle,
}
use m2_server.GlobalQueue.Release.{mq_release_marked, mq_release_back}
use m2_server.Scheduler.{
  System, initial, Step, creates, puts_back, takes, pushes, pops, drains, marks, releases, Reach,
  start, later, OnList, first, after,
}
use m2_server.Scheduler.Steps.{Sound, creates-Sound, puts_back-Sound, takes-Sound}
use m2_server.Scheduler.Messages.{pushes-Sound, pops-Sound}
use m2_server.Scheduler.Endings.{drains-Sound, marks-Sound, releases-Sound}

initial-Sound : Sound initial
unfolding initial
initial-Sound = (
  [],
  λ p. [],
  record {
    linked = record {
      chain = tt;
      at_head = refl;
      at_tail = refl;
      distinct = tt;
      loose = λ p q e o. absurd (cc e);
    };
    owned = record {
      alone = λ t u p a b. absurd (cc a);
      off = λ t p a. refl;
      alive = λ t p a. absurd (cc a);
    };
    marked = λ p q e. absurd (cc e);
    filled = λ p q e. absurd (cc e);
  },
)

Step-Sound : {s s' : System} → Step s s' → Sound s → Sound s'
Step-Sound (creates t p handle h e) (ids, box, v) = creates-Sound v t p handle h e
Step-Sound (puts_back t p w h e) (ids, box, v) = puts_back-Sound v t p w h e
Step-Sound (takes t r w h e) (ids, box, v) = takes-Sound v t r w h e
Step-Sound (pushes p m q w e c f d) (ids, box, v) = pushes-Sound v p m q w e c f d
Step-Sound (pops t p m q w h e c d) (ids, box, v) = pops-Sound v p m q w e d
Step-Sound (drains t p q w h e c d) (ids, box, v) = drains-Sound v t p q w h e c d
Step-Sound (marks p w d) (ids, box, v) = marks-Sound v p w d
Step-Sound (releases t p dropped w h d) (ids, box, v) = releases-Sound v t p dropped w h d

pub Reach-Sound : {s : System} → Reach s → Sound s
Reach-Sound start = initial-Sound
Reach-Sound (later r st) = Step-Sound st (Reach-Sound r)

-- In every reachable state two owners never have one queue in hand, and `skynet_globalmq_pop` never
-- returns a queue that is in hand: the messages of a service are handled by one thread at a time.
pub exclusive :
    {s : System} (t u p : ℕ)
    → Reach s
    → s.held t ≡ some p
    → s.held u ≡ some p
    → (t ≡ u) × ((w : World) → globalmq_pop s.world ≢ some (some p, w))
exclusive {s} t u p r a b =
    let (ids, box, v) = Reach-Sound r in
    (
      v.owned.alone t u p a b,
      λ w e.
          let (w', e', l, same) = globalmq_pop_lem ids v.linked in
          let h : head? ids ≡ some p = ap (λ x. x.0) (some_inj (sym e' ∙ e)) in
          false_not_true (sym (v.owned.off t p a) ∙ head-occurs p ids h),
    )

Chain-OnList :
    {w : World} (i p : ℕ) (ids : List ℕ)
    → OnList w i
    → Chain w.mq (i ∷ ids)
    → occurs p (i ∷ ids) ≡ true
    → OnList w p
Chain-OnList i p [] on (q, e, n, c) h = subst (OnList _) (sym (occurs-one p i h)) on
Chain-OnList {w} i p (j ∷ ids) on (q, e, n, c) h = elim (Bool-cases (p == i)) [
  | inl same ↦ subst (OnList w) (sym (eq_of_== p i same)) on
  | inr other ↦
      Chain-OnList j p ids (after q on e n) c
        (sym (occurs-cons p i (j ∷ ids) (ne_of_== p i other)) ∙ h)
]

Linked-OnList : {w : World} (p : ℕ) (ids : List ℕ) → Linked w ids → occurs p ids ≡ true → OnList w p
Linked-OnList p [] l h = cc
Linked-OnList p (i ∷ ids) l h = Chain-OnList i p ids (first l.at_head) l.chain h

-- No message is forgotten: in every reachable state a queue that holds one is marked, and it is in the
-- hand of an owner or on the global list.
pub not_forgotten :
    {s : System} (p : ℕ) (q : MessageQueue)
    → Reach s
    → s.world.mq p ≡ some q
    → 0 < mq_length q
    → (q.in_global ≡ 1) × (((t : ℕ) × (s.held t ≡ some p)) ⊎ OnList s.world p)
not_forgotten {s} p q r e some_left =
    let (ids, box, v) = Reach-Sound r in
    let full = v.filled p q e in
    let ne : q.in_global ≢ 0 =
      λ z. absurd (omega (arith, mq_length-Represents full.holds, ap length (full.idle z))) in
    let g : q.in_global ≡ 1 = omega (arith, (v.marked p q e).bits, ne) in
    (
      g,
      elim ((v.marked p q e).placed (inl g)) [
        | inl on ↦ inr (Linked-OnList p ids v.linked on)
        | inr h ↦ inl h
      ],
    )

-- In every reachable state each queue that is not freed delivers what was sent to it once and in order:
-- what its dispatchers took is a prefix of what was sent, and the queue holds the rest.
pub in_order :
    {s : System} (p : ℕ) (q : MessageQueue)
    → Reach s
    → s.world.mq p ≡ some q
    → (rest : List Message) × (s.sent p ≡ s.got p ++ rest)
      × (mq_length q ≡ length rest)
      × Represents q rest
in_order {s} p q r e =
    let (ids, box, v) = Reach-Sound r in
    let full = v.filled p q e in (box p, full.history, mq_length-Represents full.holds, full.holds)

-- The call returns: no assertion fails, and no memory is read that was not written or is not there.
abbrev pub Returns {ℓ} : {A : Type ℓ} → Option A → Type ℓ
Returns {A = A} r = (a : A) × (r ≡ some a)

-- In every reachable state an owner can go on with the queue in its hand: the calls that put it back,
-- take a message and release it return.
pub owner_goes_on :
    {s : System} (t p : ℕ)
    → Reach s
    → s.held t ≡ some p
    → Returns (globalmq_push p s.world)
      × Returns (mq_pop p s.world)
      × Returns (mq_release p s.world)
owner_goes_on {s} t p r h =
    let (ids, box, v) = Reach-Sound r in
    let (q, e) = v.owned.alive t p h in
    let off = v.owned.off t p h in
    let full = v.filled p q e in
    let (w, d, l, same) = globalmq_push_lem p q ids v.linked e off in
    let (q', f, popped) = pop_refines (box p) full.holds in
    let (d', l', c) = mq_pop_lem p q q' v.linked e f popped.same.next in
    (
      (w, d),
      (_, d'),
      elim (Bool-cases (q.release == 0)) [
        | inl clear ↦
            let (w', d'', l'', same') = mq_release_back p q v.linked e (eq_of_== _ _ clear) off in
            (_, d'')
        | inr set ↦
            let (w', d'', gone) =
              mq_release_marked p q (box p) full.holds e (v.linked.loose p q e off)
                (ne_of_== _ _ set) in
            (_, d'')
      ],
    )

-- In every reachable state, and for a queue that is not marked for release and holds fewer than
-- 2 ^ 30 - 1 messages, `skynet_globalmq_pop`, `skynet_mq_push` and `skynet_mq_mark_release` return.
pub others_go_on :
    {s : System} (p : ℕ) (m : Message) (q : MessageQueue)
    → Reach s
    → s.world.mq p ≡ some q
    → q.release ≡ 0
    → mq_length q + 1 < 2 ^ 30
    → Returns (globalmq_pop s.world)
      × Returns (mq_push p m s.world)
      × Returns (mark_release p s.world)
others_go_on {s} p m q r e clear few =
    let (ids, box, v) = Reach-Sound r in
    let full = v.filled p q e in
    let (w, d, l, same) = globalmq_pop_lem ids v.linked in
    let (q', f, pushed) =
      put_refines m full.holds (omega (arith, mq_length-Represents full.holds)) in
    (
      (_, d),
      elim (Bool-cases (q.in_global == 0)) [
        | inl idle ↦
            let (off, free) = (v.marked p q e).parked (eq_of_== _ _ idle) clear in
            let (w', d', l', c) =
              mq_push_idle p m q q' v.linked e f pushed.same.next
                (pushed.in_global ∙ eq_of_== _ _ idle) off in
            (w', d')
        | inr busy ↦
            let (d', l', c) =
              mq_push_busy p m q q' v.linked e f pushed.same.next
                (λ z. ne_of_== _ _ busy (sym pushed.in_global ∙ z)) in
            (_, d')
      ],
      elim (Bool-cases (q.in_global == 1)) [
        | inl busy ↦
            let (d', l', c) = mark_release_busy p q v.linked e clear (eq_of_== _ _ busy) in (_, d')
        | inr idle ↦
            let g : q.in_global ≡ 0 = omega (arith, (v.marked p q e).bits, ne_of_== _ _ idle) in
            let (off, free) = (v.marked p q e).parked g clear in
            let (w', d', l', c) = mark_release_idle p q v.linked e clear (ne_of_== _ _ idle) off in
            (w', d')
      ],
    )
