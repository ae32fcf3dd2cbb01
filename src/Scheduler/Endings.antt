-- ===== src/Scheduler/Endings.antt =====
-- The steps after which a queue is idle, marked for release, or gone keep the invariant.
use mathlib.Core.List.{head?}
use m2_server.Common.{
  some_inj, ℕ, ◌<◌, ◌≡◌, ◌≢◌, refl, arith, none, some, List, [], ◌∷◌, ◌++◌, ◌∙◌, sym, ap, subst,
  update, inl, inr, ◌==◌, list_cases, Bool-cases, eq_of_==, ne_of_==, update-inv,
}
use m2_server.MessageQueue.{Message, MessageQueue}
use m2_server.MessageQueue.Fifo.{Popped, pop_refines}
use m2_server.GlobalQueue.{World, write, mq_pop, mark_release, mq_release}
use m2_server.GlobalQueue.Links.{Linked}
use m2_server.GlobalQueue.Ops.{
  Changed, SameQueues-Changed, write-Changed, mq_pop_lem, mark_release_busy, mark_release_idle,
  mark_release-inv,
}
use m2_server.GlobalQueue.Release.{Freed, Freed-Linked, mq_release_marked, mq_release_back}
use m2_server.Scheduler.{System}
use m2_server.Scheduler.Steps.{Sound, parks-Sound}
use m2_server.Scheduler.Placement.{
  Marked, Marked-ext, same_holders, update-SameHolders, Owned-drop, Owned-ext, occurs-snoc_ne,
  occurs-snoc_self,
}
use m2_server.Scheduler.Invariant.{
  Filled, Inv, Represents-next, Represents-marks, Filled-next, by_change,
}

module _ {s : System} {ids : List ℕ} {box : ℕ → List Message} (v : Inv s ids box) where
  -- A dispatcher that finds its queue empty leaves it, with the mark clear.
  left_empty :
      (t p : ℕ) (q q' : MessageQueue)
      → s.held t ≡ some p
      → s.world.mq p ≡ some q
      → q.release ≡ 0
      → box p ≡ []
      → Popped q [] q'
      → Linked (write p q' s.world) ids
      → Inv (record s { world = write p q' s.world; held = update s.held t none }) ids box
  left_empty t p q q' h e clear eb popped l =
      let c = write-Changed s.world p q' in
      record {
        linked = l;
        owned = Owned-drop t p ids h (λ j ne o. o) (λ j r ne f. c.alive j r f) v.owned;
        marked =
            by_change (Marked ids (update s.held t none)) c
              (λ n. record {
                bits = (
                  omega (arith, popped.in_global),
                  subst (λ x. x < 2) (sym popped.same.release) (v.marked p q e).bits.1,
                );
                parked = λ g r. (
                  v.owned.off t p h,
                  λ u a. elim (update-inv s.held t none u a) [
                    | inl (same, b) ↦ absurd (cc b)
                    | inr (other, b) ↦ other (v.owned.alone u t p b h)
                  ],
                );
                placed = λ m. absurd (elim m [
                  | inl g ↦ omega (arith, popped.in_global)
                  | inr r ↦ omega (arith, popped.same.release)
                ]);
              })
              (λ j r n ne f.
                Marked-ext refl refl refl
                  (update-SameHolders s.held t j none (λ a. ne (some_inj (sym a ∙ h))) (λ a. cc a))
                  (v.marked j r f));
        filled =
            by_change (λ j x. Filled x (s.sent j) (s.got j) (box j)) c
              (λ n. rw eb (record {
                holds = Represents-next n popped.left;
                history = subst (λ x. s.sent p ≡ s.got p ++ x) eb (v.filled p q e).history;
                idle = λ z. refl;
              }))
              (λ j r n ne f. Filled-next n (v.filled j r f));
      }

  pub drains-Sound :
      (t p : ℕ) (q : MessageQueue) (w : World)
      → s.held t ≡ some p
      → s.world.mq p ≡ some q
      → q.release ≡ 0
      → mq_pop p s.world ≡ some (none, w)
      → Sound (record s { world = w; held = update s.held t none })
  drains-Sound t p q w h e clear done =
      let (q', f, popped) = pop_refines (box p) (v.filled p q e).holds in
      let (done', l, c) = mq_pop_lem p q q' v.linked e f popped.same.next in
      let both = some_inj (sym done' ∙ done) in
      elim (list_cases (box p)) [
        | inl nothing ↦ (
          ids,
          box,
          subst (λ x. Inv (record s { world = x; held = update s.held t none }) ids box)
              (ap (λ x. x.1) both)
              (left_empty t p q q' h e clear nothing (subst (λ x. Popped q x q') nothing popped) l),
        )
        | inr (m', rest, eb) ↦ absurd (cc (sym (ap head? eb) ∙ ap (λ x. x.0) both))
      ]

  -- The queue `p` is marked for release, and its place and contents stay.
  marked-Filled :
      (p : ℕ) (q : MessageQueue) (w : World)
      → s.world.mq p ≡ some q
      → Changed p (record q { release = 1 }) s.world w
      → (j : ℕ) (x : MessageQueue) → w.mq j ≡ some x
      → Filled x (s.sent j) (s.got j) (box j)
  marked-Filled p q w e c =
      by_change (λ j x. Filled x (s.sent j) (s.got j) (box j)) c
        (λ n. record {
          holds = Represents-marks n q.in_global 1 (v.filled p q e).holds;
          history = (v.filled p q e).history;
          idle = (v.filled p q e).idle;
        })
        (λ j r n ne f. Filled-next n (v.filled j r f))

  mark_busy :
      (p : ℕ) (q : MessageQueue) (w : World)
      → s.world.mq p ≡ some q
      → q.in_global ≡ 1
      → Linked w ids
      → Changed p (record q { release = 1 }) s.world w
      → Inv (record s { world = w }) ids box
  mark_busy p q w e g l c = record {
    linked = l;
    owned = Owned-ext (λ t j h o. o) c.alive v.owned;
    marked =
        by_change (Marked ids s.held) c
          (λ n. record {
            bits = ((v.marked p q e).bits.0, omega arith);
            parked = λ z r. absurd (omega arith);
            placed = λ m. (v.marked p q e).placed (inl g);
          })
          (λ j x n ne h. Marked-ext refl refl refl (same_holders s.held j) (v.marked j x h));
    filled = marked-Filled p q w e c;
  }

  mark_idle :
      (p : ℕ) (q : MessageQueue) (w : World)
      → s.world.mq p ≡ some q
      → ((t : ℕ) → s.held t ≢ some p)
      → Linked w (ids ++ p ∷ [])
      → Changed p (record q { release = 1 }) s.world w
      → Inv (record s { world = w }) (ids ++ p ∷ []) box
  mark_idle p q w e free l c = record {
    linked = l;
    owned =
        Owned-ext
          (λ t j h o. occurs-snoc_ne j p ids (λ a. free t (subst (λ x. s.held t ≡ some x) a h)) ∙ o)
          c.alive v.owned;
    marked =
        by_change (Marked (ids ++ p ∷ []) s.held) c
          (λ n. record {
            bits = ((v.marked p q e).bits.0, omega arith);
            parked = λ z r. absurd (omega arith);
            placed = λ m. inl (occurs-snoc_self p ids);
          })
          (λ j x n ne h.
            Marked-ext refl refl (occurs-snoc_ne j p ids ne) (same_holders s.held j)
              (v.marked j x h));
    filled = marked-Filled p q w e c;
  }

  pub marks-Sound :
      (p : ℕ) (w : World) → mark_release p s.world ≡ some w → Sound (record s { world = w })
  marks-Sound p w done =
      let (q, e, clear) = mark_release-inv s.world p done in
      elim (Bool-cases (q.in_global == 1)) [
        | inl busy ↦
            let (done', l, c) = mark_release_busy p q v.linked e clear (eq_of_== _ _ busy) in
            subst (λ x. Sound (record s { world = x })) (some_inj (sym done' ∙ done))
              (ids, box, mark_busy p q _ e (eq_of_== _ _ busy) l c)
        | inr idle ↦
            let g : q.in_global ≡ 0 = omega (arith, (v.marked p q e).bits, ne_of_== _ _ idle) in
            let (off, free) = (v.marked p q e).parked g clear in
            let (w', done', l, c) =
              mark_release_idle p q v.linked e clear (ne_of_== _ _ idle) off in
            subst (λ x. Sound (record s { world = x })) (some_inj (sym done' ∙ done))
              (ids ++ p ∷ [], box, mark_idle p q w' e free l c)
      ]

  -- The owner `t` frees the queue in its hand.
  gone-Inv :
      (t p : ℕ) (w : World)
      → s.held t ≡ some p
      → Freed p s.world w
      → Inv (record s { world = w; held = update s.held t none }) ids box
  gone-Inv t p w h f = record {
    linked = Freed-Linked p (v.owned.off t p h) f v.linked;
    owned = Owned-drop t p ids h (λ j ne o. o) (λ j r ne g. (r, f.others j ne ∙ g)) v.owned;
    marked = λ j x g.
        let ne = other j x g in
        Marked-ext refl refl refl
          (update-SameHolders s.held t j none (λ a. ne (some_inj (sym a ∙ h))) (λ a. cc a))
          (v.marked j x (sym (f.others j ne) ∙ g));
    filled = λ j x g. v.filled j x (sym (f.others j (other j x g)) ∙ g);
  }
    where
      other : (j : ℕ) (x : MessageQueue) → w.mq j ≡ some x → j ≢ p
      other j x g a = cc (sym f.gone ∙ ap w.mq (sym a) ∙ g)

  pub releases-Sound :
      (t p : ℕ) (dropped : List Message) (w : World)
      → s.held t ≡ some p
      → mq_release p s.world ≡ some (dropped, w)
      → Sound (record s { world = w; held = update s.held t none })
  releases-Sound t p dropped w h done =
      let (q, e) = v.owned.alive t p h in
      let off = v.owned.off t p h in
      elim (Bool-cases (q.release == 0)) [
        | inl clear ↦
            let (w', done', l, same) = mq_release_back p q v.linked e (eq_of_== _ _ clear) off in
            subst (λ x. Sound (record s { world = x.1; held = update s.held t none }))
              (some_inj (sym done' ∙ done))
              (parks-Sound v t p q w' h l (SameQueues-Changed p q e same) e)
        | inr set ↦
            let (w', done', gone) =
              mq_release_marked p q (box p) (v.filled p q e).holds e (v.linked.loose p q e off)
                (ne_of_== _ _ set) in
            subst (λ x. Sound (record s { world = x.1; held = update s.held t none }))
              (some_inj (sym done' ∙ done)) (ids, box, gone-Inv t p w' h gone)
      ]
