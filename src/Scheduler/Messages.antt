-- ===== src/Scheduler/Messages.antt =====
-- The steps that move messages keep the invariant.
use mathlib.Core.List.{head?}
use m2_server.Common.{
  some_inj, ℕ, ◌+◌, ◌^◌, ◌<◌, ◌≡◌, ◌≢◌, refl, arith, some, List, [], ◌∷◌, ◌++◌, ◌∙◌, sym, ap, subst,
  update, inl, inr, update_self, update_ne, ◌==◌, list_cases, Bool-cases, eq_of_==, ne_of_==,
  append_assoc,
}
use m2_server.MessageQueue.{Message, MessageQueue, mq_length, put}
use m2_server.MessageQueue.Fifo.{
  Represents, Popped, Pushed, mq_length-Represents, put_refines, pop_refines,
}
use m2_server.GlobalQueue.{World, write, mq_push, mq_pop}
use m2_server.GlobalQueue.Links.{Linked}
use m2_server.GlobalQueue.Ops.{Changed, write-Changed, mq_push_busy, mq_push_idle, mq_pop_lem}
use m2_server.Scheduler.{System}
use m2_server.Scheduler.Steps.{Sound}
use m2_server.Scheduler.Placement.{
  Marked, Marked-ext, same_holders, Owned-ext, occurs-snoc_ne, occurs-snoc_self,
}
use m2_server.Scheduler.Invariant.{
  Filled, Inv, Represents-next, Represents-marks, Filled-next, by_change,
}

module _ {s : System} {ids : List ℕ} {box : ℕ → List Message} (v : Inv s ids box) where
  -- A message `m` arrived at the queue `p`, which is now `new` and is marked as scheduled.
  arrived :
      (p : ℕ) (m : Message) (q new : MessageQueue) (w : World)
      → s.world.mq p ≡ some q
      → Represents new (box p ++ m ∷ [])
      → new.in_global ≢ 0
      → Changed p new s.world w
      → (j : ℕ) (x : MessageQueue) → w.mq j ≡ some x
      → Filled x
          (update s.sent p (s.sent p ++ m ∷ []) j)
          (s.got j)
          (update box p (box p ++ m ∷ []) j)
  arrived p m q new w e r g c =
      by_change
        (λ j x.
          Filled x (update s.sent p (s.sent p ++ m ∷ []) j) (s.got j)
            (update box p (box p ++ m ∷ []) j))
        c
        (λ n. rw (update_self s.sent p (s.sent p ++ m ∷ [])) (
          rw (update_self box p (box p ++ m ∷ [])) (record {
            holds = Represents-next n r;
            history =
                ap (λ x. x ++ m ∷ []) (v.filled p q e).history
                ∙ append_assoc (s.got p) (box p) (m ∷ []);
            idle = λ z. absurd (g z);
          })))
        (λ j x n ne f.
          rw (update_ne s.sent p j (s.sent p ++ m ∷ []) ne)
            (rw (update_ne box p j (box p ++ m ∷ []) ne) (Filled-next n (v.filled j x f))))

  push_idle :
      (p : ℕ) (m : Message) (q q' : MessageQueue) (w : World)
      → s.world.mq p ≡ some q
      → put q m ≡ some q'
      → Pushed q (box p ++ m ∷ []) q'
      → q.in_global ≡ 0
      → q.release ≡ 0
      → mq_push p m s.world ≡ some w
      → Sound (record s { world = w; sent = update s.sent p (s.sent p ++ m ∷ []) })
  push_idle p m q q' w e f pushed idle clear done =
      let sent' = update s.sent p (s.sent p ++ m ∷ []) in
      let (off, free) = (v.marked p q e).parked idle clear in
      let (w', done', l, c) =
        mq_push_idle p m q q' v.linked e f pushed.same.next (pushed.in_global ∙ idle) off in
      subst (λ x. Sound (record s { world = x; sent = sent' })) (some_inj (sym done' ∙ done))
        (
          ids ++ p ∷ [],
          update box p (box p ++ m ∷ []),
          record {
            linked = l;
            owned =
                Owned-ext
                  (λ t j h o.
                    occurs-snoc_ne j p ids (λ a. free t (subst (λ x. s.held t ≡ some x) a h)) ∙ o)
                  c.alive v.owned;
            marked =
                by_change (Marked (ids ++ p ∷ []) s.held) c
                  (λ n. record {
                    bits = (
                      omega arith,
                      subst (λ x. x < 2) (sym pushed.same.release) (v.marked p q e).bits.1,
                    );
                    parked = λ z. absurd (omega arith);
                    placed = λ _. inl (occurs-snoc_self p ids);
                  })
                  (λ j x n ne h.
                    Marked-ext refl refl (occurs-snoc_ne j p ids ne) (same_holders s.held j)
                      (v.marked j x h));
            filled =
                arrived p m q (record q' { in_global = 1 }) w' e
                  (Represents-marks q'.next 1 q'.release pushed.holds) (λ z. absurd (omega arith))
                  c;
          },
        )

  push_busy :
      (p : ℕ) (m : Message) (q q' : MessageQueue) (w : World)
      → s.world.mq p ≡ some q
      → put q m ≡ some q'
      → Pushed q (box p ++ m ∷ []) q'
      → q.in_global ≢ 0
      → mq_push p m s.world ≡ some w
      → Sound (record s { world = w; sent = update s.sent p (s.sent p ++ m ∷ []) })
  push_busy p m q q' w e f pushed busy done =
      let sent' = update s.sent p (s.sent p ++ m ∷ []) in
      let g : q'.in_global ≢ 0 = λ z. busy (sym pushed.in_global ∙ z) in
      let (done', l, c) = mq_push_busy p m q q' v.linked e f pushed.same.next g in
      subst (λ x. Sound (record s { world = x; sent = sent' })) (some_inj (sym done' ∙ done))
        (
          ids,
          update box p (box p ++ m ∷ []),
          record {
            linked = l;
            owned = Owned-ext (λ t j h o. o) c.alive v.owned;
            marked =
                by_change (Marked ids s.held) c
                  (λ n.
                    Marked-ext pushed.in_global pushed.same.release refl (same_holders s.held p)
                      (v.marked p q e))
                  (λ j x n ne h.
                    Marked-ext refl refl refl (same_holders s.held j) (v.marked j x h));
            filled = arrived p m q q' (write p q' s.world) e pushed.holds g c;
          },
        )

  pub pushes-Sound :
      (p : ℕ) (m : Message) (q : MessageQueue) (w : World)
      → s.world.mq p ≡ some q
      → q.release ≡ 0
      → mq_length q + 1 < 2 ^ 30
      → mq_push p m s.world ≡ some w
      → Sound (record s { world = w; sent = update s.sent p (s.sent p ++ m ∷ []) })
  pushes-Sound p m q w e clear few done =
      let r = (v.filled p q e).holds in
      let (q', f, pushed) = put_refines m r (omega (arith, mq_length-Represents r)) in
      elim (Bool-cases (q.in_global == 0)) [
        | inl idle ↦ push_idle p m q q' w e f pushed (eq_of_== _ _ idle) clear done
        | inr busy ↦ push_busy p m q q' w e f pushed (ne_of_== _ _ busy) done
      ]

  -- The queue `p`, which held `m` before `rest`, gave up `m`.
  took_message :
      (p : ℕ) (m : Message) (rest : List Message) (q q' : MessageQueue)
      → s.world.mq p ≡ some q
      → box p ≡ m ∷ rest
      → Popped q (m ∷ rest) q'
      → Linked (write p q' s.world) ids
      → Inv
          (record s { world = write p q' s.world; got = update s.got p (s.got p ++ m ∷ []) })
          ids
          (update box p rest)
  took_message p m rest q q' e eb popped l =
      let c = write-Changed s.world p q' in
      let full = v.filled p q e in
      record {
        linked = l;
        owned = Owned-ext (λ t j h o. o) c.alive v.owned;
        marked =
            by_change (Marked ids s.held) c
              (λ n.
                Marked-ext popped.in_global popped.same.release refl (same_holders s.held p)
                  (v.marked p q e))
              (λ j x n ne h. Marked-ext refl refl refl (same_holders s.held j) (v.marked j x h));
        filled =
            by_change
              (λ j x.
                Filled x (s.sent j) (update s.got p (s.got p ++ m ∷ []) j) (update box p rest j))
              c
              (λ n. rw (update_self s.got p (s.got p ++ m ∷ [])) (
                rw (update_self box p rest) (record {
                  holds = Represents-next n popped.left;
                  history =
                      full.history
                      ∙ ap (λ x. s.got p ++ x) eb
                      ∙ sym (append_assoc (s.got p) (m ∷ []) rest);
                  idle = λ z. absurd (cc (sym eb ∙ full.idle (sym popped.in_global ∙ z)));
                })))
              (λ j x n ne f.
                rw (update_ne s.got p j (s.got p ++ m ∷ []) ne)
                  (rw (update_ne box p j rest ne) (Filled-next n (v.filled j x f))));
      }

  pub pops-Sound :
      (p : ℕ) (m : Message) (q : MessageQueue) (w : World)
      → s.world.mq p ≡ some q
      → mq_pop p s.world ≡ some (some m, w)
      → Sound (record s { world = w; got = update s.got p (s.got p ++ m ∷ []) })
  pops-Sound p m q w e done =
      let full = v.filled p q e in
      let (q', f, popped) = pop_refines (box p) full.holds in
      let (done', l, c) = mq_pop_lem p q q' v.linked e f popped.same.next in
      let both = some_inj (sym done' ∙ done) in
      elim (list_cases (box p)) [
        | inl nothing ↦ absurd (cc (sym (ap head? nothing) ∙ ap (λ x. x.0) both))
        | inr (m', rest, eb) ↦
            let same : m' ≡ m = some_inj (sym (ap head? eb) ∙ ap (λ x. x.0) both) in
            let eb' : box p ≡ m ∷ rest = eb ∙ ap (λ x. x ∷ rest) same in
            (
              ids,
              update box p rest,
              subst
                  (λ x.
                    Inv (record s { world = x; got = update s.got p (s.got p ++ m ∷ []) }) ids
                      (update box p rest))
                  (ap (λ x. x.1) both)
                  (took_message p m rest q q' e eb' (subst (λ x. Popped q x q') eb' popped) l),
            )
      ]
