-- ===== src/Scheduler/Steps.antt =====
-- Each step keeps the invariant.
use mathlib.Core.List.{head?, tail}
use m2_server.Common.{
  some_inj, ℕ, ◌≡◌, refl, arith, true, false, Option, none, some, List, [], ◌∷◌, ◌++◌, ◌∙◌, sym, ap,
  subst, update, occurs, inl, inr, update_self, update_ne, ==_self, Distinct, false_not_true,
  occurs-cons, occurs_of_append, update_same, list_cases, Bool-cases, update-inv,
}
use m2_server.MessageQueue.{Message, MessageQueue, create}
use m2_server.MessageQueue.Fifo.{create-Represents}
use m2_server.GlobalQueue.{World, globalmq_push, globalmq_pop, mq_create}
use m2_server.GlobalQueue.Chain.{Chain-get, Chain-update}
use m2_server.GlobalQueue.Links.{Linked, SameQueues, globalmq_push_lem, globalmq_pop_lem}
use m2_server.GlobalQueue.Ops.{Changed, SameQueues-Changed, write-Changed}
use m2_server.Scheduler.{System}
use m2_server.Scheduler.Placement.{
  Marked, Marked-ext, same_holders, update-SameHolders, Owned-drop, Owned-take, Owned-ext,
  occurs-snoc_ne, occurs-snoc_self,
}
use m2_server.Scheduler.Invariant.{Filled, Inv, Represents-next, Filled-next, by_change}

-- Some list and some contents satisfy the invariant.
abbrev pub Sound : System → Type 0
Sound s = (ids : List ℕ) × (box : ℕ → List Message) × Inv s ids box

create-Linked :
    {w : World} {ids : List ℕ} (p handle : ℕ)
    → occurs p ids ≡ false
    → Linked w ids
    → Linked (mq_create p handle w) ids
unfolding mq_create create
create-Linked {w} p handle o l = record {
  chain = Chain-update w.mq p _ _ o l.chain;
  at_head = l.at_head;
  at_tail = l.at_tail;
  distinct = l.distinct;
  loose = λ j r e o'. elim (update-inv w.mq p (some (create handle)) j e) [
    | inl (same, v) ↦ subst (λ x. x.next ≡ none) (some_inj v) refl
    | inr (other, h) ↦ l.loose j r h o'
  ];
}

not_listed :
    {w : World} {ids : List ℕ} (p : ℕ) → w.mq p ≡ none → Linked w ids → occurs p ids ≡ false
not_listed {w} {ids} p e l = elim (Bool-cases (occurs p ids)) [
  | inl on ↦ let (q, f) = Chain-get w.mq p ids on l.chain in absurd (cc (sym e ∙ f))
  | inr off ↦ off
]

module _ {s : System} {ids : List ℕ} {box : ℕ → List Message} (v : Inv s ids box) where
  pub creates-Sound :
      (t p handle : ℕ)
      → s.held t ≡ none
      → s.world.mq p ≡ none
      → Sound (record s {
        world = mq_create p handle s.world;
        held = update s.held t (some p);
        sent = update s.sent p [];
        got = update s.got p [];
      })
  unfolding mq_create create
  creates-Sound t p handle h e =
      let off = not_listed p e v.linked in
      let c = write-Changed s.world p (create handle) in
      (
        ids,
        update box p [],
        record {
          linked = create-Linked p handle off v.linked;
          owned =
              Owned-take t p ids (λ u a. let (q, f) = v.owned.alive u p a in cc (sym e ∙ f)) off
                (create handle, update_self s.world.mq p _) (λ j o. o) c.alive v.owned;
          marked =
              by_change (Marked ids (update s.held t (some p))) c
                (λ n. record {
                  bits = omega arith;
                  parked = λ g. absurd (omega arith);
                  placed = λ _. inr (t, update_self s.held t (some p));
                })
                (λ j q n ne f.
                  Marked-ext refl refl refl
                    (update-SameHolders s.held t j (some p) (λ a. cc (sym h ∙ a))
                      (λ a. ne (sym (some_inj a))))
                    (v.marked j q f));
          filled =
              by_change
                (λ j q. Filled q (update s.sent p [] j) (update s.got p [] j) (update box p [] j)) c
                (λ n. rw (update_self s.sent p []) (
                  rw (update_self s.got p []) (
                    rw (update_self box p []) (record {
                      holds = Represents-next n (create-Represents handle);
                      history = refl;
                      idle = λ g. refl;
                    }))))
                (λ j q n ne f. rw (update_ne s.sent p j [] ne) (
                  rw (update_ne s.got p j [] ne)
                    (rw (update_ne box p j [] ne) (Filled-next n (v.filled j q f)))));
        },
      )

  -- The owner `t` puts the queue `p` in its hand back: no mark changes.
  pub parks-Sound :
      (t p : ℕ) (q : MessageQueue) (w : World)
      → s.held t ≡ some p
      → Linked w (ids ++ p ∷ [])
      → Changed p q s.world w
      → s.world.mq p ≡ some q
      → Sound (record s { world = w; held = update s.held t none })
  parks-Sound t p q w h l c e = (
    ids ++ p ∷ [],
    box,
    record {
      linked = l;
      owned =
          Owned-drop t p (ids ++ p ∷ []) h (λ j ne o. occurs-snoc_ne j p ids ne ∙ o)
            (λ j r ne f. c.alive j r f) v.owned;
      marked =
          by_change (Marked (ids ++ p ∷ []) (update s.held t none)) c
            (λ n. record {
              bits = (v.marked p q e).bits;
              parked = λ g r. absurd (((v.marked p q e).parked g r).1 t h);
              placed = λ _. inl (occurs-snoc_self p ids);
            })
            (λ j r n ne f.
              Marked-ext refl refl (occurs-snoc_ne j p ids ne)
                (update-SameHolders s.held t j none (λ a. ne (some_inj (sym a ∙ h))) (λ a. cc a))
                (v.marked j r f));
      filled =
          by_change (λ j x. Filled x (s.sent j) (s.got j) (box j)) c
            (λ n. Filled-next n (v.filled p q e)) (λ j r n ne f. Filled-next n (v.filled j r f));
    },
  )

  pub puts_back-Sound :
      (t p : ℕ) (w : World)
      → s.held t ≡ some p
      → globalmq_push p s.world ≡ some w
      → Sound (record s { world = w; held = update s.held t none })
  puts_back-Sound t p w h done =
      let (q, e) = v.owned.alive t p h in
      let (w', done', l, same) = globalmq_push_lem p q ids v.linked e (v.owned.off t p h) in
      subst (λ x. Sound (record s { world = x; held = update s.held t none }))
        (some_inj (sym done' ∙ done)) (parks-Sound t p q w' h l (SameQueues-Changed p q e same) e)

  -- The owner `t` takes the first queue of the list.
  took_first :
      (t p : ℕ) (rest : List ℕ) (w : World)
      → ids ≡ p ∷ rest
      → Linked w rest
      → SameQueues s.world w
      → s.held t ≡ none
      → Inv (record s { world = w; held = update s.held t (some p) }) rest box
  took_first t p rest w ei l same h =
      let on : occurs p ids ≡ true = rw ei (rw (==_self p)) in
      let off : occurs p rest ≡ false = (subst Distinct ei v.linked.distinct).0 in
      let (q, e) = Chain-get s.world.mq p ids on v.linked.chain in
      let c = SameQueues-Changed p q e same in
      record {
        linked = l;
        owned =
            Owned-take t p rest (λ u a. false_not_true (sym (v.owned.off u p a) ∙ on)) off
              (c.alive p q e)
              (λ j o. (occurs_of_append j (p ∷ []) rest (subst (λ x. occurs j x ≡ false) ei o)).1)
              c.alive v.owned;
        marked =
            by_change (Marked rest (update s.held t (some p))) c
              (λ n. record {
                bits = (v.marked p q e).bits;
                parked = λ g r. absurd (false_not_true (sym ((v.marked p q e).parked g r).0 ∙ on));
                placed = λ _. inr (t, update_self s.held t (some p));
              })
              (λ j r n ne f.
                Marked-ext refl refl (sym (ap (occurs j) ei ∙ occurs-cons j p rest ne))
                  (update-SameHolders s.held t j (some p) (λ a. cc (sym h ∙ a))
                    (λ a. ne (sym (some_inj a))))
                  (v.marked j r f));
        filled =
            by_change (λ j x. Filled x (s.sent j) (s.got j) (box j)) c
              (λ n. Filled-next n (v.filled p q e)) (λ j r n ne f. Filled-next n (v.filled j r f));
      }

  same-Inv :
      (w : World) → Linked w ids → SameQueues s.world w → Inv (record s { world = w }) ids box
  same-Inv w l same = record {
    linked = l;
    owned = Owned-ext (λ t p h o. o) same.forth v.owned;
    marked = λ p q' e'.
        let (q, e, f) = same.back p q' e' in
        Marked-ext (ap (λ x. x.in_global) f) (ap (λ x. x.release) f) refl (same_holders s.held p)
          (v.marked p q e);
    filled = λ p q' e'.
        let (q, e, f) = same.back p q' e' in
        subst (λ x. Filled x (s.sent p) (s.got p) (box p)) (sym f)
          (Filled-next q'.next (v.filled p q e));
  }

  pub takes-Sound :
      (t : ℕ) (r : Option ℕ) (w : World)
      → s.held t ≡ none
      → globalmq_pop s.world ≡ some (r, w)
      → Sound (record s { world = w; held = update s.held t r })
  takes-Sound t r w h done =
      let (w', done', l, same) = globalmq_pop_lem ids v.linked in
      let e = some_inj (sym done' ∙ done) in
      subst (λ x. Sound (record s { world = x.1; held = update s.held t x.0 })) e
        (elim (list_cases ids) [
          | inl none_left ↦ (
            ids,
            box,
            rw (ap head? none_left) (
                rw (update_same s.held t none h) (
                  same-Inv w' (subst (λ x. Linked w' x) (ap tail none_left ∙ sym none_left) l)
                    same)),
          )
          | inr (p, rest, ei) ↦ (
            rest,
            box,
            rw (ap head? ei)
                (took_first t p rest w' ei (subst (λ x. Linked w' x) (ap tail ei) l) same h),
          )
        ])
