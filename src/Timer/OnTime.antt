-- ===== src/Timer/OnTime.antt =====
-- The loop of `skynet_updatetime`: an event is dispatched at its tick.
use m2_server.Common.{
  ℕ, zero, suc, ◌+◌, ◌%◌, ◌^◌, ◌<◌, ◌≡◌, ◌≢◌, inl, inr, refl, ap, ◌∙◌, arith, Option, some, List,
  [], ◌∷◌, ◌>>=◌,
}
use m2_server.Timer.{TimerNode, Timer, timer_add, timer_update, run_ticks}
use m2_server.Timer.Wheel.{In, IsPlaced, Waits}
use m2_server.Timer.Shifting.{next}
use m2_server.Timer.Update.{timer_update_lem, timer_add_lem}

-- The event is in the last of the lists, and in no other.
abbrev pub InLast : TimerNode → List (List TimerNode) → Type 0
InLast n [] = ⊥
InLast n (xs ∷ []) = In n xs
InLast n (xs ∷ ys ∷ rest) = (In n xs → ⊥) × InLast n (ys ∷ rest)

one_more :
    (diff : ℕ) (T : Timer) {r : List TimerNode × Timer} {q : List (List TimerNode) × Timer}
    → timer_update T ≡ some r
    → run_ticks diff r.1 ≡ some q
    → run_ticks (suc diff) T ≡ some (r.0 ∷ q.0, q.1)
unfolding run_ticks
one_more diff T {r} {q} e f =
    let back : List TimerNode
        → List (List TimerNode) × Timer
        → Option (List (List TimerNode) × Timer) =
      λ fired x. some (fired ∷ x.0, x.1) in
    ap (λ (o : Option (List TimerNode × Timer)). o >>= λ x. run_ticks diff x.1 >>= back x.0) e
    ∙ ap (λ o. o >>= back r.0) f

none_left : (T : Timer) → run_ticks 0 T ≡ some ([], T)
unfolding run_ticks
none_left T = refl

-- The list of the first tick, and those of the others.
InLast-later :
    (n : TimerNode) (xs : List TimerNode) (rest : List (List TimerNode))
    → (In n xs → ⊥)
    → InLast n rest
    → InLast n (xs ∷ rest)
InLast-later n xs [] h l = absurd l
InLast-later n xs (ys ∷ rest) h l = (h, l)

loop_on_time :
    (k : ℕ) (T : Timer) (n : TimerNode)
    → IsPlaced T
    → Waits n T
    → n.expire ≡ (T.time + suc k) % 2 ^ 32
    → suc k < 2 ^ 32
    → (q : List (List TimerNode) × Timer) × (run_ticks (suc k) T ≡ some q) × InLast n q.0
loop_on_time zero T n p w e lt =
    let (r, f, t) = timer_update_lem T p in
    ((r.0 ∷ [], r.1), one_more 0 T f (none_left r.1), t.due n w (inr e))
loop_on_time (suc k) T n p w e lt =
    let (r, f, t) = timer_update_lem T p in
    let now = p.now in
    let not_now : n.expire ≢ T.time = λ same. absurd (omega (arith, same, e)) in
    let not_next : n.expire ≢ next T.time = λ same. absurd (omega (arith, same, e)) in
    let (q, g, l) =
      loop_on_time k r.1 n t.placed (t.keeps n w not_now not_next) (omega (arith, e, t.time))
        (omega arith) in
    (
      (r.0 ∷ q.0, q.1),
      one_more (suc k) T f g,
      InLast-later n r.0 q.0
          (λ h. elim (t.dispatched n h).1 [ inl same ↦ not_now same | inr same ↦ not_next same ]) l,
    )

-- An event that `skynet_timeout` adds for `ticks` ticks, at least one and fewer than 2^31, is
-- dispatched by the last of the next `ticks` ticks and by none before it, wherever the clock stands and
-- whatever else waits, if every event stands in a list that fits its tick.
pub dispatched_on_time :
    (T : Timer) (handle session k : ℕ)
    → IsPlaced T
    → suc k < 2 ^ 31
    → (q : List (List TimerNode) × Timer) × (run_ticks (suc k) (timer_add handle session (suc k) T)
        ≡ some q)
      × InLast
          (record { expire = (suc k + T.time) % 2 ^ 32; handle = handle; session = session })
          q.0
dispatched_on_time T handle session k p lt =
    let a = timer_add_lem {T = T} handle session (suc k) p (omega arith) lt in
    loop_on_time k (timer_add handle session (suc k) T) _ a.placed a.waits (omega (arith, a.time))
      (omega arith)
