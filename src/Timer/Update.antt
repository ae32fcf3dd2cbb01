-- ===== src/Timer/Update.antt =====
-- `timer_update` and `timer_add`: an event is dispatched at its tick, not before and not later.
use m2_server.Common.{
  ℕ, ◌+◌, ◌%◌, ◌^◌, ◌<◌, ◌≡◌, ◌≢◌, ◌⊎◌, inl, inr, sym, ap, ◌∙◌, arith, Option, some, List, [], ◌∷◌,
  ◌++◌, ◌>>=◌, Bool-cases, ◌==◌, eq_of_==, ne_of_==,
}
use m2_server.Timer.{TimerNode, Timer, timer_add, timer_shift, timer_execute, timer_update}
use m2_server.Timer.Wheel.{In, In-left, IsPlaced, Waits}
use m2_server.Timer.Placing.{add_node_lem}
use m2_server.Timer.Shifting.{next}
use m2_server.Timer.Executing.{executed, is_executed, timer_execute_lem}
use m2_server.Timer.Ticks.{timer_shift_lem}

In-right : (n : TimerNode) (xs ys : List TimerNode) → In n ys → In n (xs ++ ys)
In-right n [] ys h = h
In-right n (x ∷ xs) ys h = inr (In-right n xs ys h)

In-append : (n : TimerNode) (xs ys : List TimerNode) → In n (xs ++ ys) → In n xs ⊎ In n ys
In-append n [] ys h = inr h
In-append n (x ∷ xs) ys (inl e) = inl (inl e)
In-append n (x ∷ xs) ys (inr h) = elim (In-append n xs ys h) [
  | inl h' ↦ inl (inr h')
  | inr h' ↦ inr h'
]

-- What one tick does: the events for the current and the next tick are dispatched.
pub record Ticked (T : Timer) (r : List TimerNode × Timer) : Type 0 where
  pub placed : IsPlaced r.1
  pub time : r.1.time ≡ next T.time
  pub dispatched :
      (n : TimerNode) → In n r.0 → Waits n T × ((n.expire ≡ T.time) ⊎ (n.expire ≡ next T.time))
  pub due : (n : TimerNode) → Waits n T → (n.expire ≡ T.time) ⊎ (n.expire ≡ next T.time) → In n r.0
  pub still :
      (n : TimerNode) → Waits n r.1 → Waits n T × (n.expire ≢ T.time) × (n.expire ≢ next T.time)
  pub keeps : (n : TimerNode) → Waits n T → n.expire ≢ T.time → n.expire ≢ next T.time → Waits n r.1

runs :
    (T : Timer) {early due : List TimerNode} {T1 T2 T3 : Timer}
    → timer_execute T ≡ (early, T1)
    → timer_shift T1 ≡ some T2
    → timer_execute T2 ≡ (due, T3)
    → timer_update T ≡ some (early ++ due, T3)
unfolding timer_update
runs T {early} e s d =
    let dispatch : List TimerNode → Timer → Option (List TimerNode × Timer) =
      λ xs T'. some (xs ++ (timer_execute T').0, (timer_execute T').1) in
    ap (λ (x : List TimerNode × Timer). timer_shift x.1 >>= dispatch x.0) e
    ∙ ap (λ o. o >>= dispatch early) s
    ∙ ap (λ (y : List TimerNode × Timer). some (early ++ y.0, y.1)) d

-- Where every event stands in a list that fits its tick, `timer_update` returns, also where the clock
-- wraps: the time is one tick on, and every event fits again. It dispatches the events that waited for
-- the tick before or the new one, and exactly the others still wait.
pub timer_update_lem :
    (T : Timer) → IsPlaced T → (r : List TimerNode × Timer) × (timer_update T ≡ some r) × Ticked T r
timer_update_lem T p =
    let x = timer_execute_lem T p in
    let T1 = executed T p in
    let (T2, shifts, s) = timer_shift_lem T1 x.placed x.done in
    let y = timer_execute_lem T2 s.placed in
    let early = T.near (T.time % 2 ^ 8) in
    let due = T2.near (T2.time % 2 ^ 8) in
    (
      (early ++ due, executed T2 s.placed),
      runs T (is_executed T p) shifts (is_executed T2 s.placed),
      record {
        placed = y.placed;
        time = s.time;
        dispatched = λ n h. elim (In-append n early due h) [
          | inl h' ↦ let (w, e) = x.due n h' in (w, inl e)
          | inr h' ↦ let (w, e) = y.due n h' in ((x.only n (s.only n w)).0, inr (e ∙ s.time))
        ];
        due = λ n w e. elim (Bool-cases (n.expire == T.time)) [
          | inl now ↦ In-left n early due (x.all_due n w (eq_of_== n.expire T.time now))
          | inr later ↦
              let ne = ne_of_== n.expire T.time later in
              let at : n.expire ≡ next T.time = elim e [
                | inl same ↦ absurd (ne same)
                | inr at ↦ at
              ] in
              In-right n early due (y.all_due n (s.keeps n (x.keeps n w ne)) (at ∙ sym s.time))
        ];
        still = λ n w.
            let (w2, ne2) = y.only n w in
            let (w1, ne1) = x.only n (s.only n w2) in (w1, ne1, λ e. ne2 (e ∙ sym s.time));
        keeps = λ n w ne1 ne2. y.keeps n (s.keeps n (x.keeps n w ne1)) (λ e. ne2 (e ∙ s.time));
      },
    )

-- What `timer_add` promises for an event that is due in `ticks` ticks.
pub record Added (node : TimerNode) (T T' : Timer) : Type 0 where
  pub placed : IsPlaced T'
  pub time : T'.time ≡ T.time
  pub waits : Waits node T'
  pub old : (n : TimerNode) → Waits n T → Waits n T'
  pub only : (n : TimerNode) → Waits n T' → Waits n T ⊎ (n ≡ node)

-- `timer_add` with fewer than 2^31 ticks, as an `int` has, and at least one: the event waits, every
-- other event still does, no other event is new, and every event stands in a list that fits its tick.
pub timer_add_lem :
    {T : Timer} (handle session ticks : ℕ)
    → IsPlaced T
    → 0 < ticks
    → ticks < 2 ^ 31
    → Added
        (record { expire = (ticks + T.time) % 2 ^ 32; handle = handle; session = session })
        T
        (timer_add handle session ticks T)
unfolding timer_add
timer_add_lem {T} handle session ticks p some_ticks int_ticks =
    let node : TimerNode = record {
      expire = (ticks + T.time) % 2 ^ 32;
      handle = handle;
      session = session;
    } in
    let lt = p.now in
    let a = add_node_lem node p (record { small = omega arith; ahead = λ same. omega arith }) in
    record { placed = a.placed; time = a.same_time; waits = a.new; old = a.old; only = a.only }
