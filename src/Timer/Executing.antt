-- ===== src/Timer/Executing.antt =====
-- `timer_execute` dispatches the events for the current tick, and leaves the others.
use m2_server.Common.{
  ℕ, zero, suc, ◌/◌, ◌%◌, ◌^◌, ◌≡◌, ◌≢◌, inl, inr, refl, sym, ap, subst, ◌∙◌, arith, List, [],
  update, update-cases, update_self, bit_and-mask,
}
use m2_server.Timer.{TimerNode, Timer, timer_execute}
use m2_server.Timer.Wheel.{In, FitsLevel, IsPlaced, Waits, in_near, in_level}

-- What `timer_execute` does.
pub record Executed (T : Timer) (fired : List TimerNode) (T' : Timer) : Type 0 where
  pub placed : IsPlaced T'
  pub time : T'.time ≡ T.time
  pub done : T'.near (T.time % 2 ^ 8) ≡ []
  pub due : (n : TimerNode) → In n fired → Waits n T × (n.expire ≡ T.time)
  pub all_due : (n : TimerNode) → Waits n T → n.expire ≡ T.time → In n fired
  pub only : (n : TimerNode) → Waits n T' → Waits n T × (n.expire ≢ T.time)
  pub keeps : (n : TimerNode) → Waits n T → n.expire ≢ T.time → Waits n T'

level_later : (now l j e : ℕ) → FitsLevel now l j e → e ≢ now
level_later now zero j e (at, later, block) same = absurd (omega arith)
level_later now (suc zero) j e (at, later, block) same = absurd (omega arith)
level_later now (suc (suc zero)) j e (at, later, block) same = absurd (omega arith)
level_later now (suc (suc (suc zero))) j e (at, apart) same = apart (ap (λ x. x / 2 ^ 26) same)
level_later now (suc (suc (suc (suc l)))) j e f same = f

module _ (T : Timer) (p : IsPlaced T) where
  -- The wheel without the list for the current tick.
  abbrev pub executed : Timer
  executed = record T { near = update T.near (T.time % 2 ^ 8) [] }

  pub is_executed : timer_execute T ≡ (T.near (T.time % 2 ^ 8), executed)
  unfolding timer_execute
  is_executed = ap (λ i. (T.near i, record T { near = update T.near i [] })) (bit_and-mask 8 T.time)

  at_tick : (n : TimerNode) → In n (T.near (T.time % 2 ^ 8)) → n.expire ≡ T.time
  at_tick n h = let ((block, at, ahead), small) = p.near (T.time % 2 ^ 8) n h in omega arith

  still_near :
      (i : ℕ) (n : TimerNode)
      → In n (update T.near (T.time % 2 ^ 8) [] i)
      → In n (T.near i) × (n.expire ≢ T.time)
  still_near i n h = elim (update-cases T.near (T.time % 2 ^ 8) i []) [
    | inl (same, e) ↦ absurd (subst (In n) e h)
    | inr (ne, e) ↦
        let h' = subst (In n) e h in
        let ((block, at, ahead), small) = p.near i n h' in
        (h', λ same. ne (sym at ∙ ap (λ x. x % 2 ^ 8) same))
  ]

  stays_near :
      (i : ℕ) (n : TimerNode)
      → In n (T.near i)
      → n.expire ≢ T.time
      → In n (update T.near (T.time % 2 ^ 8) [] i)
  stays_near i n h ne = elim (update-cases T.near (T.time % 2 ^ 8) i []) [
    | inl (same, e) ↦ absurd (ne (at_tick n (subst (λ x. In n (T.near x)) same h)))
    | inr (other, e) ↦ subst (In n) (sym e) h
  ]

  pub timer_execute_lem : Executed T (T.near (T.time % 2 ^ 8)) executed
  timer_execute_lem = record {
    placed = record {
      near = λ i n h. p.near i n (still_near i n h).0;
      level = p.level;
      now = p.now;
    };
    time = refl;
    done = update_self T.near (T.time % 2 ^ 8) [];
    due = λ n h. (in_near (T.time % 2 ^ 8) h, at_tick n h);
    all_due = λ n w same. elim w [
      | in_near i h ↦
          let ((block, at, ahead), small) = p.near i n h in
          subst (λ x. In n (T.near x)) (sym at ∙ ap (λ x. x % 2 ^ 8) same) h
      | in_level l j h ↦ absurd (level_later T.time l j n.expire (p.level l j n h).0 same)
    ];
    only = λ n w. elim w [
      | in_near i h ↦ let (h', ne) = still_near i n h in (in_near i h', ne)
      | in_level l j h ↦ (in_level l j h, level_later T.time l j n.expire (p.level l j n h).0)
    ];
    keeps = λ n w ne. elim w [
      | in_near i h ↦ in_near i (stays_near i n h ne)
      | in_level l j h ↦ in_level l j h
    ];
  }
