-- ===== src/Timer/Ticks.antt =====
-- A tick of the timer dispatches the events that are due, and no others.
use m2_server.Common.{
  ℕ, zero, suc, ◌%◌, ◌^◌, ◌<◌, ◌≡◌, ◌≢◌, ◌⊎◌, inl, inr, refl, sym, ap, subst, ◌∙◌, arith, some, [],
  update, update-cases,
}
use m2_server.Timer.{TimerNode, Timer, move_list, timer_shift}
use m2_server.Timer.Wheel.{In, FitsNear, FitsLevel, IsPlaced, Waits, in_near, in_level}
use m2_server.Timer.Placing.{add_all_lem}
use m2_server.Timer.Shifting.{
  next, Moves, wrap, none_moves, level_0, level_1, level_2, level_3, moves, moved_level, moved_list,
  near_stays,
}
use m2_server.Timer.Moving.{level_stays, moved-CanAdd, ticked, after, timer_shift-after}

-- The same events wait in a wheel that is in order at the next tick.
pub record Shifted (T T' : Timer) : Type 0 where
  pub placed : IsPlaced T'
  pub time : T'.time ≡ next T.time
  pub keeps : (n : TimerNode) → Waits n T → Waits n T'
  pub only : (n : TimerNode) → Waits n T' → Waits n T

-- A wheel without an event for the current tick.
module _ (T : Timer) (p : IsPlaced T) (done : T.near (T.time % 2 ^ 8) ≡ []) where
  not_now : (i : ℕ) (n : TimerNode) → In n (T.near i) → n.expire ≢ T.time
  not_now i n h same =
      let at : i ≡ T.time % 2 ^ 8 = sym (p.near i n h).0.1 ∙ ap (λ x. x % 2 ^ 8) same in
      absurd (subst (In n) done (subst (λ x. In n (T.near x)) at h))

  near_ticked :
      (i : ℕ) (n : TimerNode)
      → In n (T.near i)
      → FitsNear (next T.time) i n.expire × (n.expire < 2 ^ 32)
  near_ticked i n h =
      let (fits, small) = p.near i n h in
      (near_stays T.time i n.expire p.now small (not_now i n h) fits, small)

  shift_nothing : (m : Moves T.time) → ((l : ℕ) → l < 4 → l ≢ moved_level m) → Shifted T (ticked T)
  shift_nothing m none_hit = record {
    placed = record {
      near = near_ticked;
      level = λ l j n h.
          let (fits, small) = p.level l j n h in
          (
            level_stays T.time l j n.expire m p.now small fits
                (inl (none_hit l (in_range l j n.expire fits))),
            small,
          );
      now = omega arith;
    };
    time = refl;
    keeps = λ n w. elim w [ in_near k h ↦ in_near k h | in_level l j h ↦ in_level l j h ];
    only = λ n w. elim w [ in_near k h ↦ in_near k h | in_level l j h ↦ in_level l j h ];
  }
    where
      in_range : (l j e : ℕ) → FitsLevel T.time l j e → l < 4
      in_range zero j e f = omega arith
      in_range (suc zero) j e f = omega arith
      in_range (suc (suc zero)) j e f = omega arith
      in_range (suc (suc (suc zero))) j e f = omega arith
      in_range (suc (suc (suc (suc l)))) j e f = absurd f

  -- The list `j` of the level `l` is moved.
  module _ (m : Moves T.time) where
    abbrev cleared : Timer
    cleared = record (ticked T) {
      t = update T.t (moved_level m) (update (T.t (moved_level m)) (moved_list m) []);
    }

    from_level :
        (l j : ℕ) (n : TimerNode)
        → In n (cleared.t l j)
        → In n (T.t l j) × ((l ≢ moved_level m) ⊎ (j ≢ moved_list m))
    from_level l j n h =
        elim (update-cases T.t (moved_level m) l (update (T.t (moved_level m)) (moved_list m) [])) [
          | inr (ne, e) ↦ (subst (λ f. In n (f j)) e h, inl ne)
          | inl (same, e) ↦ elim (update-cases (T.t (moved_level m)) (moved_list m) j []) [
            | inl (same_j, f) ↦ absurd (subst (In n) f (subst (λ f. In n (f j)) e h))
            | inr (ne, f) ↦
                let h' = subst (In n) f (subst (λ f. In n (f j)) e h) in
                (subst (λ x. In n (T.t x j)) (sym same) h', inr ne)
          ]
        ]

    to_level :
        (l j : ℕ) (n : TimerNode)
        → In n (T.t l j)
        → In n (cleared.t l j) ⊎ In n (T.t (moved_level m) (moved_list m))
    to_level l j n h =
        elim (update-cases T.t (moved_level m) l (update (T.t (moved_level m)) (moved_list m) [])) [
          | inr (ne, e) ↦ inl (subst (λ f. In n (f j)) (sym e) h)
          | inl (same, e) ↦
              let h' = subst (λ x. In n (T.t x j)) same h in
              elim (update-cases (T.t (moved_level m)) (moved_list m) j []) [
                | inl (same_j, f) ↦ inr (subst (λ x. In n (T.t (moved_level m) x)) same_j h')
                | inr (ne, f) ↦ inl (subst (λ f. In n (f j)) (sym e) (subst (In n) (sym f) h'))
              ]
        ]

    cleared-IsPlaced : IsPlaced cleared
    cleared-IsPlaced = record {
      near = near_ticked;
      level = λ l j n h.
          let (h', other) = from_level l j n h in
          let (fits, small) = p.level l j n h' in
          (level_stays T.time l j n.expire m p.now small fits other, small);
      now = omega arith;
    }

    shift_list : Shifted T (move_list (moved_level m) (moved_list m) (ticked T))
    unfolding move_list
    shift_list =
        let r = add_all_lem (T.t (moved_level m) (moved_list m)) cleared-IsPlaced (λ n h.
          let (fits, small) = p.level (moved_level m) (moved_list m) n h in
          moved-CanAdd T.time n.expire m p.now small fits) in
        record {
          placed = r.placed;
          time = r.same_time;
          keeps = λ n w. elim w [
            | in_near k h ↦ r.old n (in_near k h)
            | in_level l j h ↦ elim (to_level l j n h) [
              | inl h' ↦ r.old n (in_level l j h')
              | inr h' ↦ r.new n h'
            ]
          ];
          only = λ n w. elim (r.only n w) [
            | inr h ↦ in_level (moved_level m) (moved_list m) h
            | inl w' ↦ elim w' [
              | in_near k h ↦ in_near k h
              | in_level l j h ↦ in_level l j (from_level l j n h).0
            ]
          ];
        }

  after-Shifted : (m : Moves T.time) → Shifted T (after T m)
  after-Shifted (none_moves a) = shift_nothing (none_moves a) (λ l lt. (λ e. absurd (omega arith)))
  after-Shifted (wrap w) = shift_list (wrap w)
  after-Shifted (level_0 a b) = shift_list (level_0 a b)
  after-Shifted (level_1 a b) = shift_list (level_1 a b)
  after-Shifted (level_2 a b) = shift_list (level_2 a b)
  after-Shifted (level_3 a b) = shift_list (level_3 a b)

  pub timer_shift_lem : (T' : Timer) × (timer_shift T ≡ some T') × Shifted T T'
  timer_shift_lem =
      let m = moves T.time p.now in (after T m, timer_shift-after T m p.now, after-Shifted m)
