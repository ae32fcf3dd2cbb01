-- ===== src/Timer/Moving.antt =====
-- `timer_shift` keeps every event, in a list that fits its tick at the new time.
use Prim.Native.Nat.{bit_and}
use m2_server.Common.{
  ℕ, zero, suc, ◌+◌, ◌-◌, ◌*◌, ◌/◌, ◌%◌, ◌^◌, ◌<◌, ◌≡◌, ◌≢◌, ◌⊎◌, refl, sym, ap, ◌∙◌, arith, some,
  ne→==, eq→==, bit_and-mask,
}
use m2_server.Timer.{Timer, move_list, shift_loop, timer_shift}
use m2_server.Timer.Wheel.{FitsLevel}
use m2_server.Timer.Placing.{CanAdd}
use m2_server.Timer.Shifting.{
  next, Moves, wrap, none_moves, level_0, level_1, level_2, level_3, moved_level, moved_list,
  level_first_stays, level_second_stays, level_third_stays, level_last_stays,
}

pub level_stays :
    (now l j e : ℕ) (m : Moves now)
    → now < 2 ^ 32
    → e < 2 ^ 32
    → FitsLevel now l j e
    → (l ≢ moved_level m) ⊎ (j ≢ moved_list m)
    → FitsLevel (next now) l j e
level_stays now zero j e m lt small f other = level_first_stays now j e m lt small f other
level_stays now (suc zero) j e m lt small f other = level_second_stays now j e m lt small f other
level_stays now (suc (suc zero)) j e m lt small f other =
    level_third_stays now j e m lt small f other
level_stays now (suc (suc (suc zero))) j e m lt small f other =
    level_last_stays now j e m lt small f other
level_stays now (suc (suc (suc (suc l)))) j e m lt small f other = absurd f

-- The events that are moved can be added at the new time.
pub moved-CanAdd :
    (now e : ℕ) (m : Moves now)
    → now < 2 ^ 32
    → e < 2 ^ 32
    → FitsLevel now (moved_level m) (moved_list m) e
    → CanAdd (next now) e
moved-CanAdd now e (wrap w) lt small f = record { small = small; ahead = λ same. omega arith }
moved-CanAdd now e (none_moves a) lt small f = absurd f
moved-CanAdd now e (level_0 a b) lt small (at, later, block) = record {
  small = small;
  ahead = λ same. omega arith;
}
moved-CanAdd now e (level_1 a b) lt small (at, later, block) = record {
  small = small;
  ahead = λ same. omega arith;
}
moved-CanAdd now e (level_2 a b) lt small (at, later, block) = record {
  small = small;
  ahead = λ same. omega arith;
}
moved-CanAdd now e (level_3 a b) lt small (at, apart) = record {
  small = small;
  ahead = λ same. omega arith;
}

-- What a tick leaves of the wheel.
abbrev pub ticked : Timer → Timer
ticked T = record T { time = next T.time }

abbrev pub after : (T : Timer) → Moves T.time → Timer
after T (none_moves a) = ticked T
after T (wrap w) = move_list 3 0 (ticked T)
after T (level_0 a b) = move_list 0 (next T.time / 2 ^ 8 % 64) (ticked T)
after T (level_1 a b) = move_list 1 (next T.time / 2 ^ 14 % 64) (ticked T)
after T (level_2 a b) = move_list 2 (next T.time / 2 ^ 20 % 64) (ticked T)
after T (level_3 a b) = move_list 3 (next T.time / 2 ^ 26 % 64) (ticked T)

-- One round of the loop of `timer_shift`.
module _ (n i mask time : ℕ) (T : Timer) where
  stops : bit_and T.time (mask - 1) ≢ 0 → shift_loop (suc n) i mask time T ≡ some T
  unfolding shift_loop
  stops h = rw (ne→== (bit_and T.time (mask - 1)) 0 h) refl

  moves_one :
      bit_and T.time (mask - 1) ≡ 0
      → bit_and time 63 ≢ 0
      → shift_loop (suc n) i mask time T ≡ some (move_list i (bit_and time 63) T)
  unfolding shift_loop
  moves_one h k = rw (eq→== (bit_and T.time (mask - 1)) 0 h) (rw (ne→== (bit_and time 63) 0 k) refl)

  goes_on :
      bit_and T.time (mask - 1) ≡ 0
      → bit_and time 63 ≡ 0
      → shift_loop (suc n) i mask time T ≡ shift_loop n (i + 1) (mask * 2 ^ 6) (time / 2 ^ 6) T
  unfolding shift_loop
  goes_on h k = rw (eq→== (bit_and T.time (mask - 1)) 0 h) (rw (eq→== (bit_and time 63) 0 k) refl)

-- The level `l` of the wheel at the round for it: the mask is 2^(8 + 6 l).
pub timer_shift-after :
    (T : Timer) (m : Moves T.time) → T.time < 2 ^ 32 → timer_shift T ≡ some (after T m)
unfolding timer_shift
timer_shift-after T (wrap w) lt = rw (eq→== (next T.time) 0 w) refl
timer_shift-after T (none_moves a) lt =
    let ct = next T.time in
    rw (ne→== ct 0 (omega (arith, a)))
      (stops 3 0 256 (ct / 2 ^ 8) (ticked T) (λ e. a (sym (bit_and-mask 8 ct) ∙ e)))
timer_shift-after T (level_0 a b) lt =
    let ct = next T.time in
    rw (ne→== ct 0 (omega (arith, b))) (
      moves_one 3 0 256 (ct / 2 ^ 8) (ticked T) (bit_and-mask 8 ct ∙ a)
        (λ e. b (sym (bit_and-mask 6 (ct / 2 ^ 8)) ∙ e))
      ∙ ap (λ x. some (move_list 0 x (ticked T))) (bit_and-mask 6 (ct / 2 ^ 8)))
timer_shift-after T (level_1 a b) lt =
    let ct = next T.time in
    let t1 = ct / 2 ^ 8 / 2 ^ 6 in
    let at_1 : bit_and t1 63 ≡ ct / 2 ^ 14 % 64 = omega (arith, bit_and-mask 6 t1) in
    rw (ne→== ct 0 (omega (arith, b))) (
      goes_on 3 0 256 (ct / 2 ^ 8) (ticked T) (omega (arith, bit_and-mask 8 ct, a))
        (omega (arith, bit_and-mask 6 (ct / 2 ^ 8), a))
      ∙ moves_one 2 1 16384 t1 (ticked T) (bit_and-mask 14 ct ∙ a) (λ e. b (sym at_1 ∙ e))
      ∙ ap (λ x. some (move_list 1 x (ticked T))) at_1)
timer_shift-after T (level_2 a b) lt =
    let ct = next T.time in
    let t1 = ct / 2 ^ 8 / 2 ^ 6 in
    let t2 = t1 / 2 ^ 6 in
    let at_2 : bit_and t2 63 ≡ ct / 2 ^ 20 % 64 = omega (arith, bit_and-mask 6 t2) in
    rw (ne→== ct 0 (omega (arith, b))) (
      goes_on 3 0 256 (ct / 2 ^ 8) (ticked T) (omega (arith, bit_and-mask 8 ct, a))
        (omega (arith, bit_and-mask 6 (ct / 2 ^ 8), a))
      ∙ goes_on 2 1 16384 t1 (ticked T) (omega (arith, bit_and-mask 14 ct, a))
          (omega (arith, bit_and-mask 6 t1, a))
      ∙ moves_one 1 2 1048576 t2 (ticked T) (bit_and-mask 20 ct ∙ a) (λ e. b (sym at_2 ∙ e))
      ∙ ap (λ x. some (move_list 2 x (ticked T))) at_2)
timer_shift-after T (level_3 a b) lt =
    let ct = next T.time in
    let t1 = ct / 2 ^ 8 / 2 ^ 6 in
    let t2 = t1 / 2 ^ 6 in
    let t3 = t2 / 2 ^ 6 in
    let at_3 : bit_and t3 63 ≡ ct / 2 ^ 26 % 64 = omega (arith, bit_and-mask 6 t3) in
    rw (ne→== ct 0 (omega (arith, b))) (
      goes_on 3 0 256 (ct / 2 ^ 8) (ticked T) (omega (arith, bit_and-mask 8 ct, a))
        (omega (arith, bit_and-mask 6 (ct / 2 ^ 8), a))
      ∙ goes_on 2 1 16384 t1 (ticked T) (omega (arith, bit_and-mask 14 ct, a))
          (omega (arith, bit_and-mask 6 t1, a))
      ∙ goes_on 1 2 1048576 t2 (ticked T) (omega (arith, bit_and-mask 20 ct, a))
          (omega (arith, bit_and-mask 6 t2, a))
      ∙ moves_one 0 3 67108864 t3 (ticked T) (bit_and-mask 26 ct ∙ a) (λ e. b (sym at_3 ∙ e))
      ∙ ap (λ x. some (move_list 3 x (ticked T))) at_3)
