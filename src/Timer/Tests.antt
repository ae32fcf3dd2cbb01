-- ===== src/Timer/Tests.antt =====
-- Events around the places where the wheel turns and where the clock wraps.
use m2_server.Common.{ℕ, ◌-◌, ◌^◌, ◌≡◌, refl, arith, some, List, [], ◌∷◌, map, ◌>>=◌}
use m2_server.Timer.{
  TimerNode, Timer, create_timer, find_level, add_node, timer_add, move_list, shift_loop,
  timer_shift, timer_execute, timer_update, run_ticks,
}
use m2_server.Timer.Wheel.{IsPlaced}
use m2_server.Timer.Update.{Ticked, timer_update_lem, Added, timer_add_lem}
use m2_server.Timer.OnTime.{InLast, dispatched_on_time}

-- An empty wheel one tick before the clock wraps.
abbrev last_tick : Timer
last_tick = record create_timer { time = 2 ^ 32 - 1 }

last_tick-IsPlaced : IsPlaced last_tick
last_tick-IsPlaced = record {
  near = λ i n h. absurd h;
  level = λ l j n h. absurd h;
  now = omega arith;
}

abbrev event : TimerNode
event = record { expire = 2; handle = 7; session = 1 }

abbrev sessions : List (List TimerNode) × Timer → List (List ℕ)
sessions r = map (map (λ (n : TimerNode). n.session)) r.0

-- An event three ticks on is put into the last level, and moved when the clock wraps.
run_ticks-run :
    (run_ticks 3 (timer_add 7 1 3 last_tick) >>= λ r. some (sessions r))
    ≡ some ([] ∷ [] ∷ (1 ∷ []) ∷ [])
unfolding run_ticks timer_update timer_execute timer_shift move_list timer_add add_node find_level
    shift_loop
run_ticks-run = refl

-- Events for one tick are dispatched in the order in which they were added.
timer_update-run :
    (run_ticks 1 (timer_add 7 2 1 (timer_add 7 1 1 create_timer)) >>= λ r. some (sessions r))
    ≡ some ((1 ∷ 2 ∷ []) ∷ [])
unfolding run_ticks timer_update timer_execute timer_shift timer_add add_node find_level shift_loop
timer_update-run = refl

dispatched_on_time_example :
    (q : List (List TimerNode) × Timer) × (run_ticks 3 (timer_add 7 1 3 last_tick) ≡ some q)
    × InLast event q.0
dispatched_on_time_example = dispatched_on_time last_tick 7 1 2 last_tick-IsPlaced (omega arith)

timer_update_lem_example :
    (r : List TimerNode × Timer) × (timer_update (timer_add 7 1 3 last_tick) ≡ some r)
    × Ticked (timer_add 7 1 3 last_tick) r
timer_update_lem_example =
    timer_update_lem (timer_add 7 1 3 last_tick)
      (timer_add_lem {T = last_tick} 7 1 3 last_tick-IsPlaced (omega arith) (omega arith)).placed

timer_add_lem_example : Added event last_tick (timer_add 7 1 3 last_tick)
timer_add_lem_example = timer_add_lem 7 1 3 last_tick-IsPlaced (omega arith) (omega arith)
