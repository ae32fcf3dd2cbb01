-- ===== src/Timer.antt =====
-- skynet-src/skynet_timer.c: the wheel of timer events. The near lists hold the events of the current
-- block of 256 ticks, and each of four levels the events of later and larger blocks.
pub mod Wheel
pub mod Adding
pub mod Placing
pub mod Shifting
pub mod Moving
pub mod Executing
pub mod Ticks
pub mod Update
pub mod OnTime
mod Tests
use Prim.Native.Nat.{bit_and, bit_or}
use m2_server.Common.{
  ℕ, zero, suc, ◌+◌, ◌-◌, ◌*◌, ◌/◌, ◌%◌, ◌^◌, Option, none, some, List, [], ◌∷◌, ◌++◌, ◌==◌,
  if◌then◌else◌, ◌>>=◌, update,
}

-- `struct timer_node` with the `timer_event` behind it.
pub record TimerNode : Type 0 where
  pub expire : ℕ
  pub handle : ℕ
  pub session : ℕ

-- `struct timer`: the lists, in order, and the current tick. Every index of `near` is masked by 255,
-- and every index of a level by 63.
pub record Timer : Type 0 where
  pub near : ℕ → List TimerNode
  pub t : ℕ → ℕ → List TimerNode
  pub time : ℕ

-- `link(&T->near[i], node)` and `link(&T->t[i][idx], node)`
abbrev pub link_near : ℕ → TimerNode → Timer → Timer
link_near i node T = record T { near = update T.near i (T.near i ++ node ∷ []) }

abbrev pub link_level : ℕ → ℕ → TimerNode → Timer → Timer
link_level i idx node T = record T {
  t = update T.t i (update (T.t i) idx (T.t i idx ++ node ∷ []));
}

-- The loop of `add_node`, with `n` rounds to go: the level for an event at the tick `time`.
unfoldable pub find_level : ℕ → ℕ → ℕ → ℕ → ℕ → ℕ
find_level zero i mask time current_time = i
find_level (suc n) i mask time current_time =
    let rest = find_level n (i + 1) (mask * 2 ^ 6) time current_time in
    if bit_or time (mask - 1) == bit_or current_time (mask - 1) then i else rest

-- `add_node`
unfoldable pub add_node : TimerNode → Timer → Timer
unfolding find_level
add_node node T =
    let i = find_level 3 0 (2 ^ 8 * 2 ^ 6) node.expire T.time in
    if bit_or node.expire 255 == bit_or T.time 255
    then link_near (bit_and node.expire 255) node T
    else link_level i (bit_and (node.expire / 2 ^ (8 + i * 6)) 63) node T

-- `timer_add`; `ticks` is positive and an `int`.
unfoldable pub timer_add : ℕ → ℕ → ℕ → Timer → Timer
unfolding add_node
timer_add handle session ticks T =
    add_node (record { expire = (ticks + T.time) % 2 ^ 32; handle = handle; session = session }) T

abbrev pub add_all : List TimerNode → Timer → Timer
add_all [] T = T
add_all (node ∷ nodes) T = add_all nodes (add_node node T)

-- `move_list`: the list is cleared, and its events are added again.
unfoldable pub move_list : ℕ → ℕ → Timer → Timer
unfolding add_node
move_list level idx T =
    add_all (T.t level idx) (record T { t = update T.t level (update (T.t level) idx []) })

-- The loop of `timer_shift`, with `n` rounds to go; `none` is the overflow of the `int` `mask`.
unfoldable pub shift_loop : ℕ → ℕ → ℕ → ℕ → Timer → Option Timer
unfolding move_list
shift_loop zero i mask time T = none
shift_loop (suc n) i mask time T =
    let idx = bit_and time 63 in
    let rest = shift_loop n (i + 1) (mask * 2 ^ 6) (time / 2 ^ 6) T in
    if bit_and T.time (mask - 1) == 0
    then (if idx == 0 then rest else some (move_list i idx T))
    else some T

-- `timer_shift`; `mask` has room for four rounds.
unfoldable pub timer_shift : Timer → Option Timer
unfolding shift_loop move_list
timer_shift T =
    let ct = (T.time + 1) % 2 ^ 32 in
    let T' = record T { time = ct } in
    if ct == 0 then some (move_list 3 0 T') else shift_loop 4 0 (2 ^ 8) (ct / 2 ^ 8) T'

-- `timer_execute`, with the events that it dispatches, in order.
unfoldable pub timer_execute : Timer → List TimerNode × Timer
timer_execute T =
    let idx = bit_and T.time 255 in (T.near idx, record T { near = update T.near idx [] })

-- `timer_update`
unfoldable pub timer_update : Timer → Option (List TimerNode × Timer)
unfolding timer_execute timer_shift
timer_update T =
    let (early, T') = timer_execute T in
    timer_shift T' >>= λ T''. let (due, T''') = timer_execute T'' in some (early ++ due, T''')

-- The loop of `skynet_updatetime` for `diff` ticks, with what each tick dispatches.
unfoldable pub run_ticks : ℕ → Timer → Option (List (List TimerNode) × Timer)
unfolding timer_update
run_ticks zero T = some ([], T)
run_ticks (suc diff) T =
    timer_update T >>= λ (fired, T'). run_ticks diff T' >>= λ (rest, T''). some (fired ∷ rest, T'')

-- `timer_create_timer`
abbrev pub create_timer : Timer
create_timer = record { near = λ i. []; t = λ i j. []; time = 0 }
