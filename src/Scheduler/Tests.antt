-- ===== src/Scheduler/Tests.antt =====
-- A run of the scheduler: a service is created, gets a message, is put on the list and is taken by
-- a worker.
use m2_server.Common.{ℕ, ◌≡◌, ◌≢◌, refl, arith, none, some, List, ◌++◌, ◌⊎◌, length}
use m2_server.MessageQueue.{Message, MessageQueue, create, mq_length, put}
use m2_server.MessageQueue.Fifo.{Represents}
use m2_server.GlobalQueue.{
  World, globalmq_push, globalmq_pop, mq_create, mq_push, mq_pop, mark_release, mq_release,
}
use m2_server.Scheduler.{
  System, initial, creates, puts_back, takes, pushes, Reach, start, later, OnList,
}
use m2_server.Scheduler.Safety.{
  exclusive, not_forgotten, in_order, Returns, owner_goes_on, others_go_on,
}

abbrev ping : Message
ping = record { source = 9; session = 1; payload = 77; sz = 4 }

-- A state, with the steps that lead to it.
record Run : Type 0 where
  state : System
  reach : Reach state

run_created : Run
unfolding initial mq_create create
run_created = record { state = _; reach = later start (creates 0 5 17 refl refl) }

run_pushed : Run
unfolding run_created initial mq_create create mq_push put globalmq_push mq_length
run_pushed = record {
  state = _;
  reach = later run_created.reach (pushes 5 ping (create 17) _ refl refl (omega arith) refl);
}

run_taken : Run
unfolding run_pushed globalmq_pop
run_taken = record {
  state = _;
  reach = later (later run_pushed.reach (puts_back 0 5 _ refl refl)) (takes 1 (some 5) _ refl refl);
}

queue_at : World → ℕ → MessageQueue
unfolding create
queue_at w p = elim (w.mq p) [ none ↦ create 0 | some q ↦ q ]

run_pushed-queue : run_pushed.state.world.mq 5 ≡ some (queue_at run_pushed.state.world 5)
unfolding run_pushed queue_at
run_pushed-queue = refl

exclusive_example :
    (◌≡◌ {A = ℕ} 1 1) × ((w : World) → globalmq_pop run_taken.state.world ≢ some (some 5, w))
unfolding run_taken
exclusive_example = exclusive {s = run_taken.state} 1 1 5 run_taken.reach refl refl

not_forgotten_example :
    ((queue_at run_pushed.state.world 5).in_global ≡ 1)
    × (((t : ℕ) × (run_pushed.state.held t ≡ some 5)) ⊎ OnList run_pushed.state.world 5)
unfolding run_pushed queue_at mq_length
not_forgotten_example =
    not_forgotten {s = run_pushed.state} 5 (queue_at run_pushed.state.world 5) run_pushed.reach
      run_pushed-queue (omega arith)

in_order_example :
    (rest : List Message) × (run_pushed.state.sent 5 ≡ run_pushed.state.got 5 ++ rest)
    × (mq_length (queue_at run_pushed.state.world 5) ≡ length rest)
    × Represents (queue_at run_pushed.state.world 5) rest
in_order_example =
    in_order {s = run_pushed.state} 5 (queue_at run_pushed.state.world 5) run_pushed.reach
      run_pushed-queue

owner_goes_on_example :
    Returns (globalmq_push 5 run_taken.state.world)
    × Returns (mq_pop 5 run_taken.state.world)
    × Returns (mq_release 5 run_taken.state.world)
unfolding run_taken
owner_goes_on_example = owner_goes_on {s = run_taken.state} 1 5 run_taken.reach refl

others_go_on_example :
    Returns (globalmq_pop run_pushed.state.world)
    × Returns (mq_push 5 ping run_pushed.state.world)
    × Returns (mark_release 5 run_pushed.state.world)
unfolding run_pushed queue_at mq_length
others_go_on_example =
    others_go_on {s = run_pushed.state} 5 ping (queue_at run_pushed.state.world 5) run_pushed.reach
      run_pushed-queue refl (omega arith)
