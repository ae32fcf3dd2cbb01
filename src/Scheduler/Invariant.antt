-- ===== src/Scheduler/Invariant.antt =====
-- What holds between any two steps of the scheduler.
use m2_server.Common.{
  ℕ, ◌≡◌, ◌≢◌, Option, some, List, [], ◌++◌, sym, subst, ◌==◌, inl, inr, Bool-cases, eq_of_==,
  ne_of_==,
}
use m2_server.MessageQueue.{Message, MessageQueue}
use m2_server.MessageQueue.Fifo.{Represents}
use m2_server.GlobalQueue.{World}
use m2_server.GlobalQueue.Links.{Linked}
use m2_server.GlobalQueue.Ops.{Changed}
use m2_server.Scheduler.{System}
use m2_server.Scheduler.Placement.{Owned, Marked}

-- A queue holds `box`: what was sent to it and not yet taken. It is empty when its mark is clear.
pub record Filled (q : MessageQueue) (sent got box : List Message) : Type 0 where
  pub holds : Represents q box
  pub history : sent ≡ got ++ box
  pub idle : q.in_global ≡ 0 → box ≡ []

pub record Inv (s : System) (ids : List ℕ) (box : ℕ → List Message) : Type 0 where
  pub linked : Linked s.world ids
  pub owned : Owned s.world.mq ids s.held
  pub marked : (p : ℕ) (q : MessageQueue) → s.world.mq p ≡ some q → Marked ids s.held p q
  pub filled :
      (p : ℕ) (q : MessageQueue) → s.world.mq p ≡ some q → Filled q (s.sent p) (s.got p) (box p)

-- The links and marks say nothing of what a queue holds.
pub Represents-marks :
    {q : MessageQueue} {ms : List Message} (n : Option ℕ) (g r : ℕ)
    → Represents q ms
    → Represents (record q { next = n; in_global = g; release = r }) ms
Represents-marks n g m r = record {
  small = r.small;
  size = r.size;
  head_in = r.head_in;
  room = r.room;
  at_tail = r.at_tail;
  threshold = r.threshold;
  cells = r.cells;
}

pub Represents-next :
    {q : MessageQueue} {ms : List Message} (n : Option ℕ)
    → Represents q ms
    → Represents (record q { next = n }) ms
Represents-next {q} n r = Represents-marks n q.in_global q.release r

pub Filled-next :
    {q : MessageQueue} {sent got box : List Message} (n : Option ℕ)
    → Filled q sent got box
    → Filled (record q { next = n }) sent got box
Filled-next n f = record { holds = Represents-next n f.holds; history = f.history; idle = f.idle }

-- What holds of every queue after one of them changed: of that one, and of the others.
pub by_change :
    (P : ℕ → MessageQueue → Type 0) {p : ℕ} {new : MessageQueue} {w w' : World}
    → Changed p new w w'
    → ((n : Option ℕ) → P p (record new { next = n }))
    → ((j : ℕ) (q : MessageQueue) (n : Option ℕ)
        → j ≢ p
        → w.mq j ≡ some q
        → P j (record q { next = n }))
    → (j : ℕ) (q : MessageQueue) → w'.mq j ≡ some q
    → P j q
by_change P {p} {new} {w} {w'} c at_p off_p j q e = elim (Bool-cases (j == p)) [
  | inl same ↦
      let s = eq_of_== j p same in
      subst (λ x. P x q) (sym s)
        (subst (P p) (sym (c.here q (subst (λ x. w'.mq x ≡ some q) s e))) (at_p q.next))
  | inr other ↦
      let ne = ne_of_== j p other in
      let (r, er, f) = c.there j q ne e in subst (P j) (sym f) (off_p j r q.next ne er)
]
