-- ===== src/Worker/Process/Order.antt =====
-- The worker's process closes the service only when no loop uses it any more (cmd/log-worker/main.go,
-- internal/worker/service.go).
pub mod Cases
use log_service.Prelude.{◌≡◌, true, false, List, [], ◌∷◌, Option, none, some}
use log_service.Worker.Process.{over, returned, Process, Action, signal, start, step, steps}
use log_service.Worker.Process.Order.Cases.{
  has_result, IsOrdered, start-IsOrdered, step-IsOrdered, Every,
}

-- For a statement that each action keeps, and one that it strengthens to.
pub steps-Every :
    (P : Process → Type 0)
    → ((a : Action) (p : Process) → P p → Every P (step a p))
    → (actions : List Action) (p : Process) → P p
    → Every P (steps actions p)
unfolding steps
steps-Every P keeps [] p h = h
steps-Every P keeps (a ∷ rest) p h = next (step a p) (keeps a p h) (steps-Every P keeps rest)
  where
    next :
        (o : Option Process)
        → Every P o
        → ((q : Process) → P q → Every P (steps rest q))
        → Every P (elim o [ none ↦ none | some q ↦ steps rest q ])
    next none k go = tt
    next (some q) k go = go q k

pub of_some :
    (P : Process → Type 0) {o : Option Process} {p : Process} → o ≡ some p → Every P o → P p
of_some P {o = none} e k = absurd cc
of_some P {o = some q} {p} e k = let same : q ≡ p = cc in rw (← same) k

-- After any actions of main, the signal, the worker's two loops and the server, in any order in which they can
-- happen: once main has the worker's result, which it has when it closes Kafka's reader and writer
-- and when it has returned, the consume loop and the replay loop have both returned.
pub steps-closing :
    (actions : List Action) (p : Process)
    → steps actions start ≡ some p
    → has_result p.main ≡ true
    → (p.run ≡ over) × (p.replaying ≡ false)
steps-closing actions p e h =
    let ordered : IsOrdered p =
      of_some IsOrdered e (steps-Every IsOrdered step-IsOrdered actions start start-IsOrdered) in
    (ordered.taken h, ordered.run_waits (ordered.taken h))
