-- ===== src/Worker/Process/Ends.antt =====
-- The worker's process ends (cmd/log-worker/main.go, internal/worker/service.go).
use log_service.Prelude.{
  ℕ, ◌+◌, ◌≤◌, ◌≡◌, ◌⊎◌, inl, inr, Bool-cases, refl, Bool, true, false, not, ◌&&◌, List, [], ◌∷◌,
  Option, none, some, arith, length,
}
use log_service.Worker.Process.{
  Run, consuming, awaiting, over, Main, selecting, shutting_down, waiting, closing, returned,
  Process, Action, signal, consume_returns, replay_returns, run_returns, server_returns,
  select_context, select_worker, select_server, shut_down, receive_worker, close, start, only_if,
  consume_ended, run_ended, selected, shut, received, closed, step, steps,
}
use log_service.Worker.Process.Order.{of_some, steps-Every}
use log_service.Worker.Process.Order.Cases.{
  IsOrdered, start-IsOrdered, step-IsOrdered, Every, only_if-Every,
}

abbrev run_left : Run → ℕ
run_left consuming = 2
run_left awaiting = 1
run_left over = 0

abbrev main_left : Main → ℕ
main_left selecting = 4
main_left (shutting_down exited) = 3
main_left waiting = 2
main_left closing = 1
main_left returned = 0

abbrev one_if : Bool → ℕ
one_if true = 1
one_if false = 0

-- How many actions the process has left at most.
abbrev left : Process → ℕ
left p =
    one_if (not p.stopped)
    + (run_left p.run + (one_if p.replaying + (one_if p.serving + main_left p.main)))

abbrev Less : Process → Process → Type 0
Less p q = left q + 1 ≤ left p

step-Less : (a : Action) (p : Process) → Every (Less p) (step a p)
unfolding step
step-Less signal p = only_if-Every (Less p) (not p.stopped) _ (λ s. ground arith)
step-Less consume_returns p = consumed p.run refl
  where
    consumed : (r : Run) → p.run ≡ r → Every (Less p) (consume_ended p r)
    consumed consuming at = only_if-Every (Less p) p.stopped _ (λ s. ground arith)
    consumed awaiting at = tt
    consumed over at = tt
step-Less replay_returns p = only_if-Every (Less p) (p.replaying && p.stopped) _ (λ s. ground arith)
step-Less run_returns p = ran p.run refl
  where
    ran : (r : Run) → p.run ≡ r → Every (Less p) (run_ended p r)
    ran consuming at = tt
    ran awaiting at = only_if-Every (Less p) (not p.replaying) _ (λ s. ground arith)
    ran over at = tt
step-Less server_returns p = only_if-Every (Less p) p.serving _ (λ s. ground arith)
step-Less select_context p = chosen p.main refl
  where
    chosen : (m : Main) → p.main ≡ m → Every (Less p) (selected p select_context m)
    chosen selecting at = only_if-Every (Less p) p.stopped _ (λ s. ground arith)
    chosen (shutting_down b) at = tt
    chosen waiting at = tt
    chosen closing at = tt
    chosen returned at = tt
step-Less select_worker p = chosen p.main refl
  where
    chosen : (m : Main) → p.main ≡ m → Every (Less p) (selected p select_worker m)
    chosen selecting at = only_if-Every (Less p) p.worker_done _ (λ s. ground arith)
    chosen (shutting_down b) at = tt
    chosen waiting at = tt
    chosen closing at = tt
    chosen returned at = tt
step-Less select_server p = chosen p.main refl
  where
    chosen : (m : Main) → p.main ≡ m → Every (Less p) (selected p select_server m)
    chosen selecting at = only_if-Every (Less p) p.server_done _ (λ s. ground arith)
    chosen (shutting_down b) at = tt
    chosen waiting at = tt
    chosen closing at = tt
    chosen returned at = tt
step-Less shut_down p = shuts p.main refl
  where
    shuts : (m : Main) → p.main ≡ m → Every (Less p) (shut p m)
    shuts selecting at = tt
    shuts (shutting_down true) at = ground arith
    shuts (shutting_down false) at = ground arith
    shuts waiting at = tt
    shuts closing at = tt
    shuts returned at = tt
step-Less receive_worker p = receives p.main refl
  where
    receives : (m : Main) → p.main ≡ m → Every (Less p) (received p m)
    receives waiting at = only_if-Every (Less p) p.worker_done _ (λ s. ground arith)
    receives selecting at = tt
    receives (shutting_down b) at = tt
    receives closing at = tt
    receives returned at = tt
step-Less close p = closes p.main refl
  where
    closes : (m : Main) → p.main ≡ m → Every (Less p) (closed p m)
    closes closing at = ground arith
    closes selecting at = tt
    closes (shutting_down b) at = tt
    closes waiting at = tt
    closes returned at = tt

-- However the actions are chosen, there are not more than what was left.
length-steps :
    (actions : List Action) (p : Process)
    → Every (λ q. length actions + left q ≤ left p) (steps actions p)
unfolding steps
length-steps [] p = omega arith
length-steps (a ∷ rest) p = next (step a p) (step-Less a p) (length-steps rest)
  where
    next :
        (o : Option Process)
        → Every (Less p) o
        → ((q : Process) → Every (λ r. length rest + left r ≤ left q) (steps rest q))
        → Every
            (λ r. length (a ∷ rest) + left r ≤ left p)
            (elim o [ none ↦ none | some q ↦ steps rest q ])
    next none k go = tt
    next (some q) k go = weaker (steps rest q) (go q)
      where
        weaker :
            (o : Option Process)
            → Every (λ r. length rest + left r ≤ left q) o
            → Every (λ r. length (a ∷ rest) + left r ≤ left p) o
        weaker none h = tt
        weaker (some r) h = omega (arith, h, k)

abbrev Able : Process → Type 0
Able p = (a : Action) × ((q : Process) × (step a p ≡ some q))

-- Once the context has ended, some action can be taken until main has returned.
ended-Able : (p : Process) → IsOrdered p → p.stopped ≡ true → (p.main ≡ returned) ⊎ Able p
unfolding step
ended-Able p h s = at_main p.main refl
  where
    taken : (c : Bool) (q : Process) → c ≡ true → (r : Process) × (only_if c q ≡ some r)
    taken c q e = (q, rw e refl)

    at_replay : (y : Bool) → p.replaying ≡ y → p.run ≡ awaiting → Able p
    at_replay true on at = (replay_returns, taken (p.replaying && p.stopped) _ (rw (on, s) refl))
    at_replay false off at = (run_returns, rw at (taken (not p.replaying) _ (rw off refl)))

    at_result : (d : Bool) → p.worker_done ≡ d → p.main ≡ waiting → p.run ≡ over → Able p
    at_result true sent m at = (receive_worker, rw m (taken p.worker_done _ sent))
    at_result false none_sent m at = absurd (ground (arith, h.kept at none_sent))

    at_run : (r : Run) → p.run ≡ r → p.main ≡ waiting → Able p
    at_run consuming at m = (consume_returns, rw at (taken p.stopped _ s))
    at_run awaiting at m = at_replay p.replaying refl at
    at_run over at m = at_result p.worker_done refl m at

    at_main : (m : Main) → p.main ≡ m → (p.main ≡ returned) ⊎ Able p
    at_main selecting at = inr (select_context, rw at (taken p.stopped _ s))
    at_main (shutting_down b) at = inr (shut_down, rw at (_, refl))
    at_main waiting at = inr (at_run p.run refl at)
    at_main closing at = inr (close, rw at (_, refl))
    at_main returned at = inl at

-- From its start the process takes at most nine actions, in whatever order they come. And where it stands after
-- any of them, main has returned, or the context has not ended (no signal came, and main has seen no end of
-- the server or of the worker), or there is an action that can be taken.
pub steps-returned :
    (actions : List Action) (p : Process)
    → steps actions start ≡ some p
    → (length actions ≤ 9)
      × ((p.main ≡ returned)
          ⊎ ((p.stopped ≡ false) ⊎ ((a : Action) × ((q : Process) × (step a p ≡ some q)))))
steps-returned actions p e =
    let bound : length actions + left p ≤ left start =
      of_some (λ q. length actions + left q ≤ left start) e (length-steps actions start) in
    let ordered : IsOrdered p =
      of_some IsOrdered e (steps-Every IsOrdered step-IsOrdered actions start start-IsOrdered) in
    (omega (arith, bound), goes_on ordered (Bool-cases p.stopped))
  where
    goes_on :
        IsOrdered p
        → (p.stopped ≡ true) ⊎ (p.stopped ≡ false)
        → (p.main ≡ returned) ⊎ ((p.stopped ≡ false) ⊎ Able p)
    goes_on h (inl ended) = later (ended-Able p h ended)
      where
        later : (p.main ≡ returned) ⊎ Able p → (p.main ≡ returned) ⊎ ((p.stopped ≡ false) ⊎ Able p)
        later (inl r) = inl r
        later (inr k) = inr (inr k)
    goes_on h (inr on) = inr (inl on)
