-- ===== src/Tests/Processes.antt =====
-- The worker's process from its start to its end, at a signal.
use log_service.Prelude.{◌≡◌, ◌≤◌, ◌⊎◌, refl, true, false, List, [], ◌∷◌, some, length}
use log_service.Worker.Process.{
  over, returned, Process, Action, signal, consume_returns, replay_returns, run_returns,
  server_returns, select_context, select_worker, shut_down, receive_worker, close, shutting_down,
  start, step, steps,
}
use log_service.Worker.Process.Order.{steps-closing}
use log_service.Worker.Process.Ends.{steps-returned}

-- The worker has returned before main looks.
abbrev early : List Action
early = signal ∷ consume_returns ∷ replay_returns ∷ run_returns ∷ select_worker ∷ []

abbrev shutting : Process
shutting = record {
  stopped = true;
  run = over;
  replaying = false;
  worker_done = false;
  serving = true;
  server_done = false;
  main = shutting_down true;
}

steps-early : steps early start ≡ some shutting
unfolding steps step
steps-early = refl

steps-closing_example : (over ≡ over) × (false ≡ false)
steps-closing_example = steps-closing early shutting steps-early refl

-- Main shuts the server down first, and then waits for the worker.
abbrev late : List Action
late =
    signal ∷ select_context ∷ replay_returns ∷ shut_down ∷ server_returns ∷ consume_returns
    ∷ run_returns ∷ receive_worker ∷ close ∷ []

abbrev ended : Process
ended = record {
  stopped = true;
  run = over;
  replaying = false;
  worker_done = false;
  serving = false;
  server_done = true;
  main = returned;
}

steps-late : steps late start ≡ some ended
unfolding steps step
steps-late = refl

steps-returned_example :
    (length late ≤ 9)
    × ((returned ≡ returned)
        ⊎ ((true ≡ false) ⊎ ((a : Action) × ((q : Process) × (step a ended ≡ some q)))))
steps-returned_example = steps-returned late ended steps-late
