-- ===== src/Worker/Process.antt =====
-- The life of the worker's process: `main` of cmd/log-worker/main.go with its goroutines, and `Run` and `Close` of
-- internal/worker/service.go. An action is what one goroutine does next; `none` says that it cannot.
pub mod Order
pub mod Ends
use log_service.Prelude.{
  Bool, true, false, not, ◌&&◌, List, [], ◌∷◌, Option, none, some, if◌then◌else◌,
}

-- `Run`: it consumes, then waits for the replay loop, and then its result is on the way to `workerDone`.
pub data Run : Type 0 where
  consuming awaiting over : Run

-- `main`: it selects, shuts the server down (and knows whether the worker has exited), waits for
-- `workerDone`, and on its return closes the service.
pub data Main : Type 0 where
  selecting : Main
  shutting_down : Bool → Main
  waiting closing returned : Main

pub record Process : Type 0 where
  pub stopped : Bool
  pub run : Run
  pub replaying : Bool
  pub worker_done : Bool
  pub serving : Bool
  pub server_done : Bool
  pub main : Main

pub data Action : Type 0 where
  signal consume_returns replay_returns run_returns server_returns : Action
  select_context select_worker select_server shut_down receive_worker close : Action

abbrev pub start : Process
start = record {
  stopped = false;
  run = consuming;
  replaying = true;
  worker_done = false;
  serving = true;
  server_done = false;
  main = selecting;
}

abbrev pub only_if : Bool → Process → Option Process
only_if c p = if c then some p else none

-- consumeLoop returns once the context has ended.
abbrev pub consume_ended : Process → Run → Option Process
consume_ended p consuming = only_if p.stopped (record p { run = awaiting })
consume_ended p awaiting = none
consume_ended p over = none

-- Run returns once the replay loop has, and its result is sent.
abbrev pub run_ended : Process → Run → Option Process
run_ended p consuming = none
run_ended p awaiting = only_if (not p.replaying) (record p { run = over; worker_done = true })
run_ended p over = none

-- The three cases of main's select; two of them call `stop`.
abbrev pub selected : Process → Action → Main → Option Process
selected p select_context selecting = only_if p.stopped (record p { main = shutting_down false })
selected p select_worker selecting =
    only_if p.worker_done
      (record p { worker_done = false; stopped = true; main = shutting_down true })
selected p select_server selecting =
    only_if p.server_done
      (record p { server_done = false; stopped = true; main = shutting_down false })
selected p a m = none

-- Shutdown returns, after 5 seconds at the latest; main then waits for the worker unless it has exited.
abbrev pub shut : Process → Main → Option Process
shut p (shutting_down exited) = some (record p { main = if exited then closing else waiting })
shut p m = none

abbrev pub received : Process → Main → Option Process
received p waiting = only_if p.worker_done (record p { worker_done = false; main = closing })
received p m = none

-- The deferred Close
abbrev pub closed : Process → Main → Option Process
closed p closing = some (record p { main = returned })
closed p m = none

unfoldable pub step : Action → Process → Option Process
step signal p = only_if (not p.stopped) (record p { stopped = true })
step consume_returns p = consume_ended p p.run
step replay_returns p = only_if (p.replaying && p.stopped) (record p { replaying = false })
step run_returns p = run_ended p p.run
step server_returns p = only_if p.serving (record p { serving = false; server_done = true })
step select_context p = selected p select_context p.main
step select_worker p = selected p select_worker p.main
step select_server p = selected p select_server p.main
step shut_down p = shut p p.main
step receive_worker p = received p p.main
step close p = closed p p.main

-- Some actions, one after the other
unfoldable pub steps : List Action → Process → Option Process
unfolding step
steps [] p = some p
steps (a ∷ rest) p = elim (step a p) [ none ↦ none | some q ↦ steps rest q ]
