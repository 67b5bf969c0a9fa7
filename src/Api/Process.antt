-- ===== src/Api/Process.antt =====
-- The life of the log API's process: `main` of cmd/log-api/main.go from the start of the server on, with the server's
-- goroutine, the requests and the replayer. An action is what one of them does next; `none` says that it cannot.
pub mod Idle
use log_service.Prelude.{
  ℕ, zero, suc, Bool, true, false, not, ◌&&◌, ◌==◌, Option, none, some, if◌then◌else◌, List, [],
  ◌∷◌,
}

-- `main` waits for a signal, shuts the server down, and closes the producer on its return; `os.Exit` ends
-- the process at once, and closes nothing.
pub data Main : Type 0 where
  waiting shutting_down closing returned : Main
  exited : ℕ → Main

pub record Process : Type 0 where
  pub stopped : Bool
  pub listening : Bool
  pub requests : ℕ
  pub replaying : Bool
  pub main : Main

pub data Action : Type 0 where
  signal arrive answer server_fails replayer_returns : Action
  wake shut_down time_out close : Action

abbrev pub start : Process
start = record { stopped = false; listening = true; requests = 0; replaying = true; main = waiting }

abbrev pub is_running : Main → Bool
is_running waiting = true
is_running shutting_down = true
is_running closing = true
is_running returned = false
is_running (exited code) = false

abbrev pub only_if : Bool → Process → Option Process
only_if c p = if c then some p else none

abbrev pub answered : Process → ℕ → Option Process
answered p zero = none
answered p (suc n) = some (record p { requests = n })

-- ListenAndServe ends with an error other than that of a shutdown: the process exits.
abbrev pub failed : Process → Option Process
failed p = only_if p.listening (record p { listening = false; main = exited 1 })

-- main goes on once the context has ended. Shutdown stops the listening first.
abbrev pub woken : Process → Main → Option Process
woken p waiting = only_if p.stopped (record p { listening = false; main = shutting_down })
woken p m = none

-- Shutdown returns without error when no request is left.
abbrev pub shut : Process → Main → Option Process
shut p shutting_down = only_if (p.requests == 0) (record p { main = closing })
shut p m = none

-- After 10 seconds it returns with an error, and the process exits.
abbrev pub late : Process → Main → Option Process
late p shutting_down = some (record p { main = exited 1 })
late p m = none

-- The deferred Close of the producer
abbrev pub closed : Process → Main → Option Process
closed p closing = some (record p { main = returned })
closed p m = none

abbrev pub act : Action → Process → Option Process
act signal p = only_if (not p.stopped) (record p { stopped = true })
act arrive p = only_if p.listening (record p { requests = suc p.requests })
act answer p = answered p p.requests
act server_fails p = failed p
act replayer_returns p = only_if (p.replaying && p.stopped) (record p { replaying = false })
act wake p = woken p p.main
act shut_down p = shut p p.main
act time_out p = late p p.main
act close p = closed p p.main

-- Nothing happens in a process that has ended.
unfoldable pub step : Action → Process → Option Process
step a p = if is_running p.main then act a p else none

unfoldable pub steps : List Action → Process → Option Process
unfolding step
steps [] p = some p
steps (a ∷ rest) p = elim (step a p) [ none ↦ none | some q ↦ steps rest q ]
