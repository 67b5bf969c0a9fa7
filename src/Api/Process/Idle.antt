-- ===== src/Api/Process/Idle.antt =====
-- The log API closes its producer only when no request needs it (cmd/log-api/main.go).
use log_service.Prelude.{
  ℕ, zero, suc, ◌≡◌, refl, Bool, true, false, not, ◌&&◌, ◌==◌, List, [], ◌∷◌, Option, none, some,
  arith, if_both,
}
use log_service.Api.Process.{
  Main, waiting, shutting_down, closing, returned, exited, Process, Action, signal, arrive, answer,
  server_fails, replayer_returns, wake, shut_down, time_out, close, start, only_if, is_running,
  answered, woken, shut, late, closed, act, step, steps,
}

-- What is known of the process while main is at this point.
abbrev Fits : Main → Process → Type 0
Fits waiting p = Unit
Fits shutting_down p = (p.stopped ≡ true) × (p.listening ≡ false)
Fits closing p = (p.stopped ≡ true) × (p.listening ≡ false) × (p.requests ≡ 0)
Fits returned p = (p.stopped ≡ true) × (p.listening ≡ false) × (p.requests ≡ 0)
Fits (exited code) p = code ≡ 1

abbrev IsIdle : Process → Type 0
IsIdle p = Fits p.main p

abbrev Every : Option Process → Type 0
Every none = Unit
Every (some q) = IsIdle q

only_if-Every : (c : Bool) (p : Process) → (c ≡ true → IsIdle p) → Every (only_if c p)
only_if-Every true p h = h refl
only_if-Every false p h = tt

signal-Fits : (m : Main) (p : Process) → Fits m p → Fits m (record p { stopped = true })
signal-Fits waiting p h = tt
signal-Fits shutting_down p h = (refl, h.1)
signal-Fits closing p h = (refl, h.1, h.2)
signal-Fits returned p h = (refl, h.1, h.2)
signal-Fits (exited code) p h = h

arrive-Fits :
    (m : Main) (p : Process)
    → p.listening ≡ true
    → Fits m p
    → Fits m (record p { requests = suc p.requests })
arrive-Fits waiting p on h = tt
arrive-Fits shutting_down p on h = h
arrive-Fits closing p on h = absurd (ground (arith, h.1))
arrive-Fits returned p on h = absurd (ground (arith, h.1))
arrive-Fits (exited code) p on h = h

answer-Fits :
    (m : Main) (p : Process) (n : ℕ)
    → p.requests ≡ suc n
    → Fits m p
    → Fits m (record p { requests = n })
answer-Fits waiting p n some_left h = tt
answer-Fits shutting_down p n some_left h = h
answer-Fits closing p n some_left h = absurd (ground (arith, h.2))
answer-Fits returned p n some_left h = absurd (ground (arith, h.2))
answer-Fits (exited code) p n some_left h = h

answered-Every : (p : Process) (n : ℕ) → p.requests ≡ n → IsIdle p → Every (answered p n)
answered-Every p zero e h = tt
answered-Every p (suc n) e h = answer-Fits p.main p n e h

replay-Fits : (m : Main) (p : Process) → Fits m p → Fits m (record p { replaying = false })
replay-Fits waiting p h = tt
replay-Fits shutting_down p h = h
replay-Fits closing p h = h
replay-Fits returned p h = h
replay-Fits (exited code) p h = h

woken-Every : (p : Process) (m : Main) → Every (woken p m)
woken-Every p waiting = only_if-Every p.stopped _ (λ s. (s, refl))
woken-Every p shutting_down = tt
woken-Every p closing = tt
woken-Every p returned = tt
woken-Every p (exited code) = tt

shut-Every : (p : Process) (m : Main) → Fits m p → Every (shut p m)
shut-Every p shutting_down h = only_if-Every (p.requests == 0) _ (λ z. (h.0, h.1, ground arith))
shut-Every p waiting h = tt
shut-Every p closing h = tt
shut-Every p returned h = tt
shut-Every p (exited code) h = tt

late-Every : (p : Process) (m : Main) → Every (late p m)
late-Every p shutting_down = refl
late-Every p waiting = tt
late-Every p closing = tt
late-Every p returned = tt
late-Every p (exited code) = tt

closed-Every : (p : Process) (m : Main) → Fits m p → Every (closed p m)
closed-Every p closing h = h
closed-Every p waiting h = tt
closed-Every p shutting_down h = tt
closed-Every p returned h = tt
closed-Every p (exited code) h = tt

act-Every : (a : Action) (p : Process) → IsIdle p → Every (act a p)
act-Every signal p h = only_if-Every (not p.stopped) _ (λ s. signal-Fits p.main p h)
act-Every arrive p h = only_if-Every p.listening _ (λ on. arrive-Fits p.main p on h)
act-Every answer p h = answered-Every p p.requests refl h
act-Every server_fails p h = only_if-Every p.listening _ (λ on. refl)
act-Every replayer_returns p h =
    only_if-Every (p.replaying && p.stopped) _ (λ s. replay-Fits p.main p h)
act-Every wake p h = woken-Every p p.main
act-Every shut_down p h = shut-Every p p.main h
act-Every time_out p h = late-Every p p.main
act-Every close p h = closed-Every p p.main h

steps-Every : (actions : List Action) (p : Process) → IsIdle p → Every (steps actions p)
unfolding steps step
steps-Every [] p h = h
steps-Every (a ∷ rest) p h =
    next (step a p) (if_both Every (is_running p.main) _ _ (act-Every a p h) tt) (steps-Every rest)
  where
    next :
        (o : Option Process)
        → Every o
        → ((q : Process) → IsIdle q → Every (steps rest q))
        → Every (elim o [ none ↦ none | some q ↦ steps rest q ])
    next none k go = tt
    next (some q) k go = go q k

-- After any actions of main, the signal, the server, the requests and the replayer, in any order in which they
-- can happen: once main has returned, and so has closed the producer, a signal had come, the server
-- listened no more and no request was left.
pub steps-idle :
    (actions : List Action) (p : Process)
    → steps actions start ≡ some p
    → p.main ≡ returned
    → (p.stopped ≡ true) × (p.listening ≡ false) × (p.requests ≡ 0)
steps-idle actions p e at = at_end (of_some e (steps-Every actions start tt))
  where
    of_some : {o : Option Process} → o ≡ some p → Every o → IsIdle p
    of_some {o = none} e k = absurd cc
    of_some {o = some q} e k = let same : q ≡ p = cc in rw (← same) k

    at_end : IsIdle p → (p.stopped ≡ true) × (p.listening ≡ false) × (p.requests ≡ 0)
    at_end h = rw at at h
