-- ===== src/Worker/Process/Order/Cases.antt =====
-- Each action of the worker's process keeps the order in which its parts end (cmd/log-worker/main.go,
-- internal/worker/service.go).
use log_service.Prelude.{◌≡◌, refl, Bool, true, false, not, ◌&&◌, Option, none, some, arith}
use log_service.Worker.Process.{
  Run, consuming, awaiting, over, Main, selecting, shutting_down, waiting, closing, returned,
  Process, Action, signal, consume_returns, replay_returns, run_returns, server_returns,
  select_context, select_worker, select_server, shut_down, receive_worker, close, start, only_if,
  consume_ended, run_ended, selected, shut, received, closed, step,
}

-- Main has the worker's result.
abbrev pub has_result : Main → Bool
has_result selecting = false
has_result (shutting_down exited) = exited
has_result waiting = false
has_result closing = true
has_result returned = true

abbrev pub has_selected : Main → Bool
has_selected selecting = false
has_selected (shutting_down exited) = true
has_selected waiting = true
has_selected closing = true
has_selected returned = true

pub record IsOrdered (p : Process) : Type 0 where
  pub run_waits : p.run ≡ over → p.replaying ≡ false
  pub sent : p.worker_done ≡ true → p.run ≡ over
  pub kept : p.run ≡ over → p.worker_done ≡ false → has_result p.main ≡ true
  pub taken : has_result p.main ≡ true → p.run ≡ over
  pub ended : has_selected p.main ≡ true → p.stopped ≡ true

pub start-IsOrdered : IsOrdered start
start-IsOrdered = record {
  run_waits = λ h. absurd cc;
  sent = λ h. absurd cc;
  kept = λ h. absurd cc;
  taken = λ h. absurd cc;
  ended = λ h. absurd cc;
}

-- What is true of the process after an action, if the action can be taken.
abbrev pub Every : (Process → Type 0) → Option Process → Type 0
Every P none = Unit
Every P (some q) = P q

pub only_if-Every :
    (P : Process → Type 0) (c : Bool) (p : Process) → (c ≡ true → P p) → Every P (only_if c p)
only_if-Every P true p h = h refl
only_if-Every P false p h = tt

consume_ended-IsOrdered :
    (p : Process) (r : Run) → p.run ≡ r → IsOrdered p → Every IsOrdered (consume_ended p r)
consume_ended-IsOrdered p consuming at h = only_if-Every IsOrdered p.stopped _ (λ s. record {
  run_waits = λ e. absurd cc;
  sent = λ d. absurd (ground (arith, h.sent));
  kept = λ e. absurd cc;
  taken = λ k. absurd (ground (arith, h.taken));
  ended = λ k. s;
})
consume_ended-IsOrdered p awaiting at h = tt
consume_ended-IsOrdered p over at h = tt

run_ended-IsOrdered :
    (p : Process) (r : Run) → p.run ≡ r → IsOrdered p → Every IsOrdered (run_ended p r)
run_ended-IsOrdered p consuming at h = tt
run_ended-IsOrdered p awaiting at h = only_if-Every IsOrdered (not p.replaying) _ (λ y. record {
  run_waits = λ e. ground arith;
  sent = λ d. refl;
  kept = λ e d. absurd cc;
  taken = λ k. refl;
  ended = λ k. h.ended k;
})
run_ended-IsOrdered p over at h = tt

select_worker-IsOrdered :
    (p : Process) (m : Main)
    → p.main ≡ m
    → IsOrdered p
    → Every IsOrdered (selected p select_worker m)
select_worker-IsOrdered p selecting at h = only_if-Every IsOrdered p.worker_done _ (λ d. record {
  run_waits = h.run_waits;
  sent = λ d. absurd cc;
  kept = λ e d. refl;
  taken = λ k. h.sent d;
  ended = λ k. refl;
})
select_worker-IsOrdered p (shutting_down b) at h = tt
select_worker-IsOrdered p waiting at h = tt
select_worker-IsOrdered p closing at h = tt
select_worker-IsOrdered p returned at h = tt

-- A case of the select that leaves the worker's result where it is.
moved-IsOrdered :
    (p : Process) (stopped server_done : Bool) (m : Main)
    → has_result m ≡ has_result p.main
    → stopped ≡ true
    → IsOrdered p
    → IsOrdered (record p { stopped = stopped; server_done = server_done; main = m })
moved-IsOrdered p stopped server_done m same s h = record {
  run_waits = h.run_waits;
  sent = h.sent;
  kept = λ e d. rw same (h.kept e d);
  taken = λ k. h.taken (rw (← same) k);
  ended = λ k. s;
}

select_context-IsOrdered :
    (p : Process) (m : Main)
    → p.main ≡ m
    → IsOrdered p
    → Every IsOrdered (selected p select_context m)
select_context-IsOrdered p selecting at h =
    only_if-Every IsOrdered p.stopped _
      (λ s. moved-IsOrdered p p.stopped p.server_done (shutting_down false) (rw at refl) s h)
select_context-IsOrdered p (shutting_down b) at h = tt
select_context-IsOrdered p waiting at h = tt
select_context-IsOrdered p closing at h = tt
select_context-IsOrdered p returned at h = tt

select_server-IsOrdered :
    (p : Process) (m : Main)
    → p.main ≡ m
    → IsOrdered p
    → Every IsOrdered (selected p select_server m)
select_server-IsOrdered p selecting at h =
    only_if-Every IsOrdered p.server_done _
      (λ s. moved-IsOrdered p true false (shutting_down false) (rw at refl) refl h)
select_server-IsOrdered p (shutting_down b) at h = tt
select_server-IsOrdered p waiting at h = tt
select_server-IsOrdered p closing at h = tt
select_server-IsOrdered p returned at h = tt

shut-IsOrdered : (p : Process) (m : Main) → p.main ≡ m → IsOrdered p → Every IsOrdered (shut p m)
shut-IsOrdered p (shutting_down true) at h =
    moved-IsOrdered p p.stopped p.server_done closing (rw at refl) (h.ended (rw at refl)) h
shut-IsOrdered p (shutting_down false) at h =
    moved-IsOrdered p p.stopped p.server_done waiting (rw at refl) (h.ended (rw at refl)) h
shut-IsOrdered p selecting at h = tt
shut-IsOrdered p waiting at h = tt
shut-IsOrdered p closing at h = tt
shut-IsOrdered p returned at h = tt

received-IsOrdered :
    (p : Process) (m : Main) → p.main ≡ m → IsOrdered p → Every IsOrdered (received p m)
received-IsOrdered p waiting at h = only_if-Every IsOrdered p.worker_done _ (λ d. record {
  run_waits = h.run_waits;
  sent = λ d. absurd cc;
  kept = λ e d. refl;
  taken = λ k. h.sent d;
  ended = λ k. h.ended (rw at refl);
})
received-IsOrdered p selecting at h = tt
received-IsOrdered p (shutting_down b) at h = tt
received-IsOrdered p closing at h = tt
received-IsOrdered p returned at h = tt

closed-IsOrdered :
    (p : Process) (m : Main) → p.main ≡ m → IsOrdered p → Every IsOrdered (closed p m)
closed-IsOrdered p closing at h =
    moved-IsOrdered p p.stopped p.server_done returned (rw at refl) (h.ended (rw at refl)) h
closed-IsOrdered p selecting at h = tt
closed-IsOrdered p (shutting_down b) at h = tt
closed-IsOrdered p waiting at h = tt
closed-IsOrdered p returned at h = tt

pub step-IsOrdered : (a : Action) (p : Process) → IsOrdered p → Every IsOrdered (step a p)
unfolding step
step-IsOrdered signal p h = only_if-Every IsOrdered (not p.stopped) _ (λ s. record {
  run_waits = h.run_waits;
  sent = h.sent;
  kept = h.kept;
  taken = h.taken;
  ended = λ k. refl;
})
step-IsOrdered consume_returns p h = consume_ended-IsOrdered p p.run refl h
step-IsOrdered replay_returns p h = only_if-Every IsOrdered (p.replaying && p.stopped) _ (λ s.
    record {
      run_waits = λ e. refl;
      sent = h.sent;
      kept = h.kept;
      taken = h.taken;
      ended = h.ended;
    })
step-IsOrdered run_returns p h = run_ended-IsOrdered p p.run refl h
step-IsOrdered server_returns p h = only_if-Every IsOrdered p.serving _ (λ s. record {
  run_waits = h.run_waits;
  sent = h.sent;
  kept = h.kept;
  taken = h.taken;
  ended = h.ended;
})
step-IsOrdered select_context p h = select_context-IsOrdered p p.main refl h
step-IsOrdered select_worker p h = select_worker-IsOrdered p p.main refl h
step-IsOrdered select_server p h = select_server-IsOrdered p p.main refl h
step-IsOrdered shut_down p h = shut-IsOrdered p p.main refl h
step-IsOrdered receive_worker p h = received-IsOrdered p p.main refl h
step-IsOrdered close p h = closed-IsOrdered p p.main refl h
