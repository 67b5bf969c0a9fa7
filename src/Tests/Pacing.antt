-- ===== src/Tests/Pacing.antt =====
-- A client of the generator that posts one batch every ten milliseconds, for 25 of them, and a process of the log API
-- from its start to its end.
use log_service.Prelude.{ℕ, ◌+◌, ◌≡◌, refl, true, false, List, [], ◌∷◌, some, leb, arith}
use log_service.Prelude.Int.{pos}
use log_service.Prelude.Text.{codes}
use log_service.Generator.{Target, answered}
use log_service.Generator.Pace.{Timer, Plan, Client, run_client}
use log_service.Generator.Pace.Returns.{IsClock, run_client-returns}
use log_service.Api.Process.{
  returned, Process, Action, signal, arrive, answer, replayer_returns, wake, shut_down, close,
  start, step, steps,
}
use log_service.Api.Process.Idle.{steps-idle}
use log_service.Tests.Samples.{now}
use log_service.Tests.Generating.{zeros, format_stamp, fresh}

-- The world is the clock; an answer takes a microsecond.
abbrev pub target : Target ℕ
target = record {
  encode = λ records. some (codes "{}");
  send = λ payload n. (some (answered 202 (pos 1) 1000), n + 1000);
  sleep = λ t n. n + t;
}

abbrev deadline : ℕ
deadline = 25_000_000

abbrev pub timer : Timer ℕ
timer = record {
  now = λ n. n;
  readings = λ k n. (now ∷ [], n);
  is_over = λ n. leb deadline n;
  wait = λ t n. (false, n + t);
}

timer-IsClock : IsClock target timer deadline
timer-IsClock = record {
  send_later = λ payload n. omega arith;
  sleep_later = λ t n. omega arith;
  readings_later = λ k n. omega arith;
  wait_lasts = λ t n h. omega arith;
  ends = λ n h. ground arith;
}

abbrev pub plan : Plan
plan = record { is_burst = false; batch_size = 1; batch_interval = pos 500_000; batches = pos 1 }

abbrev client : Client ℕ (Unit {0})
client = record { world = 0; rng = tt; stats = fresh }

run_client-returns_example :
    (d : Client ℕ (Unit {0})) × (run_client target timer zeros format_stamp plan 4 client ≡ some d)
run_client-returns_example =
    run_client-returns target timer deadline timer-IsClock zeros format_stamp plan 3 client
      (omega arith)

-- A request that is still served when the signal comes
abbrev actions : List Action
actions = arrive ∷ signal ∷ wake ∷ answer ∷ shut_down ∷ replayer_returns ∷ close ∷ []

abbrev ended : Process
ended = record {
  stopped = true;
  listening = false;
  requests = 0;
  replaying = false;
  main = returned;
}

steps-ended : steps actions start ≡ some ended
unfolding steps step
steps-ended = refl

steps-idle_example : (ended.stopped ≡ true) × (ended.listening ≡ false) × (ended.requests ≡ 0)
steps-idle_example = steps-idle actions ended steps-ended refl
