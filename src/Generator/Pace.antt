-- ===== src/Generator/Pace.antt =====
-- `runClient` of cmd/log-generator/main.go: a client posts batches, one by one or in bursts, at a pace. The interval
-- and the number of batches in a burst, which the code computes in floating point, are parameters.
pub mod Returns
use log_service.Prelude.{
  ℕ, zero, suc, ◌-◌, ◌*◌, Bool, true, false, List, Option, none, some, ltb, if◌then◌else◌,
}
use log_service.Prelude.Clock.{Time, second}
use log_service.Prelude.Int.{ℤ, pos, pos_part, ltb_ℤ}
use log_service.Prelude.Text.{Text}
use log_service.Generator.{Stats, Target, make_records, send_batch}

-- The clock in nanoseconds, its readings while so many lines are made, whether the context has ended, and a wait
-- that tells whether the context ended first.
pub record Timer (S : Type 0) : Type 0 where
  pub now : S → ℕ
  pub readings : ℕ → S → List Time × S
  pub is_over : S → Bool
  pub wait : ℕ → S → Bool × S

-- What a client is told, and what the floating point gives for it.
pub record Plan : Type 0 where
  pub is_burst : Bool
  pub batch_size : ℕ
  pub batch_interval : ℤ
  pub batches : ℤ

pub record Client (S R : Type 0) : Type 0 where
  pub world : S
  pub rng : R
  pub stats : Stats

abbrev pub min_interval : ℕ
min_interval = 10_000_000

-- Batches are 10 milliseconds apart at least.
unfoldable pub interval_of : ℤ → ℕ
interval_of n = if ltb_ℤ n (pos min_interval) then min_interval else pos_part n

unfoldable pub burst_of : ℤ → ℕ
burst_of n = if ltb_ℤ n (pos 1) then 1 else pos_part n

module _ {S R : Type 0} (target : Target S) (timer : Timer S) (intn : ℕ → R → ℕ × R)
    (format : Time → Text) (plan : Plan) where
  abbrev pub sent : Stats × S → R → Client S R
  sent (t, s) r = record { world = s; rng = r; stats = t }

  abbrev pub made : Stats → S → List Text × R → Client S R
  made t s (records, r) = sent (send_batch target records t s) r

  abbrev pub stamped : Stats → R → List Time × S → Client S R
  stamped t r (times, s) = made t s (make_records intn format times r)

  -- sendBatch
  unfoldable pub send_one : Client S R → Client S R
  send_one c = stamped c.stats c.rng (timer.readings plan.batch_size c.world)

  unfoldable pub send_burst : ℕ → Client S R → Client S R
  unfolding send_one
  send_burst zero c = c
  send_burst (suc n) c = send_burst n (send_one c)

  abbrev pub waited : Client S R → Bool × S → Bool × Client S R
  waited c (over, s) = (over, record c { world = s })

  -- Wait for what is left of the time since the start.
  abbrev pub rest : ℕ → ℕ → Client S R → Bool × Client S R
  rest started time c =
      if ltb (timer.now c.world - started) time
      then waited c (timer.wait (time - (timer.now c.world - started)) c.world)
      else (false, c)

  -- The body of the loop once the context was seen not to have ended: whether the client returns, and what it leaves.
  unfoldable pub turn : Client S R → Bool × Client S R
  unfolding send_burst interval_of burst_of
  turn c =
      if plan.is_burst
      then rest (timer.now c.world) second (send_burst (burst_of plan.batches) c)
      else rest (timer.now c.world) (interval_of plan.batch_interval) (send_one c)

  abbrev pub next : (Client S R → Option (Client S R)) → Bool × Client S R → Option (Client S R)
  next go (true, c) = some c
  next go (false, c) = go c

  -- The loop of runClient, on fuel
  unfoldable pub run_client : ℕ → Client S R → Option (Client S R)
  unfolding turn
  run_client zero c = none
  run_client (suc fuel) c =
      if timer.is_over c.world then some c else next (run_client fuel) (turn c)
