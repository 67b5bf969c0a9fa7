-- ===== src/Generator/Clients.antt =====
-- The clients of cmd/log-generator/main.go share one set of counters: `main` starts them, waits for all, and prints
-- what the counters hold. An operation on the counters is atomic, so that the clients' operations come in some order.
-- Beside them each client has a world and a random source of its own.
pub mod Counted
pub mod Latencies
pub mod Alike
pub mod Turns
pub mod Order
use log_service.Prelude.{ℕ, zero, suc, ◌+◌, ◌≡◌, List, [], ◌∷◌, ◌++◌, Option, some, none}
use log_service.Prelude.Clock.{Time}
use log_service.Prelude.Text.{Text}
use log_service.Prelude.Int.{ℤ, pos, pos_part, add64, int64_of}
use log_service.Generator.{Stats, Target, at_least_one, summary}
use log_service.Generator.Pace.{Timer, Plan, Client, run_client}

-- What a client does to the counters: an `Add` of an `atomic.Int64`, or `observeLatency` under its lock.
pub data Update : Type 0 where
  generated sent : ℕ → Update
  accepted : ℤ → Update
  failed retried : Update
  took : ℕ → Update

unfoldable pub apply : Update → Stats → Stats
apply (generated n) t = record t { generated = add64 t.generated (int64_of (pos n)) }
apply (sent n) t = record t { sent = add64 t.sent (int64_of (pos n)) }
apply (accepted n) t = record t { accepted = add64 t.accepted (int64_of n) }
apply failed t = record t { failed_requests = add64 t.failed_requests 1 }
apply retried t = record t { retries = add64 t.retries 1 }
apply (took n) t = record t { latencies = t.latencies ++ (n ∷ []) }

unfoldable pub apply_all : List Update → Stats → Stats
unfolding apply
apply_all [] t = t
apply_all (u ∷ us) t = apply_all us (apply u t)

-- Two goroutines' operations in some order, each one's own order kept
pub data Merge : List Update → List Update → List Update → Type 0 where
  done : Merge [] [] []
  left : {u : Update} {us vs ws : List Update} → Merge us vs ws → Merge (u ∷ us) vs (u ∷ ws)
  right : {v : Update} {us vs ws : List Update} → Merge us vs ws → Merge us (v ∷ vs) (v ∷ ws)

-- The clients' operations in some order, by the time that `wg.Wait` returns
pub data Runs : List (List Update) → List Update → Type 0 where
  nobody : Runs [] []
  another :
      {us vs ws : List Update} {clients : List (List Update)}
      → Merge us vs ws
      → Runs clients vs
      → Runs (us ∷ clients) ws

-- The numbers that `main` prints, but for the rate
pub record Report : Type 0 where
  pub generated_records : ℕ
  pub sent_records : ℕ
  pub accepted_records : ℕ
  pub failed_requests : ℕ
  pub retries : ℕ
  pub average_latency : ℕ
  pub p95_latency : ℕ

abbrev pub printed : Stats → ℕ × ℕ → Report
printed t (average, p95) = record {
  generated_records = t.generated;
  sent_records = t.sent;
  accepted_records = t.accepted;
  failed_requests = t.failed_requests;
  retries = t.retries;
  average_latency = average;
  p95_latency = p95;
}

unfoldable pub report : (ℕ → ℤ) → Stats → Report
unfolding summary
report scaled t = printed t (summary scaled t.latencies)

abbrev pub no_stats : Stats
no_stats = record {
  generated = 0;
  sent = 0;
  accepted = 0;
  failed_requests = 0;
  retries = 0;
  latencies = [];
}

-- The ids of the clients that `main` starts, which name the source of what they post
unfoldable pub ids_from : ℕ → ℕ → List ℕ
ids_from i zero = []
ids_from i (suc n) = (i + 1) ∷ ids_from (i + 1) n

unfoldable pub client_ids : ℤ → List ℕ
unfolding at_least_one ids_from
client_ids clients = ids_from 0 (pos_part (at_least_one clients))

-- The counters if each client ran when the one before it had ended
unfoldable pub in_turn : List (List Update) → Stats → Stats
unfolding apply_all
in_turn [] t = t
in_turn (us ∷ clients) t = in_turn clients (apply_all us t)

module _ {S R : Type 0} (target : Target S) (timer : Timer S) (intn : ℕ → R → ℕ × R)
    (format : Time → Text) (plan : Plan) where
  abbrev pub go_on : (Stats → Option Stats) → Option (Client S R) → Option Stats
  go_on go none = none
  go_on go (some d) = go d.stats

  -- The clients one after the other: each starts with the counters that the one before it left.
  unfoldable pub run_each : ℕ → List (Client S R) → Stats → Option Stats
  unfolding run_client
  run_each fuel [] t = some t
  run_each fuel (c ∷ clients) t =
      go_on (run_each fuel clients)
        (run_client target timer intn format plan fuel (record c { stats = t }))

  -- What a client does to the counters until it returns, whatever they hold
  abbrev pub Does : ℕ → Client S R → List Update → Type 0
  unfolding run_client
  Does fuel c us =
      (s : S) × (r : R) × ((t : Stats)
        → run_client target timer intn format plan fuel (record c { stats = t })
          ≡ some (record { world = s; rng = r; stats = apply_all us t }))

  pub data AllDo : ℕ → List (Client S R) → List (List Update) → Type 0 where
    nobody_does : {fuel : ℕ} → AllDo fuel [] []
    another_does :
        {fuel : ℕ} {c : Client S R} {clients : List (Client S R)} {us : List Update}
        {uss : List (List Update)}
        → Does fuel c us
        → AllDo fuel clients uss
        → AllDo fuel (c ∷ clients) (us ∷ uss)
