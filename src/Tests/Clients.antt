-- ===== src/Tests/Clients.antt =====
-- Two clients of the generator that post one batch each, their operations on the counters interleaved.
use log_service.Prelude.{ℕ, ◌≡◌, refl, List, [], ◌∷◌, some}
use log_service.Prelude.Int.{pos}
use log_service.Generator.{Stats, attempts, make_records, send_batch}
use log_service.Generator.Pace.{Client, interval_of, send_one, turn, run_client}
use log_service.Generator.Clients.{
  Update, generated, sent, accepted, took, apply_all, done, left, right, Runs, nobody, another,
  client_ids, report, no_stats, run_each, AllDo, nobody_does, another_does,
}
use log_service.Generator.Clients.Order.{clients-report}
use log_service.Tests.Generating.{zeros, format_stamp}
use log_service.Tests.Pacing.{target, timer, plan}

client_ids_test : client_ids (pos 0) ≡ 1 ∷ []
unfolding client_ids
client_ids_test = refl

-- A client that starts so many nanoseconds after the start
abbrev client_at : ℕ → Client ℕ (Unit {0})
client_at n = record { world = n; rng = tt; stats = no_stats }

abbrev clients : List (Client ℕ (Unit {0}))
clients = client_at 20_000_000 ∷ client_at 20_000_500 ∷ []

abbrev posted : List Update
posted = generated 1 ∷ took 1000 ∷ sent 1 ∷ accepted (pos 1) ∷ []

clients-AllDo : AllDo target timer zeros format_stamp plan 2 clients (posted ∷ posted ∷ [])
unfolding run_client turn send_one send_batch attempts apply_all interval_of make_records
clients-AllDo =
    another_does (30_000_000, tt, λ t. refl) (another_does (30_000_500, tt, λ t. refl) nobody_does)

-- The second client counts its records before the first has its answer.
abbrev interleaved : List Update
interleaved =
    generated 1
    ∷ generated 1
    ∷ took 1000
    ∷ took 1000
    ∷ sent 1
    ∷ accepted (pos 1)
    ∷ sent 1
    ∷ accepted (pos 1)
    ∷ []

interleaved-Runs : Runs (posted ∷ posted ∷ []) interleaved
interleaved-Runs =
    another (left (right (left (right (right (right (left (left done))))))))
      (another (left (left (left (left done)))) nobody)

clients-report_example :
    (t : Stats) × (run_each target timer zeros format_stamp plan 2 clients no_stats ≡ some t)
    × (report (λ n. pos n) (apply_all interleaved no_stats) ≡ report (λ n. pos n) t)
clients-report_example =
    clients-report target timer zeros format_stamp plan (λ n. pos n) 2 clients
      (posted ∷ posted ∷ []) interleaved clients-AllDo interleaved-Runs
