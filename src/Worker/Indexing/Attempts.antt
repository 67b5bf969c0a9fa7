-- ===== src/Worker/Indexing/Attempts.antt =====
-- How often the worker asks Elasticsearch to index a batch (internal/worker/service.go).
use log_service.Prelude.{ℕ, ◌+◌, ◌≡◌, List}
use log_service.Prelude.Clock.{Context}
use log_service.Prelude.Int.{ℤ}
use log_service.Prelude.Text.{Text}
use log_service.LogEvent.{Event}
use log_service.Worker.Indexing.{DlqMessage, Service, Worker, send_dlq}

-- A count of the bulk requests, which nothing else changes.
pub record Counts {S : Type 0} (svc : Service S) (ctx : Context) (calls : S → ℕ) : Type 0 where
  pub bulk_counts :
      (events : List Event) (s : S) → calls (svc.bulk_index ctx events s).1 ≡ calls s + 1
  pub dlq_counts : (m : DlqMessage) (s : S) → calls (send_dlq svc ctx m s).1 ≡ calls s
  pub replay_counts : (events : List Event) (s : S) → calls (svc.write_replay events s).1 ≡ calls s
  pub wait_counts : (t : ℤ) (s : S) → calls (svc.wait ctx t s).1 ≡ calls s
