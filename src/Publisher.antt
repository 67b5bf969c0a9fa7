-- ===== src/Publisher.antt =====
-- The interface `Publisher` of internal/ingestion/handler.go and internal/spool/replayer.go: where
-- batches go, over the states `S` of what stands behind it. A publisher's error is its text.
use log_service.Prelude.{List, ◌++◌, ◌≡◌, Result, ok}
use log_service.Prelude.Clock.{Context}
use log_service.Prelude.Text.{Text}
use log_service.LogEvent.{Event}

pub record Publisher (S : Type 0) : Type 0 where
  pub publish : Context → List Event → S → Result Text (Unit {0}) × S

-- A publisher over a log: success appends the batch; a failure may have appended a part of it.
pub record IsLog {S : Type 0} (p : Publisher S) (log : S → List Event) : Type 0 where
  pub appends :
      (ctx : Context) (events : List Event) (s : S)
      → (p.publish ctx events s).0 ≡ ok tt
      → log (p.publish ctx events s).1 ≡ log s ++ events
  pub extends :
      (ctx : Context) (events : List Event) (s : S)
      → (more : List Event) × (log (p.publish ctx events s).1 ≡ log s ++ more)
