-- ===== src/Dashboard/Server/Asks.antt =====
-- What a request for log records makes the dashboard ask of Elasticsearch (internal/dashboard/http.go).
use log_service.Prelude.{ℕ, ◌≤◌, ◌≡◌, ◌⊎◌, true}
use log_service.Prelude.Clock.{Time, before}
use log_service.Prelude.Int.{pos}
use log_service.Prelude.Text.{Text, codes}
use log_service.Dashboard.{Settings}
use log_service.Dashboard.Query.{get}
use log_service.Dashboard.Elastic.{Elastic, logs}
use log_service.Dashboard.Collector.{Gateway}
use log_service.Dashboard.Server.{Request, Response, logs_of, answered}

module _ {Object S : Type 0} (cfg : Settings) (net : Gateway S) (es : Elastic Object S) where
  -- Nothing was asked: the request is refused with 405 or 400.
  abbrev pub Refused : S → Response Object × S → Type 0
  Refused s out = ((out.0.status ≡ 405) ⊎ (out.0.status ≡ 400)) × (out.1 ≡ s)

  -- One query was made, for from 1 to 500 records between two times that are in order, and the
  -- answer is 200 with its result or 503.
  abbrev pub Asked : Request → S → Response Object × S → Type 0
  Asked r s out =
      (from : Time) × (to : Time) × (n : ℕ) × (before from to ≡ true)
      × (1 ≤ n)
      × (n ≤ 500)
      × (out
          ≡ answered cfg net es logs_of (
              logs es from to (get r.query (codes "ip")) (get r.query (codes "path"))
                (get r.query (codes "status")) (pos n) s))
