-- ===== src/Ingestion/Accounts.antt =====
-- Every request is counted once as a request and once as accepted or rejected
-- (internal/ingestion/handler.go with internal/metrics/counters.go).
use log_service.Prelude.{ℕ, ◌≡◌, ◌≢◌, ◌⊎◌, none, some, arith}
use log_service.Prelude.Int.{pos, add64, int64_of}
use log_service.Metrics
use log_service.Metrics.{Counters}
use log_service.Ingestion.Types.{Reply, HttpRequest, Handler, Server, Body, accepted, failure}
use log_service.Ingestion.{serve_http}

-- A counter of a server; 0 where the server has no counters.
abbrev pub total : {S : Type 0} → (Counters → ℕ) → Server S → ℕ
total f s = elim s.metrics [ none ↦ 0 | some c ↦ f c ]

abbrev pub requests : {S : Type 0} → Server S → ℕ
requests = total (λ c. c.requests_total)

abbrev pub batches : {S : Type 0} → Server S → ℕ
batches = total (λ c. c.batches_accepted_total)

abbrev pub rejected : {S : Type 0} → Server S → ℕ
rejected = total (λ c. c.rejected_requests_total)

abbrev pub accepted_records : {S : Type 0} → Server S → ℕ
accepted_records = total (λ c. c.accepted_records_total)

-- The records that a reply says are accepted.
abbrev pub accepted_of : Body → ℕ
accepted_of (accepted n storage degraded) = n
accepted_of (failure message) = 0

-- The counters of a server before and after a request with this reply: it is counted as an accepted
-- batch, with the records that the reply names, exactly if the reply is 202, and as rejected otherwise.
abbrev pub Tally : {S : Type 0} → Server S → Server S → Reply → Type 0
Tally s s' reply =
    ((reply.status ≡ 202)
      × (batches s' ≡ add64 (batches s) 1)
      × (accepted_records s' ≡ add64 (accepted_records s) (int64_of (pos (accepted_of reply.body))))
      × (rejected s' ≡ rejected s))
    ⊎ ((reply.status ≢ 202)
        × (batches s' ≡ batches s)
        × (accepted_records s' ≡ accepted_records s)
        × (rejected s' ≡ add64 (rejected s) 1))

module _ {S : Type 0} (h : Handler S) (c : Counters) (r : HttpRequest) (s : Server S) where
  -- On a server with counters, every request adds one to the requests. If its reply is 202 it adds one
  -- to the accepted batches and the records that the reply names to the accepted records; if not, it
  -- adds one to the rejected requests. It adds to no other of these counters.
  pub serve_http-Tally :
      s.metrics ≡ some c
      → (requests (serve_http h r s).1 ≡ add64 (requests s) 1)
        × Tally s (serve_http h r s).1 (serve_http h r s).0
  unfolding serve_http Metrics.observe_request Metrics.observe_spool_state Metrics.observe_rejected
      Metrics.observe_accepted Metrics.observe_kafka_publish_error Metrics.observe_spool_write_error
  serve_http-Tally m = ground arith
