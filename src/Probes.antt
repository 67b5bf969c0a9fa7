-- ===== src/Probes.antt =====
-- The checks of dependencies and the endpoints that report them: `Ping` of internal/kafka/producer.go and of
-- internal/storage/elasticsearch.go, `Ready` of internal/worker/service.go, internal/metrics/http.go, and the
-- routes of cmd/log-api/main.go and cmd/log-worker/main.go. A mux finds a handler by the whole path.
pub mod Ready
use log_service.Prelude.{ℕ, ◌*◌, Bool, List, [], ◌∷◌, ◌++◌, Result, ok, err, leb, if◌then◌else◌}
use log_service.Prelude.Clock.{Time, Context, second, with_timeout}
use log_service.Prelude.Text.{Text, codes, text_eq}
use log_service.Kafka.{split_brokers}
use log_service.Metrics.{Counters}
use log_service.Metrics.Snapshot.{Snapshot, snapshot}
use log_service.Worker.Stats.{Stats}

-- A TCP connection that is opened and closed, a GET request that gives a status and its text, and the
-- clock.
pub record Network (S : Type 0) : Type 0 where
  pub now : S → Time
  pub dial : Context → Text → S → Result Text (Unit {0}) × S
  pub get : Context → Text → S → Result Text (ℕ × Text) × S

pub data Answer : Type 0 where
  fields : List (Text × Text) → Answer
  plain : Text → Answer
  counters : Snapshot → Answer
  stats : Stats → Answer

pub record Response : Type 0 where
  pub status : ℕ
  pub headers : List (Text × Text)
  pub body : Answer

-- writeJSON
abbrev pub write_json : ℕ → Answer → Response
write_json status body = record {
  status = status;
  headers = (codes "Content-Type", codes "application/json") ∷ [];
  body = body;
}

abbrev pub alive : Text → Response
alive service =
    write_json 200 (fields ((codes "status", codes "ok") ∷ (codes "service", service) ∷ []))

-- metrics.Handler
unfoldable pub metrics_handler : Text → Counters → Response
unfolding snapshot
metrics_handler method c =
    if text_eq method (codes "GET") then write_json 200 (counters (snapshot c)) else record {
      status = 405;
      headers =
          (codes "Allow", codes "GET")
          ∷ (codes "Content-Type", codes "text/plain; charset=utf-8")
          ∷ [];
      body = plain (codes "method not allowed");
    }

module _ {S : Type 0} (net : Network S) where
  abbrev pub dial_first : Context → List Text → S → Result Text (Unit {0}) × S
  dial_first ctx [] s = (err (codes "no kafka brokers configured"), s)
  dial_first ctx (broker ∷ _) s = net.dial ctx broker s

  -- Producer.Ping, with what NewProducer makes of the brokers
  unfoldable pub ping_kafka : Context → Text → S → Result Text (Unit {0}) × S
  unfolding split_brokers
  ping_kafka ctx brokers s = dial_first ctx (split_brokers brokers) s

  abbrev pub healthy : Result Text (ℕ × Text) × S → Result Text (Unit {0}) × S
  healthy (err e, s) = (err e, s)
  healthy (ok (status, text), s) =
      if leb 500 status then (err (codes "elasticsearch returned " ++ text), s) else (ok tt, s)

  -- Elasticsearch.Ping
  unfoldable pub ping_elasticsearch : Context → Text → S → Result Text (Unit {0}) × S
  ping_elasticsearch ctx base s = healthy (net.get ctx (base ++ codes "/_cluster/health") s)

  abbrev pub then_kafka : Context → Text → Result Text (Unit {0}) × S → Result Text (Unit {0}) × S
  then_kafka ctx brokers (err e, s) = (err e, s)
  then_kafka ctx brokers (ok _, s) = dial_first ctx (split_brokers brokers) s

  -- Service.Ready
  unfoldable pub ready : Context → Text → Text → S → Result Text (Unit {0}) × S
  unfolding ping_elasticsearch split_brokers
  ready ctx base brokers s = then_kafka ctx brokers (ping_elasticsearch ctx base s)

  abbrev pub within : Context → S → Context
  within ctx s = with_timeout ctx (net.now s).instant (2 * second)

  abbrev pub worker_ready : Result Text (Unit {0}) × S → Response × S
  worker_ready (err e, s) =
      (write_json 503 (fields ((codes "status", codes "unready") ∷ (codes "error", e) ∷ [])), s)
  worker_ready (ok _, s) = (alive (codes "log-worker"), s)

  -- The routes of the worker, with the answer to an unknown path
  unfoldable pub serve_worker : Context → Text → Text → Stats → Response → Text → S → Response × S
  unfolding ready
  serve_worker ctx base brokers t not_found path s =
      if text_eq path (codes "/healthz")
      then (alive (codes "log-worker"), s)
      else if text_eq path (codes "/readyz")
      then worker_ready (ready (within ctx s) base brokers s)
      else if text_eq path (codes "/stats")
      then (write_json 200 (stats t), s)
      else (not_found, s)

  abbrev pub api_ready : Result Text (Unit {0}) × S → Response × S
  api_ready (err e, s) = (
    write_json 503 (
        fields (
          (codes "status", codes "unready")
          ∷ (codes "dependency", codes "kafka")
          ∷ (codes "error", e)
          ∷ [])),
    s,
  )
  api_ready (ok _, s) = (alive (codes "log-api"), s)

  -- The routes of the log API but for `/v1/logs`, which is the ingestion handler's
  unfoldable pub serve_api : Context → Text → Counters → Response → Text → Text → S → Response × S
  unfolding ping_kafka metrics_handler
  serve_api ctx brokers c not_found method path s =
      if text_eq path (codes "/healthz")
      then (alive (codes "log-api"), s)
      else if text_eq path (codes "/readyz")
      then api_ready (ping_kafka (within ctx s) brokers s)
      else if text_eq path (codes "/stats")
      then (metrics_handler method c, s)
      else (not_found, s)
