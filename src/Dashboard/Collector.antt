-- ===== src/Dashboard/Collector.antt =====
-- internal/dashboard/stats.go: what the dashboard collects of the other services, of Kafka and of
-- Elasticsearch. The HTTP client, Kafka's connections and the clock are parameters.
use log_service.Prelude.{
  ℕ, ◌+◌, ◌-◌, ◌/◌, List, [], ◌∷◌, ◌++◌, Option, none, some, Result, ok, err, leb, if◌then◌else◌,
}
use log_service.Prelude.Clock.{Time, utc}
use log_service.Prelude.Int.{ℤ, add64}
use log_service.Prelude.Text.{Text, codes, text_eq, is_empty}
use log_service.Kafka.{split_brokers}
use log_service.Dashboard.{
  Settings, ServiceStatus, Fields, given, unavailable, MetricsResponse, MetricsPoint,
}
use log_service.Dashboard.Query.{back}
use log_service.Dashboard.Elastic.{Reply, Elastic, health, count, metrics, trim_slashes}

pub data KafkaReport : Type 0 where
  no_connection : Text → KafkaReport
  no_partitions : Text → Text → KafkaReport
  reached : Text → ℕ → ℕ → Text → KafkaReport

pub record Overview (Object : Type 0) : Type 0 where
  pub status : Text
  pub generated_at : Time
  pub services : List ServiceStatus
  pub log_api_stats : Fields Object
  pub elasticsearch : Fields Object
  pub kafka : KafkaReport
  pub recent_log_count : ℤ

-- What the collector stands on: a GET request, a connection that is opened and closed, Kafka's list of the
-- partitions of a topic, each with its topic and number, and the first and last offset that the leader
-- of a partition tells as natural numbers, if it can be reached.
pub record Gateway (S : Type 0) : Type 0 where
  pub now : S → Time
  pub get : Text → S → Result Text Reply × S
  pub dial : Text → S → Result Text (Unit {0}) × S
  pub dial_kafka : Text → S → Result Text (Unit {0}) × S
  pub read_partitions : Text → S → Result Text (List (Text × ℕ)) × S
  pub read_offsets : Text → Text → ℕ → S → Option (ℕ × ℕ) × S

-- overviewStatus
unfoldable pub overview_status : List ServiceStatus → Text
overview_status [] = codes "ok"
overview_status (service ∷ services) =
    let rest = overview_status services in
    if text_eq service.status (codes "unavailable") then codes "degraded" else rest

abbrev pub status_of : Text → Text → Text → Text → ℕ → ServiceStatus
status_of name url status detail latency = record {
  name = name;
  url = url;
  status = status;
  detail = detail;
  latency = latency;
}

module _ {Object S : Type 0} (cfg : Settings) (net : Gateway S) (es : Elastic Object S) where
  -- Whole milliseconds since a time
  abbrev pub since : Time → S → ℕ
  since started s = ((net.now s).instant - started.instant) / 1_000_000

  abbrev pub service_reply : Text → Text → Time → Result Text Reply × S → ServiceStatus × S
  service_reply name url started (err e, s) = (status_of name url (codes "unavailable") e 0, s)
  service_reply name url started (ok reply, s) = (
    status_of name url (if leb 400 reply.status then codes "degraded" else codes "ok")
        reply.status_text (since started s),
    s,
  )

  -- service
  unfoldable pub service : Text → Text → S → ServiceStatus × S
  service name url s =
      if is_empty url
      then (status_of name [] (codes "unknown") (codes "url is not configured") 0, s)
      else service_reply name url (net.now s) (net.get url s)

  abbrev pub json_reply : Result Text Reply → Fields Object
  json_reply (err e) = unavailable e
  json_reply (ok reply) =
      if leb 400 reply.status
      then unavailable reply.status_text
      else (elim (es.decode_object reply.body) [ ok object ↦ given object | err e ↦ unavailable e ])

  -- fetchJSON, of a URL that is not empty
  unfoldable pub fetch_json : Text → S → Fields Object × S
  fetch_json url s = let (r, t) = net.get url s in (json_reply r, t)

  abbrev pub dialled : Text → Time → Result Text (Unit {0}) × S → ServiceStatus × S
  dialled broker started (err e, s) =
      (status_of (codes "kafka") broker (codes "unavailable") e 0, s)
  dialled broker started (ok _, s) =
      (status_of (codes "kafka") broker (codes "ok") [] (since started s), s)

  abbrev pub kafka_status_of : List Text → S → ServiceStatus × S
  kafka_status_of [] s =
      (status_of (codes "kafka") [] (codes "unavailable") (codes "no brokers configured") 0, s)
  kafka_status_of (broker ∷ _) s = dialled broker (net.now s) (net.dial broker s)

  -- kafkaStatus
  unfoldable pub kafka_status : S → ServiceStatus × S
  unfolding split_brokers
  kafka_status s = kafka_status_of (split_brokers cfg.kafka_brokers) s

  -- How much a partition adds to the depth: `last - first` if that is positive.
  abbrev pub spread : Option (ℕ × ℕ) → ℕ
  spread none = 0
  spread (some (from, to)) = to - from

  -- The loop over the partitions: how many are of the topic, and their depth, an `int64`.
  unfoldable pub sum_partitions : Text → List (Text × ℕ) → ℕ → ℕ → S → (ℕ × ℕ) × S
  sum_partitions broker [] partitions depth s = ((partitions, depth), s)
  sum_partitions broker ((topic, id) ∷ ps) partitions depth s =
      let passed = sum_partitions broker ps partitions depth s in
      let (offsets, t) = net.read_offsets broker topic id s in
      let read = sum_partitions broker ps (partitions + 1) (add64 depth (spread offsets)) t in
      if text_eq topic cfg.kafka_log_topic then read else passed

  abbrev pub partitions_read : Text → Result Text (List (Text × ℕ)) × S → KafkaReport × S
  partitions_read broker (err e, s) = (no_partitions cfg.kafka_log_topic e, s)
  partitions_read broker (ok ps, s) =
      let ((partitions, depth), t) = sum_partitions broker ps 0 0 s in
      (reached cfg.kafka_log_topic partitions depth cfg.kafka_consumer, t)

  abbrev pub kafka_dialled : Text → Result Text (Unit {0}) × S → KafkaReport × S
  kafka_dialled broker (err e, s) = (no_connection e, s)
  kafka_dialled broker (ok _, s) =
      partitions_read broker (net.read_partitions cfg.kafka_log_topic s)

  abbrev pub kafka_overview_of : List Text → S → KafkaReport × S
  kafka_overview_of [] s = (no_connection (codes "no brokers configured"), s)
  kafka_overview_of (broker ∷ _) s = kafka_dialled broker (net.dial_kafka broker s)

  -- kafkaOverview
  unfoldable pub kafka_overview : S → KafkaReport × S
  unfolding split_brokers sum_partitions
  kafka_overview s = kafka_overview_of (split_brokers cfg.kafka_brokers) s

  -- Overview
  unfoldable pub overview : S → Overview Object × S
  unfolding service fetch_json kafka_status kafka_overview health count overview_status trim_slashes
  overview s0 =
      let at : Time = utc (net.now s0) in
      let api : Text = trim_slashes cfg.log_api_url in
      let (stats, s1) = fetch_json (api ++ codes "/stats") s0 in
      let (alive, s2) = service (codes "log-api") (api ++ codes "/healthz") s1 in
      let (ready, s3) = service (codes "log-api-readiness") (api ++ codes "/readyz") s2 in
      let (worker, s4) =
        service (codes "log-worker") (trim_slashes cfg.worker_api_url ++ codes "/healthz") s3 in
      let (kafka, s5) = kafka_status s4 in
      let services : List ServiceStatus = alive ∷ ready ∷ worker ∷ kafka ∷ [] in
      let (cluster, s6) = health es s5 in
      let (report, s7) = kafka_overview s6 in
      let (recent, s8) = count es (back 15 at) at s7 in
      (
        record {
          status = overview_status services;
          generated_at = at;
          services = services;
          log_api_stats = stats;
          elasticsearch = cluster;
          kafka = report;
          recent_log_count = recent;
        },
        s8,
      )

  abbrev pub charted :
      Time → Time → Text → Text → Result Text (List MetricsPoint) → Result Text MetricsResponse
  charted from to ip path (err e) = err e
  charted from to ip path (ok points) =
      ok (record { from = from; to = to; ip = ip; path = path; points = points })

  -- Metrics
  unfoldable pub collect_metrics : Time → Time → Text → Text → S → Result Text MetricsResponse × S
  unfolding metrics
  collect_metrics from to ip path s =
      let (r, t) = metrics es from to ip path s in (charted from to ip path r, t)
