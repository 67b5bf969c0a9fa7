-- ===== src/Dashboard/Server.antt =====
-- internal/dashboard/http.go: the routes of the dashboard and their handlers, but for the stream. Its
-- mux finds a handler by the whole path of a request.
pub mod Asks
use log_service.Prelude.{
  ℕ, Bool, List, [], ◌∷◌, Option, none, some, Result, ok, err, not, if◌then◌else◌,
}
use log_service.Prelude.Clock.{Time}
use log_service.Prelude.Int.{ℤ, pos}
use log_service.Prelude.Text.{Text, codes, text_eq}
use log_service.Dashboard.{Settings, MetricsResponse, LogsResponse}
use log_service.Dashboard.Query.{Values, get, parse_time_range, parse_limit}
use log_service.Dashboard.Elastic.{Elastic, logs}
use log_service.Dashboard.Collector.{Gateway, Overview, overview, collect_metrics}

pub record Request : Type 0 where
  pub method : Text
  pub path : Text
  pub query : Values

pub data Payload (Object : Type 0) : Type 0 where
  nothing : Payload Object
  failure : Text → Payload Object
  health_of : Text → Text → Payload Object
  overview_of : Overview Object → Payload Object
  metrics_of : MetricsResponse → Payload Object
  logs_of : LogsResponse → Payload Object

-- The status, the headers that the handlers set, and the payload.
pub record Response (Object : Type 0) : Type 0 where
  pub status : ℕ
  pub headers : List (Text × Text)
  pub payload : Payload Object

pub data Route : Type 0 where
  to_health to_overview to_metrics to_logs to_stream : Route

unfoldable pub route : Text → Option Route
route path =
    if text_eq path (codes "/healthz")
    then some to_health
    else if text_eq path (codes "/api/overview")
    then some to_overview
    else if text_eq path (codes "/api/metrics")
    then some to_metrics
    else if text_eq path (codes "/api/logs")
    then some to_logs
    else if text_eq path (codes "/api/logs/stream")
    then some to_stream
    else none

-- writeJSON
abbrev pub write_json : {Object : Type 0} → ℕ → Payload Object → Response Object
write_json status payload = record {
  status = status;
  headers = (codes "Content-Type", codes "application/json") ∷ [];
  payload = payload;
}

-- writeError
abbrev pub write_error : {Object : Type 0} → ℕ → Text → Response Object
write_error status message = write_json status (failure message)

-- methodNotAllowed
abbrev pub method_not_allowed : {Object : Type 0} → Text → Response Object
method_not_allowed allowed = record {
  status = 405;
  headers = (codes "Allow", allowed) ∷ (codes "Content-Type", codes "application/json") ∷ [];
  payload = failure (codes "method not allowed");
}

abbrev pub only_get : {A : Type 0} → Request → A → A → A
only_get r refused served = if not (text_eq r.method (codes "GET")) then refused else served

module _ {Object S : Type 0} (cfg : Settings) (net : Gateway S) (es : Elastic Object S) where
  -- health
  unfoldable pub health : Request → Response Object
  health r =
      only_get r (method_not_allowed (codes "GET"))
        (write_json 200 (health_of (codes "ok") (codes "dashboard-api")))

  -- overview
  unfoldable pub show_overview : Request → S → Response Object × S
  unfolding overview
  show_overview r s =
      only_get r (method_not_allowed (codes "GET"), s)
        (let (shown, t) = overview cfg net es s in (write_json 200 (overview_of shown), t))

  abbrev pub answered :
      {A : Type 0} → (A → Payload Object) → Result Text A × S → Response Object × S
  answered payload (err e, s) = (write_error 503 e, s)
  answered payload (ok a, s) = (write_json 200 (payload a), s)

  abbrev pub ranged :
      Result Text (Time × Time) → (Time → Time → S → Response Object × S) → S → Response Object × S
  ranged (err e) next s = (write_error 400 e, s)
  ranged (ok (from, to)) next s = next from to s

  -- metrics
  unfoldable pub show_metrics : Request → S → Response Object × S
  unfolding parse_time_range collect_metrics
  show_metrics r s =
      only_get r (method_not_allowed (codes "GET"), s)
        (ranged (parse_time_range es.parse_time r.query (net.now s))
          (λ from to t. answered metrics_of (
            collect_metrics cfg net es from to (get r.query (codes "ip"))
              (get r.query (codes "path")) t))
          s)

  -- logs
  unfoldable pub show_logs : Request → S → Response Object × S
  unfolding parse_time_range parse_limit logs
  show_logs r s =
      only_get r (method_not_allowed (codes "GET"), s)
        (ranged (parse_time_range es.parse_time r.query (net.now s))
          (λ from to t. answered logs_of (
            logs es from to (get r.query (codes "ip")) (get r.query (codes "path"))
              (get r.query (codes "status")) (parse_limit (get r.query (codes "limit")) (pos 100))
              t))
          s)

  -- The stream and the answer to an unknown path are arguments: the first never ends by itself.
  abbrev pub dispatch :
      (Request → S → Response Object × S)
      → (Request → Response Object)
      → Request
      → S
      → Option Route
      → Response Object × S
  dispatch stream not_found r s none = (not_found r, s)
  dispatch stream not_found r s (some to_health) = (health r, s)
  dispatch stream not_found r s (some to_overview) = show_overview r s
  dispatch stream not_found r s (some to_metrics) = show_metrics r s
  dispatch stream not_found r s (some to_logs) = show_logs r s
  dispatch stream not_found r s (some to_stream) = stream r s

  abbrev pub allow_origin : Response Object → Response Object
  allow_origin response = record response {
    headers =
        (codes "Access-Control-Allow-Origin", codes "*")
        ∷ (codes "Access-Control-Allow-Methods", codes "GET, OPTIONS")
        ∷ (codes "Access-Control-Allow-Headers", codes "Content-Type")
        ∷ response.headers;
  }

  -- Routes, with cors around the mux
  unfoldable pub serve :
      (Request → S → Response Object × S)
      → (Request → Response Object)
      → Request
      → S
      → Response Object × S
  unfolding health show_overview show_metrics show_logs route
  serve stream not_found r s =
      if text_eq r.method (codes "OPTIONS")
      then (allow_origin (record { status = 204; headers = []; payload = nothing }), s)
      else (let (response, t) = dispatch stream not_found r s (route r.path) in
          (allow_origin response, t))
