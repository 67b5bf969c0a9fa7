-- ===== src/Dashboard.antt =====
-- internal/dashboard: the HTTP service that reads the logs back from Elasticsearch and shows the state
-- of the system (types.go). The memory and processor figures of the runtime are left out.
pub mod Query
pub mod Elastic
pub mod Collector
pub mod Server
pub mod Stream
use log_service.Prelude.{ℕ, List}
use log_service.Prelude.Clock.{Time}
use log_service.Prelude.Int.{ℤ}
use log_service.Prelude.Text.{Text}
use log_service.Config.{Config}

-- Config
pub record Settings : Type 0 where
  pub elasticsearch_url : Text
  pub kafka_brokers : Text
  pub kafka_log_topic : Text
  pub kafka_consumer : Text
  pub log_api_url : Text
  pub worker_api_url : Text
  pub stream_buffer : ℤ

-- What main of cmd/dashboard-api/main.go passes to NewCollector
abbrev pub settings_of : Config → Settings
settings_of cfg = record {
  elasticsearch_url = cfg.elasticsearch_url;
  kafka_brokers = cfg.kafka_brokers;
  kafka_log_topic = cfg.kafka_log_topic;
  kafka_consumer = cfg.kafka_consumer_group;
  log_api_url = cfg.log_api_url;
  worker_api_url = cfg.worker_api_url;
  stream_buffer = cfg.realtime_stream_buffer;
}

pub record ServiceStatus : Type 0 where
  pub name : Text
  pub url : Text
  pub status : Text
  pub detail : Text
  pub latency : ℕ

-- A `map[string]any` that the dashboard passes on: a decoded JSON object, or its own report of an error.
pub data Fields (Object : Type 0) : Type 0 where
  given : Object → Fields Object
  unavailable : Text → Fields Object

pub record MetricsPoint : Type 0 where
  pub time_bucket : Time
  pub count : ℤ

pub record MetricsResponse : Type 0 where
  pub from : Time
  pub to : Time
  pub ip : Text
  pub path : Text
  pub points : List MetricsPoint

pub record LogRecord : Type 0 where
  pub timestamp : Time
  pub source : Text
  pub ip : Text
  pub method : Text
  pub path : Text
  pub status : ℤ
  pub raw : Text
  pub received_at : Time
  pub processed_at : Time
  pub worker_id : Text

pub record LogsResponse : Type 0 where
  pub from : Time
  pub to : Time
  pub limit : ℤ
  pub total : ℤ
  pub logs : List LogRecord
