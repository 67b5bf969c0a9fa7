-- ===== src/Config.antt =====
-- internal/config/config.go: the settings, from environment variables with defaults. `os.Getenv` (the
-- empty text for a variable that is not set) and `time.ParseDuration` (in nanoseconds) are parameters.
use log_service.Prelude.{◌*◌, Option, none, some, if◌then◌else◌}
use log_service.Prelude.Clock.{second}
use log_service.Prelude.Int.{ℤ, pos}
use log_service.Prelude.Text.{Text, codes, is_empty, atoi}

pub record Config : Type 0 where
  pub app_port : Text
  pub worker_port : Text
  pub dashboard_api_port : Text
  pub dashboard_ui_port : Text
  pub max_in_flight_requests : ℤ
  pub log_api_url : Text
  pub worker_api_url : Text
  pub kafka_brokers : Text
  pub kafka_log_topic : Text
  pub kafka_retry_topic : Text
  pub kafka_dlq_topic : Text
  pub kafka_consumer_group : Text
  pub elasticsearch_url : Text
  pub max_batch_size : ℤ
  pub max_body_bytes : ℤ
  pub request_timeout : ℤ
  pub worker_bulk_size : ℤ
  pub worker_flush_interval : ℤ
  pub worker_retry_max : ℤ
  pub spool_dir : Text
  pub spool_max_bytes : ℤ
  pub spool_replay_interval : ℤ
  pub realtime_stream_buffer : ℤ

abbrev pub parsed_or : Option ℤ → ℤ → ℤ
parsed_or none fallback = fallback
parsed_or (some n) fallback = n

module _ (getenv : Text → Text) where
  unfoldable pub get_string : Text → Text → Text
  get_string key fallback = if is_empty (getenv key) then fallback else getenv key

  unfoldable pub get_int : Text → ℤ → ℤ
  get_int key fallback =
      if is_empty (getenv key) then fallback else parsed_or (atoi (getenv key)) fallback

  unfoldable pub get_int64 : Text → ℤ → ℤ
  get_int64 key fallback =
      if is_empty (getenv key) then fallback else parsed_or (atoi (getenv key)) fallback

  module _ (parse_duration : Text → Option ℤ) where
    unfoldable pub get_duration : Text → ℤ → ℤ
    get_duration key fallback =
        if is_empty (getenv key) then fallback else parsed_or (parse_duration (getenv key)) fallback

    unfoldable pub load : Config
    unfolding get_string get_int get_int64 get_duration
    load = record {
      app_port = get_string (codes "APP_PORT") (codes "8080");
      worker_port = get_string (codes "WORKER_PORT") (codes "8081");
      dashboard_api_port = get_string (codes "DASHBOARD_API_PORT") (codes "8082");
      dashboard_ui_port = get_string (codes "DASHBOARD_UI_PORT") (codes "3000");
      max_in_flight_requests = get_int (codes "MAX_IN_FLIGHT_REQUESTS") (pos 256);
      log_api_url = get_string (codes "LOG_API_URL") (codes "http://localhost:8080");
      worker_api_url = get_string (codes "WORKER_API_URL") (codes "http://localhost:8081");
      kafka_brokers = get_string (codes "KAFKA_BROKERS") (codes "localhost:29092");
      kafka_log_topic = get_string (codes "KAFKA_LOG_TOPIC") (codes "logs.raw");
      kafka_retry_topic = get_string (codes "KAFKA_RETRY_TOPIC") (codes "logs.retry");
      kafka_dlq_topic = get_string (codes "KAFKA_DLQ_TOPIC") (codes "logs.dlq");
      kafka_consumer_group = get_string (codes "KAFKA_CONSUMER_GROUP") (codes "log-workers");
      elasticsearch_url = get_string (codes "ELASTICSEARCH_URL") (codes "http://localhost:9200");
      max_batch_size = get_int (codes "MAX_BATCH_SIZE") (pos 1000);
      max_body_bytes = get_int64 (codes "MAX_BODY_BYTES") (pos 1048576);
      request_timeout = get_duration (codes "REQUEST_TIMEOUT") (pos (5 * second));
      worker_bulk_size = get_int (codes "WORKER_BULK_SIZE") (pos 1000);
      worker_flush_interval = get_duration (codes "WORKER_FLUSH_INTERVAL") (pos (2 * second));
      worker_retry_max = get_int (codes "WORKER_RETRY_MAX") (pos 5);
      spool_dir = get_string (codes "SPOOL_DIR") (codes "/tmp/log-service-spool");
      spool_max_bytes = get_int64 (codes "SPOOL_MAX_BYTES") (pos 1073741824);
      spool_replay_interval = get_duration (codes "SPOOL_REPLAY_INTERVAL") (pos (2 * second));
      realtime_stream_buffer = get_int (codes "REALTIME_STREAM_BUFFER") (pos 1000);
    }
