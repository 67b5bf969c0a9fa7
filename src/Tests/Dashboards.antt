-- ===== src/Tests/Dashboards.antt =====
-- The dashboard over an index of one record.
use log_service.Prelude.{
  ◌≡◌, refl, true, [], ◌∷◌, if◌then◌else◌, ◌-◌, ◌*◌, none, some, ok, err, All,
}
use log_service.Prelude.Clock.{minute, utc}
use log_service.Prelude.Int.{pos}
use log_service.Prelude.Text.{Text, codes, text_eq, contains, has_prefix}
use log_service.Dashboard.{Settings, LogRecord, LogsResponse}
use log_service.Dashboard.Elastic.{Elastic, logs, post, post_encoded, base_url}
use log_service.Dashboard.Collector.{Gateway}
use log_service.Dashboard.Server.{Request}
use log_service.Dashboard.Stream.{exists, key_of, ticks}
use log_service.Dashboard.Stream.Once.{Distinct, keys, asked, ticks-once}
use log_service.Tests.Samples.{now, stamp, line, source, address}
use log_service.Tests.Counting.{format}

abbrev log_record : LogRecord
log_record = record {
  timestamp = now;
  source = source;
  ip = address;
  method = codes "GET";
  path = codes "/health";
  status = pos 200;
  raw = line;
  received_at = now;
  processed_at = now;
  worker_id = [];
}

abbrev elastic : Elastic Text (Unit {0})
elastic = record {
  url = codes "http://es:9200/";
  format = format;
  parse_time = λ t. none;
  path_escape = λ t. t;
  encode = λ body. ok (codes "{}");
  decode_object = λ t. ok t;
  decode_count = λ t. ok (pos 1);
  decode_buckets = λ t. ok ((stamp, pos 1) ∷ []);
  decode_hits = λ t. ok (pos 1, log_record ∷ []);
  get =
      λ path s. (ok (record { status = 200; status_text = codes "200 OK"; body = codes "{}" }), s);
  post = λ path payload s.
      (ok (record { status = 200; status_text = codes "200 OK"; body = codes "{}" }), s);
}

abbrev settings : Settings
settings = record {
  elasticsearch_url = codes "http://es:9200/";
  kafka_brokers = codes "kafka:9092";
  kafka_log_topic = codes "logs";
  kafka_consumer = codes "workers";
  log_api_url = codes "http://api:8080";
  worker_api_url = codes "http://worker:8081";
  stream_buffer = pos 1000;
}

abbrev gateway : Gateway (Unit {0})
gateway = record {
  now = λ s. now;
  get = λ url s. (err (codes "refused"), s);
  dial = λ broker s. (ok tt, s);
  dial_kafka = λ broker s. (ok tt, s);
  read_partitions = λ topic s. (ok ((codes "logs", 0) ∷ []), s);
  read_offsets = λ broker topic id s. (some (3, 8), s);
}

abbrev request : Request
request = record {
  method = codes "GET";
  path = codes "/api/logs";
  query = λ key. if text_eq key (codes "limit") then codes "9999" ∷ [] else [];
}

abbrev page : LogsResponse
page = record {
  from = record now { instant = now.instant - 10 * minute; zone = pos 0 };
  to = record now { zone = pos 0 };
  limit = pos 25;
  total = pos 1;
  logs = log_record ∷ [];
}

asked-page :
    (asked elastic format
      (λ x. true)
      (λ s. now)
      (λ x. refl)
      (ticks elastic format (λ x. true) (λ s. now) 0 tt)).0
    ≡ ok page
unfolding ticks logs post post_encoded base_url contains has_prefix utc
asked-page = refl

ticks-once_example :
    Distinct (
      keys elastic format
        (λ x. true)
        (λ s. now)
        (λ x. refl)
        (ticks elastic format (λ x. true) (λ s. now) 1 tt).sent)
    × All
        (λ r.
          exists (key_of elastic format (λ x. true) (λ s. now) r) (
            keys elastic format
              (λ x. true)
              (λ s. now)
              (λ x. refl)
              (ticks elastic format (λ x. true) (λ s. now) 1 tt).sent)
          ≡ true)
        page.logs
ticks-once_example =
    ticks-once elastic format (λ x. true) (λ s. now) (λ x. refl) 0 tt page asked-page
