-- ===== src/Worker/Settings.antt =====
-- The worker's settings: `Config`, the corrections of `NewService`, its options for Kafka's reader and writer, and
-- `splitBrokers` of internal/worker/service.go; what cmd/log-worker/main.go makes of the environment's.
pub mod Sane
use log_service.Prelude.{ℕ, ◌*◌, Bool, true, false, List, [], ◌∷◌, if◌then◌else◌}
use log_service.Prelude.Clock.{second}
use log_service.Prelude.Int.{ℤ, pos, is_positive, ltb_ℤ}
use log_service.Prelude.Text.{Text, codes, is_empty, trim_space, split}
use log_service.Config

pub record ServiceConfig : Type 0 where
  pub brokers : Text
  pub log_topic : Text
  pub dlq_topic : Text
  pub consumer_group : Text
  pub bulk_size : ℤ
  pub flush_interval : ℤ
  pub retry_max : ℤ
  pub replay_dir : Text
  pub replay_interval : ℤ
  pub worker_id : Text

-- What main passes to NewService, with `filepath.Join` and the variable HOSTNAME
unfoldable pub service_config : (Text → Text → Text) → Text → Config.Config → ServiceConfig
service_config join hostname cfg = record {
  brokers = cfg.kafka_brokers;
  log_topic = cfg.kafka_log_topic;
  dlq_topic = cfg.kafka_dlq_topic;
  consumer_group = cfg.kafka_consumer_group;
  bulk_size = cfg.worker_bulk_size;
  flush_interval = cfg.worker_flush_interval;
  retry_max = cfg.worker_retry_max;
  replay_dir = join cfg.spool_dir (codes "worker-replay");
  replay_interval = cfg.spool_replay_interval;
  worker_id = hostname;
}

abbrev pub positive_or : ℤ → ℤ → ℤ
positive_or n fallback = if is_positive n then n else fallback

-- The corrections of NewService, with what `os.Hostname` gives
unfoldable pub corrected : Text → ServiceConfig → ServiceConfig
corrected hostname cfg = record cfg {
  bulk_size = positive_or cfg.bulk_size (pos 1000);
  flush_interval = positive_or cfg.flush_interval (pos (2 * second));
  retry_max = if ltb_ℤ cfg.retry_max (pos 0) then pos 0 else cfg.retry_max;
  replay_interval = positive_or cfg.replay_interval (pos (2 * second));
  worker_id = if is_empty cfg.worker_id then hostname else cfg.worker_id;
}

-- The part of splitBrokers after `strings.Split`.
unfoldable pub keep_parts : List Text → List Text
keep_parts [] = []
keep_parts (part ∷ parts) =
    let out = keep_parts parts in if is_empty (trim_space part) then out else trim_space part ∷ out

unfoldable pub split_brokers : Text → List Text
unfolding keep_parts
split_brokers value = keep_parts (split b',' value)

-- `segmentio.ReaderConfig`, as far as NewService sets it
pub record ReaderConfig : Type 0 where
  pub brokers : List Text
  pub topic : Text
  pub group_id : Text
  pub min_bytes : ℕ
  pub max_bytes : ℕ
  pub commit_interval : ℕ

-- The writer of the dead letter queue: a message's partition is the hash of its key, and its writing waits for
-- all replicas.
pub record WriterConfig : Type 0 where
  pub addresses : List Text
  pub topic : Text
  pub by_hash : Bool
  pub require_all : Bool
  pub async : Bool

-- The reader commits at once, since its interval is zero.
abbrev pub reader_config : ServiceConfig → ReaderConfig
reader_config cfg = record {
  brokers = split_brokers cfg.brokers;
  topic = cfg.log_topic;
  group_id = cfg.consumer_group;
  min_bytes = 1;
  max_bytes = 10_000_000;
  commit_interval = 0;
}

abbrev pub dlq_config : ServiceConfig → WriterConfig
dlq_config cfg = record {
  addresses = split_brokers cfg.brokers;
  topic = cfg.dlq_topic;
  by_hash = true;
  require_all = true;
  async = false;
}
