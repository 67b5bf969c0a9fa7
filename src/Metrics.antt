-- ===== src/Metrics.antt =====
-- internal/metrics/counters.go: the log API's counters. An `int64` counter is its 64-bit pattern, so
-- additions wrap. The map of dimension counters is an association list in its iteration order.
-- The mutexes and atomics make each method one step; what they guard is the record below.
-- Runtime probes (memory, goroutines, CPU, uptime) are read from the system and are left out.
pub mod Totals
pub mod Snapshot
use log_service.Prelude.{ℕ, ◌^◌, Bool, List, [], ◌∷◌, length, ◌&&◌, ltb, ◌==◌, if◌then◌else◌}
use log_service.Prelude.Clock.{Time, is_zero, utc, truncate_minute}
use log_service.Prelude.Int.{ℤ, pos, pos_part, neg_part, is_positive, add64, int64_of}
use log_service.Prelude.Text.{Text, codes, text_eq, is_empty}
use log_service.LogEvent.{Event}

pub record SpoolState : Type 0 where
  pub dir : Text
  pub mode : Text
  pub used_bytes : ℕ
  pub max_bytes : ℤ
  pub file_count : ℕ

pub record DimensionKey : Type 0 where
  pub time_bucket : Text
  pub source : Text
  pub ip : Text
  pub method : Text
  pub path : Text
  pub status : ℤ

pub record Counters : Type 0 where
  pub service : Text
  pub started : Time
  pub requests_total : ℕ
  pub accepted_records_total : ℕ
  pub rejected_requests_total : ℕ
  pub rejected_records_total : ℕ
  pub kafka_publish_errors_total : ℕ
  pub spooled_records_total : ℕ
  pub spool_write_errors_total : ℕ
  pub replayed_records_total : ℕ
  pub batches_accepted_total : ℕ
  pub batch_records_total : ℕ
  pub dimensions : List (DimensionKey × ℕ)
  pub spool_state : SpoolState

abbrev pub no_spool_state : SpoolState
no_spool_state = record { dir = []; mode = []; used_bytes = 0; max_bytes = pos 0; file_count = 0 }

-- NewCounters, at the time that the clock shows
abbrev pub new_counters : Text → Time → Counters
new_counters service now = record {
  service = service;
  started = now;
  requests_total = 0;
  accepted_records_total = 0;
  rejected_requests_total = 0;
  rejected_records_total = 0;
  kafka_publish_errors_total = 0;
  spooled_records_total = 0;
  spool_write_errors_total = 0;
  replayed_records_total = 0;
  batches_accepted_total = 0;
  batch_records_total = 0;
  dimensions = [];
  spool_state = no_spool_state;
}

unfoldable pub observe_request : Counters → Counters
observe_request c = record c { requests_total = add64 c.requests_total 1 }

unfoldable pub observe_rejected : ℤ → Counters → Counters
observe_rejected records c = record c {
  rejected_requests_total = add64 c.rejected_requests_total 1;
  rejected_records_total =
      (if is_positive records
        then add64 c.rejected_records_total (int64_of records)
        else c.rejected_records_total);
}

unfoldable pub observe_kafka_publish_error : Counters → Counters
observe_kafka_publish_error c = record c {
  kafka_publish_errors_total = add64 c.kafka_publish_errors_total 1;
}

unfoldable pub observe_spool_write_error : Counters → Counters
observe_spool_write_error c = record c {
  spool_write_errors_total = add64 c.spool_write_errors_total 1;
}

unfoldable pub observe_replayed : ℤ → Counters → Counters
observe_replayed records c =
    if is_positive records
    then record c { replayed_records_total = add64 c.replayed_records_total (int64_of records) }
    else c

unfoldable pub observe_spool_state : SpoolState → Counters → Counters
observe_spool_state state c = record c { spool_state = state }

unfoldable pub status_eq : ℤ → ℤ → Bool
status_eq a b = pos_part a == pos_part b && neg_part a == neg_part b

-- Equality of map keys.
unfoldable pub key_eq : DimensionKey → DimensionKey → Bool
key_eq a b =
    text_eq a.time_bucket b.time_bucket
    && (text_eq a.source b.source
        && (text_eq a.ip b.ip
            && (text_eq a.method b.method
                && (text_eq a.path b.path && status_eq a.status b.status))))

-- `c.dimensions[key]++`
unfoldable pub increment : DimensionKey → List (DimensionKey × ℕ) → List (DimensionKey × ℕ)
increment k [] = (k, 1) ∷ []
increment k ((j, n) ∷ m) = if key_eq j k then (j, add64 n 1) ∷ m else (j, n) ∷ increment k m

-- `format` is `Format(time.RFC3339)`, of Go's package `time`.
module _ (format : Time → Text) where
  unfoldable pub dimension_key : Event → DimensionKey
  dimension_key event =
      let bucket_time = if is_zero event.timestamp then event.received_at else event.timestamp in
      record {
        time_bucket = format (truncate_minute (utc bucket_time));
        source = event.source;
        ip = event.ip;
        method = event.method;
        path = event.path;
        status = event.status;
      }

  unfoldable pub count_dimensions : List Event → List (DimensionKey × ℕ) → List (DimensionKey × ℕ)
  count_dimensions [] m = m
  count_dimensions (event ∷ events) m = count_dimensions events (increment (dimension_key event) m)

  unfoldable pub observe_accepted : List Event → Text → Counters → Counters
  observe_accepted events storage c =
      let count : ℕ = int64_of (pos (length events)) in
      record c {
        accepted_records_total = add64 c.accepted_records_total count;
        batches_accepted_total = add64 c.batches_accepted_total 1;
        batch_records_total = add64 c.batch_records_total count;
        spooled_records_total =
            (if text_eq storage (codes "spool")
              then add64 c.spooled_records_total count
              else c.spooled_records_total);
        dimensions = count_dimensions events c.dimensions;
      }

-- An `int64` counter is above zero: its sign bit is clear.
abbrev pub is_positive64 : ℕ → Bool
is_positive64 n = ltb 0 n && ltb n (2 ^ 63)

unfoldable pub overload_mode : Counters → Text
overload_mode c =
    if is_empty c.spool_state.mode
    then if is_positive64 c.kafka_publish_errors_total then codes "degraded" else codes "normal"
    else c.spool_state.mode
