-- ===== src/Metrics/Snapshot.antt =====
-- `Snapshot` of internal/metrics/counters.go, as far as it depends on the counters: what it reads of the
-- runtime is left out, and the average is given by the two terms of the ratio.
pub mod Canonical
use log_service.Prelude.{ℕ, Bool, List, [], ◌∷◌, map, if◌then◌else◌}
use log_service.Prelude.Int.{ℤ, ltb_ℤ}
use log_service.Prelude.Text.{Text, text_eq}
use log_service.Prelude.Text.Order.{text_less}
use log_service.Prelude.Sorting.{sort}
use log_service.Metrics.{SpoolState, DimensionKey, Counters, is_positive64, overload_mode}

pub record DimensionCount : Type 0 where
  pub key : DimensionKey
  pub count : ℕ

pub record Snapshot : Type 0 where
  pub service : Text
  pub requests_total : ℕ
  pub accepted_records_total : ℕ
  pub rejected_requests_total : ℕ
  pub rejected_records_total : ℕ
  pub kafka_publish_errors_total : ℕ
  pub spooled_records_total : ℕ
  pub spool_write_errors_total : ℕ
  pub replayed_records_total : ℕ
  pub batches_accepted_total : ℕ
  pub average_batch_size : ℕ × ℕ
  pub overload_mode : Text
  pub spool : SpoolState
  pub request_dimension_counters : List DimensionCount

-- `if a.f != b.f { return a.f < b.f }`, and what follows
abbrev pub then_by :
    (DimensionKey → Text)
    → (DimensionKey → DimensionKey → Bool)
    → DimensionKey
    → DimensionKey
    → Bool
then_by f rest a b = if text_eq (f a) (f b) then rest a b else text_less (f a) (f b)

abbrev pub by_status : DimensionKey → DimensionKey → Bool
by_status a b = ltb_ℤ a.status b.status

-- The function that dimensionSnapshot sorts by, on the fields that it compares.
unfoldable pub less : DimensionKey → DimensionKey → Bool
less =
    then_by (λ k. k.time_bucket)
      (then_by (λ k. k.source)
        (then_by (λ k. k.ip) (then_by (λ k. k.path) (then_by (λ k. k.method) by_status))))

abbrev pub to_count : DimensionKey × ℕ → DimensionCount
to_count (key, count) = record { key = key; count = count }

-- dimensionSnapshot
unfoldable pub dimension_snapshot : List (DimensionKey × ℕ) → List DimensionCount
dimension_snapshot dimensions = sort (λ a b. less a.key b.key) (map to_count dimensions)

-- Snapshot
unfoldable pub snapshot : Counters → Snapshot
unfolding dimension_snapshot
snapshot c = record {
  service = c.service;
  requests_total = c.requests_total;
  accepted_records_total = c.accepted_records_total;
  rejected_requests_total = c.rejected_requests_total;
  rejected_records_total = c.rejected_records_total;
  kafka_publish_errors_total = c.kafka_publish_errors_total;
  spooled_records_total = c.spooled_records_total;
  spool_write_errors_total = c.spool_write_errors_total;
  replayed_records_total = c.replayed_records_total;
  batches_accepted_total = c.batches_accepted_total;
  average_batch_size =
      (if is_positive64 c.batches_accepted_total
        then (c.batch_records_total, c.batches_accepted_total)
        else (0, 1));
  overload_mode = overload_mode c;
  spool = c.spool_state;
  request_dimension_counters = dimension_snapshot c.dimensions;
}
