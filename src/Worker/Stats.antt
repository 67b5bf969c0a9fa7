-- ===== src/Worker/Stats.antt =====
-- internal/worker/stats.go: the worker's counters, as 64-bit patterns.
pub mod Snapshot
use log_service.Prelude.{ℕ, if◌then◌else◌}
use log_service.Prelude.Clock.{Time}
use log_service.Prelude.Int.{ℤ, add64, int64_of, is_positive}

pub record Stats : Type 0 where
  pub started : Time
  pub consumed_records : ℕ
  pub indexed_records : ℕ
  pub failed_records : ℕ
  pub retried_records : ℕ
  pub dlq_records : ℕ
  pub replayed_records : ℕ
  pub replay_backlog : ℕ
  pub current_batch : ℕ
  pub es_failures : ℕ

-- NewStats, at the time that the clock shows
abbrev pub new_stats : Time → Stats
new_stats now = record {
  started = now;
  consumed_records = 0;
  indexed_records = 0;
  failed_records = 0;
  retried_records = 0;
  dlq_records = 0;
  replayed_records = 0;
  replay_backlog = 0;
  current_batch = 0;
  es_failures = 0;
}

-- A counter, once a count above zero is added.
abbrev pub added : ℤ → ℕ → ℕ
added count total = if is_positive count then add64 total (int64_of count) else total

unfoldable pub observe_consumed : ℤ → Stats → Stats
observe_consumed count s = record s { consumed_records = added count s.consumed_records }

unfoldable pub observe_indexed : ℤ → Stats → Stats
observe_indexed count s = record s { indexed_records = added count s.indexed_records }

unfoldable pub observe_failed : ℤ → Stats → Stats
observe_failed count s = record s { failed_records = added count s.failed_records }

unfoldable pub observe_retried : ℤ → Stats → Stats
observe_retried count s = record s { retried_records = added count s.retried_records }

unfoldable pub observe_dlq : ℤ → Stats → Stats
observe_dlq count s = record s { dlq_records = added count s.dlq_records }

unfoldable pub observe_replayed : ℤ → Stats → Stats
observe_replayed count s = record s { replayed_records = added count s.replayed_records }

unfoldable pub observe_elasticsearch_failure : Stats → Stats
observe_elasticsearch_failure s = record s { es_failures = add64 s.es_failures 1 }

unfoldable pub set_replay_backlog : ℤ → Stats → Stats
set_replay_backlog count s = record s { replay_backlog = int64_of count }

unfoldable pub set_current_batch : ℤ → Stats → Stats
set_current_batch count s = record s { current_batch = int64_of count }
