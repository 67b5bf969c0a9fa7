-- ===== src/Worker/Stats/Snapshot.antt =====
-- `Snapshot` of internal/worker/stats.go. The figures of the runtime, and the arithmetic of floats on them, are
-- parameters.
use log_service.Prelude.{ℕ, ◌-◌, ◌/◌, ltb, if◌then◌else◌}
use log_service.Prelude.Clock.{Time, second}
use log_service.Worker.Stats.{Stats}

-- What the runtime and the system tell: goroutines, memory in use, and the processor's seconds as a float; `percent`
-- divides them by the seconds that have passed, times 100.
pub record Runtime (F : Type 0) : Type 0 where
  pub goroutines : ℕ
  pub memory_alloc_bytes : ℕ
  pub process_cpu_seconds : F
  pub zero_percent : F
  pub percent : F → ℕ → F

pub record StatsSnapshot (F : Type 0) : Type 0 where
  pub uptime_seconds : ℕ
  pub consumed_records : ℕ
  pub indexed_records : ℕ
  pub failed_records : ℕ
  pub retried_records : ℕ
  pub dlq_records : ℕ
  pub replayed_records : ℕ
  pub replay_backlog : ℕ
  pub current_batch_size : ℕ
  pub elasticsearch_errors : ℕ
  pub goroutines : ℕ
  pub memory_alloc_bytes : ℕ
  pub process_cpu_seconds : F
  pub cpu_percent_estimate : F

-- `int64(time.Since(s.started).Seconds())`, on a clock that does not go back
abbrev pub uptime : Time → Stats → ℕ
uptime now s = (now.instant - s.started.instant) / second

abbrev pub cpu_percent : {F : Type 0} → Runtime F → ℕ → F
cpu_percent r up = if ltb 0 up then r.percent r.process_cpu_seconds up else r.zero_percent

unfoldable pub snapshot : {F : Type 0} → Runtime F → Time → Stats → StatsSnapshot F
snapshot r now s = record {
  uptime_seconds = uptime now s;
  consumed_records = s.consumed_records;
  indexed_records = s.indexed_records;
  failed_records = s.failed_records;
  retried_records = s.retried_records;
  dlq_records = s.dlq_records;
  replayed_records = s.replayed_records;
  replay_backlog = s.replay_backlog;
  current_batch_size = s.current_batch;
  elasticsearch_errors = s.es_failures;
  goroutines = r.goroutines;
  memory_alloc_bytes = r.memory_alloc_bytes;
  process_cpu_seconds = r.process_cpu_seconds;
  cpu_percent_estimate = cpu_percent r (uptime now s);
}
