-- ===== src/Worker/Settings/Sane.antt =====
-- The settings that the worker runs with (internal/worker/service.go).
use log_service.Prelude.{
  ℕ, suc, ◌-◌, ◌*◌, ◌≡◌, inl, inr, refl, true, false, List, [], ◌∷◌, arith, Bool-cases,
}
use log_service.Prelude.Clock.{second}
use log_service.Prelude.Int.{ℤ, pos, is_positive, ltb_ℤ}
use log_service.Prelude.Text.{Text, is_empty}
use log_service.Kafka.{keep_brokers}
use log_service.Worker.Settings.{ServiceConfig, positive_or, corrected, keep_parts}

-- Sizes and intervals are positive, and the number of retries is not negative.
pub record IsSane (cfg : ServiceConfig) : Type 0 where
  pub bulk_size : is_positive cfg.bulk_size ≡ true
  pub flush_interval : is_positive cfg.flush_interval ≡ true
  pub retry_max : ltb_ℤ cfg.retry_max (pos 0) ≡ false
  pub replay_interval : is_positive cfg.replay_interval ≡ true

positive_or-positive : (n : ℤ) (m : ℕ) → is_positive (positive_or n (pos (suc m))) ≡ true
positive_or-positive n m = elim (Bool-cases (is_positive n)) [
  | inl yes_it_is ↦ rw (yes_it_is, yes_it_is) refl
  | inr it_is_not ↦ rw it_is_not (ground arith)
]

pub corrected-IsSane : (hostname : Text) (cfg : ServiceConfig) → IsSane (corrected hostname cfg)
unfolding corrected
corrected-IsSane hostname cfg = record {
  bulk_size = positive_or-positive cfg.bulk_size 999;
  flush_interval = positive_or-positive cfg.flush_interval (2 * second - 1);
  retry_max = ground arith;
  replay_interval = positive_or-positive cfg.replay_interval (2 * second - 1);
}

corrected_sane :
    (hostname : Text) (cfg : ServiceConfig)
    → IsSane cfg
    → is_empty cfg.worker_id ≡ false
    → corrected hostname cfg ≡ cfg
unfolding corrected
corrected_sane hostname cfg sane named =
    rw (sane.bulk_size, sane.flush_interval, sane.retry_max, sane.replay_interval, named) refl

keep_parts-keep_brokers : (parts : List Text) → keep_parts parts ≡ keep_brokers parts
unfolding keep_parts keep_brokers
keep_parts-keep_brokers [] = refl
keep_parts-keep_brokers (p ∷ ps) = rw (keep_parts-keep_brokers ps) refl
