-- ===== src/Prelude/Clock.antt =====
-- Go's `time.Time`. An instant counts nanoseconds from one day before the year 0, UTC, the earliest
-- that RFC 3339 can name, so that it is a natural number; the zone is the offset that is printed.
use Prim.Native.Nat.{ℕ, ◌+◌, ◌-◌, ◌*◌, ◌%◌, min}
use mathlib.Core.Bool.{Bool, false}
use mathlib.Core.Option.{Option, none, some}
use log_service.Prelude.Tests.{ltb, leb, ◌==◌}
use log_service.Prelude.Int.{ℤ, pos}

pub record Time : Type 0 where
  pub instant : ℕ
  pub zone : ℤ

abbrev pub second : ℕ
second = 1_000_000_000

abbrev pub minute : ℕ
minute = 60 * second

-- January 1 of year 1: 367 days after the start of the count.
abbrev pub zero_time : Time
zero_time = record { instant = 367 * (24 * (60 * minute)); zone = pos 0 }

unfoldable pub is_zero : Time → Bool
is_zero t = t.instant == zero_time.instant

unfoldable pub before : Time → Time → Bool
before s t = ltb s.instant t.instant

unfoldable pub utc : Time → Time
utc t = record t { zone = pos 0 }

-- `t.Truncate(time.Minute)`: the zero time is a whole number of minutes after the start of the count.
unfoldable pub truncate_minute : Time → Time
truncate_minute t = record t { instant = t.instant - t.instant % minute }

-- `context.Context`: the instant from which its `Err` is not nil, if it ever is.
pub record Context : Type 0 where
  pub ends : Option ℕ

-- `ctx.Err() != nil`, at an instant
unfoldable pub is_done : Context → ℕ → Bool
is_done ctx now = elim ctx.ends [ none ↦ false | some t ↦ leb t now ]

abbrev pub earlier : Option ℕ → ℕ → Option ℕ
earlier none t = some t
earlier (some s) t = some (min s t)

-- `context.WithTimeout`, at an instant
unfoldable pub with_timeout : Context → ℕ → ℕ → Context
with_timeout ctx now timeout = record ctx { ends = earlier ctx.ends (now + timeout) }
