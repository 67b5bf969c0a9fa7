-- ===== src/Dashboard/Query/Bounds.antt =====
-- The limits of what the dashboard asks for (internal/dashboard/stats.go and http.go).
use log_service.Prelude.{
  ℕ, zero, suc, ◌≤◌, ◌≡◌, refl, Bool, true, false, Option, none, some, Result, ok, err, Bool-cases,
  inl, inr, if_both, ◌>>=◌, ltb, if◌then◌else◌, arith,
}
use log_service.Prelude.Clock.{Time, before, utc}
use log_service.Prelude.Int.{ℤ, pos, negsuc, ltb_ℤ}
use log_service.Prelude.Text.{Text, codes, is_empty, atoi}
use log_service.Dashboard.Query.{
  Values, first, back, time_or, parse_time_range, bounded, parse_limit,
}

-- Numbers of records that may be asked for
abbrev pub IsLimit : ℤ → Type 0
IsLimit limit = (n : ℕ) × (limit ≡ pos n) × (1 ≤ n) × (n ≤ 500)

low-IsLimit :
    (low : Bool) (fallback other : ℤ)
    → low ≡ true
    → IsLimit fallback
    → IsLimit (if low then fallback else other)
low-IsLimit true fallback other p h = h
low-IsLimit false fallback other p h = absurd cc

within-IsLimit :
    (low high : Bool) (n : ℕ) (fallback : ℤ)
    → IsLimit fallback
    → (high ≡ false → suc n ≤ 500)
    → IsLimit (if low then fallback else if high then pos 500 else pos (suc n))
within-IsLimit true high n fallback h k = h
within-IsLimit false true n fallback h k = (500, refl, omega arith, omega arith)
within-IsLimit false false n fallback h k = (suc n, refl, omega arith, k refl)

bounded-IsLimit : (n : Option ℤ) (fallback : ℤ) → IsLimit fallback → IsLimit (bounded n fallback)
bounded-IsLimit none fallback h = h
bounded-IsLimit (some (negsuc n)) fallback h =
    low-IsLimit (ltb_ℤ (negsuc n) (pos 1)) fallback _ (ground arith) h
bounded-IsLimit (some (pos zero)) fallback h = h
bounded-IsLimit (some (pos (suc n))) fallback h =
    within-IsLimit (ltb_ℤ (pos (suc n)) (pos 1)) (ltb_ℤ (pos 500) (pos (suc n))) n fallback h
      (ground arith)

pub parse_limit-IsLimit :
    (raw : Text) (fallback : ℤ) → IsLimit fallback → IsLimit (parse_limit raw fallback)
unfolding parse_limit
parse_limit-IsLimit raw fallback h =
    if_both IsLimit (is_empty raw) _ _ h (bounded-IsLimit (atoi raw) fallback h)

-- A range, if there is one, begins before it ends.
abbrev pub IsRange : Result Text (Time × Time) → Type 0
IsRange (err e) = Unit
IsRange (ok (from, to)) = before from to ≡ true

bind-IsRange :
    {A : Type 0} (r : Result Text A) (next : A → Result Text (Time × Time))
    → ((a : A) → IsRange (next a))
    → IsRange (r >>= next)
bind-IsRange (err e) next h = tt
bind-IsRange (ok a) next h = h a

ordered-IsRange :
    (from to : Time)
    → IsRange
        (if before from to then ok (utc from, utc to) else err (codes "from must be before to"))
unfolding before utc
ordered-IsRange from to = elim (Bool-cases (ltb from.instant to.instant)) [
  | inl e ↦ rw e e
  | inr e ↦ rw e tt
]

pub parse_time_range-IsRange :
    (parse_time : Text → Option Time) (values : Values) (at : Time)
    → IsRange (parse_time_range parse_time values at)
unfolding parse_time_range
parse_time_range-IsRange parse_time values at =
    bind-IsRange
      (time_or parse_time (first (values (codes "from"))) (codes "invalid from value")
        (back 15 (utc at)))
      _
      (λ from.
        bind-IsRange
          (time_or parse_time (first (values (codes "to"))) (codes "invalid to value") (utc at)) _
          (λ to. ordered-IsRange from to))
