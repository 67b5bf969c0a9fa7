-- ===== src/Dashboard/Query.antt =====
-- What the dashboard makes of the parameters of a request: `parseTimeRange` and `first` of
-- internal/dashboard/stats.go, `parseLimit` of http.go, `rangeQuery` of elasticsearch.go.
pub mod Bounds
use log_service.Prelude.{
  ℕ, ◌*◌, ◌-◌, Bool, List, [], ◌∷◌, ◌++◌, Option, none, some, Result, ok, err, or_err, ◌>>=◌,
  if◌then◌else◌,
}
use log_service.Prelude.Clock.{Time, minute, before, utc}
use log_service.Prelude.Int.{ℤ, pos, ltb_ℤ}
use log_service.Prelude.Text.{Text, codes, is_empty, trim_space, atoi}

-- `r.URL.Query()`: the values of a key, in order.
abbrev pub Values : Type 0
Values = Text → List Text

-- `Query().Get(key)`
abbrev pub get : Values → Text → Text
get values key = elim (values key) [ [] ↦ [] | value ∷ _ ↦ value ]

-- first
unfoldable pub first : List Text → Text
first [] = []
first (value ∷ _) = trim_space value

abbrev pub back : ℕ → Time → Time
back n t = record t { instant = t.instant - n * minute }

module _ (parse_time : Text → Option Time) where
  abbrev pub time_or : Text → Text → Time → Result Text Time
  time_or raw message fallback =
      if is_empty raw then ok fallback else or_err (parse_time raw) message

  -- parseTimeRange, at a time
  unfoldable pub parse_time_range : Values → Time → Result Text (Time × Time)
  unfolding first
  parse_time_range values at = do
    from ← time_or (first (values (codes "from"))) (codes "invalid from value") (back 15 (utc at))
    to ← time_or (first (values (codes "to"))) (codes "invalid to value") (utc at)
    (if before from to then ok (utc from, utc to) else err (codes "from must be before to"))

abbrev pub bounded : Option ℤ → ℤ → ℤ
bounded none fallback = fallback
bounded (some limit) fallback =
    if ltb_ℤ limit (pos 1) then fallback else if ltb_ℤ (pos 500) limit then pos 500 else limit

-- parseLimit
unfoldable pub parse_limit : Text → ℤ → ℤ
parse_limit raw fallback = if is_empty raw then fallback else bounded (atoi raw) fallback

pub data Filter : Type 0 where
  in_range : Text → Text → Filter
  term : Text → Text → Filter
  term_number : Text → ℤ → Filter

abbrev pub term_of : Text → Text → List Filter
term_of field value = if is_empty value then [] else term field value ∷ []

abbrev pub number_of : Text → Option ℤ → List Filter
number_of field none = []
number_of field (some n) = term_number field n ∷ []

-- rangeQuery: the filters that must hold together; a status that is no number filters nothing.
unfoldable pub range_query : (Time → Text) → Time → Time → Text → Text → Text → List Filter
range_query format from to ip path status =
    in_range (format (utc from)) (format (utc to))
    ∷ (term_of (codes "ip") ip
        ++ (term_of (codes "path") path
            ++ (if is_empty status then [] else number_of (codes "status") (atoi status))))
