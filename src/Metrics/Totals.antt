-- ===== src/Metrics/Totals.antt =====
-- The totals of the counters agree with the dimension counters (internal/metrics/counters.go).
use log_service.Prelude.{
  ℕ, ◌+◌, ◌<◌, ◌≡◌, ◌↔◌, refl, ap, ◌∙◌, true, List, [], ◌∷◌, length, if◌then◌else◌, arith,
}
use log_service.Prelude.Clock.{Time}
use log_service.Prelude.Int.{pos, add64, int64_of, word64}
use log_service.Prelude.Text.{Text, text_eq_refl, text_eq_iff}
use log_service.LogEvent.{Event}
use log_service.Metrics.{
  DimensionKey, Counters, key_eq, status_eq, increment, dimension_key, count_dimensions,
  observe_accepted,
}

-- The sum of the dimension counters, as an `int64`.
abbrev pub sum64 : List (DimensionKey × ℕ) → ℕ
sum64 [] = 0
sum64 ((k, n) ∷ m) = add64 n (sum64 m)

pub record IsBalanced (c : Counters) : Type 0 where
  pub batches : c.batch_records_total ≡ c.accepted_records_total
  pub dimensions : sum64 c.dimensions ≡ c.accepted_records_total

sum64-increment :
    (k : DimensionKey) (m : List (DimensionKey × ℕ)) → sum64 (increment k m) ≡ add64 (sum64 m) 1
unfolding increment add64
sum64-increment k [] = refl
sum64-increment k ((j, n) ∷ m) = ground (arith, sum64-increment k m)

sum64_reduced : (m : List (DimensionKey × ℕ)) → sum64 m < word64
unfolding add64
sum64_reduced [] = omega arith
sum64_reduced ((k, n) ∷ m) = omega arith

module _ (format : Time → Text) where
  sum64-count_dimensions :
      (events : List Event) (m : List (DimensionKey × ℕ))
      → sum64 (count_dimensions format events m) ≡ add64 (sum64 m) (int64_of (pos (length events)))
  unfolding count_dimensions add64 int64_of
  sum64-count_dimensions [] m = omega (arith, sum64_reduced m)
  sum64-count_dimensions (e ∷ events) m = omega (
    arith,
    sum64-count_dimensions events (increment (dimension_key format e) m),
    sum64-increment (dimension_key format e) m,
  )

  -- The accepted records, the records of accepted batches and the sum of the dimension counters
  -- are one number, as 64-bit patterns, and accepting a batch keeps them so.
  pub observe_accepted-IsBalanced :
      (events : List Event) (storage : Text) (c : Counters)
      → IsBalanced c
      → IsBalanced (observe_accepted format events storage c)
  unfolding observe_accepted
  observe_accepted-IsBalanced events storage c h = record {
    batches = ap (λ n. add64 n (int64_of (pos (length events)))) h.batches;
    dimensions =
        sum64-count_dimensions events c.dimensions
        ∙ ap (λ n. add64 n (int64_of (pos (length events)))) h.dimensions;
  }

key_eq_sound : (a b : DimensionKey) → key_eq a b ≡ true → a ≡ b
unfolding key_eq status_eq
key_eq_sound a b h = ground (
  arith,
  text_eq_iff a.time_bucket b.time_bucket,
  text_eq_iff a.source b.source,
  text_eq_iff a.ip b.ip,
  text_eq_iff a.method b.method,
  text_eq_iff a.path b.path,
)

key_eq_refl : (a : DimensionKey) → key_eq a a ≡ true
unfolding key_eq status_eq
key_eq_refl a = ground (
  arith,
  text_eq_refl a.time_bucket,
  text_eq_refl a.source,
  text_eq_refl a.ip,
  text_eq_refl a.method,
  text_eq_refl a.path,
)

pub key_eq_iff : (a b : DimensionKey) → (key_eq a b ≡ true) ↔ (a ≡ b)
key_eq_iff a b = (key_eq_sound a b, λ e. rw e (key_eq_refl b))

-- The counter of a key; a key that is not in the map counts 0.
abbrev pub count_of : DimensionKey → List (DimensionKey × ℕ) → ℕ
count_of k [] = 0
count_of k ((j, n) ∷ m) = if key_eq j k then n else count_of k m

-- How many events have the key.
abbrev pub occurrences : (Event → DimensionKey) → DimensionKey → List Event → ℕ
occurrences key k [] = 0
occurrences key k (e ∷ events) = (if key_eq (key e) k then 1 else 0) + occurrences key k events

count_of-increment :
    (k j : DimensionKey) (m : List (DimensionKey × ℕ))
    → count_of k (increment j m) ≡ (if key_eq j k then add64 (count_of k m) 1 else count_of k m)
unfolding increment add64
count_of-increment k j [] = ground arith
count_of-increment k j ((i, n) ∷ m) =
    ground (arith, key_eq_iff i j, key_eq_iff i k, key_eq_iff j k, count_of-increment k j m)

module _ (format : Time → Text) where
  count_of-count_dimensions :
      (k : DimensionKey) (events : List Event) (m : List (DimensionKey × ℕ))
      → count_of k m < word64
      → count_of k (count_dimensions format events m)
        ≡ add64 (count_of k m) (occurrences (dimension_key format) k events)
  unfolding count_dimensions add64
  count_of-count_dimensions k [] m h = omega arith
  count_of-count_dimensions k (e ∷ events) m h = ground (
    arith,
    count_of-increment k (dimension_key format e) m,
    count_of-count_dimensions k events (increment (dimension_key format e) m),
  )

  -- Accepting a batch adds to the counter of each dimension key the number of the batch's events
  -- that have the key, and changes no other counter of the map; the sum wraps as an `int64` does. The counter
  -- is a 64-bit pattern before.
  pub count_of-observe_accepted :
      (k : DimensionKey) (events : List Event) (storage : Text) (c : Counters)
      → count_of k c.dimensions < word64
      → count_of k (observe_accepted format events storage c).dimensions
        ≡ add64 (count_of k c.dimensions) (occurrences (dimension_key format) k events)
  unfolding observe_accepted
  count_of-observe_accepted k events storage c h = count_of-count_dimensions k events c.dimensions h
