-- ===== src/Tests/Snapshots.antt =====
-- The snapshot of counters with two dimensions.
use log_service.Prelude.{ℕ, ◌≡◌, refl, List, [], ◌∷◌, map}
use log_service.Prelude.Int.{add64}
use log_service.Prelude.Text.{codes, text_eq}
use log_service.LogEvent.{Event}
use log_service.Metrics.{
  DimensionKey, Counters, dimension_key, count_dimensions, increment, key_eq, status_eq,
}
use log_service.Metrics.Snapshot.{less, to_count, snapshot}
use log_service.Metrics.Snapshot.Canonical.{
  less-IsOrder, HasDistinctKeys, HasDistinctKeys-count_dimensions, snapshot-canonical,
}
use log_service.Prelude.Sorting.Laws.{IsSorted}
use mathlib.Core.List.{Perm}
use mathlib.Core.List.Perm
use mathlib.Core.List.Pairwise
use log_service.Tests.Samples.{event}
use log_service.Tests.Counting.{format, counters}

abbrev late : Event
late = record event { path = codes "/a" }

-- The map after three events, and in the other order.
abbrev in_order : List (DimensionKey × ℕ)
in_order = (dimension_key format event, 2) ∷ (dimension_key format late, 1) ∷ []

abbrev other_order : List (DimensionKey × ℕ)
other_order = (dimension_key format late, 1) ∷ (dimension_key format event, 2) ∷ []

counted : count_dimensions format (event ∷ late ∷ event ∷ []) [] ≡ in_order
unfolding count_dimensions increment key_eq status_eq text_eq dimension_key add64
counted = refl

abbrev busy : Counters
busy = record counters { dimensions = in_order }

busy-HasDistinctKeys : HasDistinctKeys in_order
unfolding count_dimensions increment key_eq status_eq text_eq dimension_key add64
busy-HasDistinctKeys =
    (HasDistinctKeys-count_dimensions format (event ∷ late ∷ event ∷ []) [] Pairwise.nil)

snapshot-canonical_example :
    (snapshot (record busy { dimensions = other_order }) ≡ snapshot busy)
    × Perm (snapshot busy).request_dimension_counters (map to_count in_order)
    × IsSorted less (λ d. d.key) less-IsOrder (snapshot busy).request_dimension_counters
snapshot-canonical_example =
    snapshot-canonical busy other_order busy-HasDistinctKeys
      (Perm.swap (dimension_key format late, 1) (dimension_key format event, 2) [])
