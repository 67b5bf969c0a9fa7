-- ===== src/Metrics/Snapshot/Canonical.antt =====
-- The snapshot's dimension counters do not depend on the order in which Go iterates over the map
-- (internal/metrics/counters.go).
use log_service.Prelude.{
  ℕ, ◌≡◌, ◌≢◌, refl, sym, ap, ◌∙◌, Bool, true, false, List, [], ◌∷◌, map, Bool-cases, inl, inr,
  arith, if_both, false≢true,
}
use log_service.Prelude.Clock.{Time}
use log_service.Prelude.Int.{ℤ, pos, negsuc, ltb_ℤ}
use log_service.Prelude.Text.{Text, text_eq, text_eq_iff, text_eq_refl}
use log_service.Prelude.Text.Order.{text_less-IsOrder}
use log_service.Prelude.Sorting.Laws.{IsOrder, IsSorted, sort-perm_eq, sort-perm, sort-IsSorted}
use log_service.LogEvent.{Event}
use log_service.Metrics.{
  overload_mode, DimensionKey, Counters, key_eq, increment, dimension_key, count_dimensions,
}
use log_service.Metrics.Totals.{key_eq_iff}
use log_service.Metrics.Snapshot.{
  DimensionCount, then_by, by_status, less, to_count, dimension_snapshot, snapshot,
}
use mathlib.Core.HLevel.{¬_prop}
use mathlib.Core.List.{Perm, Nodup, Mem, Pairwise-singleton, forall_mem-cons}
use mathlib.Core.List.Pairwise
use mathlib.Core.List.Perm

-- A strict order up to a relation of what it does not tell apart.
record Orders (lt : DimensionKey → DimensionKey → Bool)
    (Same : DimensionKey → DimensionKey → Type 0) : Type 0 where
  irrefl : (a : DimensionKey) → lt a a ≡ false
  trans : (a b c : DimensionKey) → lt a b ≡ true → lt b c ≡ true → lt a c ≡ true
  connex : (a b : DimensionKey) → lt a b ≡ false → lt b a ≡ false → Same a b

by_status-Orders : Orders by_status (λ a b. a.status ≡ b.status)
by_status-Orders = record {
  irrefl = λ a. ground arith;
  trans = λ a b c h k. ground arith;
  connex = λ a b. same a.status b.status;
}
  where
    same : (m n : ℤ) → ltb_ℤ m n ≡ false → ltb_ℤ n m ≡ false → m ≡ n
    same (pos m) (pos n) h k = ground arith
    same (pos m) (negsuc n) h k = ground arith
    same (negsuc m) (pos n) h k = ground arith
    same (negsuc m) (negsuc n) h k = ground arith

module _ (f : DimensionKey → Text) (lt : DimensionKey → DimensionKey → Bool)
    (Same : DimensionKey → DimensionKey → Type 0) (orders : Orders lt Same) where
  then_by_trans :
      (a b c : DimensionKey)
      → then_by f lt a b ≡ true
      → then_by f lt b c ≡ true
      → then_by f lt a c ≡ true
  then_by_trans a b c h k = ground (
    arith,
    text_eq_iff (f a) (f b),
    text_eq_iff (f b) (f c),
    text_eq_iff (f a) (f c),
    orders.trans a b c,
    text_less-IsOrder.trans (f a) (f b) (f c),
    text_less-IsOrder.irrefl (f a),
  )

  then_by_connex :
      (a b : DimensionKey)
      → then_by f lt a b ≡ false
      → then_by f lt b a ≡ false
      → (f a ≡ f b) × Same a b
  then_by_connex a b h k = elim (Bool-cases (text_eq (f a) (f b))) [
    | inl e ↦
        let same = (text_eq_iff (f a) (f b)).0 e in
        let e' = (text_eq_iff (f b) (f a)).1 (sym same) in
        (same, orders.connex a b (rw e at h) (rw e' at k))
    | inr ne ↦ absurd (
        ground (
          arith,
          text_eq_iff (f a) (f b),
          text_eq_iff (f b) (f a),
          text_less-IsOrder.connex (f a) (f b),
        ))
  ]

  then_by-Orders : Orders (then_by f lt) (λ a b. (f a ≡ f b) × Same a b)
  then_by-Orders = record {
    irrefl = λ a. rw (text_eq_refl (f a)) (orders.irrefl a);
    trans = then_by_trans;
    connex = then_by_connex;
  }

less-Orders : Orders less (λ a b.
    (a.time_bucket ≡ b.time_bucket)
    × ((a.source ≡ b.source)
        × ((a.ip ≡ b.ip) × ((a.path ≡ b.path) × ((a.method ≡ b.method) × (a.status ≡ b.status))))))
unfolding less
less-Orders =
    then_by-Orders (λ k. k.time_bucket) _ _
      (then_by-Orders (λ k. k.source) _ _
        (then_by-Orders (λ k. k.ip) _ _
          (then_by-Orders (λ k. k.path) _ _
            (then_by-Orders (λ k. k.method) by_status _ by_status-Orders))))

key_ext :
    (a b : DimensionKey)
    → a.time_bucket ≡ b.time_bucket
    → a.source ≡ b.source
    → a.ip ≡ b.ip
    → a.path ≡ b.path
    → a.method ≡ b.method
    → a.status ≡ b.status
    → a ≡ b
key_ext a b e1 e2 e3 e4 e5 e6 = ground arith

-- The order that dimensionSnapshot sorts by is a strict order of the keys.
pub less-IsOrder : IsOrder less
less-IsOrder = record {
  irrefl = less-Orders.irrefl;
  trans = less-Orders.trans;
  connex = λ a b h k.
      let (e1, (e2, (e3, (e4, (e5, e6))))) = less-Orders.connex a b h k in
      key_ext a b e1 e2 e3 e4 e5 e6;
}

-- The keys of the map, which are distinct in a map of Go.
abbrev pub keys : List (DimensionKey × ℕ) → List DimensionKey
keys m = map (λ p. p.0) m

abbrev pub HasDistinctKeys : List (DimensionKey × ℕ) → Type 0
HasDistinctKeys m = Nodup (keys m)

abbrev IsFresh : DimensionKey → List DimensionKey → Type 0
IsFresh j l = (k : DimensionKey) → Mem k l → j ≢ k

IsFresh-cons :
    (j k : DimensionKey) (l : List DimensionKey) → j ≢ k → IsFresh j l → IsFresh j (k ∷ l)
IsFresh-cons j k l n h = (forall_mem-cons (λ k. ¬_prop)).1 (n, h)

IsFresh-increment :
    (j k : DimensionKey) (m : List (DimensionKey × ℕ))
    → j ≢ k
    → IsFresh j (keys m)
    → IsFresh j (keys (increment k m))
unfolding increment
IsFresh-increment j k [] n h = IsFresh-cons j k [] n h
IsFresh-increment j k ((i, c) ∷ m) n h =
    let (ni, hm) = (forall_mem-cons (λ k. ¬_prop)).0 h in
    if_both (λ t. IsFresh j (keys t)) (key_eq i k) _ _ h
      (IsFresh-cons j i (keys (increment k m)) ni (IsFresh-increment j k m n hm))

HasDistinctKeys-increment :
    (k : DimensionKey) (m : List (DimensionKey × ℕ))
    → HasDistinctKeys m
    → HasDistinctKeys (increment k m)
unfolding increment
HasDistinctKeys-increment k [] h = Pairwise-singleton _ k
HasDistinctKeys-increment k ((i, c) ∷ m) (Pairwise.cons fresh h) = elim (Bool-cases (key_eq i k)) [
  | inl same ↦ rw same (Pairwise.cons fresh h)
  | inr other ↦ rw other (
      Pairwise.cons (IsFresh-increment i k m (differ other) fresh)
        (HasDistinctKeys-increment k m h))
]
  where
    differ : key_eq i k ≡ false → i ≢ k
    differ other e = false≢true (sym other ∙ (key_eq_iff i k).1 e)

-- Counting the events of a batch keeps the keys of the map distinct.
pub HasDistinctKeys-count_dimensions :
    (format : Time → Text) (events : List Event) (m : List (DimensionKey × ℕ))
    → HasDistinctKeys m
    → HasDistinctKeys (count_dimensions format events m)
unfolding count_dimensions
HasDistinctKeys-count_dimensions format [] m h = h
HasDistinctKeys-count_dimensions format (e ∷ events) m h =
    HasDistinctKeys-count_dimensions format events (increment (dimension_key format e) m)
      (HasDistinctKeys-increment (dimension_key format e) m h)

map-to_count : (m : List (DimensionKey × ℕ)) → map (λ d. d.key) (map to_count m) ≡ keys m
map-to_count [] = refl
map-to_count ((k, n) ∷ m) = ap (◌∷◌ k) (map-to_count m)

DimensionCount-set : IsSet DimensionCount
DimensionCount-set = hlevel

-- For counters whose dimension keys are distinct: the snapshot lists the dimension counters of the map,
-- each once, in ascending order of the keys, and it is the same snapshot for every order in which
-- the map may be iterated over.
pub snapshot-canonical :
    (c : Counters) (m : List (DimensionKey × ℕ))
    → HasDistinctKeys c.dimensions
    → Perm c.dimensions m
    → (snapshot (record c { dimensions = m }) ≡ snapshot c)
      × Perm (snapshot c).request_dimension_counters (map to_count c.dimensions)
      × IsSorted less (λ d. d.key) less-IsOrder (snapshot c).request_dimension_counters
unfolding snapshot overload_mode
snapshot-canonical c m distinct p = (
  ap (λ ds. record (snapshot c) { request_dimension_counters = ds }) (sym same),
  sort-perm less (λ d. d.key) less-IsOrder (map to_count c.dimensions),
  sort-IsSorted less (λ d. d.key) less-IsOrder (map to_count c.dimensions),
)
  where
    same : dimension_snapshot c.dimensions ≡ dimension_snapshot m
    same =
        unfold dimension_snapshot in
        sort-perm_eq less (λ d. d.key) less-IsOrder DimensionCount-set (map to_count c.dimensions)
          (map to_count m) (Perm.map to_count p) (rw map-to_count distinct)
