-- ===== src/Storage/Accounted.antt =====
-- What a bulk request says of each event (internal/storage/elasticsearch.go).
use log_service.Prelude.{
  ℕ, ◌+◌, ◌≤◌, ◌≡◌, ◌⊎◌, inl, inr, refl, true, List, [], ◌∷◌, Option, none, some, length,
  Bool-cases, arith, map, if_both, get_elem?, zero, suc,
}
use log_service.LogEvent.{Event}
use log_service.Storage.{
  BulkResult, BulkItem, add_item, collect, status_reason, is_success, is_retryable,
}

-- How many events a result speaks of.
abbrev pub accounted : BulkResult → ℕ
accounted r = r.indexed + (length r.permanent + length r.retryable)

accounted-add_item :
    (item : BulkItem) (event : Event) (r : BulkResult)
    → accounted (add_item item (some event) r) ≡ accounted r + 1
unfolding add_item
accounted-add_item item event r = ground arith

-- If the answer has no more items than there are events, each item counts one event as indexed, as
-- failed for good or as retryable: an answer with an item for each event accounts for all of
-- them, and one with fewer items is silent about the rest.
pub accounted-collect :
    (items : List BulkItem) (events : List Event)
    → length items ≤ length events
    → accounted (collect items events) ≡ length items
unfolding collect
accounted-collect [] events h = refl
accounted-collect (item ∷ items) [] h = absurd (omega arith)
accounted-collect (item ∷ items) (event ∷ events) h =
    omega
      (arith, accounted-add_item item event (collect items events), accounted-collect items events)

-- The event is in the list.
abbrev pub In : Event → List Event → Type 0
In e [] = ⊥
In e (x ∷ xs) = (e ≡ x) ⊎ In e xs

-- The event of an item was indexed, or the result has it to be tried again or as failed for good.
abbrev pub Settled : BulkItem → Event → BulkResult → Type 0
Settled item event r =
    (is_success (status_reason item).0 ≡ true)
    ⊎ (In event r.retryable ⊎ In event (map (λ f. f.event) r.permanent))

Settled-add_item :
    (item other : BulkItem) (event : Event) (o : Option Event) (r : BulkResult)
    → Settled item event r
    → Settled item event (add_item other o r)
unfolding add_item
Settled-add_item item other event none r h =
    if_both (Settled item event) (is_success (status_reason other).0) _ _ (more_indexed r h) h
  where
    more_indexed :
        (t : BulkResult)
        → Settled item event t
        → Settled item event (record t { indexed = t.indexed + 1 })
    more_indexed t k = k
Settled-add_item item other event (some x) r (inl good) =
    if_both (Settled item event) (is_success (status_reason other).0) _ _ (inl good) (
      if_both (Settled item event) (is_retryable (status_reason other).0) _ _ (inl good) (inl good))
Settled-add_item item other event (some x) r (inr (inl again)) =
    if_both (Settled item event) (is_success (status_reason other).0) _ _ (inr (inl again)) (
      if_both (Settled item event) (is_retryable (status_reason other).0) _ _
        (inr (inl (inr again))) (inr (inl again)))
Settled-add_item item other event (some x) r (inr (inr failed)) =
    if_both (Settled item event) (is_success (status_reason other).0) _ _ (inr (inr failed)) (
      if_both (Settled item event) (is_retryable (status_reason other).0) _ _ (inr (inr failed))
        (inr (inr (inr failed))))

add_item-Settled :
    (item : BulkItem) (event : Event) (r : BulkResult)
    → Settled item event (add_item item (some event) r)
unfolding add_item
add_item-Settled item event r = elim (Bool-cases (is_success (status_reason item).0)) [
  | inl good ↦ inl good
  | inr bad ↦ inr (
      rw bad (
        if_both
          (λ (t : BulkResult). In event t.retryable ⊎ In event (map (λ f. f.event) t.permanent))
          (is_retryable (status_reason item).0) _ _ (inl (inl refl)) (inr (inl refl))))
]

-- Of each item that stands at the position of an event, the event was indexed, or the result has it
-- among those to be tried again or among those that failed for good.
pub collect-Settled :
    (items : List BulkItem) (events : List Event) (i : ℕ) (item : BulkItem) (event : Event)
    → get_elem? items i ≡ some item
    → get_elem? events i ≡ some event
    → Settled item event (collect items events)
unfolding collect
collect-Settled [] events i item event p q = absurd cc
collect-Settled (x ∷ items) [] i item event p q = absurd cc
collect-Settled (x ∷ items) (e ∷ events) zero item event p q =
    rw (← same x item p, ← same e event q) (add_item-Settled x e (collect items events))
  where
    same : {A : Type 0} (a b : A) → some a ≡ some b → a ≡ b
    same a b h = cc
collect-Settled (x ∷ items) (e ∷ events) (suc i) item event p q =
    Settled-add_item item x event (some e) (collect items events)
      (collect-Settled items events i item event p q)
