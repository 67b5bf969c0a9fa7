-- ===== src/Storage/Settles.antt =====
-- A bulk request settles each of its events (internal/storage/elasticsearch.go).
use log_service.Prelude.{
  ℕ, suc, ◌≡◌, ◌≢◌, ◌⊎◌, inl, inr, refl, true, false, List, [], ◌∷◌, map, Option, none, some,
  get_elem?, leb, ◌||◌, ◌==◌, Bool-cases,
}
use log_service.Prelude.Text.{Text}
use log_service.LogEvent.{Event}
use log_service.Storage.{
  BulkItem, BulkResponse, BulkResult, BulkError, Answer, Client, status_reason, is_success, collect,
  bulk_body, read_response, read_payload, answered, post_body, bulk_index,
}
use log_service.Storage.Accounted.{In, Settled, collect-Settled}

-- Elasticsearch's bulk API, for a notion of a landed event: an answer below 400 that can be read has an item for
-- each event of the request, at its position, and an event whose item reports success has landed.
pub record BulkApi {S : Type 0} (client : Client S) (landed : Event → S → Type 0) : Type 0 where
  pub answers :
      (events : List Event) (s : S) (body payload : Text) (res : Answer) (response : BulkResponse)
      → bulk_body client (client.now s) events ≡ some body
      → (client.post body s).0 ≡ some res
      → leb 400 res.status ≡ false
      → res.body ≡ some payload
      → client.decode_response payload ≡ some response
      → (i : ℕ) (e : Event) → get_elem? events i ≡ some e
      → (item : BulkItem) × (get_elem? response.items i ≡ some item)
        × (is_success (status_reason item).0 ≡ true → landed e (client.post body s).1)

-- The event has landed, is to be tried again or failed for good; or the request failed and names none to be
-- tried again.
abbrev pub IsSettled :
    {S : Type 0} → (Event → S → Type 0) → Event → (BulkResult × Option BulkError) × S → Type 0
IsSettled landed e out =
    (landed e out.1 ⊎ (In e out.0.0.retryable ⊎ In e (map (λ f. f.event) out.0.0.permanent)))
    ⊎ ((out.0.1 ≢ none) × (out.0.0.retryable ≡ []))

In-get_elem? : (e : Event) (es : List Event) → In e es → (i : ℕ) × (get_elem? es i ≡ some e)
In-get_elem? e [] h = absurd h
In-get_elem? e (x ∷ es) (inl p) = (0, rw p refl)
In-get_elem? e (x ∷ es) (inr h) = let (i, q) = In-get_elem? e es h in (suc i, q)

module _ {S : Type 0} (client : Client S) (landed : Event → S → Type 0) (e : Event) where
  -- What an answer of Elasticsearch must say of the event.
  abbrev Said : List Event → S → BulkResponse → Type 0
  Said events s response =
      (i : ℕ) × (item : BulkItem) × (get_elem? events i ≡ some e)
      × (get_elem? response.items i ≡ some item)
      × (is_success (status_reason item).0 ≡ true → landed e s)

  collected-IsSettled :
      (events : List Event) (s : S) (response : BulkResponse)
      → Said events s response
      → IsSettled landed e ((collect response.items events, none), s)
  collected-IsSettled events s response (i, item, at_e, at_item, lands) =
      settle (collect-Settled response.items events i item e at_item at_e)
    where
      settle :
          Settled item e (collect response.items events)
          → IsSettled landed e ((collect response.items events, none), s)
      settle (inl good) = inl (inl (lands good))
      settle (inr h) = inl (inr h)

  payload-IsSettled :
      (events : List Event) (s : S) (body : Option Text)
      → ((payload : Text) (response : BulkResponse)
          → body ≡ some payload
          → client.decode_response payload ≡ some response
          → Said events s response)
      → IsSettled landed e (read_payload client events body, s)
  payload-IsSettled events s none said = inr (λ p. cc, refl)
  payload-IsSettled events s (some payload) said =
      decoded (client.decode_response payload) (λ response p. said payload response refl p)
    where
      decoded :
          (o : Option BulkResponse)
          → ((response : BulkResponse) → o ≡ some response → Said events s response)
          → IsSettled landed e (read_response client events o, s)
      decoded none k = inr (λ p. cc, refl)
      decoded (some response) k = collected-IsSettled events s response (k response refl)

  answered-IsSettled :
      (events : List Event) (s : S) (o : Option Answer)
      → In e events
      → ((res : Answer) (payload : Text) (response : BulkResponse)
          → o ≡ some res
          → leb 400 res.status ≡ false
          → res.body ≡ some payload
          → client.decode_response payload ≡ some response
          → Said events s response)
      → IsSettled landed e (answered client events o, s)
  unfolding answered
  answered-IsSettled events s none h said = inr (λ p. cc, refl)
  answered-IsSettled events s (some res) h said =
      elim (Bool-cases (res.status == 429 || leb 500 res.status)) [
        | inl busy ↦ rw busy (inl (inr (inl h)))
        | inr calm ↦ elim (Bool-cases (leb 400 res.status)) [
          | inl bad ↦ rw (calm, bad) (inr (λ p. cc, refl))
          | inr good ↦
              rw (calm, good)
                (payload-IsSettled events s res.body
                  (λ payload response p q. said res payload response refl good p q))
        ]
      ]

  module _ (api : BulkApi client landed) where
    post_body-IsSettled :
        (events : List Event) (s : S) (o : Option Text)
        → bulk_body client (client.now s) events ≡ o
        → In e events
        → IsSettled landed e (post_body client events s o)
    post_body-IsSettled events s none made h = inr (λ p. cc, refl)
    post_body-IsSettled events s (some body) made h =
        answered-IsSettled events (client.post body s).1 (client.post body s).0 h
          (λ res payload response sent good got read.
            let (i, at_e) = In-get_elem? e events h in
            let (item, at_item, lands) =
              api.answers events s body payload res response made sent good got read i e at_e in
            (i, item, at_e, at_item, lands))

    -- If Elasticsearch's bulk API does what `BulkApi` says: each event of a request has landed, is among those
    -- that are to be tried again or among those that failed for good, or the request failed and names no
    -- event to be tried again, whatever the encoder, the network and the answer's status did.
    pub bulk_index-IsSettled :
        (events : List Event) (s : S)
        → In e events
        → IsSettled landed e (bulk_index client events s)
    unfolding bulk_index
    bulk_index-IsSettled [] s h = absurd h
    bulk_index-IsSettled (x ∷ events) s h =
        post_body-IsSettled (x ∷ events) s (bulk_body client (client.now s) (x ∷ events)) refl h
