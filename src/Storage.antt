-- ===== src/Storage.antt =====
-- internal/storage/elasticsearch.go: the bulk indexing of events. The HTTP client, the decoding of its
-- answer, the formats and `time.ParseDuration` are parameters.
pub mod Accounted
pub mod Settles
use log_service.Prelude.{
  ℕ, ◌+◌, Bool, true, false, List, [], ◌∷◌, ◌++◌, Option, none, some, Result, ok, err, or_err,
  ◌>>=◌, ◌&&◌, ◌||◌, ◌==◌, leb, ltb, if◌then◌else◌,
}
use log_service.Prelude.Clock.{Time, is_zero, utc}
use log_service.Prelude.Int.{ℤ, pos, ltb_ℤ}
use log_service.Prelude.Text.{Text, codes, is_empty}
use log_service.LogEvent.{Event, Codec}
use log_service.Spool.Lines.{newline}

pub record DocumentFailure : Type 0 where
  pub event : Event
  pub status : ℤ
  pub reason : Text

pub record BulkResult : Type 0 where
  pub indexed : ℕ
  pub permanent : List DocumentFailure
  pub retryable : List Event
  pub retry_after : ℤ

pub record BulkItemResult : Type 0 where
  pub status : ℤ
  pub error_type : Text
  pub error_reason : Text

-- A map from the name of an action to its result, in the order in which an iteration gives it.
abbrev pub BulkItem : Type 0
BulkItem = List (Text × BulkItemResult)

pub record BulkResponse : Type 0 where
  pub errors : Bool
  pub items : List BulkItem

pub data BulkError : Type 0 where
  not_encoded not_sent not_read not_json : BulkError
  returned : ℕ → BulkError

-- The answer to a request: its status, the header `Retry-After`, and the body if it can be read.
pub record Answer : Type 0 where
  pub status : ℕ
  pub retry_after : Text
  pub body : Option Text

-- What the client takes from Go's packages: the format of an index name, the encoding of the action for
-- an index, the decoding of an answer, the reading of a duration, the clock, and the sending of a
-- request; `none` is an error.
pub record Client (S : Type 0) : Type 0 where
  pub codec : Codec
  pub format_index : Time → Text
  pub encode_action : Text → Option Text
  pub decode_response : Text → Option BulkResponse
  pub parse_duration : Text → Option ℤ
  pub now : S → Time
  pub post : Text → S → Option Answer × S

abbrev pub no_result : BulkResult
no_result = record { indexed = 0; permanent = []; retryable = []; retry_after = pos 0 }

-- statusReason
abbrev pub status_reason : BulkItem → ℤ × Text
status_reason [] = (pos 0, codes "missing bulk item result")
status_reason ((action, result) ∷ item) =
    (result.status, if is_empty result.error_reason then result.error_type else result.error_reason)

-- `status >= 200 && status < 300`
abbrev pub is_success : ℤ → Bool
is_success status = ltb_ℤ (pos 199) status && ltb_ℤ status (pos 300)

-- `status == http.StatusTooManyRequests || status >= 500`
abbrev pub is_retryable : ℤ → Bool
is_retryable status = (ltb_ℤ (pos 428) status && ltb_ℤ status (pos 430)) || ltb_ℤ (pos 499) status

-- One step of the loop of BulkIndex; a result behind the last event counts only if it is a success.
unfoldable pub add_item : BulkItem → Option Event → BulkResult → BulkResult
add_item item o r =
    if is_success (status_reason item).0 then record r { indexed = r.indexed + 1 } else elim o [
      | none ↦ r
      | some event ↦
          if is_retryable (status_reason item).0
          then record r { retryable = event ∷ r.retryable }
          else record r {
            permanent =
                record {
                  event = event;
                  status = (status_reason item).0;
                  reason = (status_reason item).1;
                }
                ∷ r.permanent;
          }
    ]

-- The loop of BulkIndex.
unfoldable pub collect : List BulkItem → List Event → BulkResult
unfolding add_item
collect [] events = no_result
collect (item ∷ items) [] = add_item item none (collect items [])
collect (item ∷ items) (event ∷ events) = add_item item (some event) (collect items events)

module _ {S : Type 0} (client : Client S) where
  abbrev pub index_time : Time → Event → Time
  index_time now event = if is_zero event.timestamp then now else event.timestamp

  -- bulkBody, at the time that the clock shows
  unfoldable pub bulk_body : Time → List Event → Option Text
  bulk_body now [] = some []
  bulk_body now (event ∷ events) =
      let rest = bulk_body now events in
      elim (client.encode_action (client.format_index (utc (index_time now event)))) [
        | none ↦ none
        | some action ↦ elim (client.codec.marshal event) [
          | none ↦ none
          | some document ↦ elim rest [
            | none ↦ none
            | some body ↦ some (action ++ (newline ∷ (document ++ (newline ∷ body))))
          ]
        ]
      ]

  -- retryAfter
  unfoldable pub retry_after : Text → ℤ
  retry_after raw =
      if is_empty raw
      then pos 0
      else elim (client.parse_duration (raw ++ codes "s")) [ none ↦ pos 0 | some d ↦ d ]

  abbrev pub read_response : List Event → Option BulkResponse → BulkResult × Option BulkError
  read_response events none = (no_result, some not_json)
  read_response events (some response) = (collect response.items events, none)

  abbrev pub read_payload : List Event → Option Text → BulkResult × Option BulkError
  read_payload events none = (no_result, some not_read)
  read_payload events (some payload) = read_response events (client.decode_response payload)

  -- After the call of the HTTP client
  unfoldable pub answered : List Event → Option Answer → BulkResult × Option BulkError
  unfolding collect retry_after
  answered events none = (no_result, some not_sent)
  answered events (some res) =
      if res.status == 429 || leb 500 res.status
      then (
        record no_result { retryable = events; retry_after = retry_after res.retry_after },
        some (returned res.status),
      )
      else if leb 400 res.status
      then (no_result, some (returned res.status))
      else read_payload events res.body

  abbrev pub post_body : List Event → S → Option Text → (BulkResult × Option BulkError) × S
  post_body events s none = ((no_result, some not_encoded), s)
  post_body events s (some body) = (answered events (client.post body s).0, (client.post body s).1)

  -- BulkIndex
  unfoldable pub bulk_index : List Event → S → (BulkResult × Option BulkError) × S
  unfolding answered bulk_body
  bulk_index [] s = ((no_result, none), s)
  bulk_index (event ∷ events) s =
      post_body (event ∷ events) s (bulk_body (client.now s) (event ∷ events))
