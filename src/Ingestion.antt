-- ===== src/Ingestion.antt =====
-- internal/ingestion/handler.go: the handler of POST /v1/logs. Log lines are left out. The messages
-- and the handler's parts stand in `Types`, the validation of a request in `Batch`.
pub mod Types
pub mod Batch
pub mod Accounts
pub mod Replies
pub mod Concurrent
pub mod Options
use log_service.Prelude.{
  ℕ, ◌+◌, ◌-◌, Bool, true, false, List, Option, none, some, Result, ok, err, length, ltb,
  if◌then◌else◌,
}
use log_service.Prelude.Clock.{Context, with_timeout}
use log_service.Prelude.Int.{ℤ, pos, pos_part, is_positive}
use log_service.Prelude.Text.{Text, codes, text_eq, contains}
use log_service.LogEvent.{Event}
use log_service.Metrics
use log_service.Metrics.{Counters}
use log_service.Publisher.{Publisher}
use log_service.Spool.Writer.{State, WriteError, full}
use Types.{
  Message, method_not_allowed, body_too_large, malformed_json, unavailable, spool_exhausted,
  saturated, invalid, Body, accepted, failure, Reply, HttpRequest, Decoded, refused, decoded,
  Spooler, Handler, Slots, Server,
}
use Batch.{Request, ValidateError, validate}

-- NewHandler makes a channel if the limit is above zero.
abbrev pub new_in_flight : ℤ → Option Slots
new_in_flight max_in_flight =
    if is_positive max_in_flight
    then some (record { cap = pos_part max_in_flight; taken = 0 })
    else none

abbrev pub method_post : Text
method_post = codes "POST"

abbrev pub storage_kafka : Text
storage_kafka = codes "kafka"

abbrev pub storage_spool : Text
storage_spool = codes "spool"

-- writeError
abbrev pub error_reply : ℕ → Message → Reply
error_reply status message = record {
  status = status;
  allow = none;
  retry_after = false;
  body = failure message;
}

abbrev pub accepted_reply : List Event → Text → Bool → Reply
accepted_reply events storage degraded = record {
  status = 202;
  allow = none;
  retry_after = false;
  body = accepted (length events) storage degraded;
}

abbrev pub not_post : Reply
not_post = record (error_reply 405 method_not_allowed) { allow = some method_post }

abbrev pub no_place : Reply
no_place = record (error_reply 503 saturated) { retry_after = true }

abbrev pub count : (Counters → Counters) → Option Counters → Option Counters
count f none = none
count f (some c) = some (f c)

-- acquire: a place, if the handler has places and one is free.
unfoldable pub acquire : Option Slots → Option (Option Slots)
acquire none = some none
acquire (some slots) =
    if ltb slots.taken slots.cap
    then some (some (record slots { taken = slots.taken + 1 }))
    else none

unfoldable pub release : Option Slots → Option Slots
release none = none
release (some slots) = some (record slots { taken = slots.taken - 1 })

unfoldable pub to_metric_spool_state : State → Metrics.SpoolState
to_metric_spool_state state = record {
  dir = state.dir;
  mode = state.mode;
  used_bytes = state.used_bytes;
  max_bytes = state.max_bytes;
  file_count = state.file_count;
}

module _ {S : Type 0} where
  abbrev pub observe : (Counters → Counters) → Server S → Server S
  observe f s = record s { metrics = count f s.metrics }

  abbrev pub observe_state : Option (S → State) → Server S → Server S
  observe_state none s = s
  observe_state (some state) s =
      observe (Metrics.observe_spool_state (to_metric_spool_state (state s.world))) s

  abbrev pub observe_spooler : Option (Spooler S) → Server S → Server S
  observe_spooler none s = s
  observe_spooler (some spooler) s = observe_state spooler.state s

  -- A reply that rejects so many records
  abbrev pub reject : ℕ → Reply → Server S → Reply × Server S
  reject records reply s = (reply, observe (Metrics.observe_rejected (pos records)) s)

module _ {S : Type 0} (h : Handler S) where
  -- observeSpoolState
  unfoldable pub observe_spool_state : Server S → Server S
  unfolding to_metric_spool_state
  observe_spool_state s = observe_spooler h.spooler s

  unfoldable pub accept : List Event → Text → Bool → Server S → Reply × Server S
  accept events storage degraded s = (
    accepted_reply events storage degraded,
    observe (Metrics.observe_accepted h.format events storage) s,
  )

  abbrev pub spool_failure : WriteError → Reply
  spool_failure full = record (error_reply 503 spool_exhausted) { retry_after = true }
  spool_failure e = error_reply 503 unavailable

  abbrev pub observe_last : Reply × Server S → Reply × Server S
  observe_last (reply, s) = (reply, observe_spool_state s)

  -- After the call of the spooler
  unfoldable pub spooled :
      List Event → Server S → Result WriteError (Unit {0}) × S → Reply × Server S
  unfolding observe_spool_state accept
  spooled events s (err e, world) = observe_last (
      reject (length events) (spool_failure e)
        (observe Metrics.observe_spool_write_error (record s { world = world })))
  spooled events s (ok _, world) =
      observe_last (accept events storage_spool true (record s { world = world }))

  unfoldable pub fall_back : Context → List Event → Server S → Option (Spooler S) → Reply × Server S
  unfolding spooled
  fall_back ctx events s none = reject (length events) (error_reply 503 unavailable) s
  fall_back ctx events s (some spooler) = spooled events s (spooler.write ctx events s.world)

  -- After the call of the publisher
  unfoldable pub published :
      Context → List Event → Server S → Result Text (Unit {0}) × S → Reply × Server S
  unfolding fall_back accept
  published ctx events s (ok _, world) =
      accept events storage_kafka false (record s { world = world })
  published ctx events s (err e, world) =
      fall_back ctx events
        (observe Metrics.observe_kafka_publish_error (record s { world = world })) h.spooler

  unfoldable pub send : Context → List Event → Server S → Option (Publisher S) → Reply × Server S
  unfolding published
  send ctx events s none = reject (length events) (error_reply 503 unavailable) s
  send ctx events s (some publisher) = published ctx events s (publisher.publish ctx events s.world)

  abbrev pub request_context : HttpRequest → S → Context
  request_context r world =
      if is_positive h.request_timeout
      then with_timeout r.ctx (h.now world).instant (pos_part h.request_timeout)
      else r.ctx

  unfoldable pub check :
      HttpRequest → Request → Server S → Result ValidateError (List Event) → Reply × Server S
  unfolding send
  check r req s (err e) = reject (length req.records) (error_reply 422 (invalid e)) s
  check r req s (ok events) = send (request_context r s.world) events s h.publisher

  -- The text that marks the error of a body over the limit.
  abbrev pub too_large : Text
  too_large = codes "http: request body too large"

  unfoldable pub read_body : HttpRequest → Server S → Decoded → Reply × Server S
  unfolding check
  read_body r s (refused message) =
      reject 0
        (if contains message too_large
          then error_reply 413 body_too_large
          else error_reply 400 malformed_json)
        s
  read_body r s (decoded req ends) =
      if ends
      then check r req s (validate h.readers h.max_batch_size (h.now s.world) req)
      else reject (length req.records) (error_reply 400 malformed_json) s

  abbrev pub body_limit : ℕ
  body_limit = if is_positive h.max_body_bytes then pos_part h.max_body_bytes else 1_048_576

  -- ServeHTTP, once it has a place
  unfoldable pub handle : HttpRequest → Server S → Reply × Server S
  unfolding read_body
  handle r s =
      if text_eq r.method method_post
      then read_body r s (h.decode body_limit r.payload)
      else reject 0 not_post s

  abbrev pub leave : Reply × Server S → Reply × Server S
  leave (reply, s) = (reply, record s { in_flight = release s.in_flight })

  abbrev pub enter : HttpRequest → Server S → Option (Option Slots) → Reply × Server S
  enter r s none = reject 0 no_place s
  enter r s (some slots) = leave (handle r (record s { in_flight = slots }))

  -- ServeHTTP
  unfoldable pub serve_http : HttpRequest → Server S → Reply × Server S
  unfolding handle acquire release observe_spool_state
  serve_http r s =
      let started = observe_spool_state (observe Metrics.observe_request s) in
      enter r started (acquire started.in_flight)
