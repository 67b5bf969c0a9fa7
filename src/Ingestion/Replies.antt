-- ===== src/Ingestion/Replies.antt =====
-- What each branch of the handler replies and leaves behind (internal/ingestion/handler.go).
use log_service.Prelude.{
  ℕ, Bool, length, ◌≡◌, ◌≢◌, ◌⊎◌, inl, inr, refl, sym, ap, Bool-cases, true, false, List, Option,
  none, some, Result, ok, err, arith,
}
use log_service.Prelude.Text.{Text, codes, text_eq, contains}
use log_service.LogEvent.{Event}
use log_service.Publisher.{Publisher}
use log_service.Spool.Writer.{WriteError, context_done, full, io_error, not_marshalled}
use log_service.Ingestion.Types.{
  Message, accepted, failure, Reply, HttpRequest, Decoded, refused, decoded, Spooler, Handler,
  Slots, Server, method_not_allowed, body_too_large, malformed_json, unavailable, spool_exhausted,
  saturated, invalid,
}
use log_service.Ingestion.Batch.{Request, ValidateError, validate}
use log_service.Ingestion.{
  body_limit, request_context, observe_spooler, observe_spool_state, accept, spooled, fall_back,
  published, send, check, read_body, handle, enter, serve_http,
}

-- The events that the request's body makes, if it is decoded to its end and valid.
pub record Valid {S : Type 0} (h : Handler S) (r : HttpRequest) (w : S) (events : List Event)
    : Type 0 where
  pub req : Request
  pub decodes : h.decode (body_limit h) r.payload ≡ decoded req true
  pub validates : validate h.readers h.max_batch_size (h.now w) req ≡ ok events

-- The reply of a refusal: its status, the header `Allow`, whether `Retry-After` is set, and what its body says.
abbrev pub refusal : ℕ → Option Text → Bool → Message → Reply
refusal status allow retry_after message = record {
  status = status;
  allow = allow;
  retry_after = retry_after;
  body = failure message;
}

-- The reply to a batch that is stored: how many records, where, and whether the API is degraded.
abbrev pub stored : List Event → Text → Bool → Reply
stored events storage degraded = record {
  status = 202;
  allow = none;
  retry_after = false;
  body = accepted (length events) storage degraded;
}

-- What became of a request that had a place: its reply, written out, and the world behind it, with the test or
-- call that decided.
pub data Outcome {S : Type 0} (h : Handler S) (r : HttpRequest) (w : S) (reply : Reply) (w' : S)
    : Type 0 where
  wrong_method :
      text_eq r.method (codes "POST") ≡ false
      → reply ≡ refusal 405 (some (codes "POST")) false method_not_allowed
      → w' ≡ w
      → Outcome h r w reply w'
  over_limit :
      (message : Text)
      → h.decode (body_limit h) r.payload ≡ refused message
      → contains message (codes "http: request body too large") ≡ true
      → reply ≡ refusal 413 none false body_too_large
      → w' ≡ w
      → Outcome h r w reply w'
  not_json :
      (message : Text)
      → h.decode (body_limit h) r.payload ≡ refused message
      → contains message (codes "http: request body too large") ≡ false
      → reply ≡ refusal 400 none false malformed_json
      → w' ≡ w
      → Outcome h r w reply w'
  trailing :
      (req : Request)
      → h.decode (body_limit h) r.payload ≡ decoded req false
      → reply ≡ refusal 400 none false malformed_json
      → w' ≡ w
      → Outcome h r w reply w'
  unfit :
      (req : Request) (e : ValidateError)
      → h.decode (body_limit h) r.payload ≡ decoded req true
      → validate h.readers h.max_batch_size (h.now w) req ≡ err e
      → reply ≡ refusal 422 none false (invalid e)
      → w' ≡ w
      → Outcome h r w reply w'
  unconfigured :
      (events : List Event)
      → Valid h r w events
      → h.publisher ≡ none
      → reply ≡ refusal 503 none false unavailable
      → w' ≡ w
      → Outcome h r w reply w'
  in_kafka :
      (events : List Event) (p : Publisher S)
      → Valid h r w events
      → h.publisher ≡ some p
      → p.publish (request_context h r w) events w ≡ (ok tt, w')
      → reply ≡ stored events (codes "kafka") false
      → Outcome h r w reply w'
  unspoolable :
      (events : List Event) (p : Publisher S) (e : Text)
      → Valid h r w events
      → h.publisher ≡ some p
      → p.publish (request_context h r w) events w ≡ (err e, w')
      → h.spooler ≡ none
      → reply ≡ refusal 503 none false unavailable
      → Outcome h r w reply w'
  in_spool :
      (events : List Event) (p : Publisher S) (e : Text) (w1 : S) (sp : Spooler S)
      → Valid h r w events
      → h.publisher ≡ some p
      → p.publish (request_context h r w) events w ≡ (err e, w1)
      → h.spooler ≡ some sp
      → sp.write (request_context h r w) events w1 ≡ (ok tt, w')
      → reply ≡ stored events (codes "spool") true
      → Outcome h r w reply w'
  spool_full :
      (events : List Event) (p : Publisher S) (e : Text) (w1 : S) (sp : Spooler S)
      → Valid h r w events
      → h.publisher ≡ some p
      → p.publish (request_context h r w) events w ≡ (err e, w1)
      → h.spooler ≡ some sp
      → sp.write (request_context h r w) events w1 ≡ (err full, w')
      → reply ≡ refusal 503 none true spool_exhausted
      → Outcome h r w reply w'
  spool_failed :
      (events : List Event) (p : Publisher S) (e : Text) (w1 : S) (sp : Spooler S) (x : WriteError)
      → Valid h r w events
      → h.publisher ≡ some p
      → p.publish (request_context h r w) events w ≡ (err e, w1)
      → h.spooler ≡ some sp
      → sp.write (request_context h r w) events w1 ≡ (err x, w')
      → x ≢ full
      → reply ≡ refusal 503 none false unavailable
      → Outcome h r w reply w'

-- The reply to a request that finds no place.
abbrev pub saturation : Reply
saturation = refusal 503 none true saturated

module _ {S : Type 0} (h : Handler S) (r : HttpRequest) where
  -- The reply and the world behind it.
  abbrev Ends : S → Reply × Server S → Type 0
  Ends w out = Outcome h r w out.0 out.1.world

  world-observe_spooler :
      (sp : Option (Spooler S)) (s : Server S) → (observe_spooler sp s).world ≡ s.world
  world-observe_spooler sp s = ground arith

  module _ (w : S) (events : List Event) (valid : Valid h r w events) where
    spooled-Outcome :
        (p : Publisher S) (e : Text) (s : Server S) (sp : Spooler S)
        (out : Result WriteError (Unit {0}) × S)
        → h.publisher ≡ some p
        → p.publish (request_context h r w) events w ≡ (err e, s.world)
        → h.spooler ≡ some sp
        → sp.write (request_context h r w) events s.world ≡ out
        → Ends w (spooled h events s out)
    unfolding spooled observe_spool_state
    spooled-Outcome p e s sp (ok tt, w') hp he hs hw =
        in_spool events p e s.world sp valid hp he hs (rw world-observe_spooler hw) refl
    spooled-Outcome p e s sp (err full, w') hp he hs hw =
        spool_full events p e s.world sp valid hp he hs (rw world-observe_spooler hw) refl
    spooled-Outcome p e s sp (err context_done, w') hp he hs hw =
        spool_failed events p e s.world sp context_done valid hp he hs (rw world-observe_spooler hw)
          (λ k. cc) refl
    spooled-Outcome p e s sp (err io_error, w') hp he hs hw =
        spool_failed events p e s.world sp io_error valid hp he hs (rw world-observe_spooler hw)
          (λ k. cc) refl
    spooled-Outcome p e s sp (err (not_marshalled f), w') hp he hs hw =
        spool_failed events p e s.world sp (not_marshalled f) valid hp he hs
          (rw world-observe_spooler hw) (λ k. cc) refl

    fall_back-Outcome :
        (p : Publisher S) (e : Text) (s : Server S) (o : Option (Spooler S))
        → h.publisher ≡ some p
        → p.publish (request_context h r w) events w ≡ (err e, s.world)
        → h.spooler ≡ o
        → Ends w (fall_back h (request_context h r w) events s o)
    unfolding fall_back
    fall_back-Outcome p e s none hp he hs = unspoolable events p e valid hp he hs refl
    fall_back-Outcome p e s (some sp) hp he hs = spooled-Outcome p e s sp _ hp he hs refl

    published-Outcome :
        (p : Publisher S) (s : Server S) (out : Result Text (Unit {0}) × S)
        → h.publisher ≡ some p
        → p.publish (request_context h r w) events w ≡ out
        → Ends w (published h (request_context h r w) events s out)
    unfolding published accept
    published-Outcome p s (ok tt, w') hp he = in_kafka events p valid hp he refl
    published-Outcome p s (err e, w') hp he = fall_back-Outcome p e _ h.spooler hp he refl

    send-Outcome :
        (s : Server S) (o : Option (Publisher S))
        → s.world ≡ w
        → h.publisher ≡ o
        → Ends w (send h (request_context h r w) events s o)
    unfolding send
    send-Outcome s none hw hp = unconfigured events valid hp refl hw
    send-Outcome s (some p) hw hp = published-Outcome p s _ hp (ap (p.publish _ events) (sym hw))

  check-Outcome :
      (req : Request) (s : Server S) (v : Result ValidateError (List Event))
      → h.decode (body_limit h) r.payload ≡ decoded req true
      → validate h.readers h.max_batch_size (h.now s.world) req ≡ v
      → Ends s.world (check h r req s v)
  unfolding check
  check-Outcome req s (err e) hd hv = unfit req e hd hv refl refl
  check-Outcome req s (ok events) hd hv =
      send-Outcome s.world events (record { req = req; decodes = hd; validates = hv }) s h.publisher
        refl refl

  read_body-Outcome :
      (s : Server S) (d : Decoded)
      → h.decode (body_limit h) r.payload ≡ d
      → Ends s.world (read_body h r s d)
  unfolding read_body
  read_body-Outcome s (refused message) hd =
      elim (Bool-cases (contains message (codes "http: request body too large"))) [
        | inl big ↦ over_limit message hd big (rw big) refl
        | inr small ↦ not_json message hd small (rw small) refl
      ]
  read_body-Outcome s (decoded req true) hd = check-Outcome req s _ hd refl
  read_body-Outcome s (decoded req false) hd = trailing req hd refl refl

  -- A request that has a place ends in one of eleven ways, each with its reply and the world that it
  -- leaves: the method, the body, the batch, Kafka and the spool are tried in this order, the first
  -- refusal decides, and nothing reaches Kafka or the spool before the batch is valid.
  pub handle-Outcome : (s : Server S) → Outcome h r s.world (handle h r s).0 (handle h r s).1.world
  unfolding handle
  handle-Outcome s = elim (Bool-cases (text_eq r.method (codes "POST"))) [
    | inl post ↦ rw post (read_body-Outcome s _ refl)
    | inr other ↦ rw other (wrong_method other refl refl)
  ]

  enter-Outcome :
      (w : S) (s : Server S) (o : Option (Option Slots))
      → s.world ≡ w
      → (((enter h r s o).0 ≡ saturation) × ((enter h r s o).1.world ≡ w)) ⊎ Ends w (enter h r s o)
  enter-Outcome w s none e = inl (refl, e)
  enter-Outcome w s (some slots) e =
      inr (rw (← e) (handle-Outcome (record s { in_flight = slots })))

  pub serve_http-Outcome :
      (s : Server S)
      → (((serve_http h r s).0 ≡ saturation) × ((serve_http h r s).1.world ≡ s.world))
        ⊎ Outcome h r s.world (serve_http h r s).0 (serve_http h r s).1.world
  unfolding serve_http observe_spool_state
  serve_http-Outcome s = enter-Outcome s.world _ _ (world-observe_spooler h.spooler _)

  -- A request gives back the place that it took.
  pub in_flight-serve_http : (s : Server S) → (serve_http h r s).1.in_flight ≡ s.in_flight
  unfolding serve_http
  in_flight-serve_http s = ground arith
