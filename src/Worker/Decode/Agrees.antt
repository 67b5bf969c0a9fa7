-- ===== src/Worker/Decode/Agrees.antt =====
-- The worker understands what the API publishes (internal/worker/service.go with internal/ingestion and
-- internal/kafka).
use log_service.Prelude.{some, ◌≡◌, refl, List, [], ◌∷◌, ok, All}
use log_service.Prelude.Clock.{Time, utc}
use log_service.Prelude.Int.{ℤ}
use log_service.Prelude.Text.{Text}
use log_service.LogEvent.{Event, Codec, IsJson, IsUtf8}
use log_service.LogLine.{Readers, Record, parse}
use log_service.Kafka.{Message, to_messages}
use log_service.Kafka.Appends.{CarryAll, to_messages-CarryAll}
use log_service.Ingestion.Batch.{Request, event_of, validate}
use log_service.Ingestion.Batch.Laws.{MadeFrom, validate-MadeFrom}
use log_service.Worker.Decode.{decode}

-- The event as the worker hands it on.
abbrev pub processed : Text → Time → Event → Event
processed worker_id now e = record e { processed_at = utc now; worker_id = worker_id }

-- The messages decode to the events, one for each, with only the worker's two fields set.
abbrev pub DecodeAll : Codec → Readers → Text → Time → List Message → List Event → Type 0
DecodeAll codec readers worker_id now [] [] = Unit
DecodeAll codec readers worker_id now (m ∷ ms) (e ∷ es) =
    (decode codec readers worker_id now m.value ≡ ok (processed worker_id now e))
    × DecodeAll codec readers worker_id now ms es
DecodeAll codec readers worker_id now _ _ = ⊥

module _ (codec : Codec) (readers : Readers) (worker_id : Text) (now : Time) where
  decode-made :
      (source value : Text) (at : Time) (e : Event) (p : Record)
      → codec.unmarshal value ≡ some e
      → parse readers e.raw ≡ ok p
      → e ≡ event_of source at p
      → decode codec readers worker_id now value ≡ ok (processed worker_id now e)
  unfolding decode event_of
  decode-made source value at e p u again made = rw (u, again, made) refl

  CarryAll-DecodeAll :
      (source : Text) (at : Time) (lines : List Text) (events : List Event)
      (messages : List Message)
      → MadeFrom readers source at lines events
      → CarryAll codec messages events
      → DecodeAll codec readers worker_id now messages events
  CarryAll-DecodeAll source at [] [] [] made carried = tt
  CarryAll-DecodeAll source at (l ∷ lines) (e ∷ events) (m ∷ messages) made carried =
      let (p, good, again, eq) = made.0 in
      (
        decode-made source m.value at e p carried.0.decodes again eq,
        CarryAll-DecodeAll source at lines events messages made.1 carried.1,
      )
  CarryAll-DecodeAll source at [] [] (m ∷ ms) made carried = absurd carried
  CarryAll-DecodeAll source at [] (e ∷ es) ms made carried = absurd made
  CarryAll-DecodeAll source at (l ∷ ls) [] ms made carried = absurd made
  CarryAll-DecodeAll source at (l ∷ ls) (e ∷ es) [] made carried = absurd carried

  -- With JSON as documented, every message that the API makes of a valid batch of UTF-8 texts is
  -- accepted by the worker with the same readers, and decodes to the batch's event with the worker's time and id set: parsing the line again gives the
  -- fields that the API had parsed.
  pub decode-to_messages :
      IsJson codec
      → (max : ℤ) (received : Time) (req : Request) (events : List Event) (messages : List Message)
      → validate readers max received req ≡ ok events
      → All IsUtf8 events
      → to_messages codec events ≡ ok messages
      → DecodeAll codec readers worker_id now messages events
  decode-to_messages json max received req events messages valid utf8 made =
      CarryAll-DecodeAll _ _ req.records events messages
        (validate-MadeFrom readers max received req events valid).3
        (to_messages-CarryAll codec json events messages utf8 made)
