-- ===== src/Worker/Decode.antt =====
-- `decode` of internal/worker/service.go: the event of a message from Kafka, with the fields of its line
-- parsed again.
pub mod Agrees
use log_service.Prelude.{Option, none, some, Result, ok, err}
use log_service.Prelude.Clock.{Time, utc}
use log_service.Prelude.Text.{Text}
use log_service.LogEvent.{Event, Codec}
use log_service.LogLine.{Readers, Record, ParseError, parse}

pub data DecodeError : Type 0 where
  invalid_json : DecodeError
  invalid_line : ParseError → DecodeError

module _ (codec : Codec) (readers : Readers) (worker_id : Text) (now : Time) where
  abbrev pub stamped : Event → Record → Event
  stamped event parsed = record event {
    timestamp = parsed.timestamp;
    ip = parsed.ip.text;
    method = parsed.method;
    path = parsed.path;
    status = parsed.status;
    processed_at = utc now;
    worker_id = worker_id;
  }

  abbrev pub decode_parsed : Event → Result ParseError Record → Result DecodeError Event
  decode_parsed event (err e) = err (invalid_line e)
  decode_parsed event (ok parsed) = ok (stamped event parsed)

  abbrev pub decode_event : Option Event → Result DecodeError Event
  decode_event none = err invalid_json
  decode_event (some event) = decode_parsed event (parse readers event.raw)

  unfoldable pub decode : Text → Result DecodeError Event
  decode value = decode_event (codec.unmarshal value)
