-- ===== src/Ingestion/Batch.antt =====
-- internal/ingestion/request.go (the request) and `validate` of internal/ingestion/handler.go, which
-- makes the events of a batch.
pub mod Laws
use log_service.Prelude.{
  ℕ, ◌+◌, ◌&&◌, List, [], ◌∷◌, Result, ok, err, length, ltb, if◌then◌else◌, ◌>>=◌,
}
use log_service.Prelude.Clock.{Time, utc, zero_time}
use log_service.Prelude.Int.{ℤ, pos_part, is_positive}
use log_service.Prelude.Text.{Text, is_empty, trim_space}
use log_service.LogEvent.{Event}
use log_service.LogLine.{Readers, ParseError, Record, parse}

pub record Request : Type 0 where
  pub source : Text
  pub records : List Text

pub data ValidateError : Type 0 where
  source_required records_empty : ValidateError
  batch_too_large : ℕ → ℤ → ValidateError
  record_invalid : ℕ → ParseError → ValidateError

unfoldable pub event_of : Text → Time → Record → Event
event_of source received_at parsed = record {
  source = source;
  raw = parsed.raw;
  timestamp = parsed.timestamp;
  ip = parsed.ip.text;
  method = parsed.method;
  path = parsed.path;
  status = parsed.status;
  received_at = received_at;
  processed_at = zero_time;
  worker_id = [];
}

abbrev pub number_error : ℕ → Result ParseError Record → Result ValidateError Record
number_error i (ok parsed) = ok parsed
number_error i (err e) = err (record_invalid i e)

-- The loop of validate.
unfoldable pub parse_records :
    Readers → Text → Time → ℕ → List Text → Result ValidateError (List Event)
unfolding event_of
parse_records readers source received_at i [] = ok []
parse_records readers source received_at i (record_text ∷ records) = do
  parsed ← number_error i (parse readers record_text)
  events ← parse_records readers source received_at (i + 1) records
  ok (event_of source received_at parsed ∷ events)

unfoldable pub validate : Readers → ℤ → Time → Request → Result ValidateError (List Event)
validate readers max_batch_size now req =
    if is_empty (trim_space req.source)
    then err source_required
    else if ltb 0 (length req.records)
    then if is_positive max_batch_size && ltb (pos_part max_batch_size) (length req.records)
      then err (batch_too_large (length req.records) max_batch_size)
      else parse_records readers (trim_space req.source) (utc now) 0 req.records
    else err records_empty
