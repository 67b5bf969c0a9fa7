-- ===== src/LogEvent.antt =====
-- internal/logevent/event.go: the event that the log API puts on Kafka or in its spool, and that
-- the worker indexes. Its JSON encoding by `encoding/json` is a parameter.
use log_service.Prelude.{◌≡◌, ◌≤◌, Option, some, All}
use log_service.Prelude.Clock.{Time}
use log_service.Prelude.Int.{ℤ}
use log_service.Prelude.Text.{Text, IsValid}

pub record Event : Type 0 where
  pub source : Text
  pub raw : Text
  pub timestamp : Time
  pub ip : Text
  pub method : Text
  pub path : Text
  pub status : ℤ
  pub received_at : Time
  pub processed_at : Time
  pub worker_id : Text

-- The event's texts are valid UTF-8.
abbrev pub IsUtf8 : Event → Type 0
IsUtf8 e =
    IsValid e.source
    × IsValid e.raw
    × IsValid e.ip
    × IsValid e.method
    × IsValid e.path
    × IsValid e.worker_id

-- `json.Marshal` and `json.Unmarshal` of an event; `none` is an error.
pub record Codec : Type 0 where
  pub marshal : Event → Option Text
  pub unmarshal : Text → Option Event

-- What the code relies on of `encoding/json`: the encoding of an event has no control character,
-- and that of an event of valid text decodes to the event.
pub record IsJson (codec : Codec) : Type 0 where
  pub no_control : (e : Event) (t : Text) → codec.marshal e ≡ some t → All (λ c. 32 ≤ c) t
  pub decodes :
      (e : Event) (t : Text) → IsUtf8 e → codec.marshal e ≡ some t → codec.unmarshal t ≡ some e
