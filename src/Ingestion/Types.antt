-- ===== src/Ingestion/Types.antt =====
-- The messages of internal/ingestion and the parts of its handler. `S` holds the states of what
-- stands behind the publisher and the spooler. A reply is its status, the two headers that the handler
-- sets by name, and its body.
use log_service.Prelude.{ℕ, Bool, List, Option, Result}
use log_service.Prelude.Clock.{Time, Context}
use log_service.Prelude.Int.{ℤ}
use log_service.Prelude.Text.{Text}
use log_service.LogEvent.{Event}
use log_service.LogLine.{Readers}
use log_service.Metrics.{Counters}
use log_service.Publisher.{Publisher}
use log_service.Spool.Writer.{State, WriteError}
use log_service.Ingestion.Batch.{Request, ValidateError}

pub data Message : Type 0 where
  method_not_allowed body_too_large malformed_json unavailable spool_exhausted saturated : Message
  invalid : ValidateError → Message

pub data Body : Type 0 where
  accepted : ℕ → Text → Bool → Body
  failure : Message → Body

pub record Reply : Type 0 where
  pub status : ℕ
  pub allow : Option Text
  pub retry_after : Bool
  pub body : Body

pub record HttpRequest : Type 0 where
  pub method : Text
  pub payload : Text
  pub ctx : Context

-- What decoding a body of limited size gives: the text of an error, or a request and whether the
-- body ends behind it.
pub data Decoded : Type 0 where
  refused : Text → Decoded
  decoded : Request → Bool → Decoded

-- The interface `Spooler`, with the method `State` where the spooler has it.
pub record Spooler (S : Type 0) : Type 0 where
  pub write : Context → List Event → S → Result WriteError (Unit {0}) × S
  pub state : Option (S → State)

-- What the handler takes from Go's packages: the readers of a log line, the format of a time bucket,
-- the clock, and the JSON decoder over a body with a limit in bytes.
pub record Platform (S : Type 0) : Type 0 where
  pub readers : Readers
  pub format : Time → Text
  pub now : S → Time
  pub decode : ℕ → Text → Decoded

pub record Handler (S : Type 0) : Type 0 where
  pub platform : Platform S
  pub open platform use *
  pub publisher : Option (Publisher S)
  pub spooler : Option (Spooler S)
  pub max_body_bytes : ℤ
  pub max_batch_size : ℤ
  pub request_timeout : ℤ

-- The channel `inFlight`: its capacity and the requests that hold a place.
pub record Slots : Type 0 where
  pub cap : ℕ
  pub taken : ℕ

-- What requests share: the outside world, the counters and the places, each if configured.
pub record Server (S : Type 0) : Type 0 where
  pub world : S
  pub metrics : Option Counters
  pub in_flight : Option Slots
