-- ===== src/Kafka.antt =====
-- internal/kafka/producer.go: the publisher of batches, over the writer of the package kafka-go, which
-- is a parameter. `NewProducer` sets that writer up for synchronous writes that all replicas confirm.
pub mod Appends
use log_service.Prelude.{Bool, List, [], ◌∷◌, Option, Result, ok, err, or_err, ◌>>=◌, if◌then◌else◌}
use log_service.Prelude.Clock.{Time, Context}
use log_service.Prelude.Text.{Text, codes, is_empty, trim_space, split}
use log_service.LogEvent.{Codec, Event}
use log_service.Publisher.{Publisher}

pub record Message : Type 0 where
  pub key : Text
  pub value : Text
  pub time : Time

-- `(*kafka.Writer).WriteMessages`
pub record MessageWriter (S : Type 0) : Type 0 where
  pub write_messages : Context → List Message → S → Result Text (Unit {0}) × S

abbrev pub marshal_error : Text
marshal_error = codes "json: unsupported value"

module _ (codec : Codec) where
  -- The loop of Publish.
  unfoldable pub to_messages : List Event → Result Text (List Message)
  to_messages [] = ok []
  to_messages (event ∷ events) = do
    value ← or_err (codec.marshal event) marshal_error
    messages ← to_messages events
    ok (record { key = event.source; value = value; time = event.received_at } ∷ messages)

  abbrev pub send_all :
      {S : Type 0}
      → MessageWriter S
      → Context
      → S
      → Result Text (List Message)
      → Result Text (Unit {0}) × S
  send_all writer ctx s (err e) = (err e, s)
  send_all writer ctx s (ok messages) = writer.write_messages ctx messages s

  -- Publish
  unfoldable pub publish :
      {S : Type 0} → MessageWriter S → Context → List Event → S → Result Text (Unit {0}) × S
  publish writer ctx events s = send_all writer ctx s (to_messages events)

  abbrev pub producer : {S : Type 0} → MessageWriter S → Publisher S
  producer writer = record { publish = publish writer }

-- The part of splitBrokers after `strings.Split`.
unfoldable pub keep_brokers : List Text → List Text
keep_brokers [] = []
keep_brokers (part ∷ parts) =
    let rest = keep_brokers parts in
    if is_empty (trim_space part) then rest else trim_space part ∷ rest

unfoldable pub split_brokers : Text → List Text
unfolding keep_brokers
split_brokers brokers = keep_brokers (split b',' brokers)
