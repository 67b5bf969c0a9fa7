-- ===== src/Tests/Counting.antt =====
-- The counters, the validation of batches and the producer at concrete inputs.
use log_service.Prelude.{◌≡◌, ◌≢◌, ◌≤◌, ◌<◌, refl, ok, err, some, List, [], ◌∷◌, ◌++◌, true}
use log_service.Prelude.Clock.{Time, Context, utc}
use log_service.Prelude.Int.{pos, is_positive}
use log_service.Prelude.Text.{Text, codes, trim_space, trim_left, trim_right, is_space, split}
use log_service.LogLine.{invalid_method}
use log_service.Metrics.{Counters, new_counters, observe_accepted}
use log_service.Metrics.Totals.{IsBalanced, observe_accepted-IsBalanced}
use log_service.Kafka.{Message, MessageWriter, publish, split_brokers, keep_brokers, to_messages}
use log_service.Kafka.Appends.{Appends, CarryAll, publish-CarryAll}
use log_service.Ingestion.Batch.{Request, validate, record_invalid, parse_records, event_of}
use log_service.Ingestion.Batch.Laws.{MadeFrom, validate-MadeFrom}
use log_service.Tests.Samples.{
  now, readers, line, source, event, codec, codec-IsJson, json, marshal-event, event-IsUtf8,
}
use log_service.Tests.LogLines.{parse-line, bad_line, parse_bad}

abbrev pub format : Time → Text
format t = codes "minute"

abbrev pub counters : Counters
counters = new_counters (codes "log-api") now

observe_accepted-IsBalanced_example :
    IsBalanced (observe_accepted format (event ∷ event ∷ []) (codes "kafka") counters)
observe_accepted-IsBalanced_example =
    observe_accepted-IsBalanced format (event ∷ event ∷ []) (codes "kafka") counters
      (record { batches = refl; dimensions = refl })

abbrev pub request : Request
request = record { source = codes " web "; records = line ∷ line ∷ [] }

pub validate-request : validate readers (pos 1000) now request ≡ ok (event ∷ event ∷ [])
unfolding validate parse_records event_of trim_space trim_left trim_right is_space
validate-request = rw parse-line refl

validate-MadeFrom_example :
    (trim_space (codes " web ") ≢ [])
    × (0 < 2)
    × (is_positive (pos 1000) ≡ true → 2 ≤ 1000)
    × MadeFrom readers
        (trim_space (codes " web "))
        (utc now)
        (line ∷ line ∷ [])
        (event ∷ event ∷ [])
validate-MadeFrom_example =
    validate-MadeFrom readers (pos 1000) now request (event ∷ event ∷ []) validate-request

abbrev bad_request : Request
bad_request = record { source = source; records = line ∷ bad_line ∷ [] }

validate_bad :
    validate readers (pos 1000) now bad_request
    ≡ err (record_invalid 1 (invalid_method (codes "BREW")))
unfolding validate parse_records trim_space trim_left trim_right is_space
validate_bad = rw (parse-line, parse_bad) refl

-- A topic that takes every message.
abbrev topic_writer : MessageWriter (List Message)
topic_writer = record { write_messages = λ ctx messages s. (ok tt, s ++ messages) }

topic_writer-Appends : Appends topic_writer (λ s. s)
topic_writer-Appends = record { appends = λ ctx messages s h. refl }

abbrev ctx : Context
ctx = record { ends = some 5000 }

publish_event : (publish codec topic_writer ctx (event ∷ []) []).0 ≡ ok tt
unfolding publish to_messages
publish_event = rw (marshal-event json) refl

publish-CarryAll_example :
    (messages : List Message) × ((publish codec topic_writer ctx (event ∷ []) []).1
      ≡ [] ++ messages)
    × CarryAll codec messages (event ∷ [])
publish-CarryAll_example =
    publish-CarryAll codec codec-IsJson topic_writer (λ s. s) topic_writer-Appends ctx (event ∷ [])
      [] (event-IsUtf8, tt) publish_event

split_brokers_test : split_brokers (codes " a:1, ,b:2") ≡ codes "a:1" ∷ codes "b:2" ∷ []
unfolding split_brokers keep_brokers split trim_space trim_left trim_right is_space
split_brokers_test = refl
