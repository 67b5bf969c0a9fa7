-- ===== src/Tests/Working.antt =====
-- The worker and the bulk index at concrete batches.
use log_service.Prelude.{
  ℕ, ◌+◌, ◌≡◌, inl, inr, refl, false, List, [], ◌∷◌, ◌++◌, none, some, ok, arith,
}
use log_service.Prelude.Clock.{Context}
use log_service.Prelude.Int.{pos}
use log_service.Prelude.Text.{Text, codes}
use log_service.LogEvent.{Event}
use log_service.Kafka.{Message, to_messages}
use log_service.Storage.{BulkItem, not_sent, no_result, collect, add_item}
use log_service.Storage.Accounted.{accounted, accounted-collect, In}
use log_service.Worker.Stats.{new_stats}
use log_service.Worker.Decode.Agrees.{DecodeAll, decode-to_messages}
use log_service.Worker.Indexing.{
  Service, Worker, Queued, send_dlq, send_permanent_failures, attempt_once, update_replay_backlog,
  attempts, index_safely, process_batch,
}
use log_service.Worker.Indexing.Attempt.{Keeps}
use log_service.Worker.Indexing.Safe.{process_batch-Safe}
use log_service.Spool.Dir.{read}
use log_service.Worker.ReplayFiles.{FileCalls, write_replay}
use log_service.Tests.Spooling.{name}
use log_service.Tests.Samples.{
  now, readers, event, codec, codec-IsJson, event-IsUtf8, json, marshal-event, source,
}
use log_service.Tests.Counting.{request, validate-request}

-- An answer that took the first event, and wants the second again.
abbrev items : List BulkItem
items =
    ((codes "index", record { status = pos 201; error_type = []; error_reason = [] }) ∷ [])
    ∷ ((codes "index", record { status = pos 429; error_type = codes "busy"; error_reason = [] })
        ∷ [])
    ∷ []

collect_test :
    collect items (event ∷ event ∷ [])
    ≡ record { indexed = 1; permanent = []; retryable = event ∷ []; retry_after = pos 0 }
unfolding collect add_item
collect_test = refl

accounted-collect_example : accounted (collect items (event ∷ event ∷ [])) ≡ 2
accounted-collect_example = accounted-collect items (event ∷ event ∷ []) (omega arith)

abbrev pub kafka_message : Message
kafka_message = record { key = source; value = json; time = event.received_at }

pub to_messages-events :
    to_messages codec (event ∷ event ∷ []) ≡ ok (kafka_message ∷ kafka_message ∷ [])
unfolding to_messages
to_messages-events = rw (marshal-event json) refl

abbrev pub worker_id : Text
worker_id = codes "worker-1"

decode-to_messages_example :
    DecodeAll codec readers worker_id now (kafka_message ∷ kafka_message ∷ []) (event ∷ event ∷ [])
decode-to_messages_example =
    decode-to_messages codec readers worker_id now codec-IsJson (pos 1000) now request
      (event ∷ event ∷ []) (kafka_message ∷ kafka_message ∷ []) validate-request
      (event-IsUtf8, (event-IsUtf8, tt)) to_messages-events

-- A service over a replay directory, whose Elasticsearch cannot be reached.
abbrev service : Service (List Event)
service = record {
  retry_max = pos 1;
  worker_id = worker_id;
  bulk_index = λ ctx events s. ((no_result, some not_sent), s);
  encode_dlq = λ m. none;
  write_dlq = λ ctx messages s. (ok tt, s);
  write_replay = λ events s. (ok tt, events ++ s);
  replay_files = λ s. some 1;
  commit = λ ctx messages s. (ok tt, s);
  now = λ s. now;
  wait = λ ctx t s. (false, s);
}

pub In-left : (e : Event) (xs ys : List Event) → In e xs → In e (xs ++ ys)
In-left e [] ys h = absurd h
In-left e (x ∷ xs) ys (inl h) = inl h
In-left e (x ∷ xs) ys (inr h) = inr (In-left e xs ys h)

pub In-right : (e : Event) (xs ys : List Event) → In e ys → In e (xs ++ ys)
In-right e [] ys h = h
In-right e (x ∷ xs) ys h = inr (In-right e xs ys h)

abbrev pub ctx : Context
ctx = record { ends = none }

service-Keeps : Keeps service ctx In
unfolding send_dlq
service-Keeps = record {
  lands = record {
    bulk_keeps = λ events s e h. h;
    bulk_settles = λ events s e h. inr (λ p. cc, refl);
    dlq_keeps = λ m s e h. h;
    dlq_takes = λ m s e p h. absurd cc;
  };
  replay_keeps = λ events s e h. In-right e events s h;
  replay_takes = λ events s e h p. In-left e events s h;
  commit_keeps = λ messages s e h. h;
  wait_keeps = λ t s e h. h;
}

abbrev queued : Queued
queued = record {
  message = record { topic = codes "logs"; partition = pos 0; offset = pos 7; value = json };
  event = event;
}

abbrev idle : Worker (List Event)
idle = record { world = []; stats = new_stats now }

process_batch_returns : (process_batch service ctx (queued ∷ []) idle).0 ≡ ok tt
unfolding process_batch index_safely attempts attempt_once send_permanent_failures
    update_replay_backlog
process_batch_returns = refl

process_batch-Safe_example : In event (process_batch service ctx (queued ∷ []) idle).1.world
process_batch-Safe_example =
    process_batch-Safe service ctx In service-Keeps event (queued ∷ []) idle (inl refl)
      process_batch_returns

abbrev calls : FileCalls
calls = record { mkdir_fails = false; open_fails = false; write_fails = some (5, []) }

write_replay_returns : (write_replay codec calls name (event ∷ []) none).0 ≡ ok tt
unfolding write_replay read
write_replay_returns = rw (marshal-event json) refl

-- A service that counts its bulk requests, which all fail.
abbrev counting : Service ℕ
counting = record {
  retry_max = pos 2;
  worker_id = worker_id;
  bulk_index = λ ctx events n. ((no_result, some not_sent), n + 1);
  encode_dlq = λ m. none;
  write_dlq = λ ctx messages n. (ok tt, n);
  write_replay = λ events n. (ok tt, n);
  replay_files = λ n. none;
  commit = λ ctx messages n. (ok tt, n);
  now = λ n. now;
  wait = λ ctx t n. (false, n);
}

abbrev starting : Worker ℕ
starting = record { world = 0; stats = new_stats now }
