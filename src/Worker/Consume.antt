-- ===== src/Worker/Consume.antt =====
-- `consumeLoop` of internal/worker/service.go: messages are fetched, decoded and queued, and the queue is
-- flushed when it is long enough, when the ticker fires, and at the end. Log lines and sleeps are left out.
pub mod Delivers
pub mod Rejects
use log_service.Prelude.{
  ℕ, ◌≡◌, Bool, true, false, not, List, [], ◌∷◌, ◌++◌, none, Result, ok, err, length, ltb,
  if◌then◌else◌,
}
use log_service.Prelude.Clock.{Context, utc}
use log_service.Prelude.Int.{ℤ, pos, pos_part, is_positive}
use log_service.Prelude.Text.{Text}
use log_service.LogEvent.{Event, Codec}
use log_service.LogLine.{Readers}
use log_service.Worker.Stats.{observe_consumed, observe_failed, observe_dlq, set_current_batch}
use log_service.Worker.Decode.{DecodeError, decode}
use log_service.Worker.Indexing.{
  DlqMessage, Fetched, Queued, IndexError, Service, Worker, observe, send_dlq, process_batch,
}

-- How `FetchMessage` ends: with a message, with an error, or with an error once the context has ended.
pub data Fetch : Type 0 where
  fetched : Fetched → Fetch
  failed stopped : Fetch

-- What the `select` at the head of the loop finds.
pub data Wake : Type 0 where
  done ticked idle : Wake

-- What the loop stands on besides the service: the JSON decoder, the readers of a line, the limit that it
-- is given, the text of an error, and Kafka's reader.
pub record Consumer (S : Type 0) : Type 0 where
  pub codec : Codec
  pub readers : Readers
  pub bulk_size : ℤ
  pub explain : DecodeError → Text
  pub fetch : Context → S → Fetch × S

pub record Loop (S : Type 0) : Type 0 where
  pub batch : List Queued
  pub worker : Worker S

-- A turn of the loop: the events that it decoded, whether the loop returns, and what it leaves.
pub record Turn (S : Type 0) : Type 0 where
  pub events : List Event
  pub returns : Bool
  pub loop : Loop S

-- NewService makes a batch size that is not positive 1000.
abbrev pub batch_limit : ℤ → ℕ
batch_limit n = if is_positive n then pos_part n else 1000

module _ {S : Type 0} (svc : Service S) (con : Consumer S) (ctx : Context) where
  abbrev pub flushed : List Queued → Result IndexError (Unit {0}) × Worker S → Loop S
  flushed batch (err e, w) = record { batch = batch; worker = w }
  flushed batch (ok _, w) = record { batch = []; worker = observe (set_current_batch (pos 0)) w }

  abbrev pub flush_batch : List Queued → Worker S → Loop S
  flush_batch [] w = record { batch = []; worker = w }
  flush_batch (q ∷ qs) w =
      flushed (q ∷ qs)
        (process_batch svc ctx (q ∷ qs) (observe (set_current_batch (pos (length (q ∷ qs)))) w))

  -- flush
  unfoldable pub flush : Loop S → Loop S
  flush l = flush_batch l.batch l.worker

  -- The dead letter of a message that cannot be decoded.
  abbrev pub parse_failure : DecodeError → Fetched → S → DlqMessage
  parse_failure e message s = record {
    reason = con.explain e;
    topic = message.topic;
    partition = message.partition;
    offset = message.offset;
    raw_payload = message.value;
    event = none;
    failed_at = utc (svc.now s);
    worker_id = svc.worker_id;
    http_status = pos 0;
    recoverable = false;
  }

  abbrev pub tell_rejected : Worker S → Worker S
  tell_rejected w = observe (λ t. observe_failed (pos 1) (observe_dlq (pos 1) t)) w

  abbrev pub rejected : Worker S → Result Text (Unit {0}) × S → Worker S
  rejected w (err _, s) = record w { world = s }
  rejected w (ok _, s) = tell_rejected (record w { world = s })

  abbrev pub reject_sent : Fetched → Worker S → Result Text (Unit {0}) × S → Worker S
  reject_sent message w (err _, s) = record w { world = s }
  reject_sent message w (ok _, s) = rejected w (svc.commit ctx (message ∷ []) s)

  -- What the loop does with a message that cannot be decoded.
  unfoldable pub reject : DecodeError → Fetched → Worker S → Worker S
  reject e message w =
      reject_sent message w (send_dlq svc ctx (parse_failure e message w.world) w.world)

  -- Append to the batch, and flush it when it is long enough.
  unfoldable pub enqueue : Queued → Loop S → Loop S
  unfolding flush
  enqueue q l =
      let batch : List Queued = l.batch ++ (q ∷ []) in
      if ltb (length batch) (batch_limit con.bulk_size)
      then record l { batch = batch }
      else flush (record l { batch = batch })

  abbrev pub take_decoded : Fetched → Loop S → Result DecodeError Event → Turn S
  take_decoded message l (err e) = record {
    events = [];
    returns = false;
    loop = record l { worker = reject e message l.worker };
  }
  take_decoded message l (ok event) = record {
    events = event ∷ [];
    returns = false;
    loop = enqueue (record { message = message; event = event }) l;
  }

  -- The body of the loop once a message has been fetched.
  unfoldable pub receive : Fetched → Loop S → Turn S
  unfolding reject enqueue
  receive message l =
      let told : Loop S = record l { worker = observe (observe_consumed (pos 1)) l.worker } in
      take_decoded message told
        (decode con.codec con.readers svc.worker_id (svc.now told.worker.world) message.value)

  abbrev pub with_world : S → Loop S → Loop S
  with_world s l = record l { worker = record (l.worker) { world = s } }

  abbrev pub polled : Loop S → Fetch × S → Turn S
  polled l (fetched message, s) = receive message (with_world s l)
  polled l (failed, s) = record { events = []; returns = false; loop = with_world s l }
  polled l (stopped, s) = record { events = []; returns = true; loop = flush (with_world s l) }

  abbrev pub poll : Loop S → Turn S
  poll l = polled l (con.fetch ctx l.worker.world)

  -- A turn of consumeLoop
  unfoldable pub turn : Wake → Loop S → Turn S
  unfolding flush receive
  turn done l = record { events = []; returns = true; loop = flush l }
  turn ticked l = poll (flush l)
  turn idle l = poll l
