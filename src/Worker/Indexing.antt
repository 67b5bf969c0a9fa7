-- ===== src/Worker/Indexing.antt =====
-- `indexSafely` and `processBatch` of internal/worker/service.go with what they call: a batch is indexed,
-- its failures go to the dead letter queue or to the replay directory, and then its offsets are committed.
-- Log lines are left out.
pub mod Attempt
pub mod Safe
pub mod Steady
pub mod Attempts
use log_service.Prelude.{
  ℕ, zero, suc, ◌+◌, ◌*◌, ◌-◌, ◌%◌, ◌^◌, Bool, true, false, List, [], ◌∷◌, Option, none, some, map,
  Result, ok, err, length, ltb, ◌&&◌, if◌then◌else◌,
}
use log_service.Prelude.Clock.{Time, Context, second, utc}
use log_service.Prelude.Int.{ℤ, pos, negsuc, is_positive, pos_part, word64}
use log_service.Prelude.Text.{Text, codes}
use log_service.LogEvent.{Event}
use log_service.Kafka.{Message}
use log_service.Storage.{BulkResult, BulkError, DocumentFailure}
use log_service.Worker.Stats.{
  Stats, observe_indexed, observe_failed, observe_retried, observe_dlq,
  observe_elasticsearch_failure, set_replay_backlog,
}

pub record DlqMessage : Type 0 where
  pub reason : Text
  pub topic : Text
  pub partition : ℤ
  pub offset : ℤ
  pub raw_payload : Text
  pub event : Option Event
  pub failed_at : Time
  pub worker_id : Text
  pub http_status : ℤ
  pub recoverable : Bool

-- A message that the reader has fetched.
pub record Fetched : Type 0 where
  pub topic : Text
  pub partition : ℤ
  pub offset : ℤ
  pub value : Text

-- queuedMessage
pub record Queued : Type 0 where
  pub message : Fetched
  pub event : Event

pub data IndexError : Type 0 where
  dlq_failed commit_failed : Text → IndexError
  context_done no_safe_storage : IndexError

-- What the service stands on: the bulk index of internal/storage, the JSON encoder, the writer of the
-- dead letter queue, the replay directory, Kafka's reader, the clock, and a wait that tells whether
-- the context ended first.
pub record Service (S : Type 0) : Type 0 where
  pub retry_max : ℤ
  pub worker_id : Text
  pub bulk_index : Context → List Event → S → (BulkResult × Option BulkError) × S
  pub encode_dlq : DlqMessage → Option Text
  pub write_dlq : Context → List Message → S → Result Text (Unit {0}) × S
  pub write_replay : List Event → S → Result Text (Unit {0}) × S
  pub replay_files : S → Option ℕ
  pub commit : Context → List Fetched → S → Result Text (Unit {0}) × S
  pub now : S → Time
  pub wait : Context → ℤ → S → Bool × S

pub record Worker (S : Type 0) : Type 0 where
  pub world : S
  pub stats : Stats

-- `int64` patterns read as signed numbers.
abbrev pub signed64 : ℕ → ℤ
signed64 n = if ltb n (2 ^ 63) then pos n else negsuc (word64 - n - 1)

-- backoff
unfoldable pub backoff : ℕ → ℤ
backoff attempt =
    let wait : ℕ = (2 ^ attempt * 200_000_000) % word64 in
    if ltb (5 * second) wait && ltb wait (2 ^ 63) then pos (5 * second) else signed64 wait

-- What an attempt leaves: the end, or events to try again and how long Elasticsearch wants to be left.
pub data Verdict : Type 0 where
  ended : Result IndexError (Unit {0}) → Verdict
  again : List Event → ℤ → Verdict

module _ {S : Type 0} where
  abbrev pub observe : (Stats → Stats) → Worker S → Worker S
  observe f w = record w { stats = f w.stats }

  abbrev pub tell : Option BulkError → Worker S → Worker S
  tell none w = w
  tell (some e) w = observe observe_elasticsearch_failure w

  abbrev pub tell_indexed : ℕ → Worker S → Worker S
  tell_indexed n w = if ltb 0 n then observe (observe_indexed (pos n)) w else w

module _ {S : Type 0} (svc : Service S) (ctx : Context) where
  abbrev pub dlq_key : DlqMessage → Text
  dlq_key payload = elim payload.event [ none ↦ payload.worker_id | some event ↦ event.source ]

  abbrev pub write_value : DlqMessage → S → Option Text → Result Text (Unit {0}) × S
  write_value payload s none = (err (codes "json: unsupported value"), s)
  write_value payload s (some value) =
      svc.write_dlq ctx
        (record { key = dlq_key payload; value = value; time = payload.failed_at } ∷ []) s

  -- sendDLQ
  unfoldable pub send_dlq : DlqMessage → S → Result Text (Unit {0}) × S
  send_dlq payload s = write_value payload s (svc.encode_dlq payload)

  abbrev pub failure_message : S → DocumentFailure → DlqMessage
  failure_message s failure = record {
    reason = failure.reason;
    topic = [];
    partition = pos 0;
    offset = pos 0;
    raw_payload = [];
    event = some failure.event;
    failed_at = utc (svc.now s);
    worker_id = svc.worker_id;
    http_status = failure.status;
    recoverable = false;
  }

  abbrev pub unless_failed :
      (S → Result Text (Unit {0}) × S) → Result Text (Unit {0}) × S → Result Text (Unit {0}) × S
  unless_failed next (err e, s) = (err e, s)
  unless_failed next (ok _, s) = next s

  -- The loop of sendPermanentFailures.
  unfoldable pub send_failures : List DocumentFailure → S → Result Text (Unit {0}) × S
  unfolding send_dlq
  send_failures [] s = (ok tt, s)
  send_failures (failure ∷ failures) s =
      unless_failed (send_failures failures) (send_dlq (failure_message s failure) s)

  abbrev pub tell_failures : ℕ → Worker S → Worker S
  tell_failures n w = observe (λ t. observe_failed (pos n) (observe_dlq (pos n) t)) w

  abbrev pub dead_lettered :
      ℕ → Worker S → Result Text (Unit {0}) × S → Result IndexError (Unit {0}) × Worker S
  dead_lettered n w (err e, s) = (err (dlq_failed e), record w { world = s })
  dead_lettered n w (ok _, s) = (ok tt, tell_failures n (record w { world = s }))

  -- sendPermanentFailures, if there are any
  unfoldable pub send_permanent_failures :
      List DocumentFailure → Worker S → Result IndexError (Unit {0}) × Worker S
  unfolding send_failures
  send_permanent_failures [] w = (ok tt, w)
  send_permanent_failures (failure ∷ failures) w =
      dead_lettered (length (failure ∷ failures)) w (send_failures (failure ∷ failures) w.world)

  abbrev pub try_again : List Event → ℤ → Verdict
  try_again [] retry_after = ended (ok tt)
  try_again (event ∷ events) retry_after = again (event ∷ events) retry_after

  -- What the events to be tried again and the error of a bulk request mean for the pending events.
  abbrev pub judge : List Event → List Event → Option BulkError → ℤ → Verdict
  judge pending [] none retry_after = ended (ok tt)
  judge pending [] (some e) retry_after = try_again pending retry_after
  judge pending (event ∷ events) e retry_after = again (event ∷ events) retry_after

  abbrev pub judged : Verdict → Result IndexError (Unit {0}) × Worker S → Verdict × Worker S
  judged v (err e, w) = (ended (err e), w)
  judged v (ok _, w) = (v, w)

  abbrev pub answered :
      List Event → Worker S → (BulkResult × Option BulkError) × S → Verdict × Worker S
  answered pending w ((result, e), s) =
      judged (judge pending result.retryable e result.retry_after) (
        send_permanent_failures result.permanent
          (tell_indexed result.indexed (tell e (record w { world = s }))))

  -- One turn of the loop of indexSafely, up to the test of the attempts.
  unfoldable pub attempt_once : List Event → Worker S → Verdict × Worker S
  unfolding send_permanent_failures
  attempt_once pending w = answered pending w (svc.bulk_index ctx pending w.world)

  -- updateReplayBacklog
  unfoldable pub update_replay_backlog : Worker S → Worker S
  update_replay_backlog w = elim (svc.replay_files w.world) [
    | none ↦ w
    | some n ↦ observe (set_replay_backlog (pos n)) w
  ]

  abbrev pub set_aside :
      ℕ → Worker S → Result Text (Unit {0}) × S → Result IndexError (Unit {0}) × Worker S
  set_aside n w (err e, s) = (err no_safe_storage, record w { world = s })
  set_aside n w (ok _, s) =
      (ok tt, update_replay_backlog (observe (observe_failed (pos n)) (record w { world = s })))

  abbrev pub pause : ℕ → ℤ → ℤ
  pause attempt retry_after = if is_positive retry_after then retry_after else backoff attempt

  abbrev pub resume :
      (Worker S → Result IndexError (Unit {0}) × Worker S)
      → Worker S
      → Bool × S
      → Result IndexError (Unit {0}) × Worker S
  resume next w (true, s) = (err context_done, record w { world = s })
  resume next w (false, s) = next (record w { world = s })

  abbrev pub retry :
      (List Event → Worker S → Result IndexError (Unit {0}) × Worker S)
      → ℕ
      → Verdict × Worker S
      → Result IndexError (Unit {0}) × Worker S
  retry next attempt (ended r, w) = (r, w)
  retry next attempt (again pending retry_after, w) =
      resume (next pending) (observe (observe_retried (pos (length pending))) w)
        (svc.wait ctx (pause attempt retry_after) w.world)

  abbrev pub give_up : Verdict × Worker S → Result IndexError (Unit {0}) × Worker S
  give_up (ended r, w) = (r, w)
  give_up (again pending retry_after, w) =
      set_aside (length pending) w (svc.write_replay pending w.world)

  -- The loop of indexSafely, with the attempts that are left after this one.
  unfoldable pub attempts : ℕ → ℕ → List Event → Worker S → Result IndexError (Unit {0}) × Worker S
  unfolding attempt_once update_replay_backlog
  attempts zero attempt pending w = give_up (attempt_once pending w)
  attempts (suc left) attempt pending w =
      retry (attempts left (attempt + 1)) attempt (attempt_once pending w)

  -- indexSafely; NewService makes a negative number of retries 0
  unfoldable pub index_safely : List Event → Worker S → Result IndexError (Unit {0}) × Worker S
  unfolding attempts
  index_safely events w = attempts (pos_part svc.retry_max) 0 events w

  abbrev pub committed :
      Worker S → Result Text (Unit {0}) × S → Result IndexError (Unit {0}) × Worker S
  committed w (err e, s) = (err (commit_failed e), record w { world = s })
  committed w (ok _, s) = (ok tt, record w { world = s })

  abbrev pub indexed :
      List Fetched
      → Result IndexError (Unit {0}) × Worker S
      → Result IndexError (Unit {0}) × Worker S
  indexed messages (err e, w) = (err e, w)
  indexed messages (ok _, w) = committed w (svc.commit ctx messages w.world)

  -- processBatch
  unfoldable pub process_batch : List Queued → Worker S → Result IndexError (Unit {0}) × Worker S
  unfolding index_safely
  process_batch batch w =
      indexed (map (λ q. q.message) batch) (index_safely (map (λ q. q.event) batch) w)
