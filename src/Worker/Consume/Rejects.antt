-- ===== src/Worker/Consume/Rejects.antt =====
-- What becomes of a message that cannot be decoded (internal/worker/service.go).
use log_service.Prelude.{◌≡◌, refl, true, false, [], ◌∷◌, none, Result, ok, err}
use log_service.Prelude.Clock.{Context}
use log_service.Prelude.Int.{pos, ltb_ℤ}
use log_service.Prelude.Text.{Text}
use log_service.LogEvent.{Event}
use log_service.Worker.Stats.{observe_consumed}
use log_service.Worker.Decode.{DecodeError, decode}
use log_service.Worker.Indexing.{DlqMessage, Fetched, Service, observe, send_dlq}
use log_service.Worker.Consume.{Consumer, Loop, parse_failure, rejected, reject, receive}

module _ {S : Type 0} (svc : Service S) (con : Consumer S) (ctx : Context) where
  -- The decoding of a message, at the time at which the loop does it.
  abbrev pub decoded : Fetched → Loop S → Result DecodeError Event
  decoded m l = decode con.codec con.readers svc.worker_id (svc.now l.worker.world) m.value

  abbrev pub told : Loop S → Loop S
  told l = record l { worker = observe (observe_consumed (pos 1)) l.worker }

  -- A message that cannot be decoded, and whose dead letter the JSON encoder refuses, as it refuses a
  -- payload that is no JSON text: the loop counts it as consumed and changes nothing else, so that the
  -- message is in no queue, in no dead letter and not committed.
  pub receive-unencodable :
      (m : Fetched) (l : Loop S) (x : DecodeError)
      → decoded m l ≡ err x
      → ((letter : DlqMessage) → letter.raw_payload ≡ m.value → svc.encode_dlq letter ≡ none)
      → receive svc con ctx m l ≡ record { events = []; returns = false; loop = told l }
  unfolding receive reject send_dlq observe_consumed
  receive-unencodable m l x p refuses =
      rw (p, refuses (parse_failure svc con ctx x m l.worker.world) refl) refl

  -- For a notion of what the committed offsets of the group cover, under which a commit of one message
  -- that succeeds covers the earlier ones of its partition: a message that cannot be decoded, and whose
  -- dead letter and commit succeed, leaves the batch as it was, and covers the offset of each
  -- message of its partition that comes before it, also of those that wait in the batch.
  pub receive-passes :
      (covers : Fetched → S → Type 0)
      → ((m q : Fetched) (s : S)
          → q.topic ≡ m.topic
          → q.partition ≡ m.partition
          → ltb_ℤ q.offset m.offset ≡ true
          → (svc.commit ctx (m ∷ []) s).0 ≡ ok tt
          → covers q (svc.commit ctx (m ∷ []) s).1)
      → (m q : Fetched) (l : Loop S) (x : DecodeError) (s : S) → decoded m l ≡ err x
      → send_dlq svc ctx (parse_failure svc con ctx x m l.worker.world) l.worker.world ≡ (ok tt, s)
      → (svc.commit ctx (m ∷ []) s).0 ≡ ok tt
      → q.topic ≡ m.topic
      → q.partition ≡ m.partition
      → ltb_ℤ q.offset m.offset ≡ true
      → ((receive svc con ctx m l).loop.batch ≡ l.batch)
        × covers q (receive svc con ctx m l).loop.worker.world
  unfolding receive reject observe_consumed
  receive-passes covers law m q l x s p sent done topic partition before =
      rw (p, sent) (refl, after (svc.commit ctx (m ∷ []) s) (law m q s topic partition before done))
    where
      after :
          (out : Result Text (Unit {0}) × S)
          → covers q out.1
          → covers q (rejected svc con ctx (told l).worker out).world
      after (err y, t) h = h
      after (ok u, t) h = h
