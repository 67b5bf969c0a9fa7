-- ===== src/Pipeline.antt =====
-- From the log API to the worker: the events of an accepted batch, once they are in Kafka and the worker fetches
-- their messages (internal/ingestion, internal/kafka, internal/worker/service.go).
pub mod Wired
use log_service.Prelude.{
  ℕ, zero, suc, ◌≡◌, ◌⊎◌, inl, inr, refl, sym, List, [], ◌∷◌, ◌++◌, map, some, ok, All, get_elem?,
}
use mathlib.Core.List.{append_assoc}
use log_service.Prelude.Clock.{Time, Context}
use log_service.Prelude.Int.{ℤ}
use log_service.Prelude.Text.{Text}
use log_service.LogEvent.{Event, Codec, IsJson, IsUtf8}
use log_service.LogLine.{Readers}
use log_service.Kafka.{Message, to_messages}
use log_service.Ingestion.Batch.{Request, validate}
use log_service.Storage.Accounted.{In}
use log_service.Worker.Decode.{decode}
use log_service.Worker.Decode.Agrees.{DecodeAll, processed, decode-to_messages}
use log_service.Worker.Stats.{observe_consumed}
use log_service.Worker.Indexing.{Fetched, Service}
use log_service.Worker.Indexing.Attempt.{Lands}
use log_service.Worker.Consume.{fetched, idle, Consumer, Loop, receive, turn}
use log_service.Worker.Consume.Delivers.{Turns, begin, turned, disturbed}
use log_service.Worker.Replay.{Folder}
use log_service.Worker.Replay.Returns.{Apart}
use log_service.Worker.Delivers.{Steps, Safe, Ticks, worker-delivers}

decode-DecodeAll :
    (codec : Codec) (readers : Readers) (worker_id : Text) (now : Time) (ms : List Message)
    (es : List Event) (i : ℕ) (m : Message) (e : Event)
    → DecodeAll codec readers worker_id now ms es
    → get_elem? ms i ≡ some m
    → get_elem? es i ≡ some e
    → decode codec readers worker_id now m.value ≡ ok (processed worker_id now e)
decode-DecodeAll codec readers worker_id now [] es i m e h p q = absurd cc
decode-DecodeAll codec readers worker_id now (n ∷ ms) [] i m e h p q = absurd h
decode-DecodeAll codec readers worker_id now (n ∷ ms) (d ∷ es) zero m e (h, hs) p q =
    let same_m : n ≡ m = cc in let same_e : d ≡ e = cc in rw (sym same_m, sym same_e) h
decode-DecodeAll codec readers worker_id now (n ∷ ms) (d ∷ es) (suc i) m e (h, hs) p q =
    decode-DecodeAll codec readers worker_id now ms es i m e hs p q

In-later : (e : Event) (ds es : List Event) → In e es → In e (ds ++ es)
In-later e [] es h = h
In-later e (d ∷ ds) es h = inr (In-later e ds es h)

module _ {S : Type 0} (svc : Service S) (con : Consumer S) (ctx : Context)
    (outside : S → S → Type 0) where
  -- Two runs of the loop, one after the other
  Turns-append :
      (start l k : Loop S) (es ds : List Event)
      → Turns svc con ctx outside start es l
      → Turns svc con ctx outside l ds k
      → Turns svc con ctx outside start (ds ++ es) k
  Turns-append start l k es [] t begin = t
  Turns-append start l k es ds t (disturbed s o u) =
      disturbed s o (Turns-append start l _ es ds t u)
  Turns-append start l k es ds t (turned {es = before} {l = j} wake u) =
      rw (append_assoc (turn svc con ctx wake j).events before es)
        (turned wake (Turns-append start l j es before t u))

  turn-fetched :
      (l : Loop S) (f : Fetched) (s : S) (e : Event)
      → con.fetch ctx l.worker.world ≡ (fetched f, s)
      → decode con.codec con.readers svc.worker_id (svc.now s) f.value ≡ ok e
      → (turn svc con ctx idle l).events ≡ e ∷ []
  unfolding turn receive observe_consumed
  turn-fetched l f s e got d = rw (got, d) refl

  -- The turn that fetches the message of an event of an accepted batch decodes that event.
  pub turned-In :
      IsJson con.codec
      → (max : ℤ) (received : Time) (req : Request) (events : List Event) (messages : List Message)
      → validate con.readers max received req ≡ ok events
      → All IsUtf8 events
      → to_messages con.codec events ≡ ok messages
      → (i : ℕ) (m : Message) (e : Event) → get_elem? messages i ≡ some m
      → get_elem? events i ≡ some e
      → (l : Loop S) (f : Fetched) (s : S) → con.fetch ctx l.worker.world ≡ (fetched f, s)
      → f.value ≡ m.value
      → (k : Loop S) (ds : List Event)
      → Turns svc con ctx outside (turn svc con ctx idle l).loop ds k
      → Turns svc con ctx outside l (ds ++ ((turn svc con ctx idle l).events ++ [])) k
        × In
            (processed svc.worker_id (svc.now s) e)
            (ds ++ ((turn svc con ctx idle l).events ++ []))
  turned-In json max received req events messages valid utf8 made i m e at_m at_e l f s got same k
        ds turns =
      let all =
        decode-to_messages con.codec con.readers svc.worker_id (svc.now s) json max received req
          events messages valid utf8 made in
      let d =
        decode-DecodeAll con.codec con.readers svc.worker_id (svc.now s) messages events i m e all
          at_m at_e in
      let es = turn-fetched l f s _ got (rw same d) in
      (
        Turns-append l (turn svc con ctx idle l).loop k ((turn svc con ctx idle l).events ++ []) ds
            (turned idle begin) turns,
        In-later _ ds ((turn svc con ctx idle l).events ++ []) (rw es (inl refl)),
      )

-- The worker reads JSON and lines as the API does, and its surroundings do what `Lands`, `Apart` and `Steps`
-- say. If the API makes messages of a valid batch of UTF-8 texts, and at some turn the worker fetches
-- the message of one of its events: from the end of that turn on, after any number of further turns
-- and ticks of the replay loop, the event, with the worker's time and id set, is indexed or in the
-- dead letter queue, in a replay file that can be read, or in the worker's batch.
pub batch-delivers :
    {S : Type 0} (svc : Service S) (con : Consumer S) (folder : Folder S) (ctx : Context)
    (landed : Event → S → Type 0)
    → Lands svc ctx landed
    → Apart svc folder ctx landed
    → Steps svc con folder con.codec ctx landed
    → IsJson con.codec
    → (max : ℤ) (received : Time) (req : Request) (events : List Event) (messages : List Message)
    → validate con.readers max received req ≡ ok events
    → All IsUtf8 events
    → to_messages con.codec events ≡ ok messages
    → (i : ℕ) (m : Message) (e : Event) → get_elem? messages i ≡ some m
    → get_elem? events i ≡ some e
    → (l : Loop S) (f : Fetched) (s : S) → con.fetch ctx l.worker.world ≡ (fetched f, s)
    → f.value ≡ m.value
    → (k : Loop S) (ds : List Event)
    → Turns svc con ctx
        (Ticks svc con folder con.codec ctx landed)
        (turn svc con ctx idle l).loop
        ds
        k
    → Safe svc con folder con.codec ctx landed
        (processed svc.worker_id (svc.now s) e)
        k.worker.world
      ⊎ In (processed svc.worker_id (svc.now s) e) (map (λ q. q.event) k.batch)
batch-delivers svc con folder ctx landed lands apart steps json max received req events messages
      valid utf8 made i m e at_m at_e l f s got same k ds turns =
    let (all_turns, decoded) =
      turned-In svc con ctx (Ticks svc con folder con.codec ctx landed) json max received req events
        messages valid utf8 made i m e at_m at_e l f s got same k ds turns in
    worker-delivers svc con folder con.codec ctx landed lands apart steps l _ k
      (processed svc.worker_id (svc.now s) e) all_turns decoded
