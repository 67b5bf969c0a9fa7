-- ===== src/Pipeline/Wired.antt =====
-- From the log API to the worker over Elasticsearch, Kafka and its replay directory (internal/ingestion,
-- internal/kafka, internal/worker/service.go).
use log_service.Prelude.{
  ℕ, zero, suc, ◌≡◌, ◌⊎◌, refl, sym, List, [], ◌∷◌, map, some, ok, false, All, get_elem?,
}
use log_service.Prelude.Clock.{Time, Context, utc}
use log_service.Prelude.Int.{ℤ}
use log_service.Prelude.Text.{Text, IsValid}
use log_service.LogEvent.{Event, IsJson, IsUtf8}
use log_service.Kafka.{Message, to_messages}
use log_service.Ingestion.Batch.{Request, validate}
use log_service.Spool.Dir.{has_slash}
use log_service.Storage.Accounted.{In}
use log_service.Worker.Decode.Agrees.{processed}
use log_service.Worker.Settings.{ServiceConfig}
use log_service.Worker.Indexing.{Fetched}
use log_service.Worker.Consume.{fetched, idle, Loop, turn}
use log_service.Worker.Consume.Delivers.{Turns}
use log_service.Worker.Wiring.{Surroundings, Site, service, consumer}
use log_service.Worker.Wiring.Files.{IsObject}
use log_service.Worker.Wiring.Delivers.Landing.{IsSound}
use log_service.Worker.Wiring.Delivers.{Safe, Ticks, wired_delivers}
use log_service.Pipeline.{turned-In}

get_elem?-IsUtf8 :
    (events : List Event) (i : ℕ) (e : Event)
    → All IsUtf8 events
    → get_elem? events i ≡ some e
    → IsUtf8 e
get_elem?-IsUtf8 [] i e utf8 p = absurd cc
get_elem?-IsUtf8 (x ∷ xs) zero e (h, hs) p = let same : x ≡ e = cc in rw (sym same) h
get_elem?-IsUtf8 (x ∷ xs) (suc i) e (h, hs) p = get_elem?-IsUtf8 xs i e hs p

processed-IsUtf8 :
    (worker_id : Text) (now : Time) (e : Event)
    → IsValid worker_id
    → IsUtf8 e
    → IsUtf8 (processed worker_id now e)
processed-IsUtf8 worker_id now e named (source, raw, ip, method, path, _) =
    (source, raw, ip, method, path, named)

-- Elasticsearch, Kafka and the JSON package do what `IsSound`, `IsJson` and `IsObject` say, the format of the time has
-- no slash, and the worker's id is UTF-8. If the API makes messages of a valid batch of UTF-8 texts, and
-- at some turn the worker, which reads lines as the API does, fetches the message of one of its
-- events: from the end of that turn on, after any number of further turns and ticks of the replay
-- loop, the event, with the worker's time and id set, is indexed or in the dead letter queue, its
-- JSON line is in a file of the replay directory that a pass looks for, or it is in the worker's batch.
pub wired_batch_delivers :
    {X : Type 0} (env : Surroundings X) (cfg : ServiceConfig) (ctx : Context)
    (landed : Event → X → Type 0)
    → IsSound env ctx landed
    → IsJson env.client.codec
    → IsObject env.client.codec
    → ((x : X) → has_slash (env.stamp (utc (env.client.now x))) ≡ false)
    → IsValid cfg.worker_id
    → (max : ℤ) (received : Time) (req : Request) (events : List Event) (messages : List Message)
    → validate env.readers max received req ≡ ok events
    → All IsUtf8 events
    → to_messages env.client.codec events ≡ ok messages
    → (i : ℕ) (m : Message) (e : Event) → get_elem? messages i ≡ some m
    → get_elem? events i ≡ some e
    → (l : Loop (Site X)) (f : Fetched) (x : X)
    → env.fetch ctx l.worker.world.outer ≡ (fetched f, x)
    → f.value ≡ m.value
    → (k : Loop (Site X)) (ds : List Event)
    → Turns
        (service env cfg)
        (consumer env cfg)
        ctx
        (Ticks env cfg ctx landed)
        (turn (service env cfg) (consumer env cfg) ctx idle l).loop
        ds
        k
    → Safe env cfg ctx landed (processed cfg.worker_id (env.client.now x) e) k.worker.world
      ⊎ In (processed cfg.worker_id (env.client.now x) e) (map (λ q. q.event) k.batch)
wired_batch_delivers env cfg ctx landed sound json object plain named max received req events
      messages valid utf8 made i m e at_m at_e l f x got same k ds turns =
    let (all_turns, decoded) =
      turned-In (service env cfg) (consumer env cfg) ctx (Ticks env cfg ctx landed) json max
        received req events messages valid utf8 made i m e at_m at_e l f
        (record (l.worker.world) { outer = x }) (rw got refl) same k ds turns in
    wired_delivers env cfg ctx landed sound json object plain l _ k
      (processed cfg.worker_id (env.client.now x) e) all_turns
      (processed-IsUtf8 cfg.worker_id (env.client.now x) e named
        (get_elem?-IsUtf8 events i e utf8 at_e))
      decoded
