-- ===== src/Worker/Wiring/Delivers.antt =====
-- The worker over Elasticsearch, Kafka and its replay directory loses no event (internal/worker/service.go).
pub mod Landing
use log_service.Prelude.{Bool, ◌≡◌, ◌⊎◌, inl, inr, List, map, some, if_both, false}
use log_service.Prelude.Clock.{Context, utc}
use log_service.Prelude.Text.{Text}
use log_service.LogEvent.{Event, IsUtf8, IsJson}
use log_service.Storage.Accounted.{In}
use log_service.Spool.Dir.{has_slash, read, files}
use log_service.Worker.Settings.{ServiceConfig}
use log_service.Worker.Indexing.{Worker}
use log_service.Worker.Indexing.Attempt.{Keeps, world-update_replay_backlog}
use log_service.Worker.Consume.{Loop}
use log_service.Worker.Consume.Delivers.{Turns, turn-delivers}
use log_service.Worker.Replay.{replay_once, replay_tick}
use log_service.Worker.Replay.Returns.{replay_once-Kept, replay_once-landed}
use log_service.Worker.Wiring.{Surroundings, Site, service, consumer, folder, save_replay}
use log_service.Worker.Wiring.Files.{IsObject}
use log_service.Worker.Wiring.Filed.{
  dir-send_dlq, Filed, Filed-at, Filed-moved, Filed-save_replay, save_replay-Filed,
  world-save_replay, IsFiled-Stays,
}
use log_service.Worker.Wiring.Delivers.Landing.{IsSound, Landed, lands}

module _ {X : Type 0} (env : Surroundings X) (cfg : ServiceConfig) (ctx : Context)
    (landed : Event → X → Type 0) where
  -- The event is indexed or in the dead letter queue, or a file that a pass looks for has its line.
  abbrev pub Safe : Event → Site X → Type 0
  Safe e s = Landed env cfg ctx landed e s ⊎ Filed env e s

  -- A tick of the replay loop, whatever the counters are.
  abbrev pub Ticks : Site X → Site X → Type 0
  Ticks s t =
      (w : Worker (Site X)) × (w.world ≡ s)
      × (t ≡ (replay_tick (service env cfg) (folder env) env.client.codec ctx w).world)

  module _ (sound : IsSound env ctx landed) where
    Safe-moved :
        (e : Event) (s t : Site X)
        → (landed e s.outer → landed e t.outer)
        → ((path content : Text)
            → read path (files s.dir) ≡ some content
            → read path (files t.dir) ≡ some content)
        → Safe e s
        → Safe e t
    Safe-moved e s t kept spares (inl h) = inl (kept h)
    Safe-moved e s t kept spares (inr f) = inr (Filed-moved env e s t spares f)

    settle-Safe :
        {A B C : Type 0} {e : Event} {s : Site X}
        → (Landed env cfg ctx landed e s ⊎ A) ⊎ (B × C)
        → (Safe e s ⊎ A) ⊎ (B × C)
    settle-Safe (inl (inl h)) = inl (inl (inl h))
    settle-Safe (inl (inr a)) = inl (inr a)
    settle-Safe (inr h) = inr h

    save_replay-Safe :
        (events : List Event) (s : Site X) (e : Event)
        → Safe e s
        → Safe e (save_replay env events s).1
    save_replay-Safe events s e (inl h) = inl (rw (world-save_replay env events s) h)
    save_replay-Safe events s e (inr f) = inr (Filed-save_replay env e events s f)

    module _ (json : IsJson env.client.codec)
        (plain : (x : X) → has_slash (env.stamp (utc (env.client.now x))) ≡ false) where
      keeps : Keeps (service env cfg) ctx Safe
      keeps = record {
        lands = record {
          bulk_keeps = λ events s e.
              Safe-moved e s _ ((lands env cfg ctx landed sound).bulk_keeps events s e)
                (λ path content h. h);
          bulk_settles = λ events s e h.
              settle-Safe ((lands env cfg ctx landed sound).bulk_settles events s e h);
          dlq_keeps = λ m s e.
              Safe-moved e s _ ((lands env cfg ctx landed sound).dlq_keeps m s e)
                (λ path content h. rw (dir-send_dlq env cfg ctx m s) h);
          dlq_takes = λ m s e p h. inl ((lands env cfg ctx landed sound).dlq_takes m s e p h);
        };
        replay_keeps = save_replay-Safe;
        replay_takes = λ events s e k h. inr (save_replay-Filed env json plain e events s k h);
        commit_keeps =
            λ ms s e. Safe-moved e s _ (sound.commit_keeps ms s.outer e) (λ path content h. h);
        wait_keeps = λ t s e. Safe-moved e s _ (sound.wait_keeps t s.outer e) (λ path content h. h);
      }

      module _ (object : IsObject env.client.codec) (e : Event) (utf8 : IsUtf8 e) where
        remove_keeps :
            (p : Text) (s : Site X) (e : Event)
            → Landed env cfg ctx landed e s
            → Landed env cfg ctx landed e ((folder env).remove p s).1
        remove_keeps p s e h =
            if_both (λ (out : Bool × Site X). Landed env cfg ctx landed e out.1)
              (env.removes p s.outer) _ _ h h

        replay_once-Safe :
            (w : Worker (Site X))
            → Safe e w.world
            → Safe e (replay_once (service env cfg) (folder env) env.client.codec ctx w).1.world
        replay_once-Safe w (inl h) = inl (
            replay_once-landed (service env cfg) (folder env) env.client.codec ctx
              (Landed env cfg ctx landed) (lands env cfg ctx landed sound) remove_keeps e w h)
        replay_once-Safe w (inr f) = kept (
            replay_once-Kept (service env cfg) (folder env) env.client.codec ctx
              (Landed env cfg ctx landed) (lands env cfg ctx landed sound) remove_keeps e _ _
              (IsFiled-Stays env cfg json object ctx e utf8 w.world f) w (inr f.there))
          where
            kept :
                {t : Site X}
                → Landed env cfg ctx landed e t ⊎ (read f.path (files t.dir) ≡ some f.content)
                → Safe e t
            kept (inl h) = inl h
            kept {t} (inr h) = inr (Filed-at env e w.world t f h)

        Ticks-Safe : (s t : Site X) → Ticks s t → Safe e s → Safe e t
        unfolding replay_tick
        Ticks-Safe s t (w, at, end) h =
            rw
              (
                end,
                world-update_replay_backlog (service env cfg) ctx
                    (replay_once (service env cfg) (folder env) env.client.codec ctx w).1,
              )
              (replay_once-Safe w (rw at h))

-- Over Elasticsearch, Kafka and a JSON package that do what `IsSound`, `IsJson` and `IsObject` say, and a time
-- format without a slash: after any number of turns of the worker's consume loop, with ticks of its
-- replay loop between them, each event of UTF-8 texts that was decoded is indexed or in the dead letter
-- queue, its JSON line is in a file of the replay directory that a pass looks for, or it is still in
-- the batch; whatever requests, commits, writes, opens and removals failed, and wherever the writing
-- of a replay file stopped.
pub wired_delivers :
    {X : Type 0} (env : Surroundings X) (cfg : ServiceConfig) (ctx : Context)
    (landed : Event → X → Type 0)
    → IsSound env ctx landed
    → IsJson env.client.codec
    → IsObject env.client.codec
    → ((x : X) → has_slash (env.stamp (utc (env.client.now x))) ≡ false)
    → (start : Loop (Site X)) (es : List Event) (l : Loop (Site X)) (e : Event)
    → Turns (service env cfg) (consumer env cfg) ctx (Ticks env cfg ctx landed) start es l
    → IsUtf8 e
    → In e es
    → Safe env cfg ctx landed e l.worker.world ⊎ In e (map (λ q. q.event) l.batch)
wired_delivers env cfg ctx landed sound json object plain start es l e turns utf8 =
    turn-delivers (service env cfg) (consumer env cfg) ctx (Safe env cfg ctx landed)
      (keeps env cfg ctx landed sound json plain)
      (λ s e.
        Safe-moved env cfg ctx landed sound e s _ (sound.fetch_keeps s.outer e)
          (λ path content h. h))
      (Ticks env cfg ctx landed) e (Ticks-Safe env cfg ctx landed sound json plain object e utf8)
      start es l turns
