-- ===== src/Worker/Delivers.antt =====
-- The consume loop and the replay loop of the worker together: no event that was decoded is lost
-- (internal/worker/service.go).
use log_service.Prelude.{◌≡◌, ◌⊎◌, inl, inr, ◌∙◌, ap, List, map, ok}
use log_service.Prelude.Clock.{Context}
use log_service.Prelude.Int.{ℤ}
use log_service.Prelude.Text.{Text}
use log_service.LogEvent.{Event, Codec}
use log_service.Storage.Accounted.{In}
use log_service.Worker.Indexing.{Fetched, Service, Worker}
use log_service.Worker.Indexing.Attempt.{Lands, Keeps, world-update_replay_backlog}
use log_service.Worker.Consume.{Consumer, Loop}
use log_service.Worker.Consume.Delivers.{Turns, turn-delivers}
use log_service.Worker.Replay.{Folder, read_replay_file, replay_once, replay_tick}
use log_service.Worker.Replay.Returns.{Apart, replay_once-landed, replay_once-returns}

-- What the two loops rely on besides `Lands` and `Apart`: a new replay file leaves the readable ones as they
-- are and, if it is written without error, can be read and has its events; the calls of Kafka's reader
-- and the waits do not touch the files; and none of them changes what has landed.
pub record Steps {S : Type 0} (svc : Service S) (con : Consumer S) (folder : Folder S)
    (codec : Codec) (ctx : Context) (landed : Event → S → Type 0) : Type 0 where
  pub write_apart :
      (q : Text) (events es : List Event) (s : S)
      → read_replay_file codec (folder.content q s) ≡ ok es
      → folder.content q (svc.write_replay events s).1 ≡ folder.content q s
  pub write_files :
      (events : List Event) (s : S)
      → (svc.write_replay events s).0 ≡ ok tt
      → (q : Text) × (read_replay_file codec (folder.content q (svc.write_replay events s).1)
          ≡ ok events)
  pub write_keeps :
      (events : List Event) (s : S) (e : Event)
      → landed e s
      → landed e (svc.write_replay events s).1
  pub commit_apart :
      (q : Text) (ms : List Fetched) (s : S)
      → folder.content q (svc.commit ctx ms s).1 ≡ folder.content q s
  pub commit_keeps :
      (ms : List Fetched) (s : S) (e : Event) → landed e s → landed e (svc.commit ctx ms s).1
  pub wait_apart :
      (q : Text) (t : ℤ) (s : S) → folder.content q (svc.wait ctx t s).1 ≡ folder.content q s
  pub wait_keeps : (t : ℤ) (s : S) (e : Event) → landed e s → landed e (svc.wait ctx t s).1
  pub fetch_apart : (q : Text) (s : S) → folder.content q (con.fetch ctx s).1 ≡ folder.content q s
  pub fetch_keeps : (s : S) (e : Event) → landed e s → landed e (con.fetch ctx s).1

module _ {S : Type 0} (svc : Service S) (con : Consumer S) (folder : Folder S) (codec : Codec)
    (ctx : Context) (landed : Event → S → Type 0) where
  -- The event is in a replay file that can be read.
  abbrev pub Filed : Event → S → Type 0
  Filed e s =
      (q : Text) × (es : List Event) × (read_replay_file codec (folder.content q s) ≡ ok es)
      × In e es

  abbrev pub Safe : Event → S → Type 0
  Safe e s = landed e s ⊎ Filed e s

  -- A tick of the replay loop, whatever the counters are.
  abbrev pub Ticks : S → S → Type 0
  Ticks s t = (w : Worker S) × (w.world ≡ s) × (t ≡ (replay_tick svc folder codec ctx w).world)

  module _ (lands : Lands svc ctx landed) (apart : Apart svc folder ctx landed)
      (steps : Steps svc con folder codec ctx landed) where
    Filed-apart :
        (e : Event) (s t : S)
        → ((q : Text) (es : List Event)
            → read_replay_file codec (folder.content q s) ≡ ok es
            → folder.content q t ≡ folder.content q s)
        → Filed e s
        → Filed e t
    Filed-apart e s t same (q, es, r, h) = (q, es, ap (read_replay_file codec) (same q es r) ∙ r, h)

    Safe-apart :
        (e : Event) (s t : S)
        → (landed e s → landed e t)
        → ((q : Text) (es : List Event)
            → read_replay_file codec (folder.content q s) ≡ ok es
            → folder.content q t ≡ folder.content q s)
        → Safe e s
        → Safe e t
    Safe-apart e s t kept same (inl h) = inl (kept h)
    Safe-apart e s t kept same (inr h) = inr (Filed-apart e s t same h)

    settle-Safe :
        {A B C : Type 0} {e : Event} {s : S} → (landed e s ⊎ A) ⊎ (B × C) → (Safe e s ⊎ A) ⊎ (B × C)
    settle-Safe (inl (inl h)) = inl (inl (inl h))
    settle-Safe (inl (inr a)) = inl (inr a)
    settle-Safe (inr h) = inr h

    Keeps-Safe : Keeps svc ctx Safe
    Keeps-Safe = record {
      lands = record {
        bulk_keeps = λ events s e.
            Safe-apart e s (svc.bulk_index ctx events s).1 (lands.bulk_keeps events s e)
              (λ q es r. apart.bulk_apart q events s);
        bulk_settles = λ events s e h. settle-Safe (lands.bulk_settles events s e h);
        dlq_keeps =
            λ m s e. Safe-apart e s _ (lands.dlq_keeps m s e) (λ q es r. apart.dlq_apart q m s);
        dlq_takes = λ m s e p h. inl (lands.dlq_takes m s e p h);
      };
      replay_keeps = λ events s e.
          Safe-apart e s (svc.write_replay events s).1 (steps.write_keeps events s e)
            (λ q es r. steps.write_apart q events es s r);
      replay_takes =
          λ events s e h p. let (q, r) = steps.write_files events s p in inr (q, events, r, h);
      commit_keeps = λ ms s e.
          Safe-apart e s (svc.commit ctx ms s).1 (steps.commit_keeps ms s e)
            (λ q es r. steps.commit_apart q ms s);
      wait_keeps = λ t s e.
          Safe-apart e s (svc.wait ctx t s).1 (steps.wait_keeps t s e)
            (λ q es r. steps.wait_apart q t s);
    }

    replay_once-Safe :
        (e : Event) (w : Worker S)
        → Safe e w.world
        → Safe e (replay_once svc folder codec ctx w).1.world
    replay_once-Safe e w (inl h) =
        inl (replay_once-landed svc folder codec ctx landed lands apart.remove_keeps e w h)
    replay_once-Safe e w (inr (q, es, r, h)) =
        kept (replay_once-returns svc folder codec ctx landed lands apart e q es w r h)
      where
        kept :
            landed e (replay_once svc folder codec ctx w).1.world
              ⊎ (folder.content q (replay_once svc folder codec ctx w).1.world
                  ≡ folder.content q w.world)
            → Safe e (replay_once svc folder codec ctx w).1.world
        kept (inl k) = inl k
        kept (inr same) = inr (q, es, ap (read_replay_file codec) same ∙ r, h)

    Ticks-Safe : (s t : S) → Ticks s t → (e : Event) → Safe e s → Safe e t
    unfolding replay_tick
    Ticks-Safe s t (w, at, end) e h =
        rw (end, world-update_replay_backlog svc ctx (replay_once svc folder codec ctx w).1)
          (replay_once-Safe e w (rw at h))

-- If the storage, the dead letter queue, Kafka's reader and the replay directory do what `Lands`, `Apart` and
-- `Steps` say: after any number of turns of the consume loop, with ticks of the replay loop between them,
-- each event that was decoded has landed (it is indexed or in the dead letter queue), is in a replay file
-- that can be read, or is still in the batch, however the calls of either loop failed.
pub worker-delivers :
    {S : Type 0} (svc : Service S) (con : Consumer S) (folder : Folder S) (codec : Codec)
    (ctx : Context) (landed : Event → S → Type 0)
    → Lands svc ctx landed
    → Apart svc folder ctx landed
    → Steps svc con folder codec ctx landed
    → (start : Loop S) (es : List Event) (l : Loop S) (e : Event)
    → Turns svc con ctx (Ticks svc con folder codec ctx landed) start es l
    → In e es
    → Safe svc con folder codec ctx landed e l.worker.world ⊎ In e (map (λ q. q.event) l.batch)
worker-delivers svc con folder codec ctx landed lands apart steps start es l e turns =
    turn-delivers svc con ctx (Safe svc con folder codec ctx landed)
      (Keeps-Safe svc con folder codec ctx landed lands apart steps)
      (λ s e.
        Safe-apart svc con folder codec ctx landed lands apart steps e s (con.fetch ctx s).1
          (steps.fetch_keeps s e) (λ q es r. steps.fetch_apart q s))
      (Ticks svc con folder codec ctx landed) e
      (λ s t o. Ticks-Safe svc con folder codec ctx landed lands apart steps s t o e) start es l
      turns
