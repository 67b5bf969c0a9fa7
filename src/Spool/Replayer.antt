-- ===== src/Spool/Replayer.antt =====
-- internal/spool/replayer.go: a pass over the spool's batches that publishes them to Kafka. How the
-- system calls of a pass end is an argument; log messages are left out. A loop that returns early
-- goes on with a pass that has stopped, and changes nothing more.
pub mod NoLoss
pub mod Stuck
pub mod Drains
pub mod Steady
pub mod Run
use log_service.Prelude.{
  ℕ, Bool, true, false, List, [], ◌∷◌, ◌++◌, Option, none, some, Result, ok, err, length,
  if◌then◌else◌,
}
use log_service.Prelude.Clock.{Context}
use log_service.Prelude.Int.{ℤ}
use log_service.Prelude.Text.{Text}
use log_service.LogEvent.{Codec, Event}
use log_service.Publisher.{Publisher}
use log_service.Spool.Dir.{File, Dir, files, read, remove, glob}
use log_service.Spool.Lines.{FileError, io_failed, read_file}
use log_service.Spool.Writer.{Writer, Walk, State, state}

pub data ReplayError : Type 0 where
  glob_failed publish_failed remove_failed : ReplayError

-- How the system calls of a pass end, by path where there are several.
pub record ReplayCalls : Type 0 where
  pub glob_fails : Bool
  pub read_fails : Text → Bool
  pub remove_fails : Text → Bool

-- A pass under way: Kafka, the files, the arguments of the calls of `onReplay`, and the error that
-- has ended the pass.
pub record Pass (S : Type 0) : Type 0 where
  pub kafka : S
  pub files : List File
  pub replayed : List ℕ
  pub stopped : Option ReplayError

abbrev pub parse_file : Codec → Bool → Option Text → Result FileError (List Event)
parse_file codec true content = err io_failed
parse_file codec false none = err io_failed
parse_file codec false (some content) = read_file codec content

abbrev pub unless_stopped : {S : Type 0} → Option ReplayError → Pass S → Pass S → Pass S
unless_stopped (some e) p next = p
unless_stopped none p next = next

module _ {S : Type 0} (codec : Codec) (sys : ReplayCalls) (ctx : Context)
    (publisher : Publisher S) where
  unfoldable pub read_batch : Text → List File → Result FileError (List Event)
  read_batch path fs = parse_file codec (sys.read_fails path) (read path fs)

  abbrev pub published : Text → ℕ → Pass S → Result Text (Unit {0}) × S → Pass S
  published path count p (err e, kafka) = record p { kafka = kafka; stopped = some publish_failed }
  published path count p (ok _, kafka) =
      if sys.remove_fails path
      then record p { kafka = kafka; stopped = some remove_failed }
      else record p {
        kafka = kafka;
        files = remove path p.files;
        replayed = p.replayed ++ (count ∷ []);
      }

  abbrev pub visit_events : Text → Pass S → Result FileError (List Event) → Pass S
  visit_events path p (err e) = p
  visit_events path p (ok []) =
      if sys.remove_fails path then p else record p { files = remove path p.files }
  visit_events path p (ok (event ∷ events)) =
      published path (length (event ∷ events)) p (publisher.publish ctx (event ∷ events) p.kafka)

  unfoldable pub visit : Text → Pass S → Pass S
  visit path p = visit_events path p (read_batch path p.files)

  -- The loop of ReplayOnce.
  unfoldable pub visit_all : List Text → Pass S → Pass S
  visit_all [] p = p
  visit_all (path ∷ paths) p = visit_all paths (unless_stopped p.stopped p (visit path p))

  -- ReplayOnce, with a publisher
  unfoldable pub replay : S → List File → Pass S
  replay kafka fs =
      if sys.glob_fails
      then record { kafka = kafka; files = fs; replayed = []; stopped = some glob_failed }
      else visit_all (glob fs) (record { kafka = kafka; files = fs; replayed = []; stopped = none })

-- ReplayOnce: without a publisher it does nothing.
unfoldable pub replay_once :
    {S : Type 0} → Codec → ReplayCalls → Context → Option (Publisher S) → S → List File → Pass S
replay_once codec sys ctx none kafka fs = record {
  kafka = kafka;
  files = fs;
  replayed = [];
  stopped = none;
}
replay_once codec sys ctx (some publisher) kafka fs = replay codec sys ctx publisher kafka fs

-- publishState: the callback is told the state of a writer of the same directory and limit.
unfoldable pub publish_state : {C : Type 0} → Option (State → C → C) → Writer → Walk → Dir → C → C
publish_state none writer walk d c = c
publish_state (some on_state) writer walk d c = on_state (state writer walk d) c

-- The calls of `onReplay` of a pass
unfoldable pub tell_replayed : {C : Type 0} → Option (ℕ → C → C) → List ℕ → C → C
tell_replayed none counts c = c
tell_replayed (some on_replay) [] c = c
tell_replayed (some on_replay) (n ∷ counts) c =
    tell_replayed (some on_replay) counts (on_replay n c)

-- A tick of Run, for a directory that exists, with the state that the callbacks change; the error of the
-- pass is only logged.
unfoldable pub run_tick :
    {S C : Type 0}
    → Codec
    → ReplayCalls
    → Context
    → Option (Publisher S)
    → Option (ℕ → C → C)
    → Option (State → C → C)
    → Writer
    → Walk
    → S
    → List File
    → C
    → Pass S × C
unfolding replay_once publish_state tell_replayed
run_tick codec sys ctx publisher on_replay on_state writer walk kafka fs c =
    let p = replay_once codec sys ctx publisher kafka fs in
    (p, publish_state on_state writer walk (some p.files) (tell_replayed on_replay p.replayed c))
