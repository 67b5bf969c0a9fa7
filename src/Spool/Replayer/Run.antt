-- ===== src/Spool/Replayer/Run.antt =====
-- `NewReplayer` and `Run` of internal/spool/replayer.go. The ticks of the timer are a list, each with how the system
-- calls of its pass and of the report after it end; the loop returns at the end of the context, after the
-- last of them.
use log_service.Prelude.{ℕ, ◌≡◌, refl, ◌*◌, List, [], ◌∷◌, Option, some, if◌then◌else◌}
use log_service.Prelude.Clock.{Context, second}
use log_service.Prelude.Int.{ℤ, pos, is_positive}
use log_service.Prelude.Text.{Text}
use log_service.LogEvent.{Codec}
use log_service.Publisher.{Publisher}
use log_service.Spool.Dir.{File}
use log_service.Spool.Writer.{Writer, Walk, State, state}
use log_service.Spool.Replayer.{Pass, ReplayCalls, publish_state, run_tick}

pub record ReplayerOptions (S C : Type 0) : Type 0 where
  pub dir : Text
  pub interval : ℤ
  pub publisher : Option (Publisher S)
  pub max_bytes : ℤ
  pub on_replay : Option (ℕ → C → C)
  pub on_state : Option (State → C → C)

pub record Replayer (S C : Type 0) : Type 0 where
  pub dir : Text
  pub interval : ℤ
  pub publisher : Option (Publisher S)
  pub max_bytes : ℤ
  pub on_replay : Option (ℕ → C → C)
  pub on_state : Option (State → C → C)

pub record Tick : Type 0 where
  pub calls : ReplayCalls
  pub walk : Walk

-- What stands behind the publisher, the files, and what the callbacks change.
pub record Running (S C : Type 0) : Type 0 where
  pub kafka : S
  pub files : List File
  pub told : C

module _ {S C : Type 0} where
  -- NewReplayer
  unfoldable pub new_replayer : ReplayerOptions S C → Replayer S C
  new_replayer opts = record {
    dir = opts.dir;
    interval = if is_positive opts.interval then opts.interval else pos (2 * second);
    publisher = opts.publisher;
    max_bytes = opts.max_bytes;
    on_replay = opts.on_replay;
    on_state = opts.on_state;
  }

  module _ (codec : Codec) (ctx : Context) (r : Replayer S C) where
    -- publishState makes a writer of the directory and the limit.
    abbrev pub writer : Writer
    writer = record { dir = r.dir; max_bytes = r.max_bytes }

    abbrev pub after_tick : Pass S × C → Running S C
    after_tick (p, c) = record { kafka = p.kafka; files = p.files; told = c }

    abbrev pub ticked : Tick → Running S C → Running S C
    ticked t s = after_tick (
        run_tick codec t.calls ctx r.publisher r.on_replay r.on_state writer t.walk s.kafka s.files
          s.told)

    unfoldable pub ticks : List Tick → Running S C → Running S C
    ticks [] s = s
    ticks (t ∷ ts) s = ticks ts (ticked t s)

    -- Run, over a directory that exists
    unfoldable pub run : Walk → List Tick → Running S C → Running S C
    unfolding ticks
    run walk ts s =
        ticks ts (record s { told = publish_state r.on_state writer walk (some s.files) s.told })

-- The walk of the last report.
abbrev pub last_walk : Walk → List Tick → Walk
last_walk walk [] = walk
last_walk walk (t ∷ ts) = last_walk t.walk ts

module _ {S : Type 0} (codec : Codec) (ctx : Context) (r : Replayer S (Option State))
    (tells : r.on_state ≡ some (λ s told. some s)) where
  ticks-reports :
      (ts : List Tick) (walk : Walk) (s : Running S (Option State))
      → s.told ≡ some (state (writer codec ctx r) walk (some s.files))
      → (ticks codec ctx r ts s).told
        ≡ some
            (state (writer codec ctx r) (last_walk walk ts) (some (ticks codec ctx r ts s).files))
  unfolding ticks run_tick publish_state
  ticks-reports [] walk s h = h
  ticks-reports (t ∷ ts) walk s h = ticks-reports ts t.walk (ticked codec ctx r t s) (rw tells refl)

  -- With a callback that keeps the last state that it is told: after any number of ticks it has that of the
  -- directory as the last pass has left it.
  pub run-reports :
      (walk : Walk) (ts : List Tick) (s : Running S (Option State))
      → (run codec ctx r walk ts s).told
        ≡ some (
            state (writer codec ctx r) (last_walk walk ts) (some (run codec ctx r walk ts s).files))
  unfolding run publish_state
  run-reports walk ts s = ticks-reports ts walk _ (rw tells refl)
