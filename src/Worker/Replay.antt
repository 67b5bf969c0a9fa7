-- ===== src/Worker/Replay.antt =====
-- `replayOnce`, `readReplayFile` and a tick of `replayLoop` of internal/worker/service.go: a pass over the
-- replay files that tries again to index their events. Log lines are left out.
pub mod Kept
pub mod Returns
use log_service.Prelude.{
  Bool, true, false, List, [], ◌∷◌, Option, none, some, Result, ok, err, or_err, ◌>>=◌, length, leb,
  if◌then◌else◌,
}
use log_service.Prelude.Clock.{Context}
use log_service.Prelude.Int.{pos}
use log_service.Prelude.Text.{Text, byte_len, trim_space}
use log_service.LogEvent.{Event, Codec}
use log_service.Storage.{BulkResult, BulkError}
use log_service.Spool.Lines.{
  FileError, bad_json, line_too_long, io_failed, max_token, lines, drop_cr,
}
use log_service.Worker.Stats.{observe_indexed, observe_replayed, observe_elasticsearch_failure}
use log_service.Worker.Indexing.{
  IndexError, Service, Worker, observe, send_permanent_failures, update_replay_backlog,
}

-- The replay directory as the worker sees it: `filepath.Glob` of `*.jsonl`, `os.Open` with the reading of
-- the content, and `os.Remove`, which tells whether it failed.
pub record Folder (S : Type 0) : Type 0 where
  pub glob : S → Option (List Text)
  pub content : Text → S → Option Text
  pub remove : Text → S → Bool × S

pub data PassError : Type 0 where
  glob_failed remove_failed : PassError
  not_dead_lettered : IndexError → PassError

module _ (codec : Codec) where
  abbrev pub keep_line : Text → Result FileError (List Event) → Result FileError (List Event)
  keep_line [] rest = rest
  keep_line (c ∷ line) rest = do
    event ← or_err (codec.unmarshal (c ∷ line)) bad_json
    events ← rest
    ok (event ∷ events)

  -- The loop of readReplayFile: blank lines are passed over.
  unfoldable pub replay_lines : List Text → Result FileError (List Event)
  unfolding drop_cr trim_space
  replay_lines [] = ok []
  replay_lines (line ∷ ls) =
      let rest = replay_lines ls in
      if leb max_token (byte_len line)
      then err line_too_long
      else keep_line (trim_space (drop_cr line)) rest

  -- readReplayFile, on the content of the file if it can be opened
  unfoldable pub read_replay_file : Option Text → Result FileError (List Event)
  unfolding replay_lines lines
  read_replay_file none = err io_failed
  read_replay_file (some content) = replay_lines (lines content)

module _ {S : Type 0} (svc : Service S) (folder : Folder S) (codec : Codec) (ctx : Context) where
  abbrev pub removed : Worker S → Bool × S → Result PassError (Unit {0}) × Worker S
  removed w (true, s) = (err remove_failed, record w { world = s })
  removed w (false, s) = (ok tt, record w { world = s })

  -- `_ = os.Remove(path)`
  abbrev pub discard : Worker S → Bool × S → Result PassError (Unit {0}) × Worker S
  discard w (_, s) = (ok tt, record w { world = s })

  abbrev pub settled :
      Text
      → List Event
      → BulkResult
      → Result IndexError (Unit {0}) × Worker S
      → Result PassError (Unit {0}) × Worker S
  settled path events result (err e, w) = (err (not_dead_lettered e), w)
  settled path events result (ok _, w) =
      removed
        (observe
          (λ t. observe_replayed (pos (length events)) (observe_indexed (pos result.indexed) t)) w)
        (folder.remove path w.world)

  abbrev pub skip : Worker S → Result PassError (Unit {0}) × Worker S
  skip w = (ok tt, observe observe_elasticsearch_failure w)

  abbrev pub accepted :
      Text
      → List Event
      → BulkResult
      → List Event
      → Worker S
      → Result PassError (Unit {0}) × Worker S
  accepted path events result (_ ∷ _) w = skip w
  accepted path events result [] w =
      settled path events result (send_permanent_failures svc ctx result.permanent w)

  abbrev pub replayed :
      Text
      → List Event
      → Worker S
      → (BulkResult × Option BulkError) × S
      → Result PassError (Unit {0}) × Worker S
  replayed path events w ((result, some _), s) = skip (record w { world = s })
  replayed path events w ((result, none), s) =
      accepted path events result result.retryable (record w { world = s })

  abbrev pub replay_read :
      Text → Worker S → Result FileError (List Event) → Result PassError (Unit {0}) × Worker S
  replay_read path w (err _) = (ok tt, w)
  replay_read path w (ok []) = discard w (folder.remove path w.world)
  replay_read path w (ok (event ∷ events)) =
      replayed path (event ∷ events) w (svc.bulk_index ctx (event ∷ events) w.world)

  -- The body of the loop of replayOnce
  unfoldable pub replay_file : Text → Worker S → Result PassError (Unit {0}) × Worker S
  unfolding send_permanent_failures read_replay_file
  replay_file path w = replay_read path w (read_replay_file codec (folder.content path w.world))

  abbrev pub next_file :
      (Worker S → Result PassError (Unit {0}) × Worker S)
      → Result PassError (Unit {0}) × Worker S
      → Result PassError (Unit {0}) × Worker S
  next_file next (err e, w) = (err e, w)
  next_file next (ok _, w) = next w

  unfoldable pub replay_each : List Text → Worker S → Result PassError (Unit {0}) × Worker S
  unfolding replay_file
  replay_each [] w = (ok tt, w)
  replay_each (path ∷ paths) w = next_file (replay_each paths) (replay_file path w)

  abbrev pub replay_globbed : Worker S → Option (List Text) → Result PassError (Unit {0}) × Worker S
  replay_globbed w none = (err glob_failed, w)
  replay_globbed w (some paths) = replay_each paths w

  -- replayOnce
  unfoldable pub replay_once : Worker S → Result PassError (Unit {0}) × Worker S
  unfolding replay_each
  replay_once w = replay_globbed w (folder.glob w.world)

  -- A tick of replayLoop: the error of the pass is only logged.
  unfoldable pub replay_tick : Worker S → Worker S
  unfolding replay_once update_replay_backlog
  replay_tick w = update_replay_backlog svc ctx (replay_once w).1
