-- ===== src/Worker/Wiring.antt =====
-- How the worker is put together: the service of internal/worker/service.go over the client of Elasticsearch,
-- Kafka's reader and writer, and the replay directory. Everything outside the directory is a state of its
-- own, which Kafka, Elasticsearch, the clock and the waits change, and no file.
pub mod Files
pub mod Filed
pub mod Delivers
use log_service.Prelude.{
  ℕ, ◌∷◌, ◌++◌, Bool, true, false, List, Option, none, some, Result, ok, err, length, if◌then◌else◌,
}
use log_service.Prelude.Clock.{Time, Context, utc}
use log_service.Prelude.Int.{ℤ}
use log_service.Prelude.Text.{Text, codes, decimal}
use log_service.LogEvent.{Event}
use log_service.LogLine.{Readers}
use log_service.Kafka.{Message}
use log_service.Storage.{Answer, Client, bulk_index}
use log_service.Spool.Dir
use log_service.Spool.Dir.{Dir, files, read}
use log_service.Spool.Lines.{FileError}
use log_service.Worker.Decode.{DecodeError}
use log_service.Worker.Settings.{ServiceConfig}
use log_service.Worker.Indexing.{DlqMessage, Fetched, Service}
use log_service.Worker.Consume.{Fetch, Consumer}
use log_service.Worker.ReplayFiles.{FileCalls, write_replay}
use log_service.Worker.Replay.{Folder}

-- What is not the repository's: the HTTP client and the JSON package behind Elasticsearch's client, Kafka,
-- the clock and its format, the process number, and how the system calls on files end.
pub record Surroundings (X : Type 0) : Type 0 where
  pub client : Client X
  pub post : Context → Text → X → Option Answer × X
  pub readers : Readers
  pub explain : DecodeError → Text
  pub describe : FileError → Text
  pub encode_dlq : DlqMessage → Option Text
  pub write_dlq : Context → List Message → X → Result Text (Unit {0}) × X
  pub commit : Context → List Fetched → X → Result Text (Unit {0}) × X
  pub fetch : Context → X → Fetch × X
  pub wait : Context → ℤ → X → Bool × X
  pub stamp : Time → Text
  pub pid : ℕ
  pub calls : X → FileCalls
  pub opens : Text → X → Bool
  pub globs : X → Bool
  pub removes : Text → X → Bool

pub record Site (X : Type 0) : Type 0 where
  pub outer : X
  pub dir : Dir

-- The name of a replay file: `fmt.Sprintf("%s-%d.jsonl", …)`.
unfoldable pub replay_name : Text → ℕ → Text
replay_name stamp pid = stamp ++ (b'-' ∷ (decimal pid ++ codes ".jsonl"))

module _ {X : Type 0} where
  abbrev pub on_outer : {A : Type 0} → Site X → A × X → A × Site X
  on_outer s (a, x) = (a, record s { outer = x })

  abbrev pub on_dir : {A : Type 0} → Site X → A × Dir → A × Site X
  on_dir s (a, d) = (a, record s { dir = d })

  abbrev pub told :
      (FileError → Text) → Result FileError (Unit {0}) × Site X → Result Text (Unit {0}) × Site X
  told describe (ok u, s) = (ok u, s)
  told describe (err e, s) = (err (describe e), s)

module _ {X : Type 0} (env : Surroundings X) where
  abbrev pub client_in : Context → Client X
  client_in ctx = record (env.client) { post = env.post ctx }

  -- The paths of `filepath.Glob` of `*.jsonl` in the replay directory.
  abbrev pub replay_paths : Site X → Option (List Text)
  replay_paths s = if env.globs s.outer then some (Dir.glob (files s.dir)) else none

  -- writeReplay, under the name that the clock and the process give
  unfoldable pub save_replay : List Event → Site X → Result Text (Unit {0}) × Site X
  save_replay events s = told env.describe (
      on_dir s (
        write_replay env.client.codec (env.calls s.outer)
          (replay_name (env.stamp (utc (env.client.now s.outer))) env.pid) events s.dir))

  -- `os.Remove`, which fails or takes the file away
  abbrev pub remove_file : Text → Site X → Bool × Site X
  remove_file path s =
      if env.removes path s.outer
      then (false, record s { dir = some (Dir.remove path (files s.dir)) })
      else (true, s)

  abbrev pub folder : Folder (Site X)
  folder = record {
    glob = replay_paths;
    content = λ path s. if env.opens path s.outer then read path (files s.dir) else none;
    remove = remove_file;
  }

  module _ (cfg : ServiceConfig) where
    abbrev pub service : Service (Site X)
    service = record {
      retry_max = cfg.retry_max;
      worker_id = cfg.worker_id;
      bulk_index = λ ctx events s. on_outer s (bulk_index (client_in ctx) events s.outer);
      encode_dlq = env.encode_dlq;
      write_dlq = λ ctx messages s. on_outer s (env.write_dlq ctx messages s.outer);
      write_replay = save_replay;
      replay_files = λ s. elim (replay_paths s) [ none ↦ none | some paths ↦ some (length paths) ];
      commit = λ ctx messages s. on_outer s (env.commit ctx messages s.outer);
      now = λ s. env.client.now s.outer;
      wait = λ ctx t s. on_outer s (env.wait ctx t s.outer);
    }

    abbrev pub consumer : Consumer (Site X)
    consumer = record {
      codec = env.client.codec;
      readers = env.readers;
      bulk_size = cfg.bulk_size;
      explain = env.explain;
      fetch = λ ctx s. on_outer s (env.fetch ctx s.outer);
    }
