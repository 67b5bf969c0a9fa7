-- ===== src/Api/History.antt =====
-- The log API at work: requests to /v1/logs and passes of the replayer, which cmd/log-api/main.go runs beside
-- the server over the same spool directory and the same producer.
pub mod Stored
pub mod Lasting
pub mod Accepted
use log_service.Prelude.{◌≡◌, List, none, some}
use log_service.Prelude.Clock.{Time, Context}
use log_service.LogEvent.{Event}
use log_service.Kafka.{producer, publish}
use log_service.Spool.Dir.{Dir, files, read}
use log_service.Spool.Replayer.{Pass, ReplayCalls, replay_once}
use log_service.Spool.Writer.{batch_name}
use log_service.Ingestion.Types.{HttpRequest, Server}
use log_service.Ingestion.{serve_http}
use log_service.Config.{Config}
use log_service.Api.{World, Environment, logs_handler}

module _ {K : Type 0} (env : Environment K) where
  abbrev pub with_files : Pass (World K) → World K
  with_files p = record (p.kafka) { dir = some p.files }

  abbrev pub pass_over : ReplayCalls → Context → World K → Dir → World K
  pass_over sys ctx w none = w
  pass_over sys ctx w (some fs) =
      with_files (replay_once env.codec sys ctx (some (producer env.codec env.writer)) w fs)

  -- A pass of the replayer that main starts: it reads the spool's directory and publishes by the producer. There
  -- is nothing to read where there is no directory.
  unfoldable pub replay_pass : ReplayCalls → Context → World K → World K
  replay_pass sys ctx w = pass_over sys ctx w w.dir

  module _ (cfg : Config) where
    -- No file has the name that the clock gives once a batch could not be published.
    abbrev pub FreshName : World K → Type 0
    FreshName w =
        (ctx : Context) (events : List Event)
        → read
            (batch_name env.format_name (publish env.codec env.writer ctx events w).1.clock env.pid)
            (files (publish env.codec env.writer ctx events w).1.dir)
          ≡ none

    -- What happens after a start: requests, one after the other, passes of the replayer, and time.
    pub data History (start : Server (World K)) : Server (World K) → Type 0 where
      begin : History start start
      asked :
          {s : Server (World K)} (r : HttpRequest)
          → FreshName s.world
          → History start s
          → History start (serve_http (logs_handler env cfg) r s).1
      replayed :
          {s : Server (World K)} (sys : ReplayCalls) (ctx : Context)
          → History start s
          → History start (record s { world = replay_pass sys ctx s.world })
      passed :
          {s : Server (World K)} (t : Time)
          → History start s
          → History start (record s { world = record (s.world) { clock = t } })
