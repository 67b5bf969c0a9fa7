-- ===== src/Api.antt =====
-- cmd/log-api/main.go: the log API put together from the producer, the spool and the handler. The
-- world is what stands behind Kafka's writer, the clock and the spool directory; how the system calls
-- of a write end, and the process id, come from the environment.
pub mod Durable
pub mod Deadline
pub mod History
pub mod Process
use log_service.Prelude.{◌≡◌, refl, ℕ, Bool, List, Option, some, Result}
use log_service.Prelude.Clock.{Time, Context, is_done}
use log_service.Prelude.Text.{Text, codes}
use log_service.LogEvent.{Event, Codec}
use log_service.LogLine.{Readers}
use log_service.Kafka.{MessageWriter, producer}
use log_service.Spool.Dir.{Dir}
use log_service.Spool.Writer
use log_service.Spool.Writer.{Writer, Walk, Calls, WriteError, batch_name, state}
use log_service.Ingestion.Types.{Decoded, Platform, Spooler, Handler, Slots, Server}
use log_service.Ingestion.{new_in_flight, to_metric_spool_state}
use log_service.Ingestion.Options.{HandlerOptions, new_handler, new_server}
use log_service.Metrics.{Counters, new_counters, observe_replayed, observe_spool_state}
use log_service.Spool.Replayer.Run.{ReplayerOptions}
use log_service.Prelude.Int.{pos}
use log_service.Config.{Config}

pub record World (K : Type 0) : Type 0 where
  pub kafka : K
  pub clock : Time
  pub dir : Dir

pub record Environment (K : Type 0) : Type 0 where
  pub codec : Codec
  pub writer : MessageWriter (World K)
  pub readers : Readers
  pub format : Time → Text
  pub format_name : Time → Text
  pub decode : ℕ → Text → Decoded
  pub pid : ℕ
  pub calls : World K → Calls
  pub walk : World K → Walk

module _ {K : Type 0} (env : Environment K) (cfg : Config) where
  -- `spool.NewWriter(cfg.SpoolDir, cfg.SpoolMaxBytes)`
  abbrev pub spool_writer : Writer
  spool_writer = record { dir = cfg.spool_dir; max_bytes = cfg.spool_max_bytes }

  abbrev pub keep_dir :
      World K → Result WriteError (Unit {0}) × Dir → Result WriteError (Unit {0}) × World K
  keep_dir w (r, d) = (r, record w { dir = d })

  unfoldable pub spool_write :
      Context → List Event → World K → Result WriteError (Unit {0}) × World K
  spool_write ctx events w = keep_dir w (
      Writer.write env.codec spool_writer (env.calls w) (batch_name env.format_name w.clock env.pid)
        (is_done ctx w.clock.instant) events w.dir)

  abbrev pub spooler : Spooler (World K)
  spooler = record {
    write = spool_write;
    state = some (λ w. state spool_writer (env.walk w) w.dir);
  }

  abbrev pub platform : Platform (World K)
  platform = record {
    readers = env.readers;
    format = env.format;
    now = λ w. w.clock;
    decode = env.decode;
  }

  -- The counters at the start, which have been told the state of the spool.
  abbrev pub api_metrics : World K → Counters
  api_metrics w =
      observe_spool_state (to_metric_spool_state (state spool_writer (env.walk w) w.dir))
        (new_counters (codes "log-api") w.clock)

  abbrev pub handler_options : World K → HandlerOptions (World K)
  handler_options w = record {
    publisher = some (producer env.codec env.writer);
    spooler = some spooler;
    metrics = some (api_metrics w);
    max_body_bytes = cfg.max_body_bytes;
    max_batch_size = cfg.max_batch_size;
    request_timeout = cfg.request_timeout;
    max_in_flight = cfg.max_in_flight_requests;
  }

  -- The handler of POST /v1/logs
  abbrev pub logs_handler : Handler (World K)
  logs_handler = record {
    platform = platform;
    publisher = some (producer env.codec env.writer);
    spooler = some spooler;
    max_body_bytes = cfg.max_body_bytes;
    max_batch_size = cfg.max_batch_size;
    request_timeout = cfg.request_timeout;
  }

  -- Its places, before the first request
  abbrev pub slots : Option Slots
  slots = new_in_flight cfg.max_in_flight_requests

  -- It is the handler that NewHandler makes of the options, whatever they are told of the spool.
  new_handler-options : (w : World K) → new_handler platform (handler_options w) ≡ logs_handler
  new_handler-options w = refl

  -- What the requests share when the server starts
  abbrev pub first_server : World K → Server (World K)
  first_server w = new_server (handler_options w) w

  -- The callbacks tell the counters.
  abbrev pub replayer_options : ReplayerOptions (World K) Counters
  replayer_options = record {
    dir = cfg.spool_dir;
    interval = cfg.spool_replay_interval;
    publisher = some (producer env.codec env.writer);
    max_bytes = cfg.spool_max_bytes;
    on_replay = some (λ n c. observe_replayed (pos n) c);
    on_state = some (λ s c. observe_spool_state (to_metric_spool_state s) c);
  }
