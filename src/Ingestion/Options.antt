-- ===== src/Ingestion/Options.antt =====
-- `NewHandler` of internal/ingestion/handler.go: the handler, and what its requests share at the start.
use log_service.Prelude.{Option}
use log_service.Prelude.Int.{ℤ}
use log_service.Metrics.{Counters}
use log_service.Publisher.{Publisher}
use log_service.Ingestion.Types.{Platform, Spooler, Handler, Server}
use log_service.Ingestion.{new_in_flight}

pub record HandlerOptions (S : Type 0) : Type 0 where
  pub publisher : Option (Publisher S)
  pub spooler : Option (Spooler S)
  pub metrics : Option Counters
  pub max_body_bytes : ℤ
  pub max_batch_size : ℤ
  pub request_timeout : ℤ
  pub max_in_flight : ℤ

module _ {S : Type 0} where
  abbrev pub new_handler : Platform S → HandlerOptions S → Handler S
  new_handler platform opts = record {
    platform = platform;
    publisher = opts.publisher;
    spooler = opts.spooler;
    max_body_bytes = opts.max_body_bytes;
    max_batch_size = opts.max_batch_size;
    request_timeout = opts.request_timeout;
  }

  -- The counters and the places that its requests share, before the first of them.
  abbrev pub new_server : HandlerOptions S → S → Server S
  new_server opts world = record {
    world = world;
    metrics = opts.metrics;
    in_flight = new_in_flight opts.max_in_flight;
  }
