-- ===== src/Tests/Serving.antt =====
-- The log API, with the default settings, serving a batch of two lines while Kafka fails.
use log_service.Prelude.{
  ℕ, ◌+◌, ◌*◌, ◌≤◌, ◌↔◌, Option, ◌≡◌, ◌⊎◌, refl, true, false, none, some, List, [], ◌∷◌, ok, err,
  Result,
}
use log_service.Prelude.Clock.{Context, second, is_done, with_timeout}
use log_service.Prelude.Int.{pos, add64}
use log_service.Prelude.Text.{codes, text_eq, byte_len}
use log_service.LogEvent.{Event}
use log_service.Kafka.{Message, MessageWriter, to_messages, publish}
use log_service.Kafka.Appends.{Appends}
use log_service.Spool.Dir.{used_bytes}
use log_service.Spool.Lines.{marshal_json_lines}
use log_service.Spool.Writer
use log_service.Spool.Writer.{WriteError, complete, commit, check_capacity, dir_usage}
use log_service.Ingestion.Types.{HttpRequest, decoded, Slots, Server, unavailable, Handler}
use log_service.Ingestion.Batch.{validate}
use log_service.Ingestion.{
  new_in_flight, acquire, error_reply, request_context, observe_spool_state, accept, observe,
  spooled, fall_back, published, handle, serve_http,
}
use log_service.Ingestion.Accounts.{requests, Tally, serve_http-Tally}
use log_service.Ingestion.Replies.{Valid}
use log_service.Ingestion.Concurrent.{
  System, started, running, begins, steps, enters, running-within,
}
use log_service.Metrics.{observe_request, observe_kafka_publish_error}
use log_service.Config.{Config, get_string, get_int, get_int64, get_duration, load}
use log_service.Api.{World, Environment, spool_write, logs_handler, slots}
use log_service.Api.Durable.{OnKafka, InSpool, serve_http-202}
use log_service.Api.Deadline.{handle-past_deadline}
use log_service.Tests.Samples.{now, readers, event, codec, json, marshal-event}
use log_service.Tests.Counting.{format, counters, request, validate-request}

abbrev pub Topic : Type 0
Topic = List Message

-- A writer that takes some time and fails.
abbrev pub failing : ℕ → MessageWriter (World Topic)
failing delay = record {
  write_messages = λ ctx messages w. (
    err (codes "timeout"),
    record w { clock = record w.clock { instant = w.clock.instant + delay } },
  );
}

abbrev pub env : ℕ → Environment Topic
env delay = record {
  codec = codec;
  writer = failing delay;
  readers = readers;
  format = format;
  format_name = format;
  decode = λ limit body. decoded request true;
  pid = 7;
  calls = λ w. record {
    mkdir_fails = false;
    walk = complete;
    write_fails = none;
    rename_fails = false;
  };
  walk = λ w. complete;
}

-- No variable is set.
unfoldable pub cfg : Config
unfolding get_string get_int get_int64 get_duration load
cfg = load (λ key. []) (λ text. none)

abbrev pub handler : ℕ → Handler (World Topic)
handler delay = logs_handler (env delay) cfg

abbrev pub http_request : HttpRequest
http_request = record { method = codes "POST"; payload = codes "{}"; ctx = record { ends = none } }

abbrev pub world : World Topic
world = record { kafka = []; clock = now; dir = none }

abbrev pub server : Server (World Topic)
server = record { world = world; metrics = some counters; in_flight = slots (env 0) cfg }

pub failing-Appends : Appends (failing second) (λ w. w.kafka)
failing-Appends = record { appends = λ ctx messages w h. cc }

-- The world after a write to Kafka that failed in time.
abbrev early_world : World Topic
early_world = record world { clock = record now { instant = now.instant + second } }

spool_saves :
    (ctx : Context)
    → is_done ctx early_world.clock.instant ≡ false
    → (spool_write (env second) cfg ctx (event ∷ event ∷ []) early_world).0 ≡ ok tt
unfolding spool_write Writer.write commit check_capacity dir_usage used_bytes marshal_json_lines
    byte_len cfg
spool_saves ctx early = rw (early, marshal-event json) refl

status_spooled :
    (events : List Event) (s : Server (World Topic))
    (out : Result WriteError (Unit {0}) × World Topic)
    → out.0 ≡ ok tt
    → (spooled (handler second) events s out).0.status ≡ 202
unfolding spooled accept
status_spooled events s (ok u, w) h = refl
status_spooled events s (err e, w) h = absurd cc

abbrev served_context : Context
served_context = request_context (handler second) http_request world

served_in_time : is_done served_context early_world.clock.instant ≡ false
unfolding is_done with_timeout cfg
served_in_time = refl

status_published :
    (s : Server (World Topic))
    → (published
        (handler second)
        served_context
        (event ∷ event ∷ [])
        s
        (err (codes "timeout"), early_world)).0.status
      ≡ 202
unfolding published fall_back
status_published s =
    status_spooled (event ∷ event ∷ [])
      (observe observe_kafka_publish_error (record s { world = early_world }))
      (spool_write (env second) cfg served_context (event ∷ event ∷ []) early_world)
      (spool_saves served_context served_in_time)

-- The server when the batch goes to Kafka.
abbrev sending : Server (World Topic)
sending = record (observe_spool_state (handler second) (observe observe_request server)) {
  in_flight = some (record { cap = 256; taken = 1 });
}

pub status_served : (serve_http (handler second) http_request server).0.status ≡ 202
unfolding serve_http observe_spool_state publish to_messages cfg text_eq
status_served = rw (validate-request, marshal-event json) (status_published sending)

serve_http-202_example :
    (events : List Event) × Valid (handler second) http_request world events
    × (OnKafka
          (env second)
          cfg
          (λ w. w.kafka)
          events
          world
          (serve_http (handler second) http_request server).1.world
        ⊎ InSpool
            (env second)
            cfg
            (λ w. w.kafka)
            events
            (serve_http (handler second) http_request server).1.world)
serve_http-202_example =
    serve_http-202 (env second) cfg (λ w. w.kafka) failing-Appends http_request server status_served

-- The world after a write to Kafka that took longer than the request has.
abbrev late_world : World Topic
late_world = record world { clock = record now { instant = now.instant + 6 * second } }

publish_late :
    publish codec
      (failing (6 * second))
      (request_context (handler (6 * second)) http_request world)
      (event ∷ event ∷ [])
      world
    ≡ (err (codes "timeout"), late_world)
unfolding publish to_messages
publish_late = rw (marshal-event json) refl

late_is_done :
    is_done (request_context (handler (6 * second)) http_request world) late_world.clock.instant
    ≡ true
unfolding is_done with_timeout cfg
late_is_done = refl

post : text_eq http_request.method (codes "POST") ≡ true
unfolding text_eq
post = refl

validate_cfg : validate readers cfg.max_batch_size now request ≡ ok (event ∷ event ∷ [])
unfolding cfg
validate_cfg = validate-request

handle-past_deadline_example :
    ((handle (handler (6 * second)) http_request server).0 ≡ error_reply 503 unavailable)
    × ((handle (handler (6 * second)) http_request server).1.world.dir ≡ none)
handle-past_deadline_example =
    handle-past_deadline (env (6 * second)) cfg http_request server request event (event ∷ [])
      (codes "timeout") late_world post refl validate_cfg publish_late late_is_done

-- A server with one place, and a request that takes it.
abbrev narrow : Server (World Topic)
narrow = record server { in_flight = new_in_flight (pos 1) }

abbrev taken : Option Slots
taken = some (record { cap = 1; taken = 1 })

narrow_acquires : acquire (started (handler second) narrow).in_flight ≡ some taken
unfolding acquire observe_spool_state
narrow_acquires = refl

abbrev full_house : System (World Topic)
full_house = record {
  server = record (started (handler second) narrow) { in_flight = taken };
  entered = http_request ∷ [];
  handled = 0;
}

running-within_example :
    (running (handler second) full_house ≤ 1)
    × ((acquire (started (handler second) full_house.server).in_flight ≡ none)
        ↔ (running (handler second) full_house ≡ 1))
running-within_example =
    running-within (handler second) (pos 1) narrow full_house refl refl
      (steps begins (enters http_request taken narrow_acquires))

serve_http-Tally_example :
    (requests (serve_http (handler second) http_request server).1 ≡ add64 0 1)
    × Tally server
        (serve_http (handler second) http_request server).1
        (serve_http (handler second) http_request server).0
serve_http-Tally_example = serve_http-Tally (handler second) counters http_request server refl
