-- ===== src/Tests/Wiring.antt =====
-- The worker over an Elasticsearch that answers, and over one that cannot be reached, with its replay directory.
use log_service.Prelude.{◌≡◌, ◌⊎◌, inl, refl, Bool, true, false, List, [], ◌∷◌, ◌++◌, map, none, ok}
use log_service.Prelude.Clock.{zero_time, utc, second}
use log_service.Prelude.Int.{pos}
use log_service.Prelude.Text.{codes}
use log_service.LogEvent.{Event}
use log_service.Storage.Accounted.{In}
use log_service.Spool.Dir.{has_slash}
use log_service.Worker.Stats.{new_stats}
use log_service.Worker.Decode.{decode}
use log_service.Worker.Decode.Agrees.{processed}
use log_service.Worker.Indexing.{Fetched}
use log_service.Worker.Consume.{fetched, idle, Loop, turn, receive}
use log_service.Worker.Consume.Delivers.{begin, turned}
use log_service.Worker.Settings.{ServiceConfig}
use log_service.Worker.Wiring.{Surroundings, Site, service, consumer}
use log_service.Worker.Wiring.Files.{IsObject}
use log_service.Worker.Wiring.Delivers.Landing.{IsSound}
use log_service.Worker.Wiring.Delivers.{Safe, wired_delivers}
use log_service.Pipeline.Wired.{wired_batch_delivers}
use log_service.Tests.Samples.{
  now, readers, event, event-IsUtf8, codec, codec-IsJson, json, codec-text,
}
use log_service.Tests.LogLines.{parse-line}
use log_service.Tests.Counting.{request, validate-request}
use log_service.Tests.Working.{kafka_message, to_messages-events, ctx}
use log_service.Tests.Bulk.{client, Landed, client-BulkApi}

-- The clock stands still, so that the worker's stamp is the event's own.
abbrev message : Fetched
message = record { topic = codes "logs"; partition = pos 0; offset = pos 7; value = json }

abbrev reached : Surroundings Bool
reached = record {
  client = client;
  post = λ ctx. client.post;
  readers = readers;
  explain = λ e. codes "invalid";
  describe = λ e. codes "io";
  encode_dlq = λ m. none;
  write_dlq = λ ctx ms x. (ok tt, x);
  commit = λ ctx ms x. (ok tt, x);
  fetch = λ ctx x. (fetched message, x);
  wait = λ ctx t x. (false, x);
  stamp = λ t. codes "20260102T030405.000000000Z";
  pid = 7;
  calls = λ x. record { mkdir_fails = false; open_fails = false; write_fails = none };
  opens = λ path x. true;
  globs = λ x. true;
  removes = λ path x. true;
}

abbrev lost : Surroundings Bool
lost = record reached { post = λ ctx body x. (none, x) }

abbrev cfg : ServiceConfig
cfg = record {
  brokers = codes "kafka:9092";
  log_topic = codes "logs";
  dlq_topic = codes "dead";
  consumer_group = codes "workers";
  bulk_size = pos 1;
  flush_interval = pos second;
  retry_max = pos 0;
  replay_dir = codes "/replay";
  replay_interval = pos second;
  worker_id = [];
}

reached-IsSound : IsSound reached ctx Landed
reached-IsSound = record {
  bulk_api = client-BulkApi;
  post_keeps = λ body x e h. refl;
  dlq_keeps = λ ms x e h. h;
  dlq_takes = λ letter m x e p q h. absurd cc;
  commit_keeps = λ ms x e h. h;
  fetch_keeps = λ x e h. h;
  wait_keeps = λ t x e h. h;
}

lost-IsSound : IsSound lost ctx Landed
lost-IsSound = record {
  bulk_api = record { answers = λ events s body payload res response made sent. absurd cc };
  post_keeps = λ body x e h. h;
  dlq_keeps = λ ms x e h. h;
  dlq_takes = λ letter m x e p q h. absurd cc;
  commit_keeps = λ ms x e h. h;
  fetch_keeps = λ x e h. h;
  wait_keeps = λ t x e h. h;
}

codec-IsObject : IsObject codec
codec-IsObject = record { braces = λ e t m. (codes "\"source\":\"web\"", codec-text e t m) }

plain : has_slash (codes "20260102T030405.000000000Z") ≡ false
unfolding has_slash
plain = refl

abbrev start : Loop (Site Bool)
start = record {
  batch = [];
  worker = record { world = record { outer = false; dir = none }; stats = new_stats now };
}

decode_json : decode codec readers [] zero_time json ≡ ok event
unfolding decode utc
decode_json = rw parse-line refl

turn_events : (turn (service lost cfg) (consumer lost cfg) ctx idle start).events ≡ event ∷ []
unfolding turn receive
turn_events = rw decode_json refl

first_In : (es : List Event) → es ≡ event ∷ [] → In event (es ++ [])
first_In es p = rw p (inl refl)

wired_delivers_example :
    Safe lost cfg ctx Landed event
      (turn (service lost cfg) (consumer lost cfg) ctx idle start).loop.worker.world
    ⊎ In event
        (map (λ q. q.event) (turn (service lost cfg) (consumer lost cfg) ctx idle start).loop.batch)
wired_delivers_example =
    wired_delivers lost cfg ctx Landed lost-IsSound codec-IsJson codec-IsObject (λ x. plain) start
      ((turn (service lost cfg) (consumer lost cfg) ctx idle start).events ++ [])
      (turn (service lost cfg) (consumer lost cfg) ctx idle start).loop event (turned idle begin)
      event-IsUtf8
      (first_In (turn (service lost cfg) (consumer lost cfg) ctx idle start).events turn_events)

wired_batch_delivers_example :
    Safe reached cfg ctx Landed
      (processed [] zero_time event)
      (turn (service reached cfg) (consumer reached cfg) ctx idle start).loop.worker.world
    ⊎ In (processed [] zero_time event) (
        map
          (λ q. q.event)
          (turn (service reached cfg) (consumer reached cfg) ctx idle start).loop.batch)
wired_batch_delivers_example =
    wired_batch_delivers reached cfg ctx Landed reached-IsSound codec-IsJson codec-IsObject
      (λ x. plain) tt (pos 1000) now request (event ∷ event ∷ [])
      (kafka_message ∷ kafka_message ∷ []) validate-request (event-IsUtf8, (event-IsUtf8, tt))
      to_messages-events 1 kafka_message event refl refl start message false refl refl
      (turn (service reached cfg) (consumer reached cfg) ctx idle start).loop [] begin
