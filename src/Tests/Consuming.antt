-- ===== src/Tests/Consuming.antt =====
-- The worker's two loops over a site that indexes whatever it is sent, and has one replay file.
use log_service.Prelude.{
  ◌≡◌, ◌⊎◌, inl, refl, Bool, true, false, List, [], ◌∷◌, ◌++◌, Option, none, some, ok, err,
  if◌then◌else◌, if_both, length, arith,
}
use log_service.Prelude.Clock.{utc}
use log_service.Prelude.Int.{ℤ, pos, ltb_ℤ}
use log_service.Prelude.Text.{
  Text, codes, text_eq, text_eq_iff, trim_space, trim_left, trim_right, is_space, byte_len,
}
use log_service.LogEvent.{Event}
use log_service.Storage.Accounted.{In}
use log_service.Worker.Stats.{new_stats}
use log_service.Worker.Decode.{invalid_json, decode}
use log_service.Worker.Indexing.{Fetched, Service, send_dlq}
use log_service.Worker.Indexing.Attempt.{Lands}
use log_service.Worker.Consume.{fetched, idle, Consumer, Loop, turn, receive, parse_failure}
use log_service.Worker.Consume.Rejects.{told, receive-unencodable, receive-passes}
use log_service.Worker.Replay.{Folder, read_replay_file, replay_lines, replay_once}
use log_service.Worker.Replay.Returns.{Apart, replay_once-returns}
use log_service.Worker.Delivers.{Steps}
use log_service.Spool.Lines.{lines, drop_cr}
use log_service.Tests.Samples.{now, readers, event, codec, json}
use log_service.Tests.LogLines.{parse-line}
use log_service.Tests.Working.{worker_id, ctx, In-left, In-right}

record Site : Type 0 where
  landed : List Event
  file : Option Text
  committed : ℤ

abbrev file_name : Text
file_name = codes "a.jsonl"

abbrev content : Text → Site → Option Text
content q s = if text_eq q file_name then s.file else none

abbrev remove : Text → Site → Bool × Site
remove p s = (false, (if text_eq p file_name then record s { file = none } else s))

-- What is committed is the offset of the first message.
abbrev commit_offset : List Fetched → Site → Site
commit_offset [] s = s
commit_offset (m ∷ ms) s = record s { committed = m.offset }

commit_apart :
    (q : Text) (ms : List Fetched) (s : Site) → content q (commit_offset ms s) ≡ content q s
commit_apart q [] s = refl
commit_apart q (m ∷ ms) s = refl

commit_keeps :
    (ms : List Fetched) (s : Site) (e : Event) → In e s.landed → In e (commit_offset ms s).landed
commit_keeps [] s e h = h
commit_keeps (m ∷ ms) s e h = h

abbrev service : Service Site
service = record {
  retry_max = pos 1;
  worker_id = worker_id;
  bulk_index = λ ctx events s. (
    (record { indexed = length events; permanent = []; retryable = []; retry_after = pos 0 }, none),
    record s { landed = events ++ s.landed },
  );
  encode_dlq = λ m. none;
  write_dlq = λ ctx messages s. (ok tt, s);
  write_replay = λ events s. (err (codes "disk full"), s);
  replay_files = λ s. some 1;
  commit = λ ctx messages s. (ok tt, commit_offset messages s);
  now = λ s. now;
  wait = λ ctx t s. (false, s);
}

abbrev folder : Folder Site
folder = record { glob = λ s. some (file_name ∷ []); content = content; remove = remove }

abbrev message : Fetched
message = record { topic = codes "logs"; partition = pos 0; offset = pos 7; value = json }

abbrev consumer : Consumer Site
consumer = record {
  codec = codec;
  readers = readers;
  bulk_size = pos 1;
  explain = λ e. codes "invalid";
  fetch = λ ctx s. (fetched message, s);
}

abbrev Landed : Event → Site → Type 0
Landed e s = In e s.landed

service-Lands : Lands service ctx Landed
unfolding send_dlq
service-Lands = record {
  bulk_keeps = λ events s e h. In-right e events s.landed h;
  bulk_settles = λ events s e h. inl (inl (In-left e events s.landed h));
  dlq_keeps = λ m s e h. h;
  dlq_takes = λ m s e p h. absurd cc;
}

remove_file : (p q : Text) (s : Site) → text_eq p q ≡ false → content q (remove p s).1 ≡ content q s
remove_file p q s far =
    ground (arith, text_eq_iff p q, text_eq_iff p file_name, text_eq_iff q file_name)

service-Apart : Apart service folder ctx Landed
unfolding send_dlq
service-Apart = record {
  bulk_apart = λ q events s. refl;
  dlq_apart = λ q m s. refl;
  remove_apart = remove_file;
  remove_keeps = λ p s e h. if_both (λ (t : Site). In e t.landed) (text_eq p file_name) _ _ h h;
}

service-Steps : Steps service consumer folder codec ctx Landed
service-Steps = record {
  write_apart = λ q events es s r. refl;
  write_files = λ events s h. absurd cc;
  write_keeps = λ events s e h. h;
  commit_apart = commit_apart;
  commit_keeps = commit_keeps;
  wait_apart = λ q t s. refl;
  wait_keeps = λ t s e h. h;
  fetch_apart = λ q s. refl;
  fetch_keeps = λ s e h. h;
}

abbrev site : Site
site = record { landed = []; file = some json; committed = pos 0 }

abbrev start : Loop Site
start = record { batch = []; worker = record { world = site; stats = new_stats now } }

abbrev decoded_event : Event
decoded_event = record event { processed_at = utc now; worker_id = worker_id }

decode_json : decode codec readers worker_id now json ≡ ok decoded_event
unfolding decode utc
decode_json = rw parse-line refl

turn_events : (turn service consumer ctx idle start).events ≡ decoded_event ∷ []
unfolding turn receive
turn_events = rw decode_json refl

first_In : (es : List Event) → es ≡ decoded_event ∷ [] → In decoded_event (es ++ [])
first_In es p = rw p (inl refl)

replay_file_events : read_replay_file codec (some json) ≡ ok (event ∷ [])
unfolding read_replay_file replay_lines lines drop_cr trim_space trim_left trim_right is_space
    byte_len
replay_file_events = refl

replay_once-returns_example :
    Landed event (replay_once service folder codec ctx start.worker).1.world
    ⊎ (content file_name (replay_once service folder codec ctx start.worker).1.world ≡ some json)
unfolding text_eq
replay_once-returns_example =
    replay_once-returns service folder codec ctx Landed service-Lands service-Apart event file_name
      (event ∷ []) start.worker replay_file_events (inl refl)

-- A message that is no JSON text
abbrev poison : Fetched
poison = record { topic = codes "logs"; partition = pos 0; offset = pos 8; value = codes "{" }

abbrev strict : Consumer Site
strict = record consumer { codec = record codec { unmarshal = λ s. none }; bulk_size = pos 10 }

decode_poison : decode strict.codec readers worker_id now (codes "{") ≡ err invalid_json
unfolding decode
decode_poison = refl

receive-unencodable_example :
    receive service strict ctx poison start
    ≡ record { events = []; returns = false; loop = told service strict ctx start }
receive-unencodable_example =
    receive-unencodable service strict ctx poison start invalid_json decode_poison
      (λ letter p. refl)

-- The same service, whose dead letters are JSON texts.
abbrev writing : Service Site
writing = record service { encode_dlq = λ m. some json }

abbrev waiting : Loop Site
waiting = record start { batch = record { message = message; event = decoded_event } ∷ [] }

abbrev Covers : Fetched → Site → Type 0
Covers q s = ltb_ℤ q.offset s.committed ≡ true

letter_sent :
    send_dlq writing ctx (parse_failure writing strict ctx invalid_json poison site) site
    ≡ (ok tt, site)
unfolding send_dlq
letter_sent = refl

receive-passes_example :
    ((receive writing strict ctx poison waiting).loop.batch ≡ waiting.batch)
    × Covers message (receive writing strict ctx poison waiting).loop.worker.world
receive-passes_example =
    receive-passes writing strict ctx Covers (λ m q s topic partition before done. before) poison
      message waiting invalid_json site decode_poison letter_sent refl refl refl refl
