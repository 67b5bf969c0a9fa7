-- ===== src/Tests/Samples.antt =====
-- The line, the event and the parameters that the tests share: readers of one time and one address,
-- and a JSON encoder of one event.
use native.Mathlib.Decide.{ℕ_discrete}
use log_service.Prelude.{◌≡◌, refl, ◌*◌, Option, none, some, [], All, if◌then◌else◌, ◌≤◌, arith}
use log_service.Prelude.Clock.{Time, minute, utc}
use log_service.Prelude.Int.{pos}
use log_service.Prelude.Text.{Text, codes, text_eq}
use log_service.LogEvent.{Event, Codec, IsJson, IsUtf8}
use log_service.LogLine.{Record, Readers}

abbrev pub stamp : Text
stamp = codes "2026-01-02T03:04:05Z"

abbrev pub stamp_time : Time
stamp_time = record { instant = 1000 * minute; zone = pos 0 }

abbrev pub now : Time
now = record { instant = 2000 * minute; zone = pos 3600 }

abbrev pub address : Text
address = codes "10.0.0.1"

abbrev pub readers : Readers
readers = record {
  parse_time = λ t. if text_eq t stamp then some stamp_time else none;
  parse_addr = λ t. if text_eq t address then some (record { text = address }) else none;
}

abbrev pub line : Text
line = codes "2026-01-02T03:04:05Z 10.0.0.1 GET /health 200"

abbrev pub parsed : Record
parsed = record {
  timestamp = stamp_time;
  ip = record { text = address };
  method = codes "GET";
  path = codes "/health";
  status = pos 200;
  raw = line;
}

abbrev pub source : Text
source = codes "web"

abbrev pub event : Event
event = record {
  source = source;
  raw = line;
  timestamp = stamp_time;
  ip = address;
  method = codes "GET";
  path = codes "/health";
  status = pos 200;
  received_at = utc now;
  processed_at = log_service.Prelude.Clock.zero_time;
  worker_id = [];
}

pub event-IsUtf8 : IsUtf8 event
event-IsUtf8 = ground arith

pub event_discrete : Discrete Event
event_discrete = hlevel ℕ_discrete

abbrev pub pick : {e : Event} → Dec (e ≡ event) → Text → Option Text
pick (yes p) t = some t
pick (no n) t = none

pick-event : (d : Dec (event ≡ event)) (t : Text) → pick d t ≡ some t
pick-event (yes p) t = refl
pick-event (no n) t = absurd (n refl)

-- An encoder of the one event as the given text.
abbrev pub codec_of : Text → Codec
codec_of t = record { marshal = λ e. pick (event_discrete e event) t; unmarshal = λ s. some event }

pub marshal-event : (t : Text) → (codec_of t).marshal event ≡ some t
marshal-event t = pick-event (event_discrete event event) t

pick_text : {e : Event} (d : Dec (e ≡ event)) (t s : Text) → pick d t ≡ some s → s ≡ t
pick_text (yes p) t s h = cc
pick_text (no n) t s h = cc

pub marshal_text : (t s : Text) → (codec_of t).marshal event ≡ some s → s ≡ t
marshal_text t s h = pick_text (event_discrete event event) t s h

pick_decodes :
    {e : Event} (d : Dec (e ≡ event)) (t s : Text) → pick d t ≡ some s → some event ≡ some e
pick_decodes (yes p) t s h = cc
pick_decodes (no n) t s h = cc

pub codec_of-IsJson : (t : Text) → All (λ c. 32 ≤ c) t → IsJson (codec_of t)
codec_of-IsJson t h = record {
  no_control = λ e s m. rw (pick_text (event_discrete e event) t s m) h;
  decodes = λ e s v m. pick_decodes (event_discrete e event) t s m;
}

abbrev pub json : Text
json = codes "{\"source\":\"web\"}"

abbrev pub codec : Codec
codec = codec_of json

pub codec-IsJson : IsJson codec
codec-IsJson = codec_of-IsJson json (ground arith)

pub codec-text : (e : Event) (s : Text) → codec.marshal e ≡ some s → s ≡ json
codec-text e s h = pick_text (event_discrete e event) json s h
