-- ===== src/Dashboard/Stream.antt =====
-- `streamLogs` and `writeEvent` of internal/dashboard/http.go: every two seconds the newest records are
-- read, and those that were not written before are written, the oldest first.
pub mod Once
use log_service.Prelude.{
  ℕ, zero, suc, Bool, true, false, List, [], ◌∷◌, ◌++◌, Result, ok, err, ◌||◌, if◌then◌else◌,
}
use log_service.Prelude.Clock.{Time, utc}
use log_service.Prelude.Int.{pos}
use log_service.Prelude.Text.{Text, codes, text_eq}
use mathlib.Core.List.{reverse}
use log_service.Dashboard.{LogRecord, LogsResponse}
use log_service.Dashboard.Query.{back}
use log_service.Dashboard.Elastic.{Elastic, logs}
use log_service.Dashboard.Server.{Request, Response, only_get, method_not_allowed, write_error}

pub data Sent : Type 0 where
  connected : Sent
  error : Text → Sent
  log : LogRecord → Sent

-- The stream: the world, the keys seen, and what was sent, the last first.
pub record Stream (S : Type 0) : Type 0 where
  pub world : S
  pub seen : List Text
  pub sent : List Sent

unfoldable pub exists : Text → List Text → Bool
exists key [] = false
exists key (k ∷ ks) = text_eq k key || exists key ks

module _ {Object S : Type 0} (es : Elastic Object S) (format_nano : Time → Text)
    (can_marshal : Sent → Bool) (now : S → Time) where
  abbrev pub key_of : LogRecord → Text
  key_of r = format_nano r.timestamp ++ r.raw

  -- writeEvent: what cannot be encoded is not written.
  unfoldable pub write_event : Sent → List Sent → List Sent
  write_event event sent = if can_marshal event then event ∷ sent else sent

  -- The body of the loop over the records
  unfoldable pub write_record : LogRecord → Stream S → Stream S
  unfolding exists write_event
  write_record r w =
      if exists (key_of r) w.seen
      then w
      else record w { seen = key_of r ∷ w.seen; sent = write_event (log r) w.sent }

  unfoldable pub write_records : List LogRecord → Stream S → Stream S
  unfolding write_record
  write_records [] w = w
  write_records (r ∷ rs) w = write_records rs (write_record r w)

  abbrev pub polled : Stream S → Result Text LogsResponse × S → Stream S
  polled w (err e, s) = record w { world = s; sent = write_event (error e) w.sent }
  polled w (ok page, s) = write_records (reverse page.logs) (record w { world = s })

  -- A tick of streamLogs
  unfoldable pub tick : Stream S → Stream S
  unfolding write_records logs
  tick w =
      let at : Time = utc (now w.world) in
      polled w (logs es (back 10 at) at [] [] [] (pos 25) w.world)

  -- The stream once it is connected
  abbrev pub connect : S → Stream S
  connect s = record { world = s; seen = []; sent = connected ∷ [] }

  -- How streamLogs begins, with whether the writer can flush
  unfoldable pub open_stream : Request → Bool → S → Result (Response Object) (Stream S)
  open_stream r can_flush s = only_get r (err (method_not_allowed (codes "GET"))) (
      if can_flush
      then ok (connect s)
      else err (write_error 500 (codes "streaming is not supported")))

  -- The stream after some ticks
  unfoldable pub ticks : ℕ → S → Stream S
  unfolding tick
  ticks zero s = connect s
  ticks (suc n) s = tick (ticks n s)
