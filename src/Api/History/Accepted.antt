-- ===== src/Api/History/Accepted.antt =====
-- A batch that the log API has answered 202 is not lost later (cmd/log-api/main.go with internal/ingestion,
-- internal/kafka and internal/spool).
use log_service.Prelude.{
  ◌≡◌, ◌⊎◌, inl, inr, sym, ap, ◌∙◌, true, false, List, [], ◌++◌, Result, ok, All,
}
use mathlib.Core.List.{append-nil}
use log_service.Prelude.Clock.{Time, utc}
use log_service.LogEvent.{Event, IsUtf8}
use log_service.Kafka.{Message}
use log_service.Spool.Dir.{has_slash}
use log_service.Spool.Dir.Names.{is_batch-stamp}
use log_service.Spool.Writer.{batch_name}
use log_service.Ingestion.Types.{HttpRequest, Server, decoded}
use log_service.Ingestion.{serve_http}
use log_service.Ingestion.Batch.{Request, ValidateError}
use log_service.Ingestion.Replies.{Valid}
use log_service.Config.{Config}
use log_service.Api.{World, Environment, logs_handler}
use log_service.Api.Durable.{OnKafka, InSpool, serve_http-202}
use log_service.Api.History.{History}
use log_service.Api.History.Stored.{IsSound, Stored}
use log_service.Api.History.Lasting.{History-Stored}

module _ {K : Type 0} (env : Environment K) (cfg : Config) (topic : K → List Message) where
  -- A body makes one batch.
  Valid-unique :
      (r : HttpRequest) (w : World K) (es ds : List Event)
      → Valid (logs_handler env cfg) r w es
      → Valid (logs_handler env cfg) r w ds
      → es ≡ ds
  Valid-unique r w es ds v u =
      let req : v.req ≡ u.req = injective v.req u.req (sym v.decodes ∙ u.decodes) in
      made (sym v.validates ∙ rw req u.validates)
    where
      injective : (a b : Request) → decoded a true ≡ decoded b true → a ≡ b
      injective a b e = cc

      made : ◌≡◌ {A = Result ValidateError (List Event)} (ok es) (ok ds) → es ≡ ds
      made e = cc

  OnKafka-Stored :
      (es ds : List Event) (w w' : World K)
      → es ≡ ds
      → OnKafka env cfg (λ v. topic v.kafka) es w w'
      → Stored env topic ds w'
  OnKafka-Stored es ds w w' same (messages, m, t) = inl (
    topic w.kafka,
    messages,
    [],
    rw (← same) m,
    t ∙ ap (λ l. topic w.kafka ++ l) (sym (append-nil messages)),
  )

  InSpool-Stored :
      ((t : Time) → has_slash (env.format_name t) ≡ false)
      → (es ds : List Event) (w : World K) → es ≡ ds
      → InSpool env cfg (λ v. topic v.kafka) es w
      → Stored env topic ds w
  unfolding batch_name
  InSpool-Stored plain es ds w same (at, payload, m, there) = inr (record {
    path = batch_name env.format_name at env.pid;
    payload = payload;
    listed = is_batch-stamp (env.format_name (utc at)) env.pid (plain (utc at));
    made = rw (← same) m;
    there = there;
  })

  -- Kafka's writer and JSON are as `IsSound` says, the format of a name's time has no slash, and no later batch is
  -- spooled under a name in use. If a request whose body makes a valid batch of UTF-8 texts is answered
  -- 202, then after any further requests, passes of the replayer and time, whatever fails in them, the
  -- topic has the batch's messages in a row, or a file of the spool that a pass looks for holds its lines.
  pub accepted_lasts :
      IsSound env topic
      → ((t : Time) → has_slash (env.format_name t) ≡ false)
      → (r : HttpRequest) (s : Server (World K)) (batch : List Event)
      → Valid (logs_handler env cfg) r s.world batch
      → All IsUtf8 batch
      → (serve_http (logs_handler env cfg) r s).0.status ≡ 202
      → (t : Server (World K)) → History env cfg (serve_http (logs_handler env cfg) r s).1 t
      → Stored env topic batch t.world
  accepted_lasts sound plain r s batch valid utf8 accepted t history =
      let (es, v, at) = serve_http-202 env cfg (λ w. topic w.kafka) sound.appends r s accepted in
      let same = Valid-unique r s.world es batch v valid in
      History-Stored env cfg topic batch sound utf8 (serve_http (logs_handler env cfg) r s).1 t
        history (stored es same at)
    where
      stored :
          (es : List Event)
          → es ≡ batch
          → OnKafka env cfg
              (λ w. topic w.kafka)
              es
              s.world
              (serve_http (logs_handler env cfg) r s).1.world
            ⊎ InSpool env cfg
                (λ w. topic w.kafka)
                es
                (serve_http (logs_handler env cfg) r s).1.world
          → Stored env topic batch (serve_http (logs_handler env cfg) r s).1.world
      stored es same (inl k) =
          OnKafka-Stored es batch s.world (serve_http (logs_handler env cfg) r s).1.world same k
      stored es same (inr k) =
          InSpool-Stored plain es batch (serve_http (logs_handler env cfg) r s).1.world same k
