-- ===== src/Api/Deadline.antt =====
-- A request whose time runs out in Kafka's writer (cmd/log-api/main.go with internal/ingestion/handler.go
-- and internal/spool/writer.go).
use log_service.Prelude.{◌≡◌, refl, true, List, ◌∷◌, ok, err}
use log_service.Prelude.Clock.{is_done}
use log_service.Prelude.Text.{Text, text_eq}
use log_service.LogEvent.{Event}
use log_service.Kafka.{publish}
use log_service.Spool.Writer
use log_service.Ingestion.Types.{HttpRequest, Server, decoded, unavailable}
use log_service.Ingestion.Batch.{Request, validate}
use log_service.Ingestion.{
  method_post, error_reply, body_limit, request_context, observe_spool_state, accept, spooled,
  fall_back, published, send, check, read_body, handle,
}
use log_service.Config.{Config}
use log_service.Api.{World, Environment, spool_write, logs_handler}

module _ {K : Type 0} (env : Environment K) (cfg : Config) where
  -- The spool is not used for a valid batch whose publishing fails when the time of the request is
  -- over: the write gets the same context, so the reply is 503, and the files are those that
  -- the publishing left, whatever room the spool has.
  pub handle-past_deadline :
      (r : HttpRequest) (s : Server (World K)) (req : Request) (event : Event) (events : List Event)
      (e : Text) (w1 : World K)
      → text_eq r.method method_post ≡ true
      → env.decode (body_limit (logs_handler env cfg)) r.payload ≡ decoded req true
      → validate env.readers cfg.max_batch_size s.world.clock req ≡ ok (event ∷ events)
      → publish env.codec env.writer
          (request_context (logs_handler env cfg) r s.world)
          (event ∷ events)
          s.world
        ≡ (err e, w1)
      → is_done (request_context (logs_handler env cfg) r s.world) w1.clock.instant ≡ true
      → ((handle (logs_handler env cfg) r s).0 ≡ error_reply 503 unavailable)
        × ((handle (logs_handler env cfg) r s).1.world.dir ≡ w1.dir)
  unfolding handle send published fall_back spooled check read_body spool_write Writer.write
      observe_spool_state accept
  handle-past_deadline r s req event events e w1 post body valid failed late =
      rw (post, body, valid, failed, late) (refl, refl)
