-- ===== src/Api/Durable.antt =====
-- The log API answers 202 only for a batch that is on Kafka or in the spool (cmd/log-api/main.go with
-- internal/ingestion, internal/kafka and internal/spool).
use log_service.Prelude.{
  ◌≡◌, ◌⊎◌, inl, inr, refl, sym, ap, ◌∙◌, List, [], ◌∷◌, ◌++◌, some, ok, length, ◌<◌, arith,
  Result-cases,
}
use log_service.Prelude.Clock.{Time, Context, is_done}
use log_service.Prelude.Text.{Text, text_eq_refl}
use log_service.LogEvent.{Event}
use log_service.Kafka.{Message, to_messages, publish}
use log_service.Kafka.Appends.{Appends}
use log_service.Publisher.{Publisher}
use log_service.Spool.Dir.{Dir, files, read}
use log_service.Spool.Lines.{marshal_json_lines}
use log_service.Spool.Writer.{batch_name}
use log_service.Spool.Writer.Keeps.{write_ok-Holds}
use log_service.Ingestion.Types.{Reply, HttpRequest, Server, Spooler}
use log_service.Ingestion.{serve_http, request_context}
use log_service.Ingestion.Batch.Laws.{validate-MadeFrom}
use log_service.Ingestion.Replies.{
  Valid, Outcome, wrong_method, over_limit, not_json, trailing, unfit, unconfigured, in_kafka,
  unspoolable, in_spool, spool_full, spool_failed, serve_http-Outcome,
}
use log_service.Config.{Config}
use log_service.Api.{World, Environment, spool_writer, spool_write, logs_handler}

module _ {K : Type 0} (env : Environment K) (cfg : Config) (topic : World K → List Message) where
  -- The batch was appended to the topic as its messages.
  abbrev pub OnKafka : List Event → World K → World K → Type 0
  OnKafka events w w' =
      (messages : List Message) × (to_messages env.codec events ≡ ok messages)
      × (topic w' ≡ topic w ++ messages)

  -- A file of the spool, named as a batch of some time, holds the batch's JSON lines.
  abbrev pub InSpool : List Event → World K → Type 0
  InSpool events w =
      (at : Time) × (payload : Text) × (marshal_json_lines env.codec events ≡ ok payload)
      × (read (batch_name env.format_name at env.pid) (files w.dir) ≡ some payload)

  spool_write-InSpool :
      (ctx : Context) (events : List Event) (w w' : World K)
      → 0 < length events
      → spool_write env cfg ctx events w ≡ (ok tt, w')
      → InSpool events w'
  unfolding spool_write
  spool_write-InSpool ctx [] w w' h e = absurd (omega arith)
  spool_write-InSpool ctx (event ∷ events) w w' h e =
      let name = batch_name env.format_name w.clock env.pid in
      let (payload, m, holds) =
        write_ok-Holds env.codec (spool_writer env cfg) (env.calls w) name
          (is_done ctx w.clock.instant) event events w.dir (ap (λ p. p.0) e) in
      (
        w.clock,
        payload,
        m,
        ap (λ (d : Dir). read name (files d)) (sym (ap (λ p. p.1.dir) e))
            ∙ holds name
            ∙ rw (text_eq_refl name) refl,
      )

  publish-OnKafka :
      Appends env.writer topic
      → (ctx : Context) (events : List Event) (w w' : World K)
      → publish env.codec env.writer ctx events w ≡ (ok tt, w')
      → OnKafka events w w'
  unfolding publish
  publish-OnKafka a ctx events w w' e = elim (Result-cases (to_messages env.codec events)) [
    | inl (messages, q) ↦
        let sent = rw q at e in
        (
          messages,
          q,
          ap topic (sym (ap (λ p. p.1) sent)) ∙ a.appends ctx messages w (ap (λ p. p.0) sent),
        )
    | inr (x, q) ↦ absurd (ground arith)
  ]

  same : {A : Type 0} (x y : A) → some x ≡ some y → x ≡ y
  same x y e = cc

  Outcome-durable :
      Appends env.writer topic
      → (r : HttpRequest) (w w' : World K) (reply : Reply)
      → Outcome (logs_handler env cfg) r w reply w'
      → reply.status ≡ 202
      → (events : List Event) × Valid (logs_handler env cfg) r w events
        × (OnKafka events w w' ⊎ InSpool events w')
  Outcome-durable a r w w' reply (wrong_method d e k) h = absurd (ground arith)
  Outcome-durable a r w w' reply (over_limit m d e k l) h = absurd (ground arith)
  Outcome-durable a r w w' reply (not_json m d e k l) h = absurd (ground arith)
  Outcome-durable a r w w' reply (trailing q d e k) h = absurd (ground arith)
  Outcome-durable a r w w' reply (unfit q x d e k l) h = absurd (ground arith)
  Outcome-durable a r w w' reply (unconfigured q v e k l) h = absurd (ground arith)
  Outcome-durable a r w w' reply (in_kafka events p v e k l) h = (
    events,
    v,
    inl (
        publish-OnKafka a _ events w w' (
          ap
            (λ (q : Publisher (World K)).
              q.publish (request_context (logs_handler env cfg) r w) events w)
            (same _ _ e)
          ∙ k)),
  )
  Outcome-durable a r w w' reply (unspoolable events p x v e k n l) h = absurd (ground arith)
  Outcome-durable a r w w' reply (in_spool events p x w1 sp v e k n l m) h = (
    events,
    v,
    inr (
        spool_write-InSpool _ events w1 w' (validate-MadeFrom _ _ _ v.req events v.validates).1 (
          ap
            (λ (q : Spooler (World K)).
              q.write (request_context (logs_handler env cfg) r w) events w1)
            (same _ _ n)
          ∙ l)),
  )
  Outcome-durable a r w w' reply (spool_full events p x w1 sp v e k n l m) h = absurd (ground arith)
  Outcome-durable a r w w' reply (spool_failed events p x w1 sp y v e k n l u m) h =
      absurd (ground arith)

  -- When Kafka's writer appends what it reports as written, a request that is answered 202 had a body
  -- with a valid batch, and that batch's messages, all of them in order, were appended to the topic, or
  -- a file of the spool, named as a batch of some time, holds its JSON lines, all of them.
  pub serve_http-202 :
      Appends env.writer topic
      → (r : HttpRequest) (s : Server (World K))
      → (serve_http (logs_handler env cfg) r s).0.status ≡ 202
      → (events : List Event) × Valid (logs_handler env cfg) r s.world events
        × (OnKafka events s.world (serve_http (logs_handler env cfg) r s).1.world
            ⊎ InSpool events (serve_http (logs_handler env cfg) r s).1.world)
  serve_http-202 a r s h = elim (serve_http-Outcome (logs_handler env cfg) r s) [
    | inl (turned_away, e) ↦ absurd (omega (arith, h, ap (λ (q : Reply). q.status) turned_away))
    | inr outcome ↦ Outcome-durable a r _ _ _ outcome h
  ]
