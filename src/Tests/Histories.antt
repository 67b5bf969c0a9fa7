-- ===== src/Tests/Histories.antt =====
-- A batch that is spooled while Kafka fails, and then the replayer, which fails as well.
use log_service.Prelude.{◌≡◌, refl, sym, [], ◌∷◌, false}
use mathlib.Core.List.{append-nil}
use log_service.Prelude.Clock.{Time, second}
use log_service.Spool.Dir.{has_slash}
use log_service.Spool.Replayer.{ReplayCalls}
use log_service.Ingestion.Types.{Server}
use log_service.Ingestion.{serve_http}
use log_service.Ingestion.Replies.{Valid}
use log_service.Api.{World}
use log_service.Api.History.{begin, replayed, replay_pass}
use log_service.Api.History.Stored.{IsSound, Stored}
use log_service.Api.History.Accepted.{accepted_lasts}
use log_service.Tests.Samples.{event, event-IsUtf8, codec-IsJson}
use log_service.Tests.Counting.{format, request, validate-request}
use log_service.Tests.Working.{ctx}
use log_service.Tests.Serving.{
  Topic, env, cfg, handler, http_request, world, server, failing-Appends, status_served,
}

env-IsSound : IsSound (env second) (λ k. k)
env-IsSound = record {
  json = codec-IsJson;
  appends = failing-Appends;
  extends = λ ctx ms w. ([], sym (append-nil w.kafka));
  apart = λ ctx ms w. refl;
}

plain : (t : Time) → has_slash (format t) ≡ false
unfolding has_slash
plain t = refl

request-Valid : Valid (handler second) http_request world (event ∷ event ∷ [])
unfolding cfg
request-Valid = record { req = request; decodes = refl; validates = validate-request }

abbrev calls : ReplayCalls
calls = record { glob_fails = false; read_fails = λ path. false; remove_fails = λ path. false }

abbrev served : Server (World Topic)
served = (serve_http (handler second) http_request server).1

abbrev later : Server (World Topic)
later = record served { world = replay_pass (env second) calls ctx served.world }

accepted_lasts_example : Stored (env second) (λ k. k) (event ∷ event ∷ []) later.world
accepted_lasts_example =
    accepted_lasts (env second) cfg (λ k. k) env-IsSound plain http_request server
      (event ∷ event ∷ []) request-Valid (event-IsUtf8, (event-IsUtf8, tt)) status_served later
      (replayed calls ctx begin)
