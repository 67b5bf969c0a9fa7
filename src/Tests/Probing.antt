-- ===== src/Tests/Probing.antt =====
-- The worker's probe with a cluster and a broker that answer.
use log_service.Prelude.{◌*◌, ◌≡◌, ◌↔◌, [], ok}
use log_service.Prelude.Clock.{second, with_timeout}
use log_service.Prelude.Text.{codes}
use log_service.Worker.Stats.{new_stats}
use log_service.Probes.{Network, Response, write_json, fields, serve_worker}
use log_service.Probes.Ready.{Answers, ready_iff}
use log_service.Tests.Samples.{now}
use log_service.Tests.Working.{ctx}

abbrev network : Network (Unit {0})
network = record {
  now = λ s. now;
  dial = λ ctx broker s. (ok tt, s);
  get = λ ctx url s. (ok (200, codes "200 OK"), s);
}

abbrev not_found : Response
not_found = write_json 404 (fields [])

ready_iff_example :
    ((serve_worker network ctx
        (codes "http://es:9200")
        (codes "kafka:9092")
        (new_stats now)
        not_found
        (codes "/readyz")
        tt).0.status
      ≡ 200)
    ↔ Answers network
        (with_timeout ctx now.instant (2 * second))
        (codes "http://es:9200")
        (codes "kafka:9092")
        tt
ready_iff_example =
    ready_iff network ctx (codes "http://es:9200") (codes "kafka:9092") (new_stats now) not_found tt
