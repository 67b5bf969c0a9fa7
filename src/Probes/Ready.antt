-- ===== src/Probes/Ready.antt =====
-- When the worker reports that it is ready (cmd/log-worker/main.go, internal/worker/service.go).
use log_service.Prelude.{
  ℕ, ◌*◌, ◌≡◌, ◌<◌, ◌↔◌, refl, Bool, true, false, if◌then◌else◌, List, [], ◌∷◌, ◌++◌, Result, ok,
  err, leb, arith,
}
use log_service.Prelude.Clock.{Context, with_timeout, second}
use log_service.Prelude.Text.{Text, codes, text_eq}
use log_service.Kafka.{split_brokers}
use log_service.Worker.Stats.{Stats}
use log_service.Probes.{
  Network, Response, dial_first, healthy, ping_elasticsearch, then_kafka, ready, worker_ready,
  serve_worker,
}

module _ {S : Type 0} (net : Network S) where
  -- Elasticsearch answered with a status below 500, after which the first broker took a connection.
  abbrev pub Answers : Context → Text → Text → S → Type 0
  Answers ctx base brokers s =
      (status : ℕ) × (text : Text) × (t : S) × (broker : Text) × (rest : List Text) × (net.get ctx
          (base ++ codes "/_cluster/health") s
        ≡ (ok (status, text), t))
      × (status < 500)
      × (split_brokers brokers ≡ broker ∷ rest)
      × ((net.dial ctx broker t).0 ≡ ok tt)

  first_dialled :
      (ctx : Context) (bs : List Text) (t : S)
      → (dial_first net ctx bs t).0 ≡ ok tt
      → (broker : Text) × (rest : List Text) × (bs ≡ broker ∷ rest)
        × ((net.dial ctx broker t).0 ≡ ok tt)
  first_dialled ctx [] t h = absurd cc
  first_dialled ctx (b ∷ bs) t h = (b, bs, refl, h)

  checked-Answers :
      (ctx : Context) (base brokers : Text) (s : S) (out : Result Text (ℕ × Text) × S)
      → net.get ctx (base ++ codes "/_cluster/health") s ≡ out
      → (then_kafka net ctx brokers (healthy net out)).0 ≡ ok tt
      → Answers ctx base brokers s
  checked-Answers ctx base brokers s (err e, t) got h = absurd cc
  checked-Answers ctx base brokers s (ok (status, text), t) got h = under (leb 500 status) refl h
    where
      under :
          (high : Bool)
          → leb 500 status ≡ high
          → (then_kafka net ctx brokers
              (if high then (err (codes "elasticsearch returned " ++ text), t) else (ok tt, t))).0
            ≡ ok tt
          → Answers ctx base brokers s
      under true high h = absurd cc
      under false low h =
          let (b, rest, p, q) = first_dialled ctx (split_brokers brokers) t h in
          (status, text, t, b, rest, got, ground arith, p, q)

  Answers-checked :
      (ctx : Context) (base brokers : Text) (s : S)
      → Answers ctx base brokers s
      → (then_kafka net ctx brokers
          (healthy net (net.get ctx (base ++ codes "/_cluster/health") s))).0
        ≡ ok tt
  Answers-checked ctx base brokers s (status, text, t, b, rest, got, low, p, q) =
      let under : leb 500 status ≡ false = ground arith in rw (got, under, p) q

  worker_ready_ok :
      (out : Result Text (Unit {0}) × S) → ((worker_ready net out).0.status ≡ 200) ↔ (out.0 ≡ ok tt)
  worker_ready_ok (err e, s) = (λ h. absurd (omega (arith, h)), λ h. absurd cc)
  worker_ready_ok (ok u, s) = (λ h. refl, λ h. refl)

  -- The worker answers 200 on `/readyz` exactly if Elasticsearch answers a health request with a status below
  -- 500 and the first broker that is configured then takes a connection, both asked in a context that ends after two seconds.
  pub ready_iff :
      (ctx : Context) (base brokers : Text) (t : Stats) (not_found : Response) (s : S)
      → ((serve_worker net ctx base brokers t not_found (codes "/readyz") s).0.status ≡ 200)
        ↔ Answers (with_timeout ctx (net.now s).instant (2 * second)) base brokers s
  unfolding serve_worker ready ping_elasticsearch text_eq
  ready_iff ctx base brokers t not_found s =
      let (to, from) =
        worker_ready_ok
          (ready net (with_timeout ctx (net.now s).instant (2 * second)) base brokers s) in
      (
        λ h.
            checked-Answers (with_timeout ctx (net.now s).instant (2 * second)) base brokers s
              (net.get (with_timeout ctx (net.now s).instant (2 * second))
                (base ++ codes "/_cluster/health") s)
              refl (to h),
        λ a.
            from (
              Answers-checked (with_timeout ctx (net.now s).instant (2 * second)) base brokers s a),
      )
