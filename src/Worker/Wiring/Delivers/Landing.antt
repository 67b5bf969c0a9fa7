-- ===== src/Worker/Wiring/Delivers/Landing.antt =====
-- Where an event lands when Elasticsearch and Kafka do what they say (internal/worker/service.go).
use log_service.Prelude.{◌≡◌, refl, List, [], ◌∷◌, Option, none, some, ok}
use log_service.Prelude.Clock.{Context}
use log_service.Prelude.Int.{ℤ}
use log_service.Prelude.Text.{Text}
use log_service.LogEvent.{Event}
use log_service.Kafka.{Message}
use log_service.Storage.{bulk_body, bulk_index, post_body}
use log_service.Storage.Settles.{BulkApi, bulk_index-IsSettled}
use log_service.Worker.Settings.{ServiceConfig}
use log_service.Worker.Indexing.{DlqMessage, Fetched, send_dlq, write_value, dlq_key}
use log_service.Worker.Indexing.Attempt.{Lands}
use log_service.Worker.Wiring.{Surroundings, Site, client_in, service}

-- What Elasticsearch and Kafka do, for a notion of an event that has landed (indexed, or in the dead letter
-- queue): the bulk API is as `BulkApi` says, a dead letter that is written without error lands its event,
-- and nothing takes an event back.
pub record IsSound {X : Type 0} (env : Surroundings X) (ctx : Context) (landed : Event → X → Type 0)
    : Type 0 where
  pub bulk_api : BulkApi (client_in env ctx) landed
  pub post_keeps : (body : Text) (x : X) (e : Event) → landed e x → landed e (env.post ctx body x).1
  pub dlq_keeps :
      (ms : List Message) (x : X) (e : Event) → landed e x → landed e (env.write_dlq ctx ms x).1
  pub dlq_takes :
      (letter : DlqMessage) (m : Message) (x : X) (e : Event)
      → letter.event ≡ some e
      → env.encode_dlq letter ≡ some m.value
      → (env.write_dlq ctx (m ∷ []) x).0 ≡ ok tt
      → landed e (env.write_dlq ctx (m ∷ []) x).1
  pub commit_keeps :
      (ms : List Fetched) (x : X) (e : Event) → landed e x → landed e (env.commit ctx ms x).1
  pub fetch_keeps : (x : X) (e : Event) → landed e x → landed e (env.fetch ctx x).1
  pub wait_keeps : (t : ℤ) (x : X) (e : Event) → landed e x → landed e (env.wait ctx t x).1

module _ {X : Type 0} (env : Surroundings X) (cfg : ServiceConfig) (ctx : Context)
    (landed : Event → X → Type 0) where
  abbrev pub Landed : Event → Site X → Type 0
  Landed e s = landed e s.outer

  module _ (sound : IsSound env ctx landed) where
    bulk-Landed :
        (events : List Event) (x : X) (e : Event)
        → landed e x
        → landed e (bulk_index (client_in env ctx) events x).1
    unfolding bulk_index
    bulk-Landed [] x e h = h
    bulk-Landed (y ∷ ys) x e h = posted (bulk_body (client_in env ctx) (env.client.now x) (y ∷ ys))
      where
        posted : (o : Option Text) → landed e (post_body (client_in env ctx) (y ∷ ys) x o).1
        posted none = h
        posted (some body) = sound.post_keeps body x e h

    dlq-Landed :
        (m : DlqMessage) (s : Site X) (e : Event)
        → Landed e s
        → Landed e (send_dlq (service env cfg) ctx m s).1
    unfolding send_dlq
    dlq-Landed m s e h = sent (env.encode_dlq m)
      where
        sent : (o : Option Text) → Landed e (write_value (service env cfg) ctx m s o).1
        sent none = h
        sent (some value) =
            sound.dlq_keeps
              (record { key = dlq_key (service env cfg) ctx m; value = value; time = m.failed_at }
                ∷ [])
              s.outer e h

    dlq-takes :
        (m : DlqMessage) (s : Site X) (e : Event)
        → m.event ≡ some e
        → (send_dlq (service env cfg) ctx m s).0 ≡ ok tt
        → Landed e (send_dlq (service env cfg) ctx m s).1
    unfolding send_dlq
    dlq-takes m s e of h = sent (env.encode_dlq m) refl h
      where
        sent :
            (o : Option Text)
            → env.encode_dlq m ≡ o
            → (write_value (service env cfg) ctx m s o).0 ≡ ok tt
            → Landed e (write_value (service env cfg) ctx m s o).1
        sent none p h = absurd cc
        sent (some value) p h =
            sound.dlq_takes m
              (record { key = dlq_key (service env cfg) ctx m; value = value; time = m.failed_at })
              s.outer e of p h

    pub lands : Lands (service env cfg) ctx Landed
    lands = record {
      bulk_keeps = λ events s e h. bulk-Landed events s.outer e h;
      bulk_settles = λ events s e h.
          bulk_index-IsSettled (client_in env ctx) landed e sound.bulk_api events s.outer h;
      dlq_keeps = dlq-Landed;
      dlq_takes = dlq-takes;
    }
