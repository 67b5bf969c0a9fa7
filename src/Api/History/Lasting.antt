-- ===== src/Api/History/Lasting.antt =====
-- What the log API has accepted lasts (cmd/log-api/main.go with internal/ingestion, internal/kafka and
-- internal/spool).
use log_service.Prelude.{
  ◌≡◌, ◌⊎◌, inl, inr, ap, ◌∙◌, true, false, List, [], ◌∷◌, none, some, Result, ok, err, All,
  Bool-cases, Result-cases, if_both,
}
use log_service.Prelude.Clock.{Context, is_done}
use log_service.Prelude.Text.{Text, text_eq, text_eq_sound}
use log_service.LogEvent.{Event, IsUtf8}
use log_service.Kafka.{Message, publish}
use log_service.Publisher.{Publisher}
use log_service.Spool.Dir.{Dir, files, read, is_batch}
use log_service.Spool.Dir.Names.{is_batch-tmp}
use log_service.Spool.Writer
use log_service.Spool.Writer.{WriteError, full, batch_name}
use log_service.Spool.Writer.Keeps.{write_ok-Holds, write_err-SameFiles}
use log_service.Ingestion.Types.{Reply, HttpRequest, Server, Spooler}
use log_service.Ingestion.{serve_http}
use log_service.Ingestion.Replies.{
  Outcome, wrong_method, over_limit, not_json, trailing, unfit, unconfigured, in_kafka, unspoolable,
  in_spool, spool_full, spool_failed, serve_http-Outcome,
}
use log_service.Config.{Config}
use log_service.Api.{World, Environment, spool_writer, spool_write, logs_handler}
use log_service.Api.History.{History, begin, asked, replayed, passed, FreshName}
use log_service.Api.History.Stored.{IsSound, Stored, publish-Stored, replay_pass-Stored}

pub same_of_some : {A : Type 0} (x y : A) → some x ≡ some y → x ≡ y
same_of_some x y e = cc

module _ {K : Type 0} (env : Environment K) (cfg : Config) where
  abbrev pub name_at : World K → Text
  name_at w = batch_name env.format_name w.clock env.pid

  abbrev pub written : Context → List Event → World K → Result WriteError (Unit {0}) × Dir
  written ctx es w =
      Writer.write env.codec (spool_writer env cfg) (env.calls w) (name_at w)
        (is_done ctx w.clock.instant) es w.dir

  -- A write under a fresh name takes no batch away, however it ends.
  read-written :
      (ctx : Context) (es : List Event) (w : World K) (path payload : Text)
      → is_batch path ≡ true
      → read (name_at w) (files w.dir) ≡ none
      → read path (files w.dir) ≡ some payload
      → read path (files (written ctx es w).1) ≡ some payload
  unfolding Writer.write
  read-written ctx [] w path payload listed fresh there =
      if_both (λ (out : Result WriteError (Unit {0}) × Dir). read path (files out.1) ≡ some payload)
        (is_done ctx w.clock.instant) _ _ there there
  read-written ctx (e ∷ es) w path payload listed fresh there =
      elim (Result-cases (written ctx (e ∷ es) w).0) [
        | inl (u, good) ↦
            let (made, m, holds) =
              write_ok-Holds env.codec (spool_writer env cfg) (env.calls w) (name_at w)
                (is_done ctx w.clock.instant) e es w.dir good in
            holds path ∙ rw (other, is_batch-tmp (name_at w) path listed) there
        | inr (x, bad) ↦
            write_err-SameFiles env.codec (spool_writer env cfg) (env.calls w) (name_at w)
              (is_done ctx w.clock.instant) (e ∷ es) w.dir x bad path
              (is_batch-tmp (name_at w) path listed)
            ∙ there
      ]
    where
      clash : name_at w ≡ path → ⊥
      clash p = cc

      apart :
          (text_eq (name_at w) path ≡ true) ⊎ (text_eq (name_at w) path ≡ false)
          → text_eq (name_at w) path ≡ false
      apart (inl same) = absurd (clash (text_eq_sound (name_at w) path same))
      apart (inr far) = far

      other : text_eq (name_at w) path ≡ false
      other = apart (Bool-cases (text_eq (name_at w) path))

  -- After a call of the handler's publisher
  pub after_publish :
      (ctx : Context) (es : List Event) (w w' : World K) (p : Publisher (World K))
      (r : Result Text (Unit {0}))
      → (logs_handler env cfg).publisher ≡ some p
      → p.publish ctx es w ≡ (r, w')
      → (publish env.codec env.writer ctx es w).1 ≡ w'
  after_publish ctx es w w' p r hp k =
      ap (λ (q : Publisher (World K)). (q.publish ctx es w).1) (same_of_some _ _ hp)
      ∙ ap (λ o. o.1) k

  pub after_write :
      (ctx : Context) (es : List Event) (w w' : World K) (p : Spooler (World K))
      (r : Result WriteError (Unit {0}))
      → (logs_handler env cfg).spooler ≡ some p
      → p.write ctx es w ≡ (r, w')
      → (spool_write env cfg ctx es w).1 ≡ w'
  after_write ctx es w w' p r hp k =
      ap (λ (q : Spooler (World K)). (q.write ctx es w).1) (same_of_some _ _ hp) ∙ ap (λ o. o.1) k

  module _ (topic : K → List Message) (batch : List Event) where
    spool_write-Stored :
        (ctx : Context) (es : List Event) (w : World K)
        → read (name_at w) (files w.dir) ≡ none
        → Stored env topic batch w
        → Stored env topic batch (spool_write env cfg ctx es w).1
    unfolding spool_write
    spool_write-Stored ctx es w fresh (inl h) = inl h
    spool_write-Stored ctx es w fresh (inr s) = inr (record {
      path = s.path;
      payload = s.payload;
      listed = s.listed;
      made = s.made;
      there = read-written ctx es w s.path s.payload s.listed fresh s.there;
    })

    module _ (sound : IsSound env topic) where
      Outcome-Stored :
          (r : HttpRequest) (w w' : World K) (reply : Reply)
          → FreshName env cfg w
          → Outcome (logs_handler env cfg) r w reply w'
          → Stored env topic batch w
          → Stored env topic batch w'
      Outcome-Stored r w w' reply fresh (wrong_method d e k) h = rw k h
      Outcome-Stored r w w' reply fresh (over_limit m d e k l) h = rw l h
      Outcome-Stored r w w' reply fresh (not_json m d e k l) h = rw l h
      Outcome-Stored r w w' reply fresh (trailing q d e k) h = rw k h
      Outcome-Stored r w w' reply fresh (unfit q x d e k l) h = rw l h
      Outcome-Stored r w w' reply fresh (unconfigured es v e k l) h = rw l h
      Outcome-Stored r w w' reply fresh (in_kafka es p v e k l) h =
          rw (← after_publish _ es w w' p (ok tt) e k)
            (publish-Stored env topic batch sound _ es w h)
      Outcome-Stored r w w' reply fresh (unspoolable es p x v e k n l) h =
          rw (← after_publish _ es w w' p (err x) e k)
            (publish-Stored env topic batch sound _ es w h)
      Outcome-Stored r w w' reply fresh (in_spool es p x w1 sp v e k n l m) h =
          rw (← after_write _ es w1 w' sp (ok tt) n l) (
            spool_write-Stored _ es w1 (rw (← after_publish _ es w w1 p (err x) e k) (fresh _ es)) (
              rw (← after_publish _ es w w1 p (err x) e k)
                (publish-Stored env topic batch sound _ es w h)))
      Outcome-Stored r w w' reply fresh (spool_full es p x w1 sp v e k n l m) h =
          rw (← after_write _ es w1 w' sp (err full) n l) (
            spool_write-Stored _ es w1 (rw (← after_publish _ es w w1 p (err x) e k) (fresh _ es)) (
              rw (← after_publish _ es w w1 p (err x) e k)
                (publish-Stored env topic batch sound _ es w h)))
      Outcome-Stored r w w' reply fresh (spool_failed es p x w1 sp y v e k n l u m) h =
          rw (← after_write _ es w1 w' sp (err y) n l) (
            spool_write-Stored _ es w1 (rw (← after_publish _ es w w1 p (err x) e k) (fresh _ es)) (
              rw (← after_publish _ es w w1 p (err x) e k)
                (publish-Stored env topic batch sound _ es w h)))

      serve_http-Stored :
          (r : HttpRequest) (s : Server (World K))
          → FreshName env cfg s.world
          → Stored env topic batch s.world
          → Stored env topic batch (serve_http (logs_handler env cfg) r s).1.world
      serve_http-Stored r s fresh h = elim (serve_http-Outcome (logs_handler env cfg) r s) [
        | inl (turned_away, e) ↦ rw e h
        | inr outcome ↦ Outcome-Stored r s.world _ _ fresh outcome h
      ]

      pub History-Stored :
          All IsUtf8 batch
          → (s t : Server (World K)) → History env cfg s t
          → Stored env topic batch s.world
          → Stored env topic batch t.world
      History-Stored utf8 s t begin h = h
      History-Stored utf8 s t (asked {s = u} r fresh past) h =
          serve_http-Stored r u fresh (History-Stored utf8 s u past h)
      History-Stored utf8 s t (replayed {s = u} sys ctx past) h =
          replay_pass-Stored env topic batch sound utf8 sys ctx u.world
            (History-Stored utf8 s u past h)
      History-Stored utf8 s t (passed {s = u} time past) h = later (History-Stored utf8 s u past h)
        where
          later :
              Stored env topic batch u.world
              → Stored env topic batch (record (u.world) { clock = time })
          later (inl k) = inl k
          later (inr k) = inr k
