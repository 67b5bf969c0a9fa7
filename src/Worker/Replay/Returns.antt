-- ===== src/Worker/Replay/Returns.antt =====
-- A pass over the replay files loses none of their events (internal/worker/service.go).
use log_service.Prelude.{
  ◌≡◌, ◌⊎◌, inl, inr, refl, sym, ◌∙◌, ap, false, List, [], ◌∷◌, Option, none, some, Result, ok, err,
  Bool-cases,
}
use log_service.Prelude.Clock.{Context}
use log_service.Prelude.Text.{Text, text_eq, text_eq_sound}
use log_service.LogEvent.{Event, Codec}
use log_service.Storage.Accounted.{In}
use log_service.Spool.Lines.{FileError}
use log_service.Worker.Indexing.{DlqMessage, Service, Worker, send_dlq}
use log_service.Worker.Indexing.Attempt.{Lands}
use log_service.Worker.Replay.{
  Folder, PassError, read_replay_file, replay_file, next_file, replay_each, replay_globbed,
  replay_once,
}
use log_service.Worker.Replay.Kept.{Stays, Kept, replay_file-Kept}

-- What the pass relies on, for a notion of an event that has landed (indexed, or in the dead letter
-- queue): requests and dead letters leave the files as they are, and the removal of a file changes neither
-- another file nor what has landed.
pub record Apart {S : Type 0} (svc : Service S) (folder : Folder S) (ctx : Context)
    (landed : Event → S → Type 0) : Type 0 where
  pub bulk_apart :
      (q : Text) (events : List Event) (s : S)
      → folder.content q (svc.bulk_index ctx events s).1 ≡ folder.content q s
  pub dlq_apart :
      (q : Text) (m : DlqMessage) (s : S)
      → folder.content q (send_dlq svc ctx m s).1 ≡ folder.content q s
  pub remove_apart :
      (p q : Text) (s : S)
      → text_eq p q ≡ false
      → folder.content q (folder.remove p s).1 ≡ folder.content q s
  pub remove_keeps : (p : Text) (s : S) (e : Event) → landed e s → landed e (folder.remove p s).1

pub In-ok :
    (e : Event) {events es : List Event}
    → ◌≡◌ {A = Result FileError (List Event)} (ok events) (ok es)
    → In e events
    → In e es
In-ok e {events} {es} p h = let same : events ≡ es = cc in rw (sym same) h

module _ {S : Type 0} (svc : Service S) (folder : Folder S) (codec : Codec) (ctx : Context)
    (landed : Event → S → Type 0) (lands : Lands svc ctx landed)
    (remove_keeps : (p : Text) (s : S) (e : Event) → landed e s → landed e (folder.remove p s).1)
    (e : Event) (still : S → Type 0) (other : Text → Type 0)
    (stays : Stays svc folder codec ctx e still other) where
  replay_each-Kept :
      (paths : List Text) (w : Worker S)
      → Kept svc folder codec ctx landed lands remove_keeps e still other stays w.world
      → Kept svc folder codec ctx landed lands remove_keeps e still other stays
          (replay_each svc folder codec ctx paths w).1.world
  unfolding replay_each
  replay_each-Kept [] w h = h
  replay_each-Kept (p ∷ paths) w h =
      next (λ v. replay_each-Kept paths v) (replay_file svc folder codec ctx p w)
        (replay_file-Kept svc folder codec ctx landed lands remove_keeps e still other stays p w h)
    where
      next :
          ((v : Worker S)
            → Kept svc folder codec ctx landed lands remove_keeps e still other stays v.world
            → Kept svc folder codec ctx landed lands remove_keeps e still other stays
                (replay_each svc folder codec ctx paths v).1.world)
          → (out : Result PassError (Unit {0}) × Worker S)
          → Kept svc folder codec ctx landed lands remove_keeps e still other stays out.1.world
          → Kept svc folder codec ctx landed lands remove_keeps e still other stays
              (next_file svc folder codec ctx (replay_each svc folder codec ctx paths) out).1.world
      next rest (err x, v) k = k
      next rest (ok u, v) k = rest v k

  replay_globbed-Kept :
      (w : Worker S) (paths : Option (List Text))
      → Kept svc folder codec ctx landed lands remove_keeps e still other stays w.world
      → Kept svc folder codec ctx landed lands remove_keeps e still other stays
          (replay_globbed svc folder codec ctx w paths).1.world
  replay_globbed-Kept w none h = h
  replay_globbed-Kept w (some paths) h = replay_each-Kept paths w h

  pub replay_once-Kept :
      (w : Worker S)
      → Kept svc folder codec ctx landed lands remove_keeps e still other stays w.world
      → Kept svc folder codec ctx landed lands remove_keeps e still other stays
          (replay_once svc folder codec ctx w).1.world
  unfolding replay_once
  replay_once-Kept w h = replay_globbed-Kept w (folder.glob w.world) h

module _ {S : Type 0} (svc : Service S) (folder : Folder S) (codec : Codec) (ctx : Context)
    (landed : Event → S → Type 0) (lands : Lands svc ctx landed)
    (apart : Apart svc folder ctx landed) (e : Event) where
  -- The file has the content that it had, and the event was in it.
  content-Stays :
      (q : Text) (text : Option Text) (es : List Event)
      → read_replay_file codec text ≡ ok es
      → In e es
      → Stays svc folder codec ctx e (λ s. folder.content q s ≡ text) (λ p. text_eq p q ≡ false)
  content-Stays q text es r h = record {
    bulk_still = λ events s same. apart.bulk_apart q events s ∙ same;
    dlq_still = λ m s same. apart.dlq_apart q m s ∙ same;
    remove_still = λ p s far same. apart.remove_apart p q s far ∙ same;
    found = λ p s events same got. elim (Bool-cases (text_eq p q)) [
      | inl this ↦ inr (
          In-ok e
            (sym r
              ∙ (ap (read_replay_file codec) (sym same)
                  ∙ (ap (λ t. read_replay_file codec (folder.content t s))
                        (sym (text_eq_sound p q this))
                      ∙ got)))
            h)
      | inr far ↦ inl far
    ];
  }

module _ {S : Type 0} (svc : Service S) (folder : Folder S) (codec : Codec) (ctx : Context)
    (landed : Event → S → Type 0) (lands : Lands svc ctx landed)
    (remove_keeps : (p : Text) (s : S) (e : Event) → landed e s → landed e (folder.remove p s).1)
    (e : Event) where
  nothing-Stays : Stays svc folder codec ctx e (λ s. ⊥) (λ p. ⊥)
  nothing-Stays = record {
    bulk_still = λ events s h. h;
    dlq_still = λ m s h. h;
    remove_still = λ p s far h. h;
    found = λ p s events h r. absurd h;
  }

  -- A pass leaves what has landed where it is.
  pub replay_once-landed :
      (w : Worker S) → landed e w.world → landed e (replay_once svc folder codec ctx w).1.world
  replay_once-landed w h = only (
      replay_once-Kept svc folder codec ctx landed lands remove_keeps e (λ s. ⊥) (λ p. ⊥)
        nothing-Stays w (inl h))
    where
      only : {A : Type 0} → A ⊎ ⊥ → A
      only (inl a) = a
      only (inr x) = absurd x

-- If requests and dead letters leave the replay files as they are, and make an event land as `Lands`
-- says: after a pass, however its requests, dead letters and removals end, an event of a file that could
-- be read before has landed (it is indexed or in the dead letter queue), or the file is as it was.
pub replay_once-returns :
    {S : Type 0} (svc : Service S) (folder : Folder S) (codec : Codec) (ctx : Context)
    (landed : Event → S → Type 0)
    → Lands svc ctx landed
    → Apart svc folder ctx landed
    → (e : Event) (path : Text) (events : List Event) (w : Worker S)
    → read_replay_file codec (folder.content path w.world) ≡ ok events
    → In e events
    → landed e (replay_once svc folder codec ctx w).1.world
      ⊎ (folder.content path (replay_once svc folder codec ctx w).1.world
          ≡ folder.content path w.world)
replay_once-returns {S = S} svc folder codec ctx landed lands apart e path events w r h =
    replay_once-Kept svc folder codec ctx landed lands apart.remove_keeps e
      (λ s. folder.content path s ≡ folder.content path w.world) (λ p. text_eq p path ≡ false)
      (content-Stays svc folder codec ctx landed lands apart e path (folder.content path w.world)
        events r h)
      w (inr refl)
