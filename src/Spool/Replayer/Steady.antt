-- ===== src/Spool/Replayer/Steady.antt =====
-- What a replay pass keeps, for any statement about the files and what stands behind the publisher
-- (internal/spool/replayer.go).
use log_service.Prelude.{
  ◌≡◌, refl, List, [], ◌∷◌, Option, none, some, Result, ok, err, length, if_both,
}
use log_service.Prelude.Clock.{Context}
use log_service.Prelude.Text.{Text}
use log_service.LogEvent.{Codec, Event}
use log_service.Publisher.{Publisher}
use log_service.Spool.Dir.{File, remove, glob}
use log_service.Spool.Lines.{FileError}
use log_service.Spool.Replayer.{
  ReplayError, Pass, ReplayCalls, read_batch, published, visit_events, visit, unless_stopped,
  visit_all, replay,
}

-- The publisher keeps the statement, and so does the removal of a file, once what was read from it has been
-- published without error or was no event.
pub record Keeps {S : Type 0} (codec : Codec) (sys : ReplayCalls) (ctx : Context)
    (publisher : Publisher S) (kept : List File → S → Type 0) : Type 0 where
  pub publish_keeps :
      (es : List Event) (fs : List File) (k : S)
      → kept fs k
      → kept fs (publisher.publish ctx es k).1
  pub remove_keeps :
      (q : Text) (es : List Event) (fs : List File) (k : S)
      → read_batch codec sys ctx publisher q fs ≡ ok es
      → (publisher.publish ctx es k).0 ≡ ok tt
      → kept fs k
      → kept (remove q fs) (publisher.publish ctx es k).1
  pub drop_keeps :
      (q : Text) (fs : List File) (k : S)
      → read_batch codec sys ctx publisher q fs ≡ ok []
      → kept fs k
      → kept (remove q fs) k

module _ {S : Type 0} (codec : Codec) (sys : ReplayCalls) (ctx : Context) (publisher : Publisher S)
    (kept : List File → S → Type 0) (keeps : Keeps codec sys ctx publisher kept) where
  abbrev KeptIn : Pass S → Type 0
  KeptIn p = kept p.files p.kafka

  published-kept :
      (q : Text) (es : List Event) (p : Pass S) (out : Result Text (Unit {0}) × S)
      → kept p.files out.1
      → (out.0 ≡ ok tt → kept (remove q p.files) out.1)
      → KeptIn (published codec sys ctx publisher q (length es) p out)
  published-kept q es p (err x, k) h gone = h
  published-kept q es p (ok u, k) h gone = if_both KeptIn (sys.remove_fails q) _ _ h (gone refl)

  visit_events-kept :
      (q : Text) (p : Pass S) (r : Result FileError (List Event))
      → read_batch codec sys ctx publisher q p.files ≡ r
      → KeptIn p
      → KeptIn (visit_events codec sys ctx publisher q p r)
  visit_events-kept q p (err x) e h = h
  visit_events-kept q p (ok []) e h =
      if_both KeptIn (sys.remove_fails q) _ _ h (keeps.drop_keeps q p.files p.kafka e h)
  visit_events-kept q p (ok (x ∷ xs)) e h =
      published-kept q (x ∷ xs) p (publisher.publish ctx (x ∷ xs) p.kafka)
        (keeps.publish_keeps (x ∷ xs) p.files p.kafka h)
        (λ done. keeps.remove_keeps q (x ∷ xs) p.files p.kafka e done h)

  unless_stopped-kept :
      (o : Option ReplayError) (p next : Pass S)
      → KeptIn p
      → KeptIn next
      → KeptIn (unless_stopped o p next)
  unless_stopped-kept none p next hp hn = hn
  unless_stopped-kept (some e) p next hp hn = hp

  visit_all-kept :
      (paths : List Text) (p : Pass S)
      → KeptIn p
      → KeptIn (visit_all codec sys ctx publisher paths p)
  unfolding visit_all visit
  visit_all-kept [] p h = h
  visit_all-kept (q ∷ paths) p h =
      visit_all-kept paths (unless_stopped p.stopped p (visit codec sys ctx publisher q p)) (
        unless_stopped-kept p.stopped p (visit codec sys ctx publisher q p) h
          (visit_events-kept q p (read_batch codec sys ctx publisher q p.files) refl h))

  -- A pass keeps the statement, whatever fails in it.
  pub replay-kept :
      (k : S) (fs : List File)
      → kept fs k
      → kept (replay codec sys ctx publisher k fs).files (replay codec sys ctx publisher k fs).kafka
  unfolding replay
  replay-kept k fs h =
      if_both KeptIn sys.glob_fails _ _ h (
        visit_all-kept (glob fs) (record { kafka = k; files = fs; replayed = []; stopped = none })
          h)
