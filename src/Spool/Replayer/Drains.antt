-- ===== src/Spool/Replayer/Drains.antt =====
-- A replay pass in which nothing fails delivers every batch (internal/spool/replayer.go).
use log_service.Prelude.{
  ◌≡◌, ◌⊎◌, inl, inr, refl, Bool, true, false, List, [], ◌∷◌, Option, none, some, Result, ok, err,
  length, Bool-cases, if_both, if◌then◌else◌,
}
use log_service.Prelude.Clock.{Context}
use log_service.Prelude.Text.{Text, text_eq, text_eq_sound, text_eq_refl}
use log_service.LogEvent.{Codec, Event}
use log_service.Publisher.{Publisher}
use log_service.Spool.Dir.{File, read, remove, is_batch, glob}
use log_service.Spool.Dir.Laws.{read-remove}
use log_service.Spool.Lines.{FileError, read_file}
use log_service.Spool.Replayer.{
  ReplayError, Pass, ReplayCalls, read_batch, published, visit_events, visit, unless_stopped,
  visit_all, replay,
}

-- The path is in the list.
abbrev Lists : Text → List Text → Type 0
Lists path [] = ⊥
Lists path (q ∷ paths) = (q ≡ path) ⊎ Lists path paths

glob-Lists :
    (path content : Text) (fs : List File)
    → is_batch path ≡ true
    → read path fs ≡ some content
    → Lists path (glob fs)
unfolding glob read
glob-Lists path content [] b h = absurd cc
glob-Lists path content (f ∷ fs) b h = elim (Bool-cases (text_eq f.path path)) [
  | inl same ↦ rw (text_eq_sound f.path path same, b) (inl refl)
  | inr other ↦
      if_both (Lists path) (is_batch f.path) _ _
        (inr (glob-Lists path content fs b (rw other at h)))
        (glob-Lists path content fs b (rw other at h))
]

-- No system call of a pass fails.
pub record NoFailure (sys : ReplayCalls) : Type 0 where
  pub globs : sys.glob_fails ≡ false
  pub reads : (q : Text) → sys.read_fails q ≡ false
  pub removes : (q : Text) → sys.remove_fails q ≡ false

module _ {S : Type 0} (codec : Codec) (sys : ReplayCalls) (ctx : Context) (publisher : Publisher S)
    (fine : NoFailure sys)
    (publishes : (events : List Event) (s : S) → (publisher.publish ctx events s).0 ≡ ok tt)
    (path content : Text) (batch : List Event) (reads : read_file codec content ≡ ok batch) where
  -- The pass goes on, and the batch's file is as it was, or gone.
  abbrev Going : Pass S → Type 0
  Going p = (p.stopped ≡ none) × ((read path p.files ≡ some content) ⊎ (read path p.files ≡ none))

  abbrev Gone : Pass S → Type 0
  Gone p = (p.stopped ≡ none) × (read path p.files ≡ none)

  remove-there :
      (q : Text) (fs : List File)
      → (read path fs ≡ some content) ⊎ (read path fs ≡ none)
      → (read path (remove q fs) ≡ some content) ⊎ (read path (remove q fs) ≡ none)
  remove-there q fs h = rw (read-remove q path fs) (
      if_both (λ (o : Option Text). (o ≡ some content) ⊎ (o ≡ none)) (text_eq q path) _ _ (inr refl)
        h)

  remove-gone : (q : Text) (fs : List File) → read path fs ≡ none → read path (remove q fs) ≡ none
  remove-gone q fs h =
      rw (read-remove q path fs)
        (if_both (λ (o : Option Text). o ≡ none) (text_eq q path) _ _ refl h)

  -- What a property of the files needs to hold after a visit too.
  visit_events-keeps :
      (P : List File → Type 0)
      → ((q : Text) (fs : List File) → P fs → P (remove q fs))
      → (q : Text) (p : Pass S) (r : Result FileError (List Event)) → p.stopped ≡ none
      → P p.files
      → ((visit_events codec sys ctx publisher q p r).stopped ≡ none)
        × P (visit_events codec sys ctx publisher q p r).files
  visit_events-keeps P k q p (err e) going h = (going, h)
  visit_events-keeps P k q p (ok []) going h = rw (fine.removes q) (going, k q p.files h)
  visit_events-keeps P k q p (ok (event ∷ events)) going h =
      next (publisher.publish ctx (event ∷ events) p.kafka) (publishes (event ∷ events) p.kafka)
    where
      next :
          (out : Result Text (Unit {0}) × S)
          → out.0 ≡ ok tt
          → ((published codec sys ctx publisher q (length (event ∷ events)) p out).stopped ≡ none)
            × P (published codec sys ctx publisher q (length (event ∷ events)) p out).files
      next (err e, s) sent = absurd cc
      next (ok u, s) sent = rw (fine.removes q) (going, k q p.files h)

  visit-keeps :
      (P : List File → Type 0)
      → ((q : Text) (fs : List File) → P fs → P (remove q fs))
      → (q : Text) (p : Pass S) → p.stopped ≡ none
      → P p.files
      → ((visit codec sys ctx publisher q p).stopped ≡ none)
        × P (visit codec sys ctx publisher q p).files
  unfolding visit
  visit-keeps P k q p going h = visit_events-keeps P k q p _ going h

  -- The visit of the batch's own path removes its file.
  visit_events-Gone :
      (p : Pass S) (es : List Event)
      → p.stopped ≡ none
      → Gone (visit_events codec sys ctx publisher path p (ok es))
  visit_events-Gone p [] going = rw (fine.removes path) (going, removed p.files)
    where
      removed : (fs : List File) → read path (remove path fs) ≡ none
      removed fs = rw (read-remove path path fs, text_eq_refl path) refl
  visit_events-Gone p (event ∷ events) going =
      next (publisher.publish ctx (event ∷ events) p.kafka) (publishes (event ∷ events) p.kafka)
    where
      next :
          (out : Result Text (Unit {0}) × S)
          → out.0 ≡ ok tt
          → Gone (published codec sys ctx publisher path (length (event ∷ events)) p out)
      next (err e, s) sent = absurd cc
      next (ok u, s) sent =
          rw (fine.removes path) (going, rw (read-remove path path p.files, text_eq_refl path) refl)

  visit-Gone : (p : Pass S) → Going p → Gone (visit codec sys ctx publisher path p)
  unfolding visit read_batch
  visit-Gone p (going, inl there) =
      rw (fine.reads path, there, reads) (visit_events-Gone p batch going)
  visit-Gone p (going, inr gone) = rw (fine.reads path, gone) (going, gone)

  goes_on :
      (P : Pass S → Type 0) (o : Option ReplayError) (p q : Pass S)
      → o ≡ none
      → P q
      → P (unless_stopped o p q)
  goes_on P none p q e h = h
  goes_on P (some x) p q e h = absurd cc

  otherwise :
      (P : Pass S → Type 0) (b : Bool) (p q : Pass S) → b ≡ false → P q → P (if b then p else q)
  otherwise P true p q e h = absurd cc
  otherwise P false p q e h = h

  visit_all-Gone :
      (paths : List Text) (p : Pass S)
      → Gone p ⊎ (Going p × Lists path paths)
      → Gone (visit_all codec sys ctx publisher paths p)
  unfolding visit_all
  visit_all-Gone [] p (inl gone) = gone
  visit_all-Gone [] p (inr (going, none_left)) = absurd none_left
  visit_all-Gone (q ∷ paths) p (inl (going, gone)) = visit_all-Gone paths _ (
      inl (
        goes_on Gone p.stopped p _ going
          (visit-keeps (λ fs. read path fs ≡ none) remove-gone q p going gone)))
  visit_all-Gone (q ∷ paths) p (inr ((going, there), inl same)) =
      visit_all-Gone paths _
        (inl (goes_on Gone p.stopped p _ going (rw same (visit-Gone p (going, there)))))
  visit_all-Gone (q ∷ paths) p (inr ((going, there), inr later)) = visit_all-Gone paths _ (
      inr (
        goes_on Going p.stopped p _ going (
            visit-keeps (λ fs. (read path fs ≡ some content) ⊎ (read path fs ≡ none)) remove-there q
              p going there),
        later,
      ))

  -- If no system call fails and the publisher takes every batch, then a pass runs to its end, and
  -- the file of a batch that reads back, under a name that ends in ".jsonl", is gone after it.
  pub replay-drains :
      (kafka : S) (fs : List File)
      → is_batch path ≡ true
      → read path fs ≡ some content
      → ((replay codec sys ctx publisher kafka fs).stopped ≡ none)
        × (read path (replay codec sys ctx publisher kafka fs).files ≡ none)
  unfolding replay
  replay-drains kafka fs b there =
      otherwise Gone sys.glob_fails _ _ fine.globs
        (visit_all-Gone (glob fs) _ (inr ((refl, inl there), glob-Lists path content fs b there)))
