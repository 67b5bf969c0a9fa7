-- ===== src/Spool/Replayer/NoLoss.antt =====
-- A replay pass loses no batch (internal/spool/replayer.go).
use log_service.Prelude.{
  ℕ, ◌≡◌, ◌⊎◌, inl, inr, refl, sym, ap, ap₂, ◌∙◌, Bool, true, false, List, [], ◌∷◌, ◌++◌, Option,
  none, some, Result, ok, err, length, if_both, Bool-cases,
}
use mathlib.Core.List.{append_assoc, append-nil}
use log_service.Prelude.Clock.{Context}
use log_service.Prelude.Text.{Text, text_eq, text_eq_sound}
use log_service.LogEvent.{Codec, Event}
use log_service.Publisher.{Publisher, IsLog}
use log_service.Spool.Dir.{File, read, remove, glob}
use log_service.Spool.Dir.Laws.{read-remove}
use log_service.Spool.Lines.{FileError, io_failed, read_file}
use log_service.Spool.Replayer.{
  ReplayError, Pass, ReplayCalls, read_batch, published, visit_events, visit, unless_stopped,
  visit_all, replay, parse_file,
}

-- The log has grown from its start.
abbrev pub Grown : List Event → List Event → Type 0
Grown start log = (more : List Event) × (log ≡ start ++ more)

-- The log has grown by the batch, as one run of events, among others.
abbrev pub Sent : List Event → List Event → List Event → Type 0
Sent start batch log = (before after : List Event) × (log ≡ start ++ (before ++ (batch ++ after)))

Grown-extend : (start log more : List Event) → Grown start log → Grown start (log ++ more)
Grown-extend start log more (x, e) = (x ++ more, ap (λ l. l ++ more) e ∙ append_assoc start x more)

Sent-extend :
    (start batch log more : List Event) → Sent start batch log → Sent start batch (log ++ more)
Sent-extend start batch log more (before, after, e) =
    (before, after ++ more, ap (λ l. l ++ more) e ∙ simp append_assoc)

agreed :
    (r : Result FileError (List Event)) (es batch : List Event)
    → r ≡ ok es
    → (r ≡ ok batch) ⊎ ((x : FileError) × (r ≡ err x))
    → es ≡ batch
agreed r es batch p (inl e) = cc
agreed r es batch p (inr (x, e)) = cc

parse_file-cases :
    (codec : Codec) (fails : Bool) (content : Text) (batch : List Event)
    → read_file codec content ≡ ok batch
    → (parse_file codec fails (some content) ≡ ok batch)
      ⊎ ((x : FileError) × (parse_file codec fails (some content) ≡ err x))
parse_file-cases codec true content batch e = inr (io_failed, refl)
parse_file-cases codec false content batch e = inl e

module _ {S : Type 0} (codec : Codec) (sys : ReplayCalls) (ctx : Context) (publisher : Publisher S)
    (log : S → List Event) (is_log : IsLog publisher log) (path content : Text) (batch : List Event)
    (reads : read_file codec content ≡ ok batch) (start : List Event) where
  -- The batch is still in its file, or it was added to the log.
  abbrev Safe : List File → S → Type 0
  Safe fs kafka =
      ((read path fs ≡ some content) × Grown start (log kafka)) ⊎ Sent start batch (log kafka)

  Grown-Safe : (fs : List File) (k : S) → Safe fs k → Grown start (log k)
  Grown-Safe fs k (inl h) = h.1
  Grown-Safe fs k (inr (before, after, e)) = (before ++ (batch ++ after), e)

  Sent-now :
      (k k' : S) (es : List Event)
      → log k' ≡ log k ++ es
      → es ≡ batch
      → Grown start (log k)
      → Sent start batch (log k')
  Sent-now k k' es e same (more, g) =
      (more, [], e ∙ ap₂ ◌++◌ g same ∙ simp (append_assoc, append-nil))

  Sent-empty : (k : S) → [] ≡ batch → Grown start (log k) → Sent start batch (log k)
  Sent-empty k same (more, g) = (more, [], rw (← same) (simp append-nil g))

  Safe-extend :
      (fs : List File) (k k' : S) (more : List Event)
      → log k' ≡ log k ++ more
      → Safe fs k
      → Safe fs k'
  Safe-extend fs k k' more e (inl (there, grown)) =
      inl (there, rw e (Grown-extend start (log k) more grown))
  Safe-extend fs k k' more e (inr sent) = inr (rw e (Sent-extend start batch (log k) more sent))

  -- A file may go once its batch is in the log.
  Safe-remove :
      (q : Text) (fs : List File) (k : S)
      → (text_eq q path ≡ true → read path fs ≡ some content → Sent start batch (log k))
      → Safe fs k
      → Safe (remove q fs) k
  Safe-remove q fs k sent (inr done) = inr done
  Safe-remove q fs k sent (inl (there, grown)) = elim (Bool-cases (text_eq q path)) [
    | inl same ↦ inr (sent same there)
    | inr other ↦ inl (rw (read-remove q path fs, other) there, grown)
  ]

  published-Safe :
      (q : Text) (n : ℕ) (p : Pass S) (r : Result Text (Unit {0})) (k : S) (more : List Event)
      → log k ≡ log p.kafka ++ more
      → (r ≡ ok tt
          → text_eq q path ≡ true
          → read path p.files ≡ some content
          → Sent start batch (log k))
      → Safe p.files p.kafka
      → Safe
          (published codec sys ctx publisher q n p (r, k)).files
          (published codec sys ctx publisher q n p (r, k)).kafka
  published-Safe q n p (err x) k more e sent h = Safe-extend p.files p.kafka k more e h
  published-Safe q n p (ok u) k more e sent h =
      if_both (λ (t : Pass S). Safe t.files t.kafka) (sys.remove_fails q) _ _
        (Safe-extend p.files p.kafka k more e h)
        (Safe-remove q p.files k (sent refl) (Safe-extend p.files p.kafka k more e h))

  -- What a visit reads from the batch's file.
  abbrev Agrees : Text → List File → Result FileError (List Event) → Type 0
  Agrees q fs r =
      text_eq q path ≡ true
      → read path fs ≡ some content
      → (r ≡ ok batch) ⊎ ((x : FileError) × (r ≡ err x))

  visit_events-Safe :
      (q : Text) (p : Pass S) (r : Result FileError (List Event))
      → Agrees q p.files r
      → Safe p.files p.kafka
      → Safe
          (visit_events codec sys ctx publisher q p r).files
          (visit_events codec sys ctx publisher q p r).kafka
  visit_events-Safe q p (err e) agrees h = h
  visit_events-Safe q p (ok []) agrees h =
      if_both (λ (t : Pass S). Safe t.files t.kafka) (sys.remove_fails q) _ _ h
        (Safe-remove q p.files p.kafka
          (λ same there.
            Sent-empty p.kafka (agreed _ [] batch refl (agrees same there))
              (Grown-Safe p.files p.kafka h))
          h)
  visit_events-Safe q p (ok (event ∷ events)) agrees h =
      let (more, e) = is_log.extends ctx (event ∷ events) p.kafka in
      published-Safe q (length (event ∷ events)) p _ _ more e
        (λ done same there.
          Sent-now p.kafka _ (event ∷ events) (is_log.appends ctx (event ∷ events) p.kafka done)
            (agreed _ (event ∷ events) batch refl (agrees same there))
            (Grown-Safe p.files p.kafka h))
        h

  read_batch-Agrees :
      (q : Text) (fs : List File) → Agrees q fs (read_batch codec sys ctx publisher q fs)
  unfolding read_batch
  read_batch-Agrees q fs same there =
      rw (text_eq_sound q path same, there)
        (parse_file-cases codec (sys.read_fails path) content batch reads)

  visit_all-Safe :
      (paths : List Text) (p : Pass S)
      → Safe p.files p.kafka
      → Safe
          (visit_all codec sys ctx publisher paths p).files
          (visit_all codec sys ctx publisher paths p).kafka
  unfolding visit_all
  visit_all-Safe [] p h = h
  visit_all-Safe (q ∷ paths) p h =
      visit_all-Safe paths (unless_stopped p.stopped p (visit codec sys ctx publisher q p))
        (step p.stopped)
    where
      visited :
          Safe (visit codec sys ctx publisher q p).files (visit codec sys ctx publisher q p).kafka
      visited =
          unfold visit in
          visit_events-Safe q p (read_batch codec sys ctx publisher q p.files)
            (read_batch-Agrees q p.files) h

      step :
          (o : Option ReplayError)
          → Safe
              (unless_stopped o p (visit codec sys ctx publisher q p)).files
              (unless_stopped o p (visit codec sys ctx publisher q p)).kafka
      step none = visited
      step (some e) = h

module _ {S : Type 0} (codec : Codec) (sys : ReplayCalls) (ctx : Context) (publisher : Publisher S)
    (log : S → List Event) where
  -- Over a publisher that keeps a log, a pass loses no batch, whatever fails in it: if a file held a
  -- batch that reads back, then after the pass the file still holds it, or the pass has added all
  -- of the batch's events to the log, in a row.
  pub replay_no_loss :
      IsLog publisher log
      → (path content : Text) (batch : List Event) (kafka : S) (fs : List File)
      → read_file codec content ≡ ok batch
      → read path fs ≡ some content
      → (read path (replay codec sys ctx publisher kafka fs).files ≡ some content)
        ⊎ Sent (log kafka) batch (log (replay codec sys ctx publisher kafka fs).kafka)
  unfolding replay
  replay_no_loss is_log path content batch kafka fs reads there = left (
      if_both
        (λ (t : Pass S).
          Safe codec sys ctx publisher log is_log path content batch reads (log kafka) t.files
            t.kafka)
        sys.glob_fails _ _ start
        (visit_all-Safe codec sys ctx publisher log is_log path content batch reads (log kafka)
          (glob fs) _ start))
    where
      start : Safe codec sys ctx publisher log is_log path content batch reads (log kafka) fs kafka
      start = inl (there, ([], sym (append-nil (log kafka))))

      left : {A B C : Type 0} → (A × B) ⊎ C → A ⊎ C
      left (inl (a, b)) = inl a
      left (inr c) = inr c
