-- ===== src/Worker/ReplayFiles/Spares.antt =====
-- Writing a replay file leaves the other files of the directory alone (internal/worker/service.go).
use log_service.Prelude.{
  ◌≡◌, refl, List, [], ◌∷◌, Option, none, some, Result, err, Bool-cases, inl, inr, if_both,
  if◌then◌else◌,
}
use log_service.Prelude.Text.{Text, text_eq, text_eq_sound}
use log_service.LogEvent.{Codec, Event}
use log_service.Spool.Dir.{File, Dir, files, read}
use log_service.Spool.Dir.Laws.{read-put}
use log_service.Spool.Lines.{FileError, io_failed}
use log_service.Worker.ReplayFiles.{FileCalls, can_open, store, write_lines, write_replay}

module _ (codec : Codec) (sys : FileCalls) (name q content : Text) where
  abbrev Reads : Result FileError (Unit {0}) × Dir → Type 0
  Reads out = read q (files out.1) ≡ some content

  store-Reads :
      (fs : List File) (out : Result FileError (Unit {0}) × Text)
      → read name fs ≡ none
      → read q fs ≡ some content
      → Reads (store codec name fs out)
  store-Reads fs (r, text) fresh h = elim (Bool-cases (text_eq name q)) [
    | inl same ↦ absurd (clash (text_eq_sound name q same))
    | inr far ↦ rw (read-put, far) h
  ]
    where
      clash : name ≡ q → ⊥
      clash p = cc

  open-Reads :
      (events : List Event) (fs : List File) (o : Option Text)
      → read name fs ≡ o
      → read q fs ≡ some content
      → Reads (
          if can_open sys o
          then store codec name fs (write_lines codec sys.write_fails [] events)
          else (err io_failed, some fs))
  open-Reads events fs (some text) there h = h
  open-Reads events fs none fresh h =
      if_both Reads (can_open sys none) _ _
        (store-Reads fs (write_lines codec sys.write_fails [] events) fresh h) h

  -- However it ends, every file that was there before reads as before.
  pub write_replay-spares :
      (events : List Event) (d : Dir)
      → read q (files d) ≡ some content
      → read q (files (write_replay codec sys name events d).1) ≡ some content
  unfolding write_replay
  write_replay-spares [] d h = h
  write_replay-spares (event ∷ events) d h =
      if_both Reads sys.mkdir_fails _ _ h
        (open-Reads (event ∷ events) (files d) (read name (files d)) refl h)
