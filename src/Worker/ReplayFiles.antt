-- ===== src/Worker/ReplayFiles.antt =====
-- `writeReplay` of internal/worker/service.go: the file for events that could not be indexed. How its
-- system calls end is an argument.
pub mod Adds
pub mod Spares
use log_service.Prelude.{
  ℕ, zero, suc, Bool, true, false, List, [], ◌∷◌, ◌++◌, Option, none, some, Result, ok, err,
  if◌then◌else◌,
}
use log_service.Prelude.Text.{Text}
use log_service.LogEvent.{Codec, Event}
use log_service.Spool.Dir.{File, Dir, files, mkdir, read, put}
use log_service.Spool.Lines.{FileError, marshal_failed, io_failed, newline}

-- How the calls end: a write may fail after some lines, and leave a part of the next one.
pub record FileCalls : Type 0 where
  pub mkdir_fails : Bool
  pub open_fails : Bool
  pub write_fails : Option (ℕ × Text)

-- `os.OpenFile` with `O_EXCL` refuses a file that exists.
abbrev pub can_open : FileCalls → Option Text → Bool
can_open sys none = if sys.open_fails then false else true
can_open sys (some content) = false

module _ (codec : Codec) where
  -- What `json.Marshal` gives for an event, and what follows if it gives a line.
  abbrev pub encode :
      Text
      → Option Text
      → (Text → Result FileError (Unit {0}) × Text)
      → Result FileError (Unit {0}) × Text
  encode content none next = (err marshal_failed, content)
  encode content (some line) next = next line

  -- The loop of writeReplay, with what the file holds so far.
  unfoldable pub write_lines :
      Option (ℕ × Text) → Text → List Event → Result FileError (Unit {0}) × Text
  write_lines stop content [] = (ok tt, content)
  write_lines none content (event ∷ events) =
      encode content (codec.marshal event)
        (λ line. write_lines none (content ++ (line ++ (newline ∷ []))) events)
  write_lines (some (zero, part)) content (event ∷ events) =
      encode content (codec.marshal event) (λ line. (err io_failed, content ++ part))
  write_lines (some (suc n, part)) content (event ∷ events) =
      encode content (codec.marshal event)
        (λ line. write_lines (some (n, part)) (content ++ (line ++ (newline ∷ []))) events)

  abbrev pub store :
      Text → List File → Result FileError (Unit {0}) × Text → Result FileError (Unit {0}) × Dir
  store name fs (r, content) = (r, some (put name content fs))

  abbrev pub write_file :
      FileCalls → Text → List Event → List File → Result FileError (Unit {0}) × Dir
  write_file sys name events fs =
      if can_open sys (read name fs)
      then store name fs (write_lines sys.write_fails [] events)
      else (err io_failed, some fs)

  -- writeReplay, with the name that the clock and the process give
  unfoldable pub write_replay :
      FileCalls → Text → List Event → Dir → Result FileError (Unit {0}) × Dir
  unfolding write_lines
  write_replay sys name [] d = (ok tt, d)
  write_replay sys name (event ∷ events) d =
      if sys.mkdir_fails then (err io_failed, d) else write_file sys name (event ∷ events) (files d)
