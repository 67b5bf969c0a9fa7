-- ===== src/Spool/Writer.antt =====
-- internal/spool/writer.go: the writer of batches and the report of the directory's state.
-- How the system calls of one call end is an argument, since the code sees nothing else of them.
pub mod Keeps
pub mod Capacity
use log_service.Prelude.{
  ℕ, ◌+◌, ◌*◌, Bool, List, [], ◌∷◌, ◌++◌, Option, none, some, ltb, leb, Result, ok, err, ◌>>=◌,
  ◌||◌, if◌then◌else◌,
}
use log_service.Prelude.Clock.{Time, utc}
use log_service.Prelude.Int.{ℤ, pos, pos_part, is_positive}
use log_service.Prelude.Text.{Text, codes, byte_len, decimal}
use log_service.LogEvent.{Codec, Event}
use log_service.Spool.Dir.{File, Dir, files, mkdir, put, rename, used_bytes, file_count}
use log_service.Spool.Lines.{FileError, io_failed, marshal_json_lines}

pub record Writer : Type 0 where
  pub dir : Text
  pub max_bytes : ℤ

pub record State : Type 0 where
  pub dir : Text
  pub mode : Text
  pub used_bytes : ℕ
  pub max_bytes : ℤ
  pub file_count : ℕ

-- How a walk of the directory ends: it sees every file, or a file disappears under it, which it
-- reports as `os.ErrNotExist`, or it fails.
pub data Walk : Type 0 where
  complete vanished failed : Walk

-- How the system calls of one `Write` end. A failed `os.WriteFile` leaves what it wrote.
pub record Calls : Type 0 where
  pub mkdir_fails : Bool
  pub walk : Walk
  pub write_fails : Option Text
  pub rename_fails : Bool

pub data WriteError : Type 0 where
  context_done full io_error : WriteError
  not_marshalled : FileError → WriteError

-- dirUsage
unfoldable pub dir_usage : Walk → Dir → Result FileError (ℕ × ℕ)
dir_usage walk none = ok (0, 0)
dir_usage complete (some fs) = ok (used_bytes fs, file_count fs)
dir_usage vanished (some fs) = ok (0, 0)
dir_usage failed (some fs) = err io_failed

-- mode, where a ratio of `float64`s is compared by its terms; the two agree below 2^51 bytes.
unfoldable pub mode : ℕ → ℤ → Text
mode used max_bytes =
    if is_positive max_bytes
    then if leb (pos_part max_bytes) used
      then codes "exhausted"
      else if leb (8 * pos_part max_bytes) (10 * used)
      then codes "critical"
      else if ltb 0 used
      then codes "degraded"
      else codes "normal"
    else if ltb 0 used
    then codes "degraded"
    else codes "normal"

abbrev pub report : Writer → Result FileError (ℕ × ℕ) → State
report w (err e) = record {
  dir = w.dir;
  mode = codes "unknown";
  used_bytes = 0;
  max_bytes = w.max_bytes;
  file_count = 0;
}
report w (ok (used, count)) = record {
  dir = w.dir;
  mode = mode used w.max_bytes;
  used_bytes = used;
  max_bytes = w.max_bytes;
  file_count = count;
}

-- State
unfoldable pub state : Writer → Walk → Dir → State
unfolding dir_usage mode
state w walk d = report w (dir_usage walk d)

-- The name of a new batch; `format` is `Format("20060102T150405.000000000Z")`.
unfoldable pub batch_name : (Time → Text) → Time → ℕ → Text
batch_name format now pid = format (utc now) ++ (codes "-" ++ (decimal pid ++ codes ".jsonl"))

abbrev pub tmp_of : Text → Text
tmp_of name = name ++ codes ".tmp"

-- The end of Write: the file is written beside its final path and moved there.
unfoldable pub commit : Calls → Text → Text → List File → Result WriteError (Unit {0}) × List File
commit sys name payload fs = elim sys.write_fails [
  | some part ↦ (err io_error, put (tmp_of name) part fs)
  | none ↦
      if sys.rename_fails
      then (err io_error, put (tmp_of name) payload fs)
      else (ok tt, rename (tmp_of name) name (put (tmp_of name) payload fs))
]

-- `used+int64(len(payload)) > w.maxBytes`
abbrev pub exceeds : ℕ → Text → ℤ → Bool
exceeds used payload max_bytes = ltb (pos_part max_bytes) (used + byte_len payload)

abbrev pub check_usage : Writer → Text → Result FileError (ℕ × ℕ) → Result WriteError (Unit {0})
check_usage w payload (err e) = err io_error
check_usage w payload (ok (used, count)) =
    if exceeds used payload w.max_bytes then err full else ok tt

-- The capacity test of Write.
unfoldable pub check_capacity : Writer → Walk → Text → Dir → Result WriteError (Unit {0})
check_capacity w walk payload d =
    if is_positive w.max_bytes then check_usage w payload (dir_usage walk d) else ok tt

abbrev pub finish :
    Result WriteError (Unit {0})
    → Result WriteError (Unit {0}) × List File
    → Dir
    → Result WriteError (Unit {0}) × Dir
finish (err e) done d = (err e, d)
finish (ok _) (r, fs) d = (r, some fs)

abbrev pub write_payload :
    Writer → Calls → Text → Result FileError Text → Dir → Result WriteError (Unit {0}) × Dir
write_payload w sys name (err e) d = (err (not_marshalled e), d)
write_payload w sys name (ok payload) d =
    finish (check_capacity w sys.walk payload d) (commit sys name payload (files d)) d

-- Write, with the name that the clock and the process give
unfoldable pub write :
    Codec → Writer → Calls → Text → Bool → List Event → Dir → Result WriteError (Unit {0}) × Dir
unfolding commit check_capacity
write codec w sys name done [] d = if done then (err context_done, d) else (ok tt, d)
write codec w sys name done (event ∷ events) d =
    if done
    then (err context_done, d)
    else if sys.mkdir_fails
    then (err io_error, d)
    else write_payload w sys name (marshal_json_lines codec (event ∷ events)) (mkdir d)
