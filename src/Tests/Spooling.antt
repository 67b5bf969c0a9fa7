-- ===== src/Tests/Spooling.antt =====
-- The spool's writer at concrete directories.
use log_service.Prelude.{
  ℕ, ◌+◌, ◌≡◌, ◌≤◌, ◌<◌, ◌↔◌, refl, false, none, some, [], ◌∷◌, ◌++◌, ok, err, arith,
}
use log_service.Prelude.Int.{pos}
use log_service.Prelude.Text.{Text, codes, byte_len, has_suffix, text_eq}
use log_service.Spool.Dir.{Dir, files, read, used_bytes, file_count, is_tmp}
use log_service.Spool.Lines.{max_token, newline, marshal_json_lines, read_file}
use log_service.Spool.Lines.RoundTrip.{read_file-marshal}
use log_service.Spool.Writer.{
  Writer, Calls, complete, vanished, full, commit, dir_usage, mode, state, check_capacity, write,
}
use log_service.Spool.Writer.Keeps.{Holds, write_ok-Holds, SameFiles, write_err-SameFiles}
use log_service.Spool.Writer.Capacity.{used_of, write-fits, write_full, write-overruns}
use log_service.Tests.Samples.{
  event, codec, codec-IsJson, json, marshal-event, marshal_text, event-IsUtf8,
}

abbrev pub name : Text
name = codes "b1.jsonl"

abbrev pub payload : Text
payload = json ++ (newline ∷ [])

abbrev roomy : Writer
roomy = record { dir = codes "spool"; max_bytes = pos 100 }

abbrev tight : Writer
tight = record { dir = codes "spool"; max_bytes = pos 10 }

-- No system call fails.
abbrev sys : Calls
sys = record { mkdir_fails = false; walk = complete; write_fails = none; rename_fails = false }

abbrev dir : Dir
dir = some (record { path = codes "b0.jsonl"; content = codes "0123456789" } ∷ [])

marshal_event : marshal_json_lines codec (event ∷ []) ≡ ok payload
unfolding marshal_json_lines
marshal_event = rw (marshal-event json) refl

write_roomy : (write codec roomy sys name false (event ∷ []) dir).0 ≡ ok tt
unfolding write check_capacity dir_usage used_bytes is_tmp has_suffix text_eq byte_len commit
write_roomy = rw marshal_event refl

write_tight : (write codec tight sys name false (event ∷ []) dir).0 ≡ err full
unfolding write check_capacity dir_usage used_bytes is_tmp has_suffix text_eq byte_len commit
write_tight = rw marshal_event refl

write_ok-Holds_example :
    (t : Text) × (marshal_json_lines codec (event ∷ []) ≡ ok t)
    × Holds name t dir (write codec roomy sys name false (event ∷ []) dir).1
write_ok-Holds_example = write_ok-Holds codec roomy sys name false event [] dir write_roomy

write_err-SameFiles_example :
    SameFiles name dir (write codec tight sys name false (event ∷ []) dir).1
write_err-SameFiles_example =
    write_err-SameFiles codec tight sys name false (event ∷ []) dir full write_tight

write-fits_example : used_of (write codec roomy sys name false (event ∷ []) dir).1 ≤ 100
write-fits_example = write-fits codec roomy sys name false event [] dir refl refl write_roomy

write_full_example :
    ((write codec tight sys name false (event ∷ []) dir).0 ≡ err full
      ↔ (10 < used_of dir + byte_len payload))
    × ((write codec tight sys name false (event ∷ []) dir).0 ≡ err full
        → files (write codec tight sys name false (event ∷ []) dir).1 ≡ files dir)
write_full_example =
    write_full codec tight sys name event [] payload dir refl refl refl marshal_event

tight_mode : (state tight complete dir).mode ≡ codes "exhausted"
unfolding state mode dir_usage used_bytes file_count is_tmp has_suffix text_eq byte_len
tight_mode = refl

abbrev some_used : ℕ
some_used = 85

mode_test : mode some_used (pos 100) ≡ codes "critical"
unfolding mode
mode_test = refl

-- The batch fits by itself, but not beside the file that is there.
abbrev snug : Writer
snug = record { dir = codes "spool"; max_bytes = pos 20 }

small_payload : byte_len payload ≤ 20
unfolding byte_len
small_payload = omega arith

over_dir : 20 < used_of dir + byte_len payload
unfolding byte_len used_bytes is_tmp has_suffix text_eq
over_dir = omega arith

name_batch : is_tmp name ≡ false
unfolding is_tmp has_suffix text_eq
name_batch = refl

name_free : read name (files dir) ≡ none
unfolding read text_eq
name_free = refl

write-overruns_example :
    ((write codec snug sys name false (event ∷ []) dir).0 ≡ err full)
    × ((write codec snug (record sys { walk = vanished }) name false (event ∷ []) dir).0 ≡ ok tt)
    × (20
        < used_of (write codec snug (record sys { walk = vanished }) name false (event ∷ []) dir).1)
write-overruns_example =
    write-overruns codec snug sys name event [] payload dir refl refl marshal_event refl refl
      name_batch name_free small_payload over_dir

event_short : (t : Text) → codec.marshal event ≡ some t → byte_len t < max_token
unfolding byte_len
event_short t m = rw (marshal_text json t m) (omega arith)

read_file-marshal_example : read_file codec payload ≡ ok (event ∷ [])
read_file-marshal_example =
    read_file-marshal codec codec-IsJson (event ∷ []) payload (event-IsUtf8, tt) (event_short, tt)
      marshal_event
