-- ===== src/Spool/Writer/Keeps.antt =====
-- What a write does to the files of the spool (internal/spool/writer.go): a batch appears whole
-- or not at all, and no other file changes but the temporary one.
use log_service.Prelude.{
  Bool, ◌≡◌, refl, true, false, none, some, List, [], ◌∷◌, ok, err, if◌then◌else◌, Result, if_both,
  arith,
}
use log_service.Prelude.Text.{Text, text_eq}
use log_service.LogEvent.{Codec, Event}
use log_service.Spool.Dir.{File, Dir, files, mkdir, read}
use log_service.Spool.Dir.Laws.{read-put, read-rename-put}
use log_service.Spool.Lines.{FileError, marshal_json_lines}
use log_service.Spool.Writer.{
  Writer, Calls, WriteError, tmp_of, commit, check_capacity, finish, write_payload, write,
}

module _ (sys : Calls) (name payload : Text) (fs : List File) where
  read-commit_ok :
      (j : Text)
      → (commit sys name payload fs).0 ≡ ok tt
      → read j (commit sys name payload fs).1 ≡ (
          if text_eq name j
          then some payload
          else if text_eq (tmp_of name) j
          then none
          else read j fs)
  unfolding commit
  read-commit_ok j h = ground (arith, read-rename-put (tmp_of name) name payload j fs)

  read-commit_err :
      (j : Text) (e : WriteError)
      → (commit sys name payload fs).0 ≡ err e
      → text_eq (tmp_of name) j ≡ false
      → read j (commit sys name payload fs).1 ≡ read j fs
  unfolding commit
  read-commit_err j e h ne = grind (arith, read-put)

-- The directory after a batch was written under a name that may have been in use.
abbrev pub Holds : Text → Text → Dir → Dir → Type 0
Holds name payload d d' =
    (j : Text)
    → read j (files d') ≡ (
        if text_eq name j
        then some payload
        else if text_eq (tmp_of name) j
        then none
        else read j (files d))

-- All files but the temporary one read as before.
abbrev pub SameFiles : Text → Dir → Dir → Type 0
SameFiles name d d' =
    (j : Text) → text_eq (tmp_of name) j ≡ false → read j (files d') ≡ read j (files d)

module _ (codec : Codec) (w : Writer) (sys : Calls) (name : Text) where
  finish_ok :
      (check : Result WriteError (Unit {0})) (payload : Text) (d : Dir)
      → (finish check (commit sys name payload (files d)) d).0 ≡ ok tt
      → Holds name payload d (finish check (commit sys name payload (files d)) d).1
  finish_ok (ok u) payload d h j = read-commit_ok sys name payload (files d) j h
  finish_ok (err e) payload d h j = cc

  finish_err :
      (check : Result WriteError (Unit {0})) (payload : Text) (d : Dir) (e : WriteError)
      → (finish check (commit sys name payload (files d)) d).0 ≡ err e
      → SameFiles name d (finish check (commit sys name payload (files d)) d).1
  finish_err (ok u) payload d e h j ne = read-commit_err sys name payload (files d) j e h ne
  finish_err (err e') payload d e h j ne = refl

  write_payload_ok :
      (r : Result FileError Text) (d : Dir)
      → (write_payload w sys name r d).0 ≡ ok tt
      → (payload : Text) × (r ≡ ok payload) × Holds name payload d (write_payload w sys name r d).1
  write_payload_ok (ok payload) d h =
      (payload, refl, finish_ok (check_capacity w sys.walk payload d) payload d h)
  write_payload_ok (err e) d h = cc

  write_payload_err :
      (r : Result FileError Text) (d : Dir) (e : WriteError)
      → (write_payload w sys name r d).0 ≡ err e
      → SameFiles name d (write_payload w sys name r d).1
  write_payload_err (ok payload) d e h j ne =
      finish_err (check_capacity w sys.walk payload d) payload d e h j ne
  write_payload_err (err e') d e h j ne = refl

  -- A write of a batch that reports success has put the batch's JSON lines, whole, in the file of
  -- its name; its temporary file is gone, and every other file reads as before.
  pub write_ok-Holds :
      (done : Bool) (event : Event) (events : List Event) (d : Dir)
      → (write codec w sys name done (event ∷ events) d).0 ≡ ok tt
      → (payload : Text) × (marshal_json_lines codec (event ∷ events) ≡ ok payload)
        × Holds name payload d (write codec w sys name done (event ∷ events) d).1
  unfolding write
  write_ok-Holds true event events d = λ h. cc
  write_ok-Holds false event events d =
      let payload = marshal_json_lines codec (event ∷ events) in
      if_both
        (λ (r : Result WriteError (Unit {0}) × Dir).
          r.0 ≡ ok tt → (t : Text) × (payload ≡ ok t) × Holds name t d r.1)
        sys.mkdir_fails _ _ (λ h. cc) (write_payload_ok payload (mkdir d))

  -- A write that fails, whatever the cause, leaves every file but its temporary one as it was.
  pub write_err-SameFiles :
      (done : Bool) (events : List Event) (d : Dir) (e : WriteError)
      → (write codec w sys name done events d).0 ≡ err e
      → SameFiles name d (write codec w sys name done events d).1
  unfolding write
  write_err-SameFiles true [] d e = λ h j ne. refl
  write_err-SameFiles false [] d e = λ h j ne. refl
  write_err-SameFiles true (event ∷ events) d e = λ h j ne. refl
  write_err-SameFiles false (event ∷ events) d e =
      if_both (λ (r : Result WriteError (Unit {0}) × Dir). r.0 ≡ err e → SameFiles name d r.1)
        sys.mkdir_fails _ _ (λ h j ne. refl)
        (write_payload_err (marshal_json_lines codec (event ∷ events)) (mkdir d) e)
