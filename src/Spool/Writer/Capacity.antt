-- ===== src/Spool/Writer/Capacity.antt =====
-- The capacity of the spool and the mode that its state reports (internal/spool/writer.go).
use log_service.Prelude.{
  ltb, ℕ, ◌+◌, ◌*◌, ◌≤◌, ◌<◌, Bool, ◌≡◌, ◌≢◌, ◌↔◌, refl, true, false, none, some, List, ◌∷◌, ok,
  err, if◌then◌else◌, Result, if_both, arith,
}
use log_service.Prelude.Int.{pos, pos_part, is_positive}
use log_service.Prelude.Text.{Text, codes, byte_len}
use log_service.LogEvent.{Codec, Event}
use log_service.Spool.Dir.{File, Dir, files, is_tmp, used_bytes, read}
use log_service.Spool.Dir.Laws.{
  has_suffix-append, used_bytes-rename-put_le, used_bytes-rename-put_new,
}
use log_service.Spool.Lines.{FileError, marshal_json_lines}
use log_service.Spool.Lines.RoundTrip.{marshal_json_lines-pos}
use log_service.Spool.Writer.{
  Writer, Calls, complete, vanished, WriteError, full, tmp_of, commit, dir_usage, mode, state,
  check_capacity, write_payload, write,
}

-- With a limit of m bytes the mode follows the used bytes: exhausted from m on, critical from four
-- fifths of m on, degraded below that unless nothing is used.
pub mode_thresholds :
    (used m : ℕ)
    → 0 < m
    → ((mode used (pos m) ≡ codes "exhausted") ↔ (m ≤ used))
      × ((mode used (pos m) ≡ codes "critical") ↔ ((4 * m ≤ 5 * used) × (used < m)))
      × ((mode used (pos m) ≡ codes "degraded") ↔ ((0 < used) × (5 * used < 4 * m)))
      × ((mode used (pos m) ≡ codes "normal") ↔ (used ≡ 0))
unfolding mode
mode_thresholds used m h = ground arith

is_tmp-tmp_of : (name : Text) → is_tmp (tmp_of name) ≡ true
unfolding is_tmp
is_tmp-tmp_of name = has_suffix-append name (codes ".tmp")

used_bytes-commit :
    (sys : Calls) (name payload : Text) (fs : List File)
    → (commit sys name payload fs).0 ≡ ok tt
    → used_bytes (commit sys name payload fs).1 ≤ used_bytes fs + byte_len payload
unfolding commit
used_bytes-commit sys name payload fs h =
    ground (arith, used_bytes-rename-put_le (tmp_of name) name payload fs (is_tmp-tmp_of name))

-- The files of a directory take this much, as the capacity test counts.
abbrev pub used_of : Dir → ℕ
used_of d = used_bytes (files d)

exhausted_full :
    (w : Writer) (d : Dir)
    → (state w complete d).mode ≡ codes "exhausted"
    → (is_positive w.max_bytes ≡ true) × (pos_part w.max_bytes ≤ used_of d)
unfolding state
exhausted_full w none h = ground arith
exhausted_full w (some fs) h = ground arith

-- What the capacity test decides when the walk sees the whole directory.
check_capacity_complete :
    (w : Writer) (payload : Text) (fs : List File)
    → is_positive w.max_bytes ≡ true
    → check_capacity w complete payload (some fs)
      ≡ (if ltb (pos_part w.max_bytes) (used_bytes fs + byte_len payload) then err full else ok tt)
unfolding check_capacity dir_usage
check_capacity_complete w payload fs h = rw h

module _ (codec : Codec) (w : Writer) (sys : Calls) (name : Text) where
  write_payload-fits :
      (r : Result FileError Text) (fs : List File)
      → is_positive w.max_bytes ≡ true
      → sys.walk ≡ complete
      → (write_payload w sys name r (some fs)).0 ≡ ok tt
      → used_of (write_payload w sys name r (some fs)).1 ≤ pos_part w.max_bytes
  write_payload-fits (ok payload) fs limited walk =
      rw (walk, check_capacity_complete w payload fs limited)
        (ground (arith, used_bytes-commit sys name payload fs))
  write_payload-fits (err e) fs limited walk = λ h. cc

  -- With a limit, and a walk that sees the whole directory, a write of a batch that reports success
  -- leaves the directory within the limit.
  pub write-fits :
      (done : Bool) (event : Event) (events : List Event) (d : Dir)
      → is_positive w.max_bytes ≡ true
      → sys.walk ≡ complete
      → (write codec w sys name done (event ∷ events) d).0 ≡ ok tt
      → used_of (write codec w sys name done (event ∷ events) d).1 ≤ pos_part w.max_bytes
  unfolding write
  write-fits true event events d limited walk = λ h. cc
  write-fits false event events d limited walk =
      if_both
        (λ (r : Result WriteError (Unit {0}) × Dir).
          r.0 ≡ ok tt → used_of r.1 ≤ pos_part w.max_bytes)
        sys.mkdir_fails _ _ (λ h. cc)
        (write_payload-fits (marshal_json_lines codec (event ∷ events)) (files d) limited walk)

  -- With a limit and a walk that sees the whole directory, if the directory can be made and the batch
  -- marshalled, a write before its context has ended is
  -- refused as full exactly if the used bytes and the payload together pass the limit, and then the
  -- directory's files are what they were.
  pub write_full :
      (event : Event) (events : List Event) (payload : Text) (d : Dir)
      → is_positive w.max_bytes ≡ true
      → sys.walk ≡ complete
      → sys.mkdir_fails ≡ false
      → marshal_json_lines codec (event ∷ events) ≡ ok payload
      → ((write codec w sys name false (event ∷ events) d).0 ≡ err full
          ↔ (pos_part w.max_bytes < used_of d + byte_len payload))
        × ((write codec w sys name false (event ∷ events) d).0 ≡ err full
            → files (write codec w sys name false (event ∷ events) d).1 ≡ files d)
  unfolding write commit
  write_full event events payload d limited walk made marshalled =
      rw (made, marshalled, walk, check_capacity_complete w payload (files d) limited)
        (ground arith)

  write_payload-full :
      (r : Result FileError Text) (fs : List File)
      → is_positive w.max_bytes ≡ true
      → pos_part w.max_bytes ≤ used_bytes fs
      → sys.walk ≡ complete
      → ((payload : Text) → r ≡ ok payload → 0 < byte_len payload)
      → (write_payload w sys name r (some fs)).0 ≢ ok tt
  write_payload-full (ok payload) fs limited filled walk some_bytes =
      rw (walk, check_capacity_complete w payload fs limited)
        (ground (arith, some_bytes payload refl))
  write_payload-full (err e) fs limited filled walk some_bytes = λ h. cc

  -- A spool that reports itself exhausted, when a walk sees the whole directory, accepts no batch.
  pub write-exhausted :
      (done : Bool) (event : Event) (events : List Event) (d : Dir)
      → sys.walk ≡ complete
      → (state w complete d).mode ≡ codes "exhausted"
      → (write codec w sys name done (event ∷ events) d).0 ≢ ok tt
  unfolding write
  write-exhausted true event events d walk h = λ e. cc
  write-exhausted false event events d walk h =
      let (limited, filled) = exhausted_full w d h in
      if_both (λ (r : Result WriteError (Unit {0}) × Dir). r.0 ≢ ok tt) sys.mkdir_fails _ _
        (λ e. cc)
        (write_payload-full (marshal_json_lines codec (event ∷ events)) (files d) limited filled
          walk (marshal_json_lines-pos codec event events))

  used_bytes-commit_ok :
      (payload : Text) (fs : List File)
      → sys.write_fails ≡ none
      → sys.rename_fails ≡ false
      → is_tmp name ≡ false
      → read name fs ≡ none
      → ((commit sys name payload fs).0 ≡ ok tt)
        × (used_bytes (commit sys name payload fs).1 ≡ used_bytes fs + byte_len payload)
  unfolding commit
  used_bytes-commit_ok payload fs written renamed batch free =
      rw (written, renamed)
        (
          refl,
          used_bytes-rename-put_new (tmp_of name) name payload fs (is_tmp-tmp_of name) batch free,
        )

  -- A file that disappears under the walk of the capacity test lets a write pass the limit. With a limit, when the
  -- directory can be made, the batch marshalled, and its file written and moved to a free path that does
  -- not end in ".tmp": a payload that is within the limit by itself, but not with the files that
  -- are there, is refused as full if the walk sees the whole directory; if a file disappears under
  -- the walk, the write reports success, and the directory is beyond the limit.
  pub write-overruns :
      (event : Event) (events : List Event) (payload : Text) (d : Dir)
      → is_positive w.max_bytes ≡ true
      → sys.mkdir_fails ≡ false
      → marshal_json_lines codec (event ∷ events) ≡ ok payload
      → sys.write_fails ≡ none
      → sys.rename_fails ≡ false
      → is_tmp name ≡ false
      → read name (files d) ≡ none
      → byte_len payload ≤ pos_part w.max_bytes
      → pos_part w.max_bytes < used_of d + byte_len payload
      → ((write codec w (record sys { walk = complete }) name false (event ∷ events) d).0
          ≡ err full)
        × ((write codec w (record sys { walk = vanished }) name false (event ∷ events) d).0 ≡ ok tt)
        × (pos_part w.max_bytes
            < used_of
                (write codec w (record sys { walk = vanished }) name false (event ∷ events) d).1)
  unfolding write check_capacity dir_usage
  write-overruns event events payload d limited made marshalled written renamed batch free small
        over =
      rw (made, marshalled, limited)
        (ground (arith, used_bytes-commit_ok payload (files d) written renamed batch free))
