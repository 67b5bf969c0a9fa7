-- ===== src/Ingestion/Batch/Laws.antt =====
-- What a valid batch is (`validate` of internal/ingestion/handler.go).
use log_service.Prelude.{
  ℕ, suc, ◌+◌, ◌≤◌, ◌<◌, ◌≡◌, ◌≢◌, refl, true, false, List, [], ◌∷◌, some, ok, err, length,
  get_elem?, Result-cases, inl, inr, arith,
}
use log_service.Prelude.Clock.{Time, utc}
use log_service.Prelude.Int.{ℤ, pos_part, is_positive}
use log_service.Prelude.Text.{Text, is_empty, trim_space}
use log_service.LogEvent.{Event}
use log_service.LogLine.{Readers, ParseError, Record, parse}
use log_service.LogLine.Accepts.{parse-raw}
use log_service.Ingestion.Batch.{
  Request, ValidateError, record_invalid, event_of, parse_records, validate,
}

-- The events are those of the records, one for each and in order: the record parses, and so does
-- the raw line that the event keeps, to the same fields.
abbrev pub MadeFrom : Readers → Text → Time → List Text → List Event → Type 0
MadeFrom readers source at [] [] = Unit
MadeFrom readers source at (line ∷ lines) (e ∷ events) =
    ((p : Record) × (parse readers line ≡ ok p)
      × (parse readers e.raw ≡ ok p)
      × (e ≡ event_of source at p))
    × MadeFrom readers source at lines events
MadeFrom readers source at _ _ = ⊥

module _ (readers : Readers) (source : Text) (at : Time) where
  parse_records-MadeFrom :
      (i : ℕ) (lines : List Text) (events : List Event)
      → parse_records readers source at i lines ≡ ok events
      → MadeFrom readers source at lines events
  unfolding parse_records
  parse_records-MadeFrom i [] [] h = tt
  parse_records-MadeFrom i [] (e ∷ events) h = cc
  parse_records-MadeFrom i (line ∷ lines) events h = elim (Result-cases (parse readers line)) [
    | inr (x, bad) ↦ absurd (ground arith)
    | inl (p, good) ↦ elim (Result-cases (parse_records readers source at (i + 1) lines)) [
      | inr (x, bad) ↦ absurd (ground arith)
      | inl (rest, q) ↦ rw (made good q) (
        (p, good, parse-raw readers line p good, refl),
        parse_records-MadeFrom (i + 1) lines rest q,
      )
    ]
  ]
    where
      made :
          {p : Record} {rest : List Event}
          → parse readers line ≡ ok p
          → parse_records readers source at (i + 1) lines ≡ ok rest
          → events ≡ event_of source at p ∷ rest
      made good q = ground arith

  -- The first record that does not parse decides, with its position.
  parse_records-err :
      (i : ℕ) (lines : List Text) (x : ValidateError)
      → parse_records readers source at i lines ≡ err x
      → (j : ℕ) × (line : Text) × (e : ParseError) × (x ≡ record_invalid (i + j) e)
        × (get_elem? lines j ≡ some line)
        × (parse readers line ≡ err e)
  unfolding parse_records
  parse_records-err i [] x h = cc
  parse_records-err i (line ∷ lines) x h = elim (Result-cases (parse readers line)) [
    | inr (e, bad) ↦ (0, line, e, ground arith, refl, bad)
    | inl (p, good) ↦ elim (Result-cases (parse_records readers source at (i + 1) lines)) [
      | inl (rest, q) ↦ absurd (ground arith)
      | inr (y, q) ↦
          let (j, l, e, eq, there, bad) = parse_records-err (i + 1) lines y q in
          (suc j, l, e, ground arith, there, bad)
    ]
  ]

length-MadeFrom :
    (readers : Readers) (source : Text) (at : Time) (lines : List Text) (events : List Event)
    → MadeFrom readers source at lines events
    → length events ≡ length lines
length-MadeFrom readers source at [] [] h = refl
length-MadeFrom readers source at [] (e ∷ events) h = absurd h
length-MadeFrom readers source at (l ∷ lines) [] h = absurd h
length-MadeFrom readers source at (l ∷ lines) (e ∷ events) h =
    omega (arith, length-MadeFrom readers source at lines events h.1)

validate-parse_records :
    (readers : Readers) (max : ℤ) (now : Time) (req : Request) (events : List Event)
    → validate readers max now req ≡ ok events
    → (is_empty (trim_space req.source) ≡ false)
      × (0 < length req.records)
      × (is_positive max ≡ true → length req.records ≤ pos_part max)
      × (parse_records readers (trim_space req.source) (utc now) 0 req.records ≡ ok events)
unfolding validate
validate-parse_records readers max now req events h = ground arith

-- A batch that is accepted has a source that is not blank and at least one record, no more records than
-- a limit above zero allows, and one event for each record, in order, with the trimmed source; each
-- record parses, and the raw line that its event keeps parses again to the same fields.
pub validate-MadeFrom :
    (readers : Readers) (max : ℤ) (now : Time) (req : Request) (events : List Event)
    → validate readers max now req ≡ ok events
    → (trim_space req.source ≢ [])
      × (0 < length events)
      × (is_positive max ≡ true → length events ≤ pos_part max)
      × MadeFrom readers (trim_space req.source) (utc now) req.records events
validate-MadeFrom readers max now req events h =
    let (named, some_records, fits, parsed) = validate-parse_records readers max now req events h in
    let made = parse_records-MadeFrom readers _ _ 0 req.records events parsed in
    let same = length-MadeFrom readers _ _ req.records events made in
    (
      not_blank (trim_space req.source) named,
      omega (arith, same, some_records),
      λ p. omega (arith, same, fits p),
      made,
    )
  where
    not_blank : (s : Text) → is_empty s ≡ false → s ≢ []
    not_blank [] e p = cc
    not_blank (c ∷ s) e p = cc

validate-parse_records_err :
    (readers : Readers) (max : ℤ) (now : Time) (req : Request) (j : ℕ) (e : ParseError)
    → validate readers max now req ≡ err (record_invalid j e)
    → parse_records readers (trim_space req.source) (utc now) 0 req.records
      ≡ err (record_invalid j e)
unfolding validate
validate-parse_records_err readers max now req j e h = ground arith

-- A batch that is rejected for its record at a position has a record there, counted from 0, and the
-- error is the one that parsing it gives.
pub validate-record_invalid :
    (readers : Readers) (max : ℤ) (now : Time) (req : Request) (j : ℕ) (e : ParseError)
    → validate readers max now req ≡ err (record_invalid j e)
    → (line : Text) × (get_elem? req.records j ≡ some line) × (parse readers line ≡ err e)
validate-record_invalid readers max now req j e h =
    let (k, line, x, eq, there, bad) =
      parse_records-err readers _ _ 0 req.records _
        (validate-parse_records_err readers max now req j e h) in
    (line, rw (position k x eq) there, rw (reason k x eq) bad)
  where
    position : (k : ℕ) (x : ParseError) → record_invalid j e ≡ record_invalid (0 + k) x → j ≡ k
    position k x eq = ground arith

    reason : (k : ℕ) (x : ParseError) → record_invalid j e ≡ record_invalid (0 + k) x → e ≡ x
    reason k x eq = ground arith
