-- ===== src/Spool/Lines/RoundTrip.antt =====
-- Reading back the JSON lines of a batch (internal/spool/writer.go).
use log_service.Prelude.{
  ◌≤◌, ◌<◌, ◌≡◌, refl, ap, ◌∙◌, none, some, List, [], ◌∷◌, ◌++◌, ok, err, All, leb, Bool-cases,
  Option-cases, Result-cases, inl, inr, arith, Result,
}
use log_service.Prelude.Text.{Text, byte_len, byte_len-append}
use log_service.LogEvent.{Event, IsUtf8, Codec, IsJson}
use log_service.Spool.Lines.{
  FileError, line_too_long, bad_json, max_token, newline, drop_cr, lines, marshal_json_lines,
  read_lines, read_file,
}

pub lines-append : (l s : Text) → All (λ c. 32 ≤ c) l → lines (l ++ (newline ∷ s)) ≡ l ∷ lines s
unfolding lines
lines-append [] s h = refl
lines-append (c ∷ l) s h = ground (arith, lines-append l s h.1)

pub drop_cr-control : (l : Text) → All (λ c. 32 ≤ c) l → drop_cr l ≡ l
unfolding drop_cr
drop_cr-control [] h = refl
drop_cr-control (c ∷ []) h = ground arith
drop_cr-control (c ∷ d ∷ l) h = ap (◌∷◌ c) (drop_cr-control (d ∷ l) h.1)

module _ (codec : Codec) where
  -- A batch of one more event, taken apart.
  pub marshal-cons :
      (e : Event) (es : List Event) (payload : Text)
      → marshal_json_lines codec (e ∷ es) ≡ ok payload
      → (line rest : Text) × (codec.marshal e ≡ some line)
        × (marshal_json_lines codec es ≡ ok rest)
        × (payload ≡ line ++ (newline ∷ rest))
  unfolding marshal_json_lines
  marshal-cons e es payload h = elim (Option-cases (codec.marshal e)) [
    | inl p ↦ absurd (none_case p h)
    | inr (line, p) ↦ elim (Result-cases (marshal_json_lines codec es)) [
      | inl (rest, q) ↦ (line, rest, p, q, ground arith)
      | inr (x, q) ↦ absurd (ground arith)
    ]
  ]
    where
      none_case : codec.marshal e ≡ none → marshal_json_lines codec (e ∷ es) ≡ ok payload → ⊥
      none_case p k = ground arith

  -- A batch that is not empty has at least one byte.
  pub marshal_json_lines-pos :
      (e : Event) (es : List Event) (payload : Text)
      → marshal_json_lines codec (e ∷ es) ≡ ok payload
      → 0 < byte_len payload
  unfolding byte_len
  marshal_json_lines-pos e es payload h =
      let (line, rest, p, q, r) = marshal-cons e es payload h in
      omega (arith, ap byte_len r, byte_len-append line (newline ∷ rest))

  read_lines-cons :
      (line : Text) (ls : List Text) (e : Event) (es : List Event)
      → byte_len line < max_token
      → codec.unmarshal (drop_cr line) ≡ some e
      → read_lines codec ls ≡ ok es
      → read_lines codec (line ∷ ls) ≡ ok (e ∷ es)
  unfolding read_lines
  read_lines-cons line ls e es short good rest = ground arith

  read_lines-long :
      (line : Text) (ls : List Text)
      → max_token ≤ byte_len line
      → read_lines codec (line ∷ ls) ≡ err line_too_long
  unfolding read_lines
  read_lines-long line ls long = ground arith

  -- Every event's line fits the scanner.
  abbrev pub FitsScanner : List Event → Type 0
  FitsScanner [] = Unit
  FitsScanner (e ∷ es) =
      ((t : Text) → codec.marshal e ≡ some t → byte_len t < max_token) × FitsScanner es

  -- With JSON as documented, a batch of UTF-8 texts whose lines are shorter than 64 KiB reads back as
  -- it was written.
  pub read_file-marshal :
      IsJson codec
      → (events : List Event) (payload : Text) → All IsUtf8 events
      → FitsScanner events
      → marshal_json_lines codec events ≡ ok payload
      → read_file codec payload ≡ ok events
  unfolding read_file marshal_json_lines
  read_file-marshal j [] payload v f h = ground arith
  read_file-marshal j (e ∷ es) payload v f h =
      let (line, rest, p, q, r) = marshal-cons e es payload h in
      let control = j.no_control e line p in
      rw (r, lines-append line rest control)
        (read_lines-cons line (lines rest) e es (f.0 line p)
          (ap codec.unmarshal (drop_cr-control line control) ∙ j.decodes e line v.0 p)
          (read_file-marshal j es rest v.1 f.1 q))

  read_lines-err :
      (line : Text) (ls : List Text) (x : FileError)
      → read_lines codec ls ≡ err x
      → (y : FileError) × (read_lines codec (line ∷ ls) ≡ err y)
  unfolding read_lines
  read_lines-err line ls x h = elim (Bool-cases (leb max_token (byte_len line))) [
    | inl long ↦ (line_too_long, rw long)
    | inr short ↦ elim (Option-cases (codec.unmarshal (drop_cr line))) [
      | inl bad ↦ (bad_json, rw (short, bad))
      | inr (e, good) ↦ (x, rw (short, good, h))
    ]
  ]

  -- A batch with an event whose line has 64 KiB or more is written, but it never reads back: the
  -- file that holds it is an error for every reader.
  pub read_file-too_long :
      IsJson codec
      → (before : List Event) (e : Event) (after : List Event) (t payload : Text)
      → codec.marshal e ≡ some t
      → max_token ≤ byte_len t
      → marshal_json_lines codec (before ++ (e ∷ after)) ≡ ok payload
      → (x : FileError) × (read_file codec payload ≡ err x)
  unfolding read_file
  read_file-too_long j [] e after t payload m long h =
      let (line, rest, p, q, r) = marshal-cons e after payload h in
      (
        line_too_long,
        rw (r, lines-append line rest (j.no_control e line p))
            (read_lines-long line (lines rest) (line_long line p)),
      )
    where
      line_long : (line : Text) → codec.marshal e ≡ some line → max_token ≤ byte_len line
      line_long line p = ground arith
  read_file-too_long j (b ∷ before) e after t payload m long h =
      let (line, rest, p, q, r) = marshal-cons b (before ++ (e ∷ after)) payload h in
      let (x, bad) = read_file-too_long j before e after t rest m long q in
      rw (r, lines-append line rest (j.no_control b line p))
        (read_lines-err line (lines rest) x bad)

  read_lines-head :
      (line : Text) (ls : List Text) (e : Event) (es : List Event)
      → codec.unmarshal (drop_cr line) ≡ some e
      → read_lines codec (line ∷ ls) ≡ ok es
      → (rest : List Event) × (read_lines codec ls ≡ ok rest) × (es ≡ e ∷ rest)
  unfolding read_lines
  read_lines-head line ls e es good h = elim (Bool-cases (leb max_token (byte_len line))) [
    | inl long ↦ absurd (ground arith)
    | inr short ↦ elim (Result-cases (read_lines codec ls)) [
      | inl (rest, p) ↦ (rest, p, same rest (rw (short, good, p) at h))
      | inr (x, p) ↦ absurd (ground arith)
    ]
  ]
    where
      same :
          (rest : List Event)
          → ◌≡◌ {A = Result FileError (List Event)} (ok (e ∷ rest)) (ok es)
          → es ≡ e ∷ rest
      same rest q = cc

  -- If the lines of a batch read back at all, they read back as the batch.
  pub read_file_unique :
      IsJson codec
      → (events : List Event) (payload : Text) (es : List Event) → All IsUtf8 events
      → marshal_json_lines codec events ≡ ok payload
      → read_file codec payload ≡ ok es
      → es ≡ events
  unfolding read_file read_lines marshal_json_lines lines
  read_file_unique j [] payload es v m r = ground arith
  read_file_unique j (e ∷ events) payload es v m r =
      let (line, rest, p, q, shape) = marshal-cons e events payload m in
      let control = j.no_control e line p in
      let (tail, t, same) =
        read_lines-head line (lines rest) e es
          (ap codec.unmarshal (drop_cr-control line control) ∙ j.decodes e line v.0 p)
          (rw (shape, lines-append line rest control) at r) in
      same ∙ ap (◌∷◌ e) (read_file_unique j events rest tail v.1 q t)
