-- ===== src/Worker/Wiring/Files.antt =====
-- The lines of the replay files: what is written for an event is a line of the file, and a file that is read
-- without error gives the event of each line (internal/worker/service.go).
use log_service.Prelude.{
  ◌≡◌, ◌≢◌, ◌⊎◌, inl, inr, refl, sym, ap, ◌∙◌, List, [], ◌∷◌, ◌++◌, some, Result, ok, err, leb,
  Bool-cases, Option-cases, arith,
}
use log_service.Prelude.Text.{Text, byte_len, trim_space, trim_left, trim_right, is_space}
use log_service.LogEvent.{Event, IsUtf8, Codec, IsJson}
use log_service.Storage.Accounted.{In}
use log_service.Spool.Lines.{FileError, max_token, drop_cr, lines, marshal_json_lines}
use log_service.Spool.Lines.RoundTrip.{lines-append, drop_cr-control, marshal-cons}
use log_service.Worker.Replay.Returns.{In-ok}
use log_service.Worker.Replay.{keep_line, replay_lines, read_replay_file}

-- The line is one of these.
abbrev pub Listed : Text → List Text → Type 0
Listed line [] = ⊥
Listed line (l ∷ ls) = (line ≡ l) ⊎ Listed line ls

-- JSON of a struct is an object, whose text starts with a brace and ends with one.
pub record IsObject (codec : Codec) : Type 0 where
  pub braces :
      (e : Event) (t : Text)
      → codec.marshal e ≡ some t
      → (mid : Text) × (t ≡ b'{' ∷ (mid ++ (b'}' ∷ [])))

trim_right-brace : (s : Text) → trim_right (s ++ (b'}' ∷ [])) ≡ s ++ (b'}' ∷ [])
unfolding trim_right is_space
trim_right-brace [] = refl
trim_right-brace (c ∷ []) = refl
trim_right-brace (c ∷ d ∷ s) = rw (trim_right-brace (d ∷ s)) refl

trim_space-object :
    (mid : Text) → trim_space (b'{' ∷ (mid ++ (b'}' ∷ []))) ≡ b'{' ∷ (mid ++ (b'}' ∷ []))
unfolding trim_space trim_left is_space
trim_space-object mid = trim_right-brace (b'{' ∷ mid)

module _ (codec : Codec) where
  -- Each event of a batch has its line in the batch's JSON lines.
  pub marshal_json_lines-Listed :
      IsJson codec
      → (e : Event) (events : List Event) (payload : Text)
      → marshal_json_lines codec events ≡ ok payload
      → In e events
      → (line : Text) × (codec.marshal e ≡ some line) × Listed line (lines payload)
  marshal_json_lines-Listed json e [] payload h k = absurd k
  marshal_json_lines-Listed json e (x ∷ xs) payload h k =
      let (line, rest, p, q, r) = marshal-cons codec x xs payload h in
      elim k [
        | inl same ↦
            (line, rw same p, rw (r, lines-append line rest (json.no_control x line p)) (inl refl))
        | inr later ↦
            let (found, m, there) = marshal_json_lines-Listed json e xs rest q later in
            (found, m, rw (r, lines-append line rest (json.no_control x line p)) (inr there))
      ]

  keep_line-In :
      (e : Event) (line : Text) (rest : Result FileError (List Event)) (es : List Event)
      → codec.unmarshal line ≡ some e
      → line ≢ []
      → keep_line codec line rest ≡ ok es
      → In e es
  keep_line-In e [] rest es u full h = absurd (full refl)
  keep_line-In e (c ∷ line) (ok events) es u full h = In-ok e (rw u at h) (inl refl)
  keep_line-In e (c ∷ line) (err x) es u full h = absurd (ground arith)

  keep_line-later :
      (e : Event) (line : Text) (rest : Result FileError (List Event)) (es : List Event)
      → ((events : List Event) → rest ≡ ok events → In e events)
      → keep_line codec line rest ≡ ok es
      → In e es
  keep_line-later e [] rest es later h = later es h
  keep_line-later e (c ∷ line) (ok events) es later h =
      elim (Option-cases (codec.unmarshal (c ∷ line))) [
        | inl bad ↦ absurd (ground arith)
        | inr (x, good) ↦ In-ok e (rw good at h) (inr (later events refl))
      ]
  keep_line-later e (c ∷ line) (err x) es later h =
      elim (Option-cases (codec.unmarshal (c ∷ line))) [
        | inl bad ↦ absurd (ground arith)
        | inr (y, good) ↦ absurd (ground arith)
      ]

  -- If the lines are read without error, a line that decodes has its event among those that were read.
  replay_lines-In :
      (e : Event) (line : Text) (ls : List Text) (es : List Event)
      → codec.unmarshal line ≡ some e
      → line ≢ []
      → trim_space (drop_cr line) ≡ line
      → replay_lines codec ls ≡ ok es
      → Listed line ls
      → In e es
  unfolding replay_lines
  replay_lines-In e line [] es u full bare h k = absurd k
  replay_lines-In e line (l ∷ ls) es u full bare h k =
      elim (Bool-cases (leb max_token (byte_len l))) [
        | inl long ↦ absurd (ground arith)
        | inr short ↦ elim k [
          | inl same ↦
              keep_line-In e (trim_space (drop_cr l)) (replay_lines codec ls) es
                (rw (sym same, bare) u) (rw (sym same, bare) full) (rw short at h)
          | inr later ↦
              keep_line-later e (trim_space (drop_cr l)) (replay_lines codec ls) es
                (λ events r. replay_lines-In e line ls events u full bare r later) (rw short at h)
        ]
      ]

  -- A file that is read without error gives the event of each of its lines.
  pub read_replay_file-In :
      IsJson codec
      → IsObject codec
      → (e : Event) (line content : Text) (es : List Event) → IsUtf8 e
      → codec.marshal e ≡ some line
      → Listed line (lines content)
      → read_replay_file codec (some content) ≡ ok es
      → In e es
  unfolding read_replay_file
  read_replay_file-In json object e line content es utf8 m there h =
      let (mid, shape) = object.braces e line m in
      replay_lines-In e line (lines content) es (json.decodes e line utf8 m) (λ nil. cc)
        (ap trim_space (drop_cr-control line (json.no_control e line m))
          ∙ rw shape (trim_space-object mid))
        h there
