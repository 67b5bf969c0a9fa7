-- ===== src/Worker/ReplayFiles/Adds.antt =====
-- What writing a replay file does to the directory (internal/worker/service.go).
use log_service.Prelude.{
  ℕ, zero, suc, ◌≡◌, refl, sym, ◌∙◌, List, [], ◌∷◌, ◌++◌, Option, none, some, Result, ok, err,
  if_both, if◌then◌else◌,
}
use mathlib.Core.List.{append_assoc, append-nil}
use log_service.Prelude.Text.{Text, text_eq}
use log_service.LogEvent.{Codec, Event}
use log_service.Spool.Dir.{Dir, files, read}
use log_service.Spool.Dir.Laws.{read-put}
use log_service.Spool.Lines.{FileError, io_failed, newline, marshal_json_lines}
use log_service.Worker.ReplayFiles.{FileCalls, can_open, encode, write_lines, store, write_replay}

module _ (codec : Codec) where
  -- What a run of the loop that succeeds has added.
  abbrev Written : Text → List Event → Result FileError (Unit {0}) × Text → Type 0
  Written content events out =
      out.0 ≡ ok tt
      → (payload : Text) × (marshal_json_lines codec events ≡ ok payload)
        × (out.1 ≡ content ++ payload)

  Written-cons :
      (content line : Text) (event : Event) (events : List Event)
      (out : Result FileError (Unit {0}) × Text)
      → codec.marshal event ≡ some line
      → Written (content ++ (line ++ (newline ∷ []))) events out
      → Written content (event ∷ events) out
  unfolding marshal_json_lines
  Written-cons content line event events out m k h =
      let (payload, p, q) = k h in
      (line ++ (newline ∷ payload), rw (m, p) refl, q ∙ simp append_assoc)

  marshal_none : marshal_json_lines codec [] ≡ ok []
  unfolding marshal_json_lines
  marshal_none = refl

  encode-Written :
      (content : Text) (event : Event) (events : List Event) (o : Option Text)
      (next : Text → Result FileError (Unit {0}) × Text)
      → codec.marshal event ≡ o
      → ((line : Text)
          → codec.marshal event ≡ some line
          → Written content (event ∷ events) (next line))
      → Written content (event ∷ events) (encode codec content o next)
  encode-Written content event events none next m k = λ h. absurd cc
  encode-Written content event events (some line) next m k = k line m

  write_lines-Written :
      (stop : Option (ℕ × Text)) (content : Text) (events : List Event)
      → Written content events (write_lines codec stop content events)
  unfolding write_lines
  write_lines-Written stop content [] = λ h. ([], marshal_none, sym (append-nil content))
  write_lines-Written none content (event ∷ events) =
      encode-Written content event events (codec.marshal event) _ refl (λ line m.
        Written-cons content line event events
          (write_lines codec none (content ++ (line ++ (newline ∷ []))) events) m
          (write_lines-Written none (content ++ (line ++ (newline ∷ []))) events))
  write_lines-Written (some (zero, part)) content (event ∷ events) =
      encode-Written content event events (codec.marshal event)
        (λ line. (err io_failed, content ++ part)) refl (λ line m h. absurd cc)
  write_lines-Written (some (suc n, part)) content (event ∷ events) =
      encode-Written content event events (codec.marshal event) _ refl (λ line m.
        Written-cons content line event events
          (write_lines codec (some (n, part)) (content ++ (line ++ (newline ∷ []))) events) m
          (write_lines-Written (some (n, part)) (content ++ (line ++ (newline ∷ []))) events))

  module _ (sys : FileCalls) (name : Text) where
    -- The file is new and holds the events' JSON lines; every other file reads as before.
    abbrev pub Added : List Event → Dir → Result FileError (Unit {0}) × Dir → Type 0
    Added events d out =
        out.0 ≡ ok tt
        → (payload : Text) × (marshal_json_lines codec events ≡ ok payload)
          × (read name (files d) ≡ none)
          × ((j : Text)
              → read j (files out.1) ≡ (if text_eq name j then some payload else read j (files d)))

    store-Added :
        (events : List Event) (d : Dir) (out : Result FileError (Unit {0}) × Text)
        → read name (files d) ≡ none
        → Written [] events out
        → Added events d (store codec name (files d) out)
    store-Added events d (r, content) fresh k h =
        let (payload, p, q) = k h in (payload, p, fresh, λ j. rw (read-put, q) refl)

    open-Added :
        (events : List Event) (d : Dir) (o : Option Text)
        → read name (files d) ≡ o
        → Added events d (
            if can_open sys o
            then store codec name (files d) (write_lines codec sys.write_fails [] events)
            else (err io_failed, some (files d)))
    open-Added events d none fresh =
        if_both (Added events d) (can_open sys none) _ _
          (store-Added events d (write_lines codec sys.write_fails [] events) fresh
            (write_lines-Written sys.write_fails [] events))
          (λ h. absurd cc)
    open-Added events d (some content) there = λ h. absurd cc

    -- Writing a replay file for events that reports success has made a new file with all their JSON
    -- lines, and every other file of the directory reads as before.
    pub write_replay-Added :
        (event : Event) (events : List Event) (d : Dir)
        → (write_replay codec sys name (event ∷ events) d).0 ≡ ok tt
        → (payload : Text) × (marshal_json_lines codec (event ∷ events) ≡ ok payload)
          × (read name (files d) ≡ none)
          × ((j : Text)
              → read j (files (write_replay codec sys name (event ∷ events) d).1)
                ≡ (if text_eq name j then some payload else read j (files d)))
    unfolding write_replay
    write_replay-Added event events d =
        if_both (Added (event ∷ events) d) sys.mkdir_fails _ _ (λ h. absurd cc)
          (open-Added (event ∷ events) d (read name (files d)) refl)
