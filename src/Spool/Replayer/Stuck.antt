-- ===== src/Spool/Replayer/Stuck.antt =====
-- A batch that does not read back stays in the spool (internal/spool/replayer.go).
use log_service.Prelude.{
  ◌≡◌, ◌≤◌, refl, Bool, true, false, List, [], ◌∷◌, ◌++◌, Option, none, some, Result, ok, err,
  length, if_both, Bool-cases, inl, inr, ℕ,
}
use log_service.Prelude.Clock.{Context}
use log_service.Prelude.Text.{Text, text_eq, text_eq_sound, byte_len}
use log_service.LogEvent.{Codec, IsJson, Event}
use log_service.Publisher.{Publisher}
use log_service.Spool.Dir.{File, read, remove, glob}
use log_service.Spool.Dir.Laws.{read-remove}
use log_service.Spool.Lines.{FileError, io_failed, max_token, marshal_json_lines, read_file}
use log_service.Spool.Lines.RoundTrip.{read_file-too_long}
use log_service.Spool.Replayer.{
  ReplayError, Pass, ReplayCalls, parse_file, read_batch, published, visit_events, visit,
  unless_stopped, visit_all, replay,
}

module _ {S : Type 0} (codec : Codec) (sys : ReplayCalls) (ctx : Context) (publisher : Publisher S)
    (path content : Text) where
  abbrev Stays : Pass S → Type 0
  Stays p = read path p.files ≡ some content

  Stays-remove :
      (q : Text) (fs : List File)
      → text_eq q path ≡ false
      → read path fs ≡ some content
      → read path (remove q fs) ≡ some content
  Stays-remove q fs other there = rw (read-remove q path fs, other) there

  Stays-published :
      (q : Text) (n : ℕ) (p : Pass S) (sent : Result Text (Unit {0}) × S)
      → text_eq q path ≡ false
      → Stays p
      → Stays (published codec sys ctx publisher q n p sent)
  Stays-published q n p (err e, k) other there = there
  Stays-published q n p (ok u, k) other there =
      if_both Stays (sys.remove_fails q) _ _ there (Stays-remove q p.files other there)

  Stays-other :
      (q : Text) (p : Pass S) (r : Result FileError (List Event))
      → text_eq q path ≡ false
      → Stays p
      → Stays (visit_events codec sys ctx publisher q p r)
  Stays-other q p (err e) other there = there
  Stays-other q p (ok []) other there =
      if_both Stays (sys.remove_fails q) _ _ there (Stays-remove q p.files other there)
  Stays-other q p (ok (event ∷ events)) other there =
      Stays-published q (length (event ∷ events)) p _ other there

  parse_file-err :
      (fails : Bool) (x : FileError)
      → read_file codec content ≡ err x
      → (y : FileError) × (parse_file codec fails (some content) ≡ err y)
  parse_file-err true x bad = (io_failed, refl)
  parse_file-err false x bad = (x, bad)

  Stays-visit :
      (x : FileError) (q : Text) (p : Pass S)
      → read_file codec content ≡ err x
      → Stays p
      → Stays (visit codec sys ctx publisher q p)
  unfolding visit read_batch
  Stays-visit x q p bad there = elim (Bool-cases (text_eq q path)) [
    | inl same ↦
        let (y, e) = parse_file-err (sys.read_fails path) x bad in
        rw (text_eq_sound q path same, there, e) there
    | inr other ↦ Stays-other q p _ other there
  ]

  Stays-unless :
      (o : Option ReplayError) (p q : Pass S) → Stays p → Stays q → Stays (unless_stopped o p q)
  Stays-unless none p q hp hq = hq
  Stays-unless (some e) p q hp hq = hp

  Stays-visit_all :
      (x : FileError) (paths : List Text) (p : Pass S)
      → read_file codec content ≡ err x
      → Stays p
      → Stays (visit_all codec sys ctx publisher paths p)
  unfolding visit_all
  Stays-visit_all x [] p bad there = there
  Stays-visit_all x (q ∷ paths) p bad there =
      Stays-visit_all x paths _ bad (Stays-unless p.stopped p _ there (Stays-visit x q p bad there))

  replay_unreadable :
      (x : FileError) (kafka : S) (fs : List File)
      → read_file codec content ≡ err x
      → read path fs ≡ some content
      → Stays (replay codec sys ctx publisher kafka fs)
  unfolding replay
  replay_unreadable x kafka fs bad there =
      if_both Stays sys.glob_fails _ _ there (Stays-visit_all x (glob fs) _ bad there)

-- With JSON as documented, a file that holds a batch with an event whose JSON line has 64 KiB or more
-- holds it still after a pass, whatever the publisher does.
pub replay_stuck :
    {S : Type 0} (codec : Codec) (sys : ReplayCalls) (ctx : Context) (publisher : Publisher S)
    → IsJson codec
    → (before : List Event) (e : Event) (after : List Event) (line payload path : Text)
    → codec.marshal e ≡ some line
    → max_token ≤ byte_len line
    → marshal_json_lines codec (before ++ (e ∷ after)) ≡ ok payload
    → (kafka : S) (fs : List File) → read path fs ≡ some payload
    → read path (replay codec sys ctx publisher kafka fs).files ≡ some payload
replay_stuck codec sys ctx publisher j before e after line payload path m long w kafka fs there =
    let (x, bad) = read_file-too_long codec j before e after line payload m long w in
    replay_unreadable codec sys ctx publisher path payload x kafka fs bad there
