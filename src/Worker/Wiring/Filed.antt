-- ===== src/Worker/Wiring/Filed.antt =====
-- An event that is in a replay file stays there while the worker works (internal/worker/service.go).
use log_service.Prelude.{
  ◌≡◌, ◌⊎◌, Bool, inl, inr, refl, ◌∙◌, true, false, List, [], ◌∷◌, Option, none, some, Result, ok,
  err, Bool-cases, if_both,
}
use log_service.Prelude.Clock.{Context, utc}
use log_service.Prelude.Text.{Text, text_eq, text_eq_sound, text_eq_refl}
use log_service.LogEvent.{Event, Codec, IsUtf8, IsJson}
use log_service.Storage.Accounted.{In}
use log_service.Spool.Dir.{Dir, files, read, is_batch, has_slash}
use log_service.Spool.Dir.Laws.{read-remove}
use log_service.Spool.Lines.{FileError, lines}
use log_service.Worker.ReplayFiles.{write_replay}
use log_service.Worker.ReplayFiles.Adds.{write_replay-Added}
use log_service.Worker.ReplayFiles.Spares.{write_replay-spares}
use log_service.Worker.Indexing.{DlqMessage, send_dlq, write_value}
use log_service.Worker.Settings.{ServiceConfig}
use log_service.Worker.Replay.{read_replay_file}
use log_service.Worker.Replay.Kept.{Stays}
use log_service.Worker.Wiring.{
  Surroundings, Site, told, on_dir, save_replay, replay_name, service, folder,
}
use log_service.Worker.Wiring.Files.{
  Listed, IsObject, marshal_json_lines-Listed, read_replay_file-In,
}
use log_service.Spool.Dir.Names.{is_batch-stamp}

-- A file of the replay directory, one that a pass looks for, has the event's JSON line.
pub record IsFiled {X : Type 0} (codec : Codec) (e : Event) (s : Site X) : Type 0 where
  pub path : Text
  pub content : Text
  pub line : Text
  pub listed : is_batch path ≡ true
  pub there : read path (files s.dir) ≡ some content
  pub encoded : codec.marshal e ≡ some line
  pub written : Listed line (lines content)

module _ {X : Type 0} (env : Surroundings X) where
  abbrev pub Filed : Event → Site X → Type 0
  Filed e s = IsFiled env.client.codec e s

  -- The event is in the same file in another state.
  pub Filed-at :
      (e : Event) (s t : Site X) (f : Filed e s)
      → read f.path (files t.dir) ≡ some f.content
      → Filed e t
  Filed-at e s t f h = record {
    path = f.path;
    content = f.content;
    line = f.line;
    listed = f.listed;
    there = h;
    encoded = f.encoded;
    written = f.written;
  }

  pub Filed-moved :
      (e : Event) (s t : Site X)
      → ((path content : Text)
          → read path (files s.dir) ≡ some content
          → read path (files t.dir) ≡ some content)
      → Filed e s
      → Filed e t
  Filed-moved e s t spares f = Filed-at e s t f (spares f.path f.content f.there)

  moved :
      (s : Site X) (out : Result FileError (Unit {0}) × Dir)
      → (told env.describe (on_dir s out)).1 ≡ record s { dir = out.1 }
  moved s (ok u, d) = refl
  moved s (err x, d) = refl

  succeeded :
      (s : Site X) (out : Result FileError (Unit {0}) × Dir)
      → (told env.describe (on_dir s out)).0 ≡ ok tt
      → out.0 ≡ ok tt
  succeeded s (ok u, d) h = refl
  succeeded s (err x, d) h = absurd cc

  abbrev name_at : Site X → Text
  name_at s = replay_name (env.stamp (utc (env.client.now s.outer))) env.pid

  abbrev write_at : List Event → Site X → Result FileError (Unit {0}) × Dir
  write_at events s = write_replay env.client.codec (env.calls s.outer) (name_at s) events s.dir

  pub world-save_replay :
      (events : List Event) (s : Site X)
      → (save_replay env events s).1 ≡ record s { dir = (write_at events s).1 }
  unfolding save_replay
  world-save_replay events s = moved s (write_at events s)

  -- A new replay file takes none of the others away, however its writing ends.
  pub Filed-save_replay :
      (e : Event) (events : List Event) (s : Site X)
      → Filed e s
      → Filed e (save_replay env events s).1
  Filed-save_replay e events s f = rw (world-save_replay events s) (
      Filed-moved e s (record s { dir = (write_at events s).1 })
        (λ path content h.
          write_replay-spares env.client.codec (env.calls s.outer) (name_at s) path content events
            s.dir h)
        f)

  -- If it is written without error, each of its events is in it.
  pub save_replay-Filed :
      IsJson env.client.codec
      → ((x : X) → has_slash (env.stamp (utc (env.client.now x))) ≡ false)
      → (e : Event) (events : List Event) (s : Site X) → In e events
      → (save_replay env events s).0 ≡ ok tt
      → Filed e (save_replay env events s).1
  unfolding save_replay replay_name
  save_replay-Filed json plain e [] s k h = absurd k
  save_replay-Filed json plain e (x ∷ xs) s k h =
      let (payload, made, fresh, reads) =
        write_replay-Added env.client.codec (env.calls s.outer) (name_at s) x xs s.dir
          (succeeded s (write_at (x ∷ xs) s) h) in
      let (line, encoded, written) =
        marshal_json_lines-Listed env.client.codec json e (x ∷ xs) payload made k in
      rw (world-save_replay (x ∷ xs) s) (record {
        path = name_at s;
        content = payload;
        line = line;
        listed = is_batch-stamp (env.stamp (utc (env.client.now s.outer))) env.pid (plain s.outer);
        there = reads (name_at s) ∙ rw (text_eq_refl (name_at s)) refl;
        encoded = encoded;
        written = written;
      })

  -- The event's file is the one at this path, with this content.
  abbrev Still : Text → Text → Site X → Type 0
  Still path content s = read path (files s.dir) ≡ some content

  Still-remove :
      (path content p : Text) (s : Site X)
      → text_eq p path ≡ false
      → Still path content s
      → Still path content ((folder env).remove p s).1
  Still-remove path content p s far h =
      if_both (λ (out : Bool × Site X). Still path content out.1) (env.removes p s.outer) _ _
        (rw (read-remove p path (files s.dir), far) h) h

  -- What a pass reads at the path has the event in it.
  Still-found :
      IsJson env.client.codec
      → IsObject env.client.codec
      → (e : Event) → IsUtf8 e
      → (path content line : Text) → env.client.codec.marshal e ≡ some line
      → Listed line (lines content)
      → (p : Text) (s : Site X) (events : List Event) → Still path content s
      → read_replay_file env.client.codec ((folder env).content p s) ≡ ok events
      → (text_eq p path ≡ false) ⊎ In e events
  unfolding read_replay_file
  Still-found json object e utf8 path content line encoded written p s events h r =
      elim (Bool-cases (text_eq p path)) [
        | inr far ↦ inl far
        | inl this ↦ inr (opened (Bool-cases (env.opens p s.outer)) (text_eq_sound p path this))
      ]
    where
      unreadable : read_replay_file env.client.codec none ≡ ok events → ⊥
      unreadable q = cc

      opened : (env.opens p s.outer ≡ true) ⊎ (env.opens p s.outer ≡ false) → p ≡ path → In e events
      opened (inl on) same =
          read_replay_file-In env.client.codec json object e line content events utf8 encoded
            written (rw (on, same, h) at r)
      opened (inr off) same = absurd (unreadable (rw off at r))

  module _ (cfg : ServiceConfig) where
    pub dir-send_dlq :
        (ctx : Context) (m : DlqMessage) (s : Site X)
        → (send_dlq (service env cfg) ctx m s).1.dir ≡ s.dir
    unfolding send_dlq
    dir-send_dlq ctx m s = sent (env.encode_dlq m)
      where
        sent : (o : Option Text) → (write_value (service env cfg) ctx m s o).1.dir ≡ s.dir
        sent none = refl
        sent (some value) = refl

    -- A pass over the files keeps the event in its file until it has landed.
    pub IsFiled-Stays :
        IsJson env.client.codec
        → IsObject env.client.codec
        → (ctx : Context) (e : Event) → IsUtf8 e
        → (s : Site X) (f : Filed e s)
        → Stays
            (service env cfg)
            (folder env)
            env.client.codec
            ctx
            e
            (Still f.path f.content)
            (λ p. text_eq p f.path ≡ false)
    IsFiled-Stays json object ctx e utf8 s f = record {
      bulk_still = λ events t h. h;
      dlq_still = λ m t h. rw (dir-send_dlq ctx m t) h;
      remove_still = λ p t far h. Still-remove f.path f.content p t far h;
      found = λ p t events h r.
          Still-found json object e utf8 f.path f.content f.line f.encoded f.written p t events h r;
    }
