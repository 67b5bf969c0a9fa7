-- ===== src/Api/History/Stored.antt =====
-- A batch that is on the topic or in the spool stays so (internal/ingestion, internal/kafka, internal/spool).
use log_service.Prelude.{
  ◌≡◌, ◌⊎◌, inl, inr, refl, sym, ap, ◌∙◌, Bool, true, false, List, [], ◌++◌, none, some, ok, All,
  Bool-cases, Result-cases, arith,
}
use mathlib.Core.List.{append_assoc, append-nil}
use log_service.Prelude.Clock.{Context}
use log_service.Prelude.Text.{Text, text_eq, text_eq_sound}
use log_service.LogEvent.{Codec, Event, IsJson, IsUtf8}
use log_service.Kafka.{Message, to_messages, publish, producer}
use log_service.Kafka.Appends.{Appends}
use log_service.Spool.Dir.{File, Dir, files, read, remove, is_batch}
use log_service.Spool.Dir.Laws.{read-remove}
use log_service.Spool.Lines.{marshal_json_lines}
use log_service.Spool.Lines.RoundTrip.{read_file_unique}
use log_service.Spool.Replayer.{ReplayCalls, read_batch, parse_file, replay, replay_once}
use log_service.Spool.Replayer.Steady.{Keeps, replay-kept}
use log_service.Api.{World, Environment}
use log_service.Api.History.{pass_over, replay_pass}

-- What the history relies on: Kafka's writer appends to the topic what it reports as written, and never takes
-- a message back or touches the spool; JSON is as documented.
pub record IsSound {K : Type 0} (env : Environment K) (topic : K → List Message) : Type 0 where
  pub json : IsJson env.codec
  pub appends : Appends env.writer (λ w. topic w.kafka)
  pub extends :
      (ctx : Context) (ms : List Message) (w : World K)
      → (more : List Message) × (topic (env.writer.write_messages ctx ms w).1.kafka
          ≡ topic w.kafka ++ more)
  pub apart :
      (ctx : Context) (ms : List Message) (w : World K)
      → (env.writer.write_messages ctx ms w).1.dir ≡ w.dir

-- A file that a pass looks for holds the batch's lines.
pub record IsSpooled (codec : Codec) (batch : List Event) (fs : List File) : Type 0 where
  pub path : Text
  pub payload : Text
  pub listed : is_batch path ≡ true
  pub made : marshal_json_lines codec batch ≡ ok payload
  pub there : read path fs ≡ some payload

module _ {K : Type 0} (env : Environment K) (topic : K → List Message) (batch : List Event) where
  -- The topic has the batch's messages, in a row.
  abbrev pub OnTopic : World K → Type 0
  OnTopic w =
      (before messages after : List Message) × (to_messages env.codec batch ≡ ok messages)
      × (topic w.kafka ≡ before ++ (messages ++ after))

  abbrev pub Stored : World K → Type 0
  Stored w = OnTopic w ⊎ IsSpooled env.codec batch (files w.dir)

  OnTopic-grown :
      (w w' : World K) (more : List Message)
      → topic w'.kafka ≡ topic w.kafka ++ more
      → OnTopic w
      → OnTopic w'
  OnTopic-grown w w' more e (before, messages, after, m, t) =
      (before, messages, after ++ more, m, e ∙ ap (λ l. l ++ more) t ∙ simp append_assoc)

  module _ (sound : IsSound env topic) where
    -- A call of Publish makes the topic longer, and leaves the spool.
    pub publish-grows :
        (ctx : Context) (es : List Event) (w : World K)
        → (more : List Message) × (topic (publish env.codec env.writer ctx es w).1.kafka
            ≡ topic w.kafka ++ more)
          × ((publish env.codec env.writer ctx es w).1.dir ≡ w.dir)
    unfolding publish
    publish-grows ctx es w = elim (Result-cases (to_messages env.codec es)) [
      | inl (ms, q) ↦ let (more, e) = sound.extends ctx ms w in rw q (more, e, sound.apart ctx ms w)
      | inr (x, q) ↦ rw q ([], sym (append-nil (topic w.kafka)), refl)
    ]

    pub publish-OnTopic :
        (ctx : Context) (es : List Event) (w : World K)
        → OnTopic w
        → OnTopic (publish env.codec env.writer ctx es w).1
    publish-OnTopic ctx es w h =
        let (more, e, same) = publish-grows ctx es w in
        OnTopic-grown w (publish env.codec env.writer ctx es w).1 more e h

    -- A batch that is published without error is on the topic.
    pub publish_ok-OnTopic :
        (ctx : Context) (w : World K)
        → (publish env.codec env.writer ctx batch w).0 ≡ ok tt
        → OnTopic (publish env.codec env.writer ctx batch w).1
    unfolding publish
    publish_ok-OnTopic ctx w h = elim (Result-cases (to_messages env.codec batch)) [
      | inl (ms, q) ↦ rw q (
        topic w.kafka,
        ms,
        [],
        refl,
        sound.appends.appends ctx ms w (rw q at h)
            ∙ ap (λ l. topic w.kafka ++ l) (sym (append-nil ms)),
      )
      | inr (x, q) ↦ absurd (ground arith)
    ]

    pub publish-Stored :
        (ctx : Context) (es : List Event) (w : World K)
        → Stored w
        → Stored (publish env.codec env.writer ctx es w).1
    publish-Stored ctx es w (inl h) = inl (publish-OnTopic ctx es w h)
    publish-Stored ctx es w (inr s) =
        let (more, e, same) = publish-grows ctx es w in inr (rw same s)

    module _ (utf8 : All IsUtf8 batch) (sys : ReplayCalls) (ctx : Context) where
      -- The file is there, or the batch is on the topic.
      abbrev At : Text → Text → List File → World K → Type 0
      At path payload fs w = OnTopic w ⊎ (read path fs ≡ some payload)

      read_batch-same :
          (path payload q : Text) (es : List Event) (fs : List File)
          → marshal_json_lines env.codec batch ≡ ok payload
          → read path fs ≡ some payload
          → text_eq q path ≡ true
          → read_batch env.codec sys ctx (producer env.codec env.writer) q fs ≡ ok es
          → es ≡ batch
      unfolding read_batch
      read_batch-same path payload q es fs made there same r =
          opened (sys.read_fails path) (rw (text_eq_sound q path same, there) at r)
        where
          opened : (b : Bool) → parse_file env.codec b (some payload) ≡ ok es → es ≡ batch
          opened true e = absurd cc
          opened false e = read_file_unique env.codec sound.json batch payload es utf8 made e

      At-Keeps :
          (path payload : Text)
          → marshal_json_lines env.codec batch ≡ ok payload
          → Keeps env.codec sys ctx (producer env.codec env.writer) (At path payload)
      unfolding to_messages
      At-Keeps path payload made = record {
        publish_keeps = kept;
        remove_keeps = removed;
        drop_keeps = dropped;
      }
        where
          kept :
              (es : List Event) (fs : List File) (w : World K)
              → At path payload fs w
              → At path payload fs (publish env.codec env.writer ctx es w).1
          kept es fs w (inl h) = inl (publish-OnTopic ctx es w h)
          kept es fs w (inr h) = inr h

          published :
              (es : List Event) (w : World K)
              → (publish env.codec env.writer ctx es w).0 ≡ ok tt
              → es ≡ batch
              → OnTopic (publish env.codec env.writer ctx es w).1
          published es w done same = rw same (publish_ok-OnTopic ctx w (rw same at done))

          removed :
              (q : Text) (es : List Event) (fs : List File) (w : World K)
              → read_batch env.codec sys ctx (producer env.codec env.writer) q fs ≡ ok es
              → (publish env.codec env.writer ctx es w).0 ≡ ok tt
              → At path payload fs w
              → At path payload (remove q fs) (publish env.codec env.writer ctx es w).1
          removed q es fs w r done (inl h) = inl (publish-OnTopic ctx es w h)
          removed q es fs w r done (inr there) = elim (Bool-cases (text_eq q path)) [
            | inl same ↦
                inl (published es w done (read_batch-same path payload q es fs made there same r))
            | inr far ↦ inr (rw (read-remove q path fs, far) there)
          ]

          no_events : (w : World K) → [] ≡ batch → OnTopic w
          no_events w same =
              (topic w.kafka, [], [], rw (← same) refl, sym (append-nil (topic w.kafka)))

          dropped :
              (q : Text) (fs : List File) (w : World K)
              → read_batch env.codec sys ctx (producer env.codec env.writer) q fs ≡ ok []
              → At path payload fs w
              → At path payload (remove q fs) w
          dropped q fs w r (inl h) = inl h
          dropped q fs w r (inr there) = elim (Bool-cases (text_eq q path)) [
            | inl same ↦ inl (no_events w (read_batch-same path payload q [] fs made there same r))
            | inr far ↦ inr (rw (read-remove q path fs, far) there)
          ]

      -- A pass of the replayer keeps it on the topic, or in the spool, or moves it there from here.
      pub replay_pass-Stored : (w : World K) → Stored w → Stored (replay_pass env sys ctx w)
      unfolding replay_pass replay_once read
      replay_pass-Stored w (inl h) = on_topic w.dir
        where
          on_topic : (d : Dir) → Stored (pass_over env sys ctx w d)
          on_topic none = inl h
          on_topic (some fs) = inl (
              replay-kept env.codec sys ctx (producer env.codec env.writer) (λ fs v. OnTopic v)
                (record {
                  publish_keeps = λ es fs v k. publish-OnTopic ctx es v k;
                  remove_keeps = λ q es fs v r done k. publish-OnTopic ctx es v k;
                  drop_keeps = λ q fs v r k. k;
                })
                w fs h)
      replay_pass-Stored w (inr s) = in_spool w.dir s.there
        where
          after :
              (fs : List File) (v : World K)
              → At s.path s.payload fs v
              → Stored (record v { dir = some fs })
          after fs v (inl h) = inl h
          after fs v (inr h) = inr (record {
            path = s.path;
            payload = s.payload;
            listed = s.listed;
            made = s.made;
            there = h;
          })

          in_spool :
              (d : Dir)
              → read s.path (files d) ≡ some s.payload
              → Stored (pass_over env sys ctx w d)
          in_spool none h = absurd cc
          in_spool (some fs) h =
              let p = replay env.codec sys ctx (producer env.codec env.writer) w fs in
              after p.files p.kafka (
                replay-kept env.codec sys ctx (producer env.codec env.writer) (At s.path s.payload)
                  (At-Keeps s.path s.payload s.made) w fs (inr h))
