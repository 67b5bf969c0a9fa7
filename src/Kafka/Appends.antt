-- ===== src/Kafka/Appends.antt =====
-- What a published batch looks like on the topic (internal/kafka/producer.go).
use log_service.Prelude.{
  false, ◌≡◌, ◌≢◌, refl, List, [], ◌∷◌, ◌++◌, some, ok, All, Bool-cases, Option-cases, Result-cases,
  inl, inr, arith,
}
use log_service.Prelude.Clock.{Context}
use log_service.Prelude.Text.{Text, is_empty, trim_space, split}
use log_service.Prelude.Text.Words.{trim_space_idem}
use log_service.LogEvent.{Codec, IsJson, Event, IsUtf8}
use log_service.Kafka.{Message, MessageWriter, to_messages, publish, keep_brokers, split_brokers}

-- What the code relies on of kafka-go: a write that reports success has appended its messages, in
-- order; one that fails may have appended some of them.
pub record Appends {S : Type 0} (writer : MessageWriter S) (topic : S → List Message) : Type 0 where
  pub appends :
      (ctx : Context) (messages : List Message) (s : S)
      → (writer.write_messages ctx messages s).0 ≡ ok tt
      → topic (writer.write_messages ctx messages s).1 ≡ topic s ++ messages

-- The message carries the event: its source as the key, its receipt as the time, and a value that
-- decodes to it.
pub record Carries (codec : Codec) (m : Message) (e : Event) : Type 0 where
  pub key_eq : m.key ≡ e.source
  pub time_eq : m.time ≡ e.received_at
  pub decodes : codec.unmarshal m.value ≡ some e

abbrev pub CarryAll : Codec → List Message → List Event → Type 0
CarryAll codec [] [] = Unit
CarryAll codec (m ∷ ms) (e ∷ es) = Carries codec m e × CarryAll codec ms es
CarryAll codec _ _ = ⊥

module _ (codec : Codec) (json : IsJson codec) where
  pub to_messages-CarryAll :
      (events : List Event) (messages : List Message)
      → All IsUtf8 events
      → to_messages codec events ≡ ok messages
      → CarryAll codec messages events
  unfolding to_messages
  to_messages-CarryAll [] [] v h = tt
  to_messages-CarryAll [] (m ∷ ms) v h = cc
  to_messages-CarryAll (e ∷ es) messages v h = elim (Option-cases (codec.marshal e)) [
    | inl p ↦ absurd (grind arith)
    | inr (value, p) ↦ elim (Result-cases (to_messages codec es)) [
      | inl (ms, q) ↦ rw (eq p q) (
        (record { key_eq = refl; time_eq = refl; decodes = json.decodes e value v.0 p }),
        to_messages-CarryAll es ms v.1 q,
      )
      | inr (x, q) ↦ absurd (grind arith)
    ]
  ]
    where
      eq :
          {value : Text} {ms : List Message}
          → codec.marshal e ≡ some value
          → to_messages codec es ≡ ok ms
          → messages ≡ record { key = e.source; value = value; time = e.received_at } ∷ ms
      eq p q = ground arith

  -- With JSON as documented and a writer that appends what it reports as written, a batch of UTF-8
  -- texts that is published without error is appended to the topic as one message for each event,
  -- in order, keyed by the event's source and decoding to the event.
  pub publish-CarryAll :
      {S : Type 0} (writer : MessageWriter S) (topic : S → List Message)
      → Appends writer topic
      → (ctx : Context) (events : List Event) (s : S) → All IsUtf8 events
      → (publish codec writer ctx events s).0 ≡ ok tt
      → (messages : List Message) × (topic (publish codec writer ctx events s).1
          ≡ topic s ++ messages)
        × CarryAll codec messages events
  unfolding publish
  publish-CarryAll writer topic a ctx events s v h =
      elim (Result-cases (to_messages codec events)) [
        | inl (messages, q) ↦ (
          messages,
          rw (q, publish) (a.appends ctx messages s (rw (q, publish) at h)),
          to_messages-CarryAll events messages v q,
        )
        | inr (x, q) ↦ absurd (ground arith)
      ]

not_empty : (s : Text) → is_empty s ≡ false → s ≢ []
not_empty [] h e = cc
not_empty (c ∷ s) h e = cc

keep_brokers-trimmed :
    (parts : List Text) → All (λ b. (b ≢ []) × (trim_space b ≡ b)) (keep_brokers parts)
unfolding keep_brokers
keep_brokers-trimmed [] = tt
keep_brokers-trimmed (part ∷ parts) = elim (Bool-cases (is_empty (trim_space part))) [
  | inl e ↦ rw e (keep_brokers-trimmed parts)
  | inr e ↦ rw e ((not_empty _ e, trim_space_idem part), keep_brokers-trimmed parts)
]

-- Every broker of a list is trimmed and not empty.
pub split_brokers-trimmed :
    (text : Text) → All (λ b. (b ≢ []) × (trim_space b ≡ b)) (split_brokers text)
unfolding split_brokers
split_brokers-trimmed text = keep_brokers-trimmed (split b',' text)
