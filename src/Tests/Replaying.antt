-- ===== src/Tests/Replaying.antt =====
-- A replay pass over concrete spools.
use log_service.Prelude.{
  ℕ, ◌≡◌, ◌≤◌, ◌⊎◌, refl, true, false, none, some, List, [], ◌∷◌, ◌++◌, ok, All, zero, suc, arith,
}
use log_service.Prelude.Clock.{Context}
use log_service.Prelude.Text.{Text, byte_len, text_eq, has_suffix}
use log_service.LogEvent.{Event}
use log_service.Publisher.{Publisher, IsLog}
use log_service.Spool.Dir.{File, read, is_batch, has_slash}
use log_service.Spool.Lines.{
  max_token, newline, lines, drop_cr, marshal_json_lines, read_lines, read_file,
}
use log_service.Spool.Replayer.{ReplayCalls, replay}
use log_service.Spool.Replayer.NoLoss.{Sent, replay_no_loss}
use log_service.Spool.Replayer.Drains.{NoFailure, replay-drains}
use log_service.Spool.Replayer.Stuck.{replay_stuck}
use log_service.Tests.Samples.{event, codec, codec_of, codec_of-IsJson, marshal-event}
use log_service.Tests.Spooling.{name, payload}

abbrev ctx : Context
ctx = record { ends = none }

-- A log that takes every batch.
abbrev publisher : Publisher (List Event)
publisher = record { publish = λ c events s. (ok tt, s ++ events) }

publisher-IsLog : IsLog publisher (λ s. s)
publisher-IsLog = record { appends = λ c events s h. refl; extends = λ c events s. (events, refl) }

-- The removal of a file fails.
abbrev sys : ReplayCalls
sys = record { glob_fails = false; read_fails = λ p. false; remove_fails = λ p. true }

read_payload : read_file codec payload ≡ ok (event ∷ [])
unfolding read_file read_lines lines drop_cr byte_len
read_payload = refl

abbrev spool_with : Text → List File
spool_with content = record { path = name; content = content } ∷ []

read_spool : (content : Text) → read name (spool_with content) ≡ some content
unfolding read text_eq
read_spool content = refl

replay_no_loss_example :
    (read name (replay codec sys ctx publisher [] (spool_with payload)).files ≡ some payload)
    ⊎ Sent [] (event ∷ []) (replay codec sys ctx publisher [] (spool_with payload)).kafka
replay_no_loss_example =
    replay_no_loss codec sys ctx publisher (λ s. s) publisher-IsLog name payload (event ∷ []) []
      (spool_with payload) read_payload (read_spool payload)

abbrev letters : ℕ → Text
letters zero = []
letters (suc n) = b'a' ∷ letters n

letters-control : (n : ℕ) → All (λ c. 32 ≤ c) (letters n)
letters-control zero = tt
letters-control (suc n) = (omega arith, letters-control n)

byte_len-letters : (n : ℕ) → byte_len (letters n) ≡ n
unfolding byte_len
byte_len-letters zero = refl
byte_len-letters (suc n) = omega (arith, byte_len-letters n)

-- A line as long as the scanner's buffer.
unfoldable long_line : Text
long_line = letters max_token

long_line-control : All (λ c. 32 ≤ c) long_line
unfolding long_line
long_line-control = letters-control max_token

long_line_fills : max_token ≤ byte_len long_line
unfolding long_line
long_line_fills = omega (arith, byte_len-letters max_token)

marshal_long :
    marshal_json_lines (codec_of long_line) (event ∷ []) ≡ ok (long_line ++ (newline ∷ []))
unfolding marshal_json_lines
marshal_long = rw (marshal-event long_line) refl

replay_stuck_example :
    read name
      (replay
        (codec_of long_line)
        sys
        ctx
        publisher
        []
        (spool_with (long_line ++ (newline ∷ [])))).files
    ≡ some (long_line ++ (newline ∷ []))
replay_stuck_example =
    replay_stuck (codec_of long_line) sys ctx publisher
      (codec_of-IsJson long_line long_line-control) [] event [] long_line
      (long_line ++ (newline ∷ [])) name (marshal-event long_line) long_line_fills marshal_long []
      (spool_with (long_line ++ (newline ∷ []))) (read_spool (long_line ++ (newline ∷ [])))

-- No call fails.
abbrev calm : ReplayCalls
calm = record { glob_fails = false; read_fails = λ p. false; remove_fails = λ p. false }

calm-NoFailure : NoFailure calm
calm-NoFailure = record { globs = refl; reads = λ q. refl; removes = λ q. refl }

name-is_batch : is_batch name ≡ true
unfolding is_batch has_slash has_suffix text_eq
name-is_batch = refl

replay-drains_example :
    ((replay codec calm ctx publisher [] (spool_with payload)).stopped ≡ none)
    × (read name (replay codec calm ctx publisher [] (spool_with payload)).files ≡ none)
replay-drains_example =
    replay-drains codec calm ctx publisher calm-NoFailure (λ events s. refl) name payload
      (event ∷ []) read_payload [] (spool_with payload) name-is_batch (read_spool payload)
