-- ===== src/Generator.antt =====
-- cmd/log-generator/main.go: the client that makes log lines and posts them in batches. The random
-- source, the JSON encoder, the format of a time and the HTTP client are parameters; floating point numbers are left out.
pub mod Lines
pub mod Batches
pub mod Pace
pub mod Clients
use log_service.Prelude.{
  ℕ, zero, suc, ◌+◌, ◌-◌, ◌*◌, ◌/◌, Bool, true, false, List, [], ◌∷◌, ◌++◌, Option, none, some,
  length, get_elem?, ltb, leb, ◌&&◌, ◌||◌, ◌==◌, if◌then◌else◌,
}
use log_service.Prelude.Clock.{Time, utc}
use log_service.Prelude.Int.{ℤ, pos, pos_part, ltb_ℤ, add64, int64_of}
use log_service.Prelude.Text.{Text, codes, decimal}
use log_service.Prelude.Sorting.{sort}

-- stats: the counters are 64-bit patterns.
pub record Stats : Type 0 where
  pub generated : ℕ
  pub sent : ℕ
  pub accepted : ℕ
  pub failed_requests : ℕ
  pub retries : ℕ
  pub latencies : List ℕ

-- main makes a number of clients, records per second or records per request that is below 1 to 1.
unfoldable pub at_least_one : ℤ → ℤ
at_least_one n = if ltb_ℤ n (pos 1) then pos 1 else n

-- backoff, in nanoseconds
unfoldable pub backoff : ℕ → ℕ
backoff attempt = (attempt + 1) * 200_000_000

abbrev pub methods : List Text
methods = codes "GET" ∷ codes "POST" ∷ codes "PUT" ∷ codes "PATCH" ∷ codes "DELETE" ∷ []

abbrev pub paths : List Text
paths =
    codes "/"
    ∷ codes "/login"
    ∷ codes "/logout"
    ∷ codes "/payment"
    ∷ codes "/checkout"
    ∷ codes "/search"
    ∷ codes "/profile"
    ∷ codes "/api/orders"
    ∷ codes "/api/items"
    ∷ []

abbrev pub statuses : List ℕ
statuses = 200 ∷ 200 ∷ 200 ∷ 201 ∷ 204 ∷ 301 ∷ 400 ∷ 401 ∷ 403 ∷ 404 ∷ 429 ∷ 500 ∷ 502 ∷ 503 ∷ []

-- An element by its index; one out of range, where Go panics, gives the fallback.
unfoldable pub pick : {A : Type 0} → List A → ℕ → A → A
pick [] n fallback = fallback
pick (x ∷ xs) zero fallback = x
pick (x ∷ xs) (suc n) fallback = pick xs n fallback

abbrev pub address : ℕ → ℕ → ℕ → Text
address a b c = codes "10." ++ (decimal a ++ (b'.' ∷ (decimal b ++ (b'.' ∷ decimal c))))

-- `rng.Intn` and its state
module _ {R : Type 0} (intn : ℕ → R → ℕ × R) (format : Time → Text) where
  -- makeLogLine, at a time
  unfoldable pub make_log_line : Time → R → Text × R
  unfolding decimal pick
  make_log_line at r0 =
      let (a, r1) = intn 32 r0 in
      let (b, r2) = intn 255 r1 in
      let (c, r3) = intn 255 r2 in
      let (m, r4) = intn (length methods) r3 in
      let (p, r5) = intn (length paths) r4 in
      let (n, r6) = intn (length statuses) r5 in
      (
        format (utc at)
            ++ (b' '
                ∷ (address a b c
                    ++ (b' '
                        ∷ (pick methods m []
                            ++ (b' '
                                ∷ (pick paths p [] ++ (b' ' ∷ decimal (pick statuses n 0)))))))),
        r6,
      )

  -- The first loop of sendBatch, with the times at which the lines are made
  unfoldable pub make_records : List Time → R → List Text × R
  unfolding make_log_line
  make_records [] r = ([], r)
  make_records (at ∷ times) r =
      let (line, r1) = make_log_line at r in
      let (lines, r2) = make_records times r1 in (line ∷ lines, r2)

-- How a request ends: it is not sent, before or after the end of the context, or it is answered with a
-- status and a number of accepted records, after some time.
pub data Outcome : Type 0 where
  ended lost : Outcome
  answered : ℕ → ℤ → ℕ → Outcome

-- What sendBatch stands on: the JSON text of the records, the sending of a request (`none` is a request that
-- cannot be made), and a sleep of so many nanoseconds.
pub record Target (S : Type 0) : Type 0 where
  pub encode : List Text → Option Text
  pub send : Text → S → Option Outcome × S
  pub sleep : ℕ → S → S

abbrev pub count_failed : Stats → Stats
count_failed t = record t { failed_requests = add64 t.failed_requests 1 }

abbrev pub count_retry : ℕ → Stats → Stats
count_retry zero t = t
count_retry (suc n) t = record t { retries = add64 t.retries 1 }

abbrev pub observe_latency : ℕ → Stats → Stats
observe_latency n t = record t { latencies = t.latencies ++ (n ∷ []) }

abbrev pub count_accepted : ℕ → ℤ → Stats → Stats
count_accepted n accepted t = record t {
  sent = add64 t.sent (int64_of (pos n));
  accepted = add64 t.accepted (int64_of accepted);
}

module _ {S : Type 0} (target : Target S) where
  abbrev pub settle : ℕ → ℕ → ℤ → Stats → S → (Stats → S → Stats × S) → Stats × S
  settle n status accepted t s again =
      if leb 200 status && ltb status 300
      then (count_accepted n accepted t, s)
      else if leb 500 status || status == 429
      then again t s
      else (count_failed t, s)

  abbrev pub after : ℕ → Stats → Option Outcome × S → (Stats → S → Stats × S) → Stats × S
  after n t (none, s) again = (count_failed t, s)
  after n t (some ended, s) again = (t, s)
  after n t (some lost, s) again = again t s
  after n t (some (answered status accepted latency), s) again =
      settle n status accepted (observe_latency latency t) s again

  -- The loop of sendBatch, with the attempts that are left
  unfoldable pub attempts : ℕ → ℕ → ℕ → Text → Stats → S → Stats × S
  unfolding backoff
  attempts zero attempt n payload t s = (count_failed t, s)
  attempts (suc left) attempt n payload t s =
      after n (count_retry attempt t) (target.send payload s)
        (λ u v. attempts left (attempt + 1) n payload u (target.sleep (backoff attempt) v))

  abbrev pub post_encoded : ℕ → Option Text → Stats → S → Stats × S
  post_encoded n none t s = (count_failed t, s)
  post_encoded n (some payload) t s = attempts 3 0 n payload t s

  -- sendBatch, with the records that it has made
  unfoldable pub send_batch : List Text → Stats → S → Stats × S
  unfolding attempts
  send_batch records t s =
      post_encoded (length records) (target.encode records)
        (record t { generated = add64 t.generated (int64_of (pos (length records))) }) s

-- summary, without the rate: the average latency, and the 95th percentile at an index that is computed in
-- floating point from their number.
unfoldable pub total : List ℕ → ℕ
total [] = 0
total (x ∷ xs) = x + total xs

abbrev pub percentile_index : ℤ → ℕ → ℕ
percentile_index idx n = let low : ℕ = pos_part idx in if leb n low then n - 1 else low

unfoldable pub summary : (ℕ → ℤ) → List ℕ → ℕ × ℕ
unfolding total pick
summary scaled [] = (0, 0)
summary scaled (x ∷ xs) =
    let sorted : List ℕ = sort ltb (x ∷ xs) in
    (
      total sorted / length sorted,
      pick sorted (percentile_index (scaled (length sorted)) (length sorted)) 0,
    )
