-- ===== src/Generator/Clients/Counted.antt =====
-- What sendBatch does to the counters is a sequence of atomic operations that does not depend on what they hold
-- (cmd/log-generator/main.go).
use log_service.Prelude.{
  ℕ, zero, suc, ◌+◌, ◌≡◌, inl, inr, refl, List, [], ◌∷◌, Option, none, some, length, leb, ltb, ◌&&◌,
  ◌||◌, ◌==◌, Bool-cases,
}
use log_service.Prelude.Int.{ℤ}
use log_service.Prelude.Text.{Text}
use log_service.Generator.{
  backoff, Stats, Outcome, ended, lost, answered, Target, count_retry, observe_latency, settle,
  after, attempts, post_encoded, send_batch,
}
use log_service.Generator.Clients.{
  Update, generated, sent, accepted, failed, retried, took, apply, apply_all,
}

module _ {S : Type 0} (target : Target S) where
  -- The counters change by some operations, whatever they hold, and the world does not depend on them.
  abbrev pub Counts : (Stats → Stats × S) → Type 0
  Counts f = (us : List Update) × (s : S) × ((t : Stats) → f t ≡ (apply_all us t, s))

  settle-Counts :
      (n status : ℕ) (a : ℤ) (s : S) (again : Stats → S → Stats × S)
      → Counts (λ t. again t s)
      → Counts (λ t. settle target n status a t s again)
  unfolding apply_all
  settle-Counts n status a s again (us, v, k) =
      elim (Bool-cases (leb 200 status && ltb status 300)) [
        | inl taken ↦ (sent n ∷ accepted a ∷ [], s, λ t. rw taken refl)
        | inr refused ↦ elim (Bool-cases (leb 500 status || status == 429)) [
          | inl busy ↦ (us, v, λ t. rw (refused, busy) (k t))
          | inr final ↦ (failed ∷ [], s, λ t. rw (refused, final) refl)
        ]
      ]

  after-Counts :
      (n : ℕ) (out : Option Outcome × S) (again : Stats → S → Stats × S)
      → ((s : S) → Counts (λ t. again t s))
      → Counts (λ t. after target n t out again)
  unfolding apply_all
  after-Counts n (none, s) again k = (failed ∷ [], s, λ t. refl)
  after-Counts n (some ended, s) again k = ([], s, λ t. refl)
  after-Counts n (some lost, s) again k = k s
  after-Counts n (some (answered status a latency), s) again k =
      let (us, v, h) = settle-Counts n status a s again (k s) in
      (took latency ∷ us, v, λ t. h (observe_latency latency t))

  retry-Counts :
      (attempt : ℕ) (f : Stats → Stats × S) → Counts f → Counts (λ t. f (count_retry attempt t))
  unfolding apply_all
  retry-Counts zero f h = h
  retry-Counts (suc n) f (us, v, h) = (retried ∷ us, v, λ t. h (count_retry (suc n) t))

  attempts-Counts :
      (left attempt n : ℕ) (payload : Text) (s : S)
      → Counts (λ t. attempts target left attempt n payload t s)
  unfolding attempts apply_all
  attempts-Counts zero attempt n payload s = (failed ∷ [], s, λ t. refl)
  attempts-Counts (suc left) attempt n payload s =
      retry-Counts attempt
        (λ t. after target n t (target.send payload s) (λ u v.
          attempts target left (attempt + 1) n payload u (target.sleep (backoff attempt) v)))
        (after-Counts n (target.send payload s) _
          (λ v. attempts-Counts left (attempt + 1) n payload (target.sleep (backoff attempt) v)))

  -- What the posting of a batch does to the counters is a sequence of atomic operations, the same whatever
  -- the counters hold.
  pub send_batch-Counts :
      (records : List Text) (s : S) → Counts (λ t. send_batch target records t s)
  unfolding send_batch apply_all
  send_batch-Counts records s =
      let (us, v, h) = posted (target.encode records) in
      (generated (length records) ∷ us, v, λ t. h (apply (generated (length records)) t))
    where
      posted : (o : Option Text) → Counts (λ t. post_encoded target (length records) o t s)
      posted none = (failed ∷ [], s, λ t. refl)
      posted (some payload) = attempts-Counts 3 0 (length records) payload s
