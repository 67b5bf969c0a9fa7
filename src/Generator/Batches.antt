-- ===== src/Generator/Batches.antt =====
-- How the posting of a batch ends (cmd/log-generator/main.go).
use log_service.Prelude.{
  sym, ℕ, zero, suc, ◌+◌, ◌≤◌, ◌≡◌, ◌⊎◌, inl, inr, refl, List, Option, none, some, length, leb, ltb,
  ◌&&◌, ◌||◌, ◌==◌, arith, if_both,
}
use log_service.Prelude.Int.{ℤ, pos, add64, int64_of}
use log_service.Prelude.Text.{Text}
use log_service.Generator.{
  backoff, Stats, Outcome, ended, lost, answered, Target, count_retry, count_failed,
  observe_latency, settle, after, attempts, post_encoded, send_batch,
}

module _ {S : Type 0} (target : Target S) where
  -- The batch was accepted and counted as sent, or it was counted as failed, or the context had ended when
  -- a request failed.
  abbrev pub Ends : ℕ → Stats → Stats → Type 0
  Ends n t u =
      ((u.sent ≡ add64 t.sent (int64_of (pos n))) × (u.failed_requests ≡ t.failed_requests))
      ⊎ (((u.sent ≡ t.sent) × (u.failed_requests ≡ add64 t.failed_requests 1))
          ⊎ ((u.sent ≡ t.sent)
              × (u.failed_requests ≡ t.failed_requests)
              × ((payload : Text) × (s : S) × ((target.send payload s).0 ≡ some ended))))

  -- The counters that `Ends` speaks of are as they were.
  abbrev Same : Stats → Stats → Type 0
  Same t u = (u.sent ≡ t.sent) × (u.failed_requests ≡ t.failed_requests)

  abbrev made : List Text → Stats → Stats
  made records t = record t { generated = add64 t.generated (int64_of (pos (length records))) }

  failed-Ends : (n : ℕ) (t u : Stats) → Same t u → Ends n t (count_failed u)
  failed-Ends n t u (p, q) = inr (inl (p, rw q refl))

  settle-Ends :
      (n status : ℕ) (accepted : ℤ) (t u : Stats) (s : S) (again : Stats → S → Stats × S)
      → Same t u
      → ((v : Stats) (s : S) → Same t v → Ends n t (again v s).0)
      → Ends n t (settle target n status accepted u s again).0
  settle-Ends n status accepted t u s again (p, q) k =
      if_both (λ (out : Stats × S). Ends n t out.0) (leb 200 status && ltb status 300) _ _
        (inl (rw p refl, q))
        (if_both (λ (out : Stats × S). Ends n t out.0) (leb 500 status || status == 429) _ _
          (k u s (p, q)) (failed-Ends n t u (p, q)))

  after-Ends :
      (n : ℕ) (t u : Stats) (payload : Text) (s : S) (out : Option Outcome × S)
      (again : Stats → S → Stats × S)
      → (target.send payload s).0 ≡ out.0
      → Same t u
      → ((v : Stats) (s : S) → Same t v → Ends n t (again v s).0)
      → Ends n t (after target n u out again).0
  after-Ends n t u payload s (none, v) again e h k = failed-Ends n t u h
  after-Ends n t u payload s (some ended, v) again e (p, q) k = inr (inr (p, q, (payload, s, e)))
  after-Ends n t u payload s (some lost, v) again e h k = k u v h
  after-Ends n t u payload s (some (answered status accepted latency), v) again e h k =
      settle-Ends n status accepted t (observe_latency latency u) v again h k

  retry-Same : (attempt : ℕ) (t u : Stats) → Same t u → Same t (count_retry attempt u)
  retry-Same zero t u h = h
  retry-Same (suc n) t u h = h

  attempts-Ends :
      (left attempt n : ℕ) (payload : Text) (t u : Stats) (s : S)
      → Same t u
      → Ends n t (attempts target left attempt n payload u s).0
  unfolding attempts
  attempts-Ends zero attempt n payload t u s h = failed-Ends n t u h
  attempts-Ends (suc left) attempt n payload t u s h =
      after-Ends n t (count_retry attempt u) payload s (target.send payload s)
        (λ v w. attempts target left (attempt + 1) n payload v (target.sleep (backoff attempt) w))
        refl (retry-Same attempt t u h)
        (λ v w k.
          attempts-Ends left (attempt + 1) n payload t v (target.sleep (backoff attempt) w) k)

  module _ (calls : S → ℕ)
      (counted : (payload : Text) (s : S) → calls (target.send payload s).1 ≡ calls s + 1)
      (rests : (n : ℕ) (s : S) → calls (target.sleep n s) ≡ calls s) where
    after-calls :
        (n left c : ℕ) (u : Stats) (out : Option Outcome × S) (again : Stats → S → Stats × S)
        → calls out.1 ≡ c + 1
        → ((v : Stats) (s : S) → calls (again v s).1 ≤ calls s + left)
        → calls (after target n u out again).1 ≤ c + suc left
    after-calls n left c u (none, s) again h k = omega arith
    after-calls n left c u (some ended, s) again h k = omega arith
    after-calls n left c u (some lost, s) again h k = omega (arith, k u s)
    after-calls n left c u (some (answered status accepted latency), s) again h k =
        if_both (λ (out : Stats × S). calls out.1 ≤ c + suc left) (leb 200 status && ltb status 300)
          _ _ (omega arith)
          (if_both (λ (out : Stats × S). calls out.1 ≤ c + suc left)
            (leb 500 status || status == 429) _ _ (omega (arith, k (observe_latency latency u) s))
            (omega arith))

    attempts-calls :
        (left attempt n : ℕ) (payload : Text) (u : Stats) (s : S)
        → calls (attempts target left attempt n payload u s).1 ≤ calls s + left
    unfolding attempts
    attempts-calls zero attempt n payload u s = omega arith
    attempts-calls (suc left) attempt n payload u s =
        after-calls n left (calls s) (count_retry attempt u) (target.send payload s)
          (λ v w. attempts target left (attempt + 1) n payload v (target.sleep (backoff attempt) w))
          (counted payload s)
          (λ v w.
            rw (sym (rests (backoff attempt) w))
              (attempts-calls left (attempt + 1) n payload v (target.sleep (backoff attempt) w)))

    -- If the world counts the requests, and a sleep makes none: the posting of a batch ends after at most three of them, and it is
    -- counted once, its records as sent or itself as failed, unless a request failed after the end of the
    -- context; then neither count changes.
    pub send_batch-Ends :
        (records : List Text) (t : Stats) (s : S)
        → (calls (send_batch target records t s).1 ≤ calls s + 3)
          × Ends (length records) t (send_batch target records t s).0
    unfolding send_batch
    send_batch-Ends records t s = posted (target.encode records)
      where
        posted :
            (payload : Option Text)
            → (calls (post_encoded target (length records) payload (made records t) s).1
                ≤ calls s + 3)
              × Ends
                  (length records)
                  t
                  (post_encoded target (length records) payload (made records t) s).0
        posted none = (omega arith, failed-Ends (length records) t (made records t) (refl, refl))
        posted (some payload) = (
          attempts-calls 3 0 (length records) payload (made records t) s,
          attempts-Ends 3 0 (length records) payload t (made records t) s (refl, refl),
        )
