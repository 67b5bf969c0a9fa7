-- ===== src/Generator/Pace/Returns.antt =====
-- A client of the generator keeps its pace, and returns at the end of its time (cmd/log-generator/main.go).
use log_service.Prelude.{
  ℕ, zero, suc, ◌+◌, ◌-◌, ◌*◌, ◌≤◌, ◌≡◌, inl, inr, refl, Bool, true, false, List, Option, none,
  some, ltb, leb, ◌&&◌, ◌||◌, ◌==◌, arith, if_both, Bool-cases,
}
use log_service.Prelude.Clock.{Time, second}
use log_service.Prelude.Int.{ℤ}
use log_service.Prelude.Text.{Text}
use log_service.Generator.{
  backoff, Stats, Outcome, ended, lost, answered, Target, count_retry, observe_latency, after,
  attempts, post_encoded, send_batch, make_records,
}
use log_service.Generator.Pace.{
  Timer, Plan, Client, min_interval, interval_of, burst_of, send_one, send_burst, rest, turn, next,
  run_client,
}

-- What the client relies on: the clock does not go back, a wait that the context does not end lasts as long as it
-- should, and the context is seen to have ended from its deadline on.
pub record IsClock {S : Type 0} (target : Target S) (timer : Timer S) (deadline : ℕ) : Type 0 where
  pub send_later : (payload : Text) (s : S) → timer.now s ≤ timer.now (target.send payload s).1
  pub sleep_later : (n : ℕ) (s : S) → timer.now s ≤ timer.now (target.sleep n s)
  pub readings_later : (n : ℕ) (s : S) → timer.now s ≤ timer.now (timer.readings n s).1
  pub wait_lasts :
      (n : ℕ) (s : S) → (timer.wait n s).0 ≡ false → timer.now s + n ≤ timer.now (timer.wait n s).1
  pub ends : (s : S) → deadline ≤ timer.now s → timer.is_over s ≡ true

interval-pos : (n : ℤ) → min_interval ≤ interval_of n
unfolding interval_of
interval-pos n = ground arith

module _ {S : Type 0} (target : Target S) (timer : Timer S) (deadline : ℕ)
    (clock : IsClock target timer deadline) where
  abbrev Later : S → Stats × S → Type 0
  Later s out = timer.now s ≤ timer.now out.1

  after-Later :
      (n : ℕ) (u : Stats) (s : S) (out : Option Outcome × S) (again : Stats → S → Stats × S)
      → timer.now s ≤ timer.now out.1
      → ((v : Stats) (w : S) → Later w (again v w))
      → Later s (after target n u out again)
  after-Later n u s (none, w) again h k = h
  after-Later n u s (some ended, w) again h k = h
  after-Later n u s (some lost, w) again h k = omega (arith, h, k u w)
  after-Later n u s (some (answered status accepted latency), w) again h k =
      if_both (Later s) (leb 200 status && ltb status 300) _ _ h (
        if_both (Later s) (leb 500 status || status == 429) _ _
          (omega (arith, h, k (observe_latency latency u) w)) h)

  attempts-Later :
      (left attempt n : ℕ) (payload : Text) (u : Stats) (s : S)
      → Later s (attempts target left attempt n payload u s)
  unfolding attempts
  attempts-Later zero attempt n payload u s = omega arith
  attempts-Later (suc left) attempt n payload u s =
      after-Later n (count_retry attempt u) s (target.send payload s)
        (λ v w. attempts target left (attempt + 1) n payload v (target.sleep (backoff attempt) w))
        (clock.send_later payload s)
        (λ v w. omega (
          arith,
          clock.sleep_later (backoff attempt) w,
          attempts-Later left (attempt + 1) n payload v (target.sleep (backoff attempt) w),
        ))

  send_batch-Later :
      (records : List Text) (t : Stats) (s : S) → Later s (send_batch target records t s)
  unfolding send_batch
  send_batch-Later records t s = posted _ _ (target.encode records)
    where
      posted : (n : ℕ) (u : Stats) (o : Option Text) → Later s (post_encoded target n o u s)
      posted n u none = omega arith
      posted n u (some payload) = attempts-Later 3 0 n payload u s

  module _ {R : Type 0} (intn : ℕ → R → ℕ × R) (format : Time → Text) (plan : Plan) where
    send_one-later :
        (c : Client S R)
        → timer.now c.world ≤ timer.now (send_one target timer intn format plan c).world
    unfolding send_one
    send_one-later c =
        let (times, s) = timer.readings plan.batch_size c.world in
        let (records, r) = make_records intn format times c.rng in
        omega
          (arith, clock.readings_later plan.batch_size c.world, send_batch-Later records c.stats s)

    send_burst-later :
        (n : ℕ) (c : Client S R)
        → timer.now c.world ≤ timer.now (send_burst target timer intn format plan n c).world
    unfolding send_burst
    send_burst-later zero c = omega arith
    send_burst-later (suc n) c =
        omega
          (arith, send_one-later c, send_burst-later n (send_one target timer intn format plan c))

    -- The pace: a client that goes on does so after the time.
    abbrev Paced : ℕ → ℕ → Bool × Client S R → Type 0
    Paced started time out = out.0 ≡ false → started + time ≤ timer.now out.1.world

    rest-Paced :
        (started time : ℕ) (c : Client S R)
        → started ≤ timer.now c.world
        → Paced started time (rest target timer intn format plan started time c)
    rest-Paced started time c h = elim (Bool-cases (ltb (timer.now c.world - started) time)) [
      | inl early ↦ rw early (λ go.
          omega (arith, clock.wait_lasts (time - (timer.now c.world - started)) c.world go, h))
      | inr late ↦ rw late (λ go. ground arith)
    ]

    turn-Paced :
        (c : Client S R)
        → Paced (timer.now c.world) min_interval (turn target timer intn format plan c)
    unfolding turn
    turn-Paced c =
        if_both (Paced (timer.now c.world) min_interval) plan.is_burst _ _
          (λ go. omega (
            arith,
            rest-Paced (timer.now c.world) second
                (send_burst target timer intn format plan (burst_of plan.batches) c)
                (send_burst-later (burst_of plan.batches) c) go,
          ))
          (λ go. omega (
            arith,
            interval-pos plan.batch_interval,
            rest-Paced (timer.now c.world) (interval_of plan.batch_interval)
                (send_one target timer intn format plan c) (send_one-later c) go,
          ))

    -- Over a clock and a context as `IsClock` says: a client that starts at most so many times 10 milliseconds before the
    -- deadline returns within as many turns, and one, whatever its requests do, in steady or in burst mode.
    pub run_client-returns :
        (turns : ℕ) (c : Client S R)
        → deadline ≤ timer.now c.world + turns * min_interval
        → (d : Client S R) × (run_client target timer intn format plan (suc turns) c ≡ some d)
    unfolding run_client
    run_client-returns zero c h = (c, rw (clock.ends c.world (omega (arith, h))) refl)
    run_client-returns (suc turns) c h = elim (Bool-cases (timer.is_over c.world)) [
      | inl over ↦ (c, rw over refl)
      | inr not_over ↦ rw not_over (
          goes_on turns (turn target timer intn format plan c) (turn-Paced c) h
            (run_client-returns turns))
    ]
      where
        goes_on :
            (m : ℕ) (out : Bool × Client S R)
            → Paced (timer.now c.world) min_interval out
            → deadline ≤ timer.now c.world + suc m * min_interval
            → ((e : Client S R)
                → deadline ≤ timer.now e.world + m * min_interval
                → (d : Client S R) × (run_client target timer intn format plan (suc m) e ≡ some d))
            → (d : Client S R) × (next target timer intn format plan
                  (run_client target timer intn format plan (suc m))
                  out
                ≡ some d)
        goes_on m (true, e) paced h go = (e, refl)
        goes_on m (false, e) paced h go = go e (omega (arith, h, paced refl))
