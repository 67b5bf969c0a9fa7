-- ===== src/Generator/Clients/Turns.antt =====
-- What a client of the generator does until it returns does not depend on the counters (cmd/log-generator/main.go).
use log_service.Prelude.{
  ℕ, zero, suc, ◌≡◌, inl, inr, refl, Bool, true, false, List, [], ◌∷◌, ◌++◌, some, ltb, ◌-◌,
  if◌then◌else◌, Bool-cases,
}
use log_service.Prelude.Clock.{Time, second}
use log_service.Prelude.Text.{Text}
use log_service.Generator.{Stats, Target, make_records}
use log_service.Generator.Pace.{
  Timer, Plan, Client, interval_of, burst_of, send_one, send_burst, rest, turn, next, run_client,
}
use log_service.Generator.Clients.{Update, apply, apply_all, Does}
use log_service.Generator.Clients.Counted.{send_batch-Counts}

apply_all-++ :
    (us vs : List Update) (t : Stats) → apply_all (us ++ vs) t ≡ apply_all vs (apply_all us t)
unfolding apply_all
apply_all-++ [] vs t = refl
apply_all-++ (u ∷ us) vs t = apply_all-++ us vs (apply u t)

module _ {S R : Type 0} (target : Target S) (timer : Timer S) (intn : ℕ → R → ℕ × R)
    (format : Time → Text) (plan : Plan) where
  abbrev client : S → R → Stats → Client S R
  client s r t = record { world = s; rng = r; stats = t }

  -- The counters change by some operations, whatever they hold, and the rest of the client does not depend on them.
  abbrev Moves : (Stats → Client S R) → Type 0
  Moves f =
      (us : List Update) × (s : S) × (r : R) × ((t : Stats) → f t ≡ client s r (apply_all us t))

  abbrev Turns : (Stats → Bool × Client S R) → Type 0
  Turns f =
      (b : Bool) × (us : List Update) × (s : S) × (r : R) × ((t : Stats)
        → f t ≡ (b, client s r (apply_all us t)))

  send_one-Moves :
      (s : S) (r : R) → Moves (λ t. send_one target timer intn format plan (client s r t))
  unfolding send_one
  send_one-Moves s r =
      let (times, s1) = timer.readings plan.batch_size s in
      let (records, r1) = make_records intn format times r in
      let (us, v, h) = send_batch-Counts target records s1 in (us, v, r1, λ t. rw (h t) refl)

  send_burst-Moves :
      (n : ℕ) (s : S) (r : R)
      → Moves (λ t. send_burst target timer intn format plan n (client s r t))
  unfolding send_burst apply_all
  send_burst-Moves zero s r = ([], s, r, λ t. refl)
  send_burst-Moves (suc n) s r =
      let (us, s1, r1, h) = send_one-Moves s r in
      let (vs, s2, r2, k) = send_burst-Moves n s1 r1 in
      (us ++ vs, s2, r2, λ t. rw (h t, k (apply_all us t), apply_all-++ us vs t) refl)

  rest-Turns :
      (started time : ℕ) (f : Stats → Client S R)
      → Moves f
      → Turns (λ t. rest target timer intn format plan started time (f t))
  rest-Turns started time f (us, s, r, h) = elim (Bool-cases (ltb (timer.now s - started) time)) [
    | inl early ↦
        let (over, v) = timer.wait (time - (timer.now s - started)) s in
        (over, us, v, r, λ t. rw (h t, early) refl)
    | inr late ↦ (false, us, s, r, λ t. rw (h t, late) refl)
  ]

  either-Turns :
      (b : Bool) (f g : Stats → Bool × Client S R)
      → Turns f
      → Turns g
      → Turns (λ t. if b then f t else g t)
  either-Turns true f g h k = h
  either-Turns false f g h k = k

  turn-Turns : (s : S) (r : R) → Turns (λ t. turn target timer intn format plan (client s r t))
  unfolding turn
  turn-Turns s r =
      either-Turns plan.is_burst _ _
        (rest-Turns (timer.now s) second _ (send_burst-Moves (burst_of plan.batches) s r))
        (rest-Turns (timer.now s) (interval_of plan.batch_interval) _ (send_one-Moves s r))

  -- A client that returns does the same to the counters whatever they hold.
  pub run_client-Does :
      (fuel : ℕ) (s : S) (r : R) (u : Stats) (d : Client S R)
      → run_client target timer intn format plan fuel (client s r u) ≡ some d
      → (us : List Update) × (Does target timer intn format plan fuel (client s r u) us)
  unfolding run_client apply_all
  run_client-Does zero s r u d e = absurd cc
  run_client-Does (suc fuel) s r u d e = elim (Bool-cases (timer.is_over s)) [
    | inl over ↦ ([], (s, r, λ t. rw over refl))
    | inr early ↦
        let (b, us, v, q, h) = turn-Turns s r in
        let (ws, (x, y, k)) =
          goes_on b us v q (λ x y w k. run_client-Does fuel x y w d k) (rw (early, h u) at e) in
        (ws, (x, y, λ t. rw (early, h t) (k t)))
  ]
    where
      goes_on :
          (b : Bool) (us : List Update) (v : S) (q : R)
          → ((x : S) (y : R) (w : Stats)
              → run_client target timer intn format plan fuel (client x y w) ≡ some d
              → (ws : List Update) × (Does target timer intn format plan fuel (client x y w) ws))
          → next target timer intn format plan
              (run_client target timer intn format plan fuel)
              (b, client v q (apply_all us u))
            ≡ some d
          → (ws : List Update) × ((x : S) × (y : R) × ((t : Stats)
                → next target timer intn format plan
                    (run_client target timer intn format plan fuel)
                    (b, client v q (apply_all us t))
                  ≡ some (client x y (apply_all ws t))))
      goes_on true us v q again e = (us, (v, q, λ t. refl))
      goes_on false us v q again e =
          let (ws, (x, y, k)) = again v q (apply_all us u) e in
          (us ++ ws, (x, y, λ t. rw (k (apply_all us t), apply_all-++ us ws t) refl))
