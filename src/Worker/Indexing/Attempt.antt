-- ===== src/Worker/Indexing/Attempt.antt =====
-- Where each event of a batch is after one attempt to index it (internal/worker/service.go).
use log_service.Prelude.{
  ℕ, ◌≡◌, ◌≢◌, ◌⊎◌, inl, inr, refl, sym, ap, length, List, [], ◌∷◌, map, Option, none, some, Result,
  ok, err, if_both, ltb, arith,
}
use log_service.Prelude.Clock.{Context}
use log_service.Prelude.Int.{ℤ}
use log_service.Prelude.Text.{Text}
use log_service.LogEvent.{Event}
use log_service.Storage.{BulkResult, BulkError, DocumentFailure}
use log_service.Storage.Accounted.{In}
use log_service.Worker.Indexing.{
  DlqMessage, Fetched, IndexError, Service, Worker, Verdict, ended, again, send_dlq,
  failure_message, send_failures, unless_failed, dead_lettered, send_permanent_failures, judge,
  judged, answered, attempt_once, update_replay_backlog, tell, tell_indexed,
}

-- What an attempt to index relies on, for a notion of an event that is safe: no call makes a safe event
-- unsafe; a bulk request settles each of its events, or fails and returns none to be tried again; a
-- dead letter that is written makes its event safe.
pub record Lands {S : Type 0} (svc : Service S) (ctx : Context) (safe : Event → S → Type 0)
    : Type 0 where
  pub bulk_keeps :
      (events : List Event) (s : S) (e : Event) → safe e s → safe e (svc.bulk_index ctx events s).1
  pub bulk_settles :
      (events : List Event) (s : S) (e : Event)
      → In e events
      → (safe e (svc.bulk_index ctx events s).1
          ⊎ (In e (svc.bulk_index ctx events s).0.0.retryable
              ⊎ In e (map (λ f. f.event) (svc.bulk_index ctx events s).0.0.permanent)))
        ⊎ (((svc.bulk_index ctx events s).0.1 ≢ none)
            × ((svc.bulk_index ctx events s).0.0.retryable ≡ []))
  pub dlq_keeps : (m : DlqMessage) (s : S) (e : Event) → safe e s → safe e (send_dlq svc ctx m s).1
  pub dlq_takes :
      (m : DlqMessage) (s : S) (e : Event)
      → m.event ≡ some e
      → (send_dlq svc ctx m s).0 ≡ ok tt
      → safe e (send_dlq svc ctx m s).1

-- What the worker relies on, for a notion of an event that is safe (indexed, in the dead letter queue or
-- in the replay directory): an attempt to index relies on as much as above, a replay file makes its
-- events safe, and no call makes a safe event unsafe.
pub record Keeps {S : Type 0} (svc : Service S) (ctx : Context) (safe : Event → S → Type 0)
    : Type 0 where
  pub lands : Lands svc ctx safe
  pub replay_keeps :
      (events : List Event) (s : S) (e : Event) → safe e s → safe e (svc.write_replay events s).1
  pub replay_takes :
      (events : List Event) (s : S) (e : Event)
      → In e events
      → (svc.write_replay events s).0 ≡ ok tt
      → safe e (svc.write_replay events s).1
  pub commit_keeps :
      (messages : List Fetched) (s : S) (e : Event)
      → safe e s
      → safe e (svc.commit ctx messages s).1
  pub wait_keeps : (t : ℤ) (s : S) (e : Event) → safe e s → safe e (svc.wait ctx t s).1

module _ {S : Type 0} where
  pub world-tell :
      (n : ℕ) (x : Option BulkError) (w : Worker S) → (tell_indexed n (tell x w)).world ≡ w.world
  world-tell n none w = if_both (λ (v : Worker S). v.world ≡ w.world) (ltb 0 n) _ _ refl refl
  world-tell n (some y) w = if_both (λ (v : Worker S). v.world ≡ w.world) (ltb 0 n) _ _ refl refl

module _ {S : Type 0} (svc : Service S) (ctx : Context) where
  pub world-update_replay_backlog :
      (w : Worker S) → (update_replay_backlog svc ctx w).world ≡ w.world
  unfolding update_replay_backlog
  world-update_replay_backlog w = ground arith

module _ {S : Type 0} (svc : Service S) (ctx : Context) (safe : Event → S → Type 0)
    (lands : Lands svc ctx safe) (e : Event) where
  abbrev Sent : List DocumentFailure → S → Result Text (Unit {0}) × S → Type 0
  Sent fs s out = out.0 ≡ ok tt → safe e s ⊎ In e (map (λ f. f.event) fs) → safe e out.1

  send_failures-Sent : (fs : List DocumentFailure) (s : S) → Sent fs s (send_failures svc ctx fs s)
  unfolding send_failures
  send_failures-Sent [] s = none_left
    where
      none_left : Sent [] s (ok tt, s)
      none_left h (inl k) = k
      none_left h (inr k) = absurd k
  send_failures-Sent (f ∷ fs) s =
      next (send_failures-Sent fs) (send_dlq svc ctx (failure_message svc ctx s f) s)
        (lands.dlq_keeps (failure_message svc ctx s f) s e)
        (λ h eq. lands.dlq_takes (failure_message svc ctx s f) s e (ap some (sym eq)) h)
    where
      next :
          ((t : S) → Sent fs t (send_failures svc ctx fs t))
          → (out : Result Text (Unit {0}) × S) → (safe e s → safe e out.1)
          → (out.0 ≡ ok tt → e ≡ f.event → safe e out.1)
          → Sent (f ∷ fs) s (unless_failed svc ctx (send_failures svc ctx fs) out)
      next rest (err x, t) kept taken h k = absurd cc
      next rest (ok u, t) kept taken h (inl k) = rest t h (inl (kept k))
      next rest (ok u, t) kept taken h (inr (inl k)) = rest t h (inl (taken refl k))
      next rest (ok u, t) kept taken h (inr (inr k)) = rest t h (inr k)

  dead_lettered-Safe :
      (n : ℕ) (fs : List DocumentFailure) (w : Worker S) (out : Result Text (Unit {0}) × S)
      → Sent fs w.world out
      → (dead_lettered svc ctx n w out).0 ≡ ok tt
      → safe e w.world ⊎ In e (map (λ f. f.event) fs)
      → safe e (dead_lettered svc ctx n w out).1.world
  dead_lettered-Safe n fs w (err x, t) sent h k = absurd cc
  dead_lettered-Safe n fs w (ok u, t) sent h k = sent refl k

  pub send_permanent_failures-Safe :
      (fs : List DocumentFailure) (w : Worker S)
      → (send_permanent_failures svc ctx fs w).0 ≡ ok tt
      → safe e w.world ⊎ In e (map (λ f. f.event) fs)
      → safe e (send_permanent_failures svc ctx fs w).1.world
  unfolding send_permanent_failures
  send_permanent_failures-Safe [] w h (inl k) = k
  send_permanent_failures-Safe [] w h (inr k) = absurd k
  send_permanent_failures-Safe (f ∷ fs) w h k =
      dead_lettered-Safe (length (f ∷ fs)) (f ∷ fs) w (send_failures svc ctx (f ∷ fs) w.world)
        (send_failures-Sent (f ∷ fs) w.world) h k

module _ {S : Type 0} (svc : Service S) (ctx : Context) (safe : Event → S → Type 0)
    (keeps : Keeps svc ctx safe) (e : Event) where
  -- What an attempt leaves: the event is safe, unless it is to be tried again or the attempt failed.
  abbrev pub Left : Verdict → S → Type 0
  Left (ended r) s = r ≡ ok tt → safe e s
  Left (again pending t) s = safe e s ⊎ In e pending

  judged-Left :
      (v : Verdict) (out : Result IndexError (Unit {0}) × Worker S)
      → (out.0 ≡ ok tt → Left v out.1.world)
      → Left (judged svc ctx v out).0 (judged svc ctx v out).1.world
  judged-Left v (err x, w) k = λ h. cc
  judged-Left v (ok u, w) k = k refl

  -- Where the event may be after a bulk request, once the permanent failures are sent.
  abbrev Open : List Event → List Event → Option BulkError → S → Type 0
  Open pending retryable x s =
      (safe e s ⊎ In e retryable) ⊎ ((x ≢ none) × (retryable ≡ []) × In e pending)

  judge-Left :
      (pending retryable : List Event) (x : Option BulkError) (t : ℤ) (s : S)
      → Open pending retryable x s
      → Left (judge svc ctx pending retryable x t) s
  judge-Left pending (r ∷ rs) x t s (inl k) = k
  judge-Left pending (r ∷ rs) x t s (inr (ne, nil, k)) = absurd cc
  judge-Left pending [] none t s (inl (inl k)) = λ h. k
  judge-Left pending [] none t s (inl (inr k)) = absurd k
  judge-Left pending [] none t s (inr (ne, nil, k)) = absurd (ne refl)
  judge-Left pending [] (some y) t s (inl (inr k)) = absurd k
  judge-Left [] [] (some y) t s (inl (inl k)) = λ h. k
  judge-Left [] [] (some y) t s (inr (ne, nil, k)) = absurd k
  judge-Left (p ∷ ps) [] (some y) t s (inl (inl k)) = inl k
  judge-Left (p ∷ ps) [] (some y) t s (inr (ne, nil, k)) = inr k

  answered-Left :
      (pending : List Event) (w : Worker S) (result : BulkResult) (x : Option BulkError) (s : S)
      → (safe e s ⊎ (In e result.retryable ⊎ In e (map (λ f. f.event) result.permanent)))
        ⊎ ((x ≢ none) × (result.retryable ≡ []) × In e pending)
      → Left
          (answered svc ctx pending w ((result, x), s)).0
          (answered svc ctx pending w ((result, x), s)).1.world
  answered-Left pending w result x s k =
      let told : Worker S = tell_indexed result.indexed (tell x (record w { world = s })) in
      judged-Left (judge svc ctx pending result.retryable x result.retry_after)
        (send_permanent_failures svc ctx result.permanent told)
        (λ h.
          judge-Left pending result.retryable x result.retry_after _
            (open_after told (world-tell result.indexed x (record w { world = s })) h k))
    where
      open_after :
          (told : Worker S)
          → told.world ≡ s
          → (send_permanent_failures svc ctx result.permanent told).0 ≡ ok tt
          → (safe e s ⊎ (In e result.retryable ⊎ In e (map (λ f. f.event) result.permanent)))
            ⊎ ((x ≢ none) × (result.retryable ≡ []) × In e pending)
          → Open pending result.retryable x
              (send_permanent_failures svc ctx result.permanent told).1.world
      open_after told at h (inl (inl k)) = inl (
          inl (
            send_permanent_failures-Safe svc ctx safe keeps.lands e result.permanent told h
              (inl (rw at k))))
      open_after told at h (inl (inr (inl k))) = inl (inr k)
      open_after told at h (inl (inr (inr k))) = inl (
          inl (
            send_permanent_failures-Safe svc ctx safe keeps.lands e result.permanent told h
              (inr k)))
      open_after told at h (inr k) = inr k

  pub attempt_once-Left :
      (pending : List Event) (w : Worker S)
      → safe e w.world ⊎ In e pending
      → Left (attempt_once svc ctx pending w).0 (attempt_once svc ctx pending w).1.world
  unfolding attempt_once
  attempt_once-Left pending w (inl k) =
      answered-Left pending w _ _ _ (inl (inl (keeps.lands.bulk_keeps pending w.world e k)))
  attempt_once-Left pending w (inr k) =
      answered-Left pending w _ _ _ (with_pending (keeps.lands.bulk_settles pending w.world e k))
    where
      with_pending : {A B C : Type 0} → A ⊎ (B × C) → A ⊎ (B × C × In e pending)
      with_pending (inl a) = inl a
      with_pending (inr (b, c)) = inr (b, c, k)
