-- ===== src/Worker/Indexing/Safe.antt =====
-- The worker commits the offsets of a batch only when each of its events is safe
-- (internal/worker/service.go).
use log_service.Prelude.{
  map, ℕ, zero, suc, ◌+◌, ◌≡◌, ◌⊎◌, inl, inr, refl, length, Bool, true, false, List, Result, ok,
  err,
}
use log_service.Prelude.Clock.{Context}
use log_service.Prelude.Int.{ℤ, pos, pos_part}
use log_service.Prelude.Text.{Text}
use log_service.LogEvent.{Event}
use log_service.Storage.Accounted.{In}
use log_service.Worker.Stats.{observe_retried}
use log_service.Worker.Indexing.{
  Queued, Fetched, IndexError, Service, Worker, Verdict, ended, again, attempt_once, set_aside,
  resume, retry, give_up, attempts, index_safely, committed, indexed, process_batch, observe,
}
use log_service.Worker.Indexing.Attempt.{
  Keeps, world-update_replay_backlog, Left, attempt_once-Left,
}

module _ {S : Type 0} (svc : Service S) (ctx : Context) (safe : Event → S → Type 0)
    (keeps : Keeps svc ctx safe) (e : Event) where
  -- The end of a part of the work: if it succeeds, the event is safe.
  abbrev Done : Result IndexError (Unit {0}) × Worker S → Type 0
  Done out = out.0 ≡ ok tt → safe e out.1.world

  set_aside-Done :
      (pending : List Event) (w : Worker S)
      → safe e w.world ⊎ In e pending
      → Done (set_aside svc ctx (length pending) w (svc.write_replay pending w.world))
  set_aside-Done pending w k = after (svc.write_replay pending w.world) (λ h. kept h k)
    where
      kept :
          (svc.write_replay pending w.world).0 ≡ ok tt
          → safe e w.world ⊎ In e pending
          → safe e (svc.write_replay pending w.world).1
      kept h (inl k) = keeps.replay_keeps pending w.world e k
      kept h (inr k) = keeps.replay_takes pending w.world e k h

      after :
          (out : Result Text (Unit {0}) × S)
          → (out.0 ≡ ok tt → safe e out.1)
          → Done (set_aside svc ctx (length pending) w out)
      after (err x, s) k = λ h. absurd cc
      after (ok u, s) k = λ h. rw (world-update_replay_backlog svc ctx) (k refl)

  give_up-Done :
      (out : Verdict × Worker S)
      → Left svc ctx safe keeps e out.0 out.1.world
      → Done (give_up svc ctx out)
  give_up-Done (ended r, w) k = k
  give_up-Done (again pending t, w) k = set_aside-Done pending w k

  retry-Done :
      (next : List Event → Worker S → Result IndexError (Unit {0}) × Worker S) (attempt : ℕ)
      → ((pending : List Event) (w : Worker S)
          → safe e w.world ⊎ In e pending
          → Done (next pending w))
      → (out : Verdict × Worker S) → Left svc ctx safe keeps e out.0 out.1.world
      → Done (retry svc ctx next attempt out)
  retry-Done next attempt goes_on (ended r, w) k = k
  retry-Done next attempt goes_on (again pending t, w) k = after (svc.wait ctx _ w.world) (keep k)
    where
      keep :
          {t' : ℤ}
          → safe e w.world ⊎ In e pending
          → safe e (svc.wait ctx t' w.world).1 ⊎ In e pending
      keep {t'} (inl k) = inl (keeps.wait_keeps t' w.world e k)
      keep (inr k) = inr k

      after :
          (out : Bool × S)
          → safe e out.1 ⊎ In e pending
          → Done (
              resume svc ctx
                (next pending)
                (observe (observe_retried (pos (length pending))) w)
                out)
      after (true, s) k = λ h. absurd cc
      after (false, s) k = goes_on pending _ k

  attempts-Done :
      (left attempt : ℕ) (pending : List Event) (w : Worker S)
      → safe e w.world ⊎ In e pending
      → Done (attempts svc ctx left attempt pending w)
  unfolding attempts
  attempts-Done zero attempt pending w k =
      give_up-Done (attempt_once svc ctx pending w)
        (attempt_once-Left svc ctx safe keeps e pending w k)
  attempts-Done (suc left) attempt pending w k =
      retry-Done (attempts svc ctx left (attempt + 1)) attempt (attempts-Done left (attempt + 1))
        (attempt_once svc ctx pending w) (attempt_once-Left svc ctx safe keeps e pending w k)

  committed-Safe :
      (w : Worker S) (out : Result Text (Unit {0}) × S)
      → safe e out.1
      → safe e (committed svc ctx w out).1.world
  committed-Safe w (err x, s) k = k
  committed-Safe w (ok u, s) k = k

  indexed-Done :
      (messages : List Fetched) (out : Result IndexError (Unit {0}) × Worker S)
      → Done out
      → Done (indexed svc ctx messages out)
  indexed-Done messages (err x, w) k = λ h. absurd cc
  indexed-Done messages (ok u, w) k = λ h.
      committed-Safe w (svc.commit ctx messages w.world)
        (keeps.commit_keeps messages w.world e (k refl))

  -- Once a batch is indexed without error, each of its events is safe.
  index_safely-Safe :
      (events : List Event) (w : Worker S)
      → In e events
      → (index_safely svc ctx events w).0 ≡ ok tt
      → safe e (index_safely svc ctx events w).1.world
  unfolding index_safely
  index_safely-Safe events w k = attempts-Done (pos_part svc.retry_max) 0 events w (inr k)

  -- For a notion of a safe event that the worker's calls keep and bring about as `Keeps` says: if a
  -- batch is processed without error, so that its offsets are committed, each of its events is safe,
  -- however often Elasticsearch failed or refused a part of the batch before.
  pub process_batch-Safe :
      (batch : List Queued) (w : Worker S)
      → In e (map (λ q. q.event) batch)
      → (process_batch svc ctx batch w).0 ≡ ok tt
      → safe e (process_batch svc ctx batch w).1.world
  unfolding process_batch
  process_batch-Safe batch w k =
      indexed-Done (map (λ q. q.message) batch) (index_safely svc ctx (map (λ q. q.event) batch) w)
        (index_safely-Safe (map (λ q. q.event) batch) w k)
