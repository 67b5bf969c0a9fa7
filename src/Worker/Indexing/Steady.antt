-- ===== src/Worker/Indexing/Steady.antt =====
-- Processing a batch makes no event unsafe, however it ends (internal/worker/service.go).
use log_service.Prelude.{
  ℕ, zero, suc, ◌+◌, Bool, true, false, List, [], ◌∷◌, map, Option, Result, ok, err, length,
}
use log_service.Prelude.Clock.{Context}
use log_service.Prelude.Int.{pos, pos_part}
use log_service.Prelude.Text.{Text}
use log_service.LogEvent.{Event}
use log_service.Storage.{BulkResult, BulkError, DocumentFailure}
use log_service.Worker.Stats.{observe_retried}
use log_service.Worker.Indexing.{
  DlqMessage, Queued, Fetched, IndexError, Service, Worker, Verdict, ended, again, send_dlq,
  failure_message, send_failures, unless_failed, dead_lettered, send_permanent_failures, judge,
  judged, answered, attempt_once, tell, tell_indexed, observe, set_aside, resume, retry, give_up,
  attempts, index_safely, committed, indexed, process_batch,
}
use log_service.Worker.Indexing.Attempt.{Keeps, world-tell, world-update_replay_backlog}

module _ {S : Type 0} (svc : Service S) (ctx : Context) (kept : S → Type 0)
    (dlq_keeps : (m : DlqMessage) (s : S) → kept s → kept (send_dlq svc ctx m s).1) where
  send_failures-steady :
      (fs : List DocumentFailure) (s : S) → kept s → kept (send_failures svc ctx fs s).1
  unfolding send_failures
  send_failures-steady [] s h = h
  send_failures-steady (f ∷ fs) s h =
      next (send_failures-steady fs) (send_dlq svc ctx (failure_message svc ctx s f) s)
        (dlq_keeps (failure_message svc ctx s f) s h)
    where
      next :
          ((t : S) → kept t → kept (send_failures svc ctx fs t).1)
          → (out : Result Text (Unit {0}) × S) → kept out.1
          → kept (unless_failed svc ctx (send_failures svc ctx fs) out).1
      next rest (err x, t) k = k
      next rest (ok u, t) k = rest t k

  dead_lettered-steady :
      (n : ℕ) (w : Worker S) (out : Result Text (Unit {0}) × S)
      → kept out.1
      → kept (dead_lettered svc ctx n w out).1.world
  dead_lettered-steady n w (err x, t) k = k
  dead_lettered-steady n w (ok u, t) k = k

  pub send_permanent_failures-steady :
      (fs : List DocumentFailure) (w : Worker S)
      → kept w.world
      → kept (send_permanent_failures svc ctx fs w).1.world
  unfolding send_permanent_failures
  send_permanent_failures-steady [] w h = h
  send_permanent_failures-steady (f ∷ fs) w h =
      dead_lettered-steady (length (f ∷ fs)) w (send_failures svc ctx (f ∷ fs) w.world)
        (send_failures-steady (f ∷ fs) w.world h)

  judged-steady :
      (v : Verdict) (out : Result IndexError (Unit {0}) × Worker S)
      → kept out.1.world
      → kept (judged svc ctx v out).1.world
  judged-steady v (err x, w) k = k
  judged-steady v (ok u, w) k = k

  pub answered-steady :
      (pending : List Event) (w : Worker S) (result : BulkResult) (x : Option BulkError) (s : S)
      → kept s
      → kept (answered svc ctx pending w ((result, x), s)).1.world
  answered-steady pending w result x s h =
      judged-steady (judge svc ctx pending result.retryable x result.retry_after)
        (send_permanent_failures svc ctx result.permanent
          (tell_indexed result.indexed (tell x (record w { world = s }))))
        (send_permanent_failures-steady result.permanent
          (tell_indexed result.indexed (tell x (record w { world = s })))
          (rw (world-tell result.indexed x (record w { world = s })) h))

module _ {S : Type 0} (svc : Service S) (ctx : Context) (safe : Event → S → Type 0)
    (keeps : Keeps svc ctx safe) (e : Event) where
  attempt_once-steady :
      (pending : List Event) (w : Worker S)
      → safe e w.world
      → safe e (attempt_once svc ctx pending w).1.world
  unfolding attempt_once
  attempt_once-steady pending w h =
      answered-steady svc ctx (safe e) (λ m s. keeps.lands.dlq_keeps m s e) pending w
        ((svc.bulk_index ctx pending w.world).0.0) ((svc.bulk_index ctx pending w.world).0.1)
        ((svc.bulk_index ctx pending w.world).1) (keeps.lands.bulk_keeps pending w.world e h)

  set_aside-steady :
      (n : ℕ) (w : Worker S) (out : Result Text (Unit {0}) × S)
      → safe e out.1
      → safe e (set_aside svc ctx n w out).1.world
  set_aside-steady n w (err x, s) k = k
  set_aside-steady n w (ok u, s) k = rw (world-update_replay_backlog svc ctx) k

  give_up-steady :
      (out : Verdict × Worker S) → safe e out.1.world → safe e (give_up svc ctx out).1.world
  give_up-steady (ended r, w) h = h
  give_up-steady (again pending t, w) h =
      set_aside-steady (length pending) w (svc.write_replay pending w.world)
        (keeps.replay_keeps pending w.world e h)

  resume-steady :
      (next : Worker S → Result IndexError (Unit {0}) × Worker S)
      → ((w : Worker S) → safe e w.world → safe e (next w).1.world)
      → (w : Worker S) (out : Bool × S) → safe e out.1
      → safe e (resume svc ctx next w out).1.world
  resume-steady next k w (true, s) h = h
  resume-steady next k w (false, s) h = k (record w { world = s }) h

  retry-steady :
      (next : List Event → Worker S → Result IndexError (Unit {0}) × Worker S) (attempt : ℕ)
      → ((pending : List Event) (w : Worker S) → safe e w.world → safe e (next pending w).1.world)
      → (out : Verdict × Worker S) → safe e out.1.world
      → safe e (retry svc ctx next attempt out).1.world
  retry-steady next attempt k (ended r, w) h = h
  retry-steady next attempt k (again pending t, w) h =
      resume-steady (next pending) (k pending) (observe (observe_retried (pos (length pending))) w)
        (svc.wait ctx _ w.world) (keeps.wait_keeps _ w.world e h)

  attempts-steady :
      (left attempt : ℕ) (pending : List Event) (w : Worker S)
      → safe e w.world
      → safe e (attempts svc ctx left attempt pending w).1.world
  unfolding attempts
  attempts-steady zero attempt pending w h =
      give_up-steady (attempt_once svc ctx pending w) (attempt_once-steady pending w h)
  attempts-steady (suc left) attempt pending w h =
      retry-steady (attempts svc ctx left (attempt + 1)) attempt
        (attempts-steady left (attempt + 1)) (attempt_once svc ctx pending w)
        (attempt_once-steady pending w h)

  committed-steady :
      (w : Worker S) (out : Result Text (Unit {0}) × S)
      → safe e out.1
      → safe e (committed svc ctx w out).1.world
  committed-steady w (err x, s) k = k
  committed-steady w (ok u, s) k = k

  indexed-steady :
      (messages : List Fetched) (out : Result IndexError (Unit {0}) × Worker S)
      → safe e out.1.world
      → safe e (indexed svc ctx messages out).1.world
  indexed-steady messages (err x, w) h = h
  indexed-steady messages (ok u, w) h =
      committed-steady w (svc.commit ctx messages w.world) (keeps.commit_keeps messages w.world e h)

  pub process_batch-steady :
      (batch : List Queued) (w : Worker S)
      → safe e w.world
      → safe e (process_batch svc ctx batch w).1.world
  unfolding process_batch index_safely
  process_batch-steady batch w h =
      indexed-steady (map (λ q. q.message) batch)
        (index_safely svc ctx (map (λ q. q.event) batch) w)
        (attempts-steady (pos_part svc.retry_max) 0 (map (λ q. q.event) batch) w h)
