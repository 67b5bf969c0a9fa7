-- ===== src/Worker/Replay/Kept.antt =====
-- What a pass does with one replay file (internal/worker/service.go).
use log_service.Prelude.{
  ◌≡◌, ◌≢◌, ◌⊎◌, inl, inr, refl, Bool, true, false, List, [], ◌∷◌, map, Option, none, some, Result,
  ok, err, length,
}
use log_service.Prelude.Clock.{Context}
use log_service.Prelude.Text.{Text}
use log_service.LogEvent.{Event, Codec}
use log_service.Storage.{BulkResult, BulkError}
use log_service.Storage.Accounted.{In}
use log_service.Spool.Lines.{FileError}
use log_service.Prelude.Int.{pos}
use log_service.Worker.Stats.{observe_indexed, observe_replayed}
use log_service.Worker.Indexing.{
  DlqMessage, IndexError, Service, Worker, observe, send_dlq, send_permanent_failures,
}
use log_service.Worker.Indexing.Attempt.{Lands, send_permanent_failures-Safe}
use log_service.Worker.Indexing.Steady.{send_permanent_failures-steady}
use log_service.Worker.Replay.{
  Folder, read_replay_file, removed, settled, accepted, replayed, replay_read, replay_file,
}

-- What is true of a file that a pass leaves alone: `still` is a statement about the state that requests,
-- dead letters and the removal of `other` files keep, and that, when a file is read, puts the event into
-- what was read unless the file is another one.
pub record Stays {S : Type 0} (svc : Service S) (folder : Folder S) (codec : Codec) (ctx : Context)
    (e : Event) (still : S → Type 0) (other : Text → Type 0) : Type 0 where
  pub bulk_still : (events : List Event) (s : S) → still s → still (svc.bulk_index ctx events s).1
  pub dlq_still : (m : DlqMessage) (s : S) → still s → still (send_dlq svc ctx m s).1
  pub remove_still : (p : Text) (s : S) → other p → still s → still (folder.remove p s).1
  pub found :
      (p : Text) (s : S) (events : List Event)
      → still s
      → read_replay_file codec (folder.content p s) ≡ ok events
      → other p ⊎ In e events

module _ {S : Type 0} (svc : Service S) (folder : Folder S) (codec : Codec) (ctx : Context)
    (landed : Event → S → Type 0) (lands : Lands svc ctx landed)
    (remove_keeps : (p : Text) (s : S) (e : Event) → landed e s → landed e (folder.remove p s).1)
    (e : Event) (still : S → Type 0) (other : Text → Type 0)
    (stays : Stays svc folder codec ctx e still other) where
  -- The event has landed, or its file has the content that it had.
  abbrev pub Kept : S → Type 0
  Kept s = landed e s ⊎ still s

  bulk-Kept : (events : List Event) (s : S) → Kept s → Kept (svc.bulk_index ctx events s).1
  bulk-Kept events s (inl h) = inl (lands.bulk_keeps events s e h)
  bulk-Kept events s (inr p) = inr (stays.bulk_still events s p)

  dlq-Kept : (m : DlqMessage) (s : S) → Kept s → Kept (send_dlq svc ctx m s).1
  dlq-Kept m s (inl h) = inl (lands.dlq_keeps m s e h)
  dlq-Kept m s (inr p) = inr (stays.dlq_still m s p)

  -- What the removal of a file needs: the event has landed, or the file is another one.
  abbrev Ready : Text → S → Type 0
  Ready p s = landed e s ⊎ (still s × other p)

  remove-Kept : (p : Text) (s : S) → Ready p s → Kept (folder.remove p s).1
  remove-Kept p s (inl h) = inl (remove_keeps p s e h)
  remove-Kept p s (inr (h, far)) = inr (stays.remove_still p s far h)

  removed-Kept :
      (w : Worker S) (out : Bool × S)
      → Kept out.1
      → Kept (removed svc folder codec ctx w out).1.world
  removed-Kept w (true, s) h = h
  removed-Kept w (false, s) h = h

  settled-Kept :
      (p : Text) (events : List Event) (result : BulkResult)
      (out : Result IndexError (Unit {0}) × Worker S)
      → Kept out.1.world
      → (out.0 ≡ ok tt → Ready p out.1.world)
      → Kept (settled svc folder codec ctx p events result out).1.world
  settled-Kept p events result (err x, w) h k = h
  settled-Kept p events result (ok u, w) h k =
      removed-Kept
        (observe
          (λ t. observe_replayed (pos (length events)) (observe_indexed (pos result.indexed) t)) w)
        (folder.remove p w.world) (remove-Kept p w.world (k refl))

  -- What a bulk request without error and without events to try again has done for the event.
  abbrev Answered : Text → BulkResult → S → Type 0
  Answered p result s =
      (landed e s ⊎ In e (map (λ f. f.event) result.permanent)) ⊎ (still s × other p)

  dead_letters-Ready :
      (p : Text) (result : BulkResult) (w : Worker S)
      → Answered p result w.world
      → (send_permanent_failures svc ctx result.permanent w).0 ≡ ok tt
      → Ready p (send_permanent_failures svc ctx result.permanent w).1.world
  dead_letters-Ready p result w (inl k) h =
      inl (send_permanent_failures-Safe svc ctx landed lands e result.permanent w h k)
  dead_letters-Ready p result w (inr (h, far)) done =
      inr (send_permanent_failures-steady svc ctx still stays.dlq_still result.permanent w h, far)

  accepted-Kept :
      (p : Text) (events : List Event) (result : BulkResult) (retryable : List Event) (w : Worker S)
      → Kept w.world
      → (retryable ≡ [] → Answered p result w.world)
      → Kept (accepted svc folder codec ctx p events result retryable w).1.world
  accepted-Kept p events result (r ∷ rs) w h k = h
  accepted-Kept p events result [] w h k =
      settled-Kept p events result (send_permanent_failures svc ctx result.permanent w)
        (send_permanent_failures-steady svc ctx Kept dlq-Kept result.permanent w h)
        (dead_letters-Ready p result w (k refl))

  replayed-Kept :
      (p : Text) (events : List Event) (w : Worker S) (out : (BulkResult × Option BulkError) × S)
      → Kept out.1
      → (out.0.1 ≡ none → out.0.0.retryable ≡ [] → Answered p out.0.0 out.1)
      → Kept (replayed svc folder codec ctx p events w out).1.world
  replayed-Kept p events w ((result, some x), s) h k = h
  replayed-Kept p events w ((result, none), s) h k =
      accepted-Kept p events result result.retryable (record w { world = s }) h (k refl)

  -- Where the event is when the file is read: it has landed, it is in another file, or in this one.
  abbrev Found : Text → List Event → S → Type 0
  Found p events s = Ready p s ⊎ In e events

  bulk-Answered :
      (p : Text) (events : List Event) (s : S)
      → Found p events s
      → (svc.bulk_index ctx events s).0.1 ≡ none
      → (svc.bulk_index ctx events s).0.0.retryable ≡ []
      → Answered p (svc.bulk_index ctx events s).0.0 (svc.bulk_index ctx events s).1
  bulk-Answered p events s (inl (inl h)) fine nil = inl (inl (lands.bulk_keeps events s e h))
  bulk-Answered p events s (inl (inr (h, far))) fine nil = inr (stays.bulk_still events s h, far)
  bulk-Answered p events s (inr k) fine nil = settles (lands.bulk_settles events s e k)
    where
      gone : {events : List Event} → events ≡ [] → In e events → ⊥
      gone {events = []} nil h = h
      gone {events = x ∷ xs} nil h = absurd cc

      settles :
          (landed e (svc.bulk_index ctx events s).1
              ⊎ (In e (svc.bulk_index ctx events s).0.0.retryable
                  ⊎ In e (map (λ f. f.event) (svc.bulk_index ctx events s).0.0.permanent)))
            ⊎ (((svc.bulk_index ctx events s).0.1 ≢ none)
                × ((svc.bulk_index ctx events s).0.0.retryable ≡ []))
          → Answered p (svc.bulk_index ctx events s).0.0 (svc.bulk_index ctx events s).1
      settles (inl (inl h)) = inl (inl h)
      settles (inl (inr (inl h))) = absurd (gone nil h)
      settles (inl (inr (inr h))) = inl (inr h)
      settles (inr (some_error, _)) = absurd (some_error fine)

  replay_read-Kept :
      (p : Text) (w : Worker S) (r : Result FileError (List Event))
      → Kept w.world
      → ((events : List Event) → r ≡ ok events → Found p events w.world)
      → Kept (replay_read svc folder codec ctx p w r).1.world
  replay_read-Kept p w (err x) h k = h
  replay_read-Kept p w (ok []) h k = dropped (k [] refl)
    where
      dropped : Found p [] w.world → Kept (folder.remove p w.world).1
      dropped (inl ready) = remove-Kept p w.world ready
      dropped (inr h) = absurd h
  replay_read-Kept p w (ok (x ∷ xs)) h k =
      replayed-Kept p (x ∷ xs) w (svc.bulk_index ctx (x ∷ xs) w.world)
        (bulk-Kept (x ∷ xs) w.world h) (bulk-Answered p (x ∷ xs) w.world (k (x ∷ xs) refl))

  Found-in :
      (p : Text) (s : S) (events : List Event)
      → Kept s
      → read_replay_file codec (folder.content p s) ≡ ok events
      → Found p events s
  Found-in p s events (inl h) r = inl (inl h)
  Found-in p s events (inr h) r = sort_out (stays.found p s events h r)
    where
      sort_out : other p ⊎ In e events → Found p events s
      sort_out (inl far) = inl (inr (h, far))
      sort_out (inr k) = inr k

  pub replay_file-Kept :
      (p : Text) (w : Worker S) → Kept w.world → Kept (replay_file svc folder codec ctx p w).1.world
  unfolding replay_file
  replay_file-Kept p w h =
      replay_read-Kept p w (read_replay_file codec (folder.content p w.world)) h
        (λ events r. Found-in p w.world events h r)
