-- ===== src/Worker/Consume/Delivers.antt =====
-- No event that the consume loop has decoded is dropped (internal/worker/service.go).
use log_service.Prelude.{
  ◌⊎◌, inl, inr, refl, ◌≡◌, List, [], ◌∷◌, ◌++◌, map, Result, ok, err, length, ltb, if_both,
}
use log_service.Prelude.Clock.{Context}
use log_service.Prelude.Int.{pos}
use log_service.Prelude.Text.{Text}
use log_service.LogEvent.{Event}
use log_service.Storage.Accounted.{In}
use log_service.Worker.Stats.{observe_consumed, set_current_batch}
use log_service.Worker.Decode.{DecodeError, decode}
use log_service.Worker.Indexing.{
  Fetched, Queued, IndexError, Service, Worker, observe, send_dlq, process_batch,
}
use log_service.Worker.Indexing.Attempt.{Keeps}
use log_service.Worker.Indexing.Safe.{process_batch-Safe}
use log_service.Worker.Indexing.Steady.{process_batch-steady}
use log_service.Worker.Consume.{
  Fetch, fetched, failed, stopped, Wake, done, ticked, idle, Consumer, Loop, Turn, batch_limit,
  flushed, flush_batch, flush, parse_failure, rejected, reject_sent, reject, enqueue, take_decoded,
  receive, with_world, polled, poll, turn,
}

module _ {S : Type 0} (svc : Service S) (con : Consumer S) (ctx : Context) where
  -- The turns of the loop up to now, with the events that they decoded, the last ones first. Between two
  -- turns what is outside the loop may change, by a step that `outside` allows.
  pub data Turns (outside : S → S → Type 0) (start : Loop S) : List Event → Loop S → Type 0 where
    begin : Turns outside start [] start
    turned :
        {es : List Event} {l : Loop S} (wake : Wake)
        → Turns outside start es l
        → Turns outside start
            ((turn svc con ctx wake l).events ++ es)
            (turn svc con ctx wake l).loop
    disturbed :
        {es : List Event} {l : Loop S} (s : S)
        → outside l.worker.world s
        → Turns outside start es l
        → Turns outside start es (with_world svc con ctx s l)

module _ {S : Type 0} (svc : Service S) (con : Consumer S) (ctx : Context)
    (safe : Event → S → Type 0) (keeps : Keeps svc ctx safe)
    (fetch_keeps : (s : S) (e : Event) → safe e s → safe e (con.fetch ctx s).1)
    (outside : S → S → Type 0) (e : Event)
    (outside_keeps : (s t : S) → outside s t → safe e s → safe e t) where
  abbrev Queues : List Queued → Type 0
  Queues batch = In e (map (λ q. q.event) batch)

  abbrev pub Held : Loop S → Type 0
  Held l = safe e l.worker.world ⊎ Queues l.batch

  Queues-left : (xs ys : List Queued) → Queues xs → Queues (xs ++ ys)
  Queues-left [] ys h = absurd h
  Queues-left (x ∷ xs) ys (inl h) = inl h
  Queues-left (x ∷ xs) ys (inr h) = inr (Queues-left xs ys h)

  Queues-right : (xs ys : List Queued) → Queues ys → Queues (xs ++ ys)
  Queues-right [] ys h = h
  Queues-right (x ∷ xs) ys h = inr (Queues-right xs ys h)

  flushed-Held :
      (batch : List Queued) (out : Result IndexError (Unit {0}) × Worker S)
      → (out.0 ≡ ok tt → safe e out.1.world)
      → safe e out.1.world ⊎ Queues batch
      → Held (flushed svc con ctx batch out)
  flushed-Held batch (err x, w) k h = h
  flushed-Held batch (ok u, w) k h = inl (k refl)

  flush_batch-Held :
      (batch : List Queued) (w : Worker S)
      → safe e w.world ⊎ Queues batch
      → Held (flush_batch svc con ctx batch w)
  flush_batch-Held [] w h = h
  flush_batch-Held (q ∷ qs) w (inl h) =
      let v : Worker S = observe (set_current_batch (pos (length (q ∷ qs)))) w in
      flushed-Held (q ∷ qs) (process_batch svc ctx (q ∷ qs) v)
        (λ _. process_batch-steady svc ctx safe keeps e (q ∷ qs) v h)
        (inl (process_batch-steady svc ctx safe keeps e (q ∷ qs) v h))
  flush_batch-Held (q ∷ qs) w (inr h) =
      let v : Worker S = observe (set_current_batch (pos (length (q ∷ qs)))) w in
      flushed-Held (q ∷ qs) (process_batch svc ctx (q ∷ qs) v)
        (process_batch-Safe svc ctx safe keeps e (q ∷ qs) v h) (inr h)

  flush-Held : (l : Loop S) → Held l → Held (flush svc con ctx l)
  unfolding flush
  flush-Held l h = flush_batch-Held l.batch l.worker h

  rejected-Held :
      (w : Worker S) (out : Result Text (Unit {0}) × S)
      → safe e out.1
      → safe e (rejected svc con ctx w out).world
  rejected-Held w (err x, s) h = h
  rejected-Held w (ok u, s) h = h

  reject_sent-Held :
      (m : Fetched) (w : Worker S) (out : Result Text (Unit {0}) × S)
      → safe e out.1
      → safe e (reject_sent svc con ctx m w out).world
  reject_sent-Held m w (err x, s) h = h
  reject_sent-Held m w (ok u, s) h =
      rejected-Held w (svc.commit ctx (m ∷ []) s) (keeps.commit_keeps (m ∷ []) s e h)

  reject-Held :
      (x : DecodeError) (m : Fetched) (w : Worker S)
      → safe e w.world
      → safe e (reject svc con ctx x m w).world
  unfolding reject
  reject-Held x m w h =
      let letter = parse_failure svc con ctx x m w.world in
      reject_sent-Held m w (send_dlq svc ctx letter w.world)
        (keeps.lands.dlq_keeps letter w.world e h)

  enqueue-Held : (q : Queued) (l : Loop S) → Held l ⊎ (e ≡ q.event) → Held (enqueue svc con ctx q l)
  unfolding enqueue
  enqueue-Held q l h =
      let long = record l { batch = l.batch ++ (q ∷ []) } in
      if_both Held (ltb (length long.batch) (batch_limit con.bulk_size)) _ _ (queued h)
        (flush-Held long (queued h))
    where
      queued : Held l ⊎ (e ≡ q.event) → Held (record l { batch = l.batch ++ (q ∷ []) })
      queued (inl (inl h)) = inl h
      queued (inl (inr h)) = inr (Queues-left l.batch (q ∷ []) h)
      queued (inr p) = inr (Queues-right l.batch (q ∷ []) (inl p))

  -- What a turn must leave, if the event was decoded before or in this turn.
  abbrev Kept : Turn S → Type 0
  Kept t = In e t.events → Held t.loop

  take_decoded-Held :
      (m : Fetched) (l : Loop S) (r : Result DecodeError Event)
      → Held l
      → Held (take_decoded svc con ctx m l r).loop
  take_decoded-Held m l (err x) (inl h) = inl (reject-Held x m l.worker h)
  take_decoded-Held m l (err x) (inr h) = inr h
  take_decoded-Held m l (ok event) h =
      enqueue-Held (record { message = m; event = event }) l (inl h)

  take_decoded-Kept :
      (m : Fetched) (l : Loop S) (r : Result DecodeError Event)
      → Kept (take_decoded svc con ctx m l r)
  take_decoded-Kept m l (err x) = λ h. absurd h
  take_decoded-Kept m l (ok event) =
      λ h. enqueue-Held (record { message = m; event = event }) l (inr (only h))
    where
      only : {x : Event} → In e (x ∷ []) → e ≡ x
      only (inl p) = p
      only (inr h) = absurd h

  abbrev told : Loop S → Loop S
  told l = record l { worker = observe (observe_consumed (pos 1)) l.worker }

  polled-Held :
      (l : Loop S) (out : Fetch × S)
      → safe e out.1 ⊎ Queues l.batch
      → Held (polled svc con ctx l out).loop
  unfolding receive
  polled-Held l (fetched m, s) h =
      take_decoded-Held m (told (with_world svc con ctx s l))
        (decode con.codec con.readers svc.worker_id (svc.now s) m.value) h
  polled-Held l (failed, s) h = h
  polled-Held l (stopped, s) h = flush-Held (with_world svc con ctx s l) h

  polled-Kept : (l : Loop S) (out : Fetch × S) → Kept (polled svc con ctx l out)
  unfolding receive observe_consumed
  polled-Kept l (fetched m, s) =
      take_decoded-Kept m (told (with_world svc con ctx s l))
        (decode con.codec con.readers svc.worker_id (svc.now s) m.value)
  polled-Kept l (failed, s) = λ h. absurd h
  polled-Kept l (stopped, s) = λ h. absurd h

  poll-Held : (l : Loop S) → Held l → Held (poll svc con ctx l).loop
  poll-Held l h = polled-Held l (con.fetch ctx l.worker.world) (fetch_keeps_Held h)
    where
      fetch_keeps_Held : Held l → safe e (con.fetch ctx l.worker.world).1 ⊎ Queues l.batch
      fetch_keeps_Held (inl h) = inl (fetch_keeps l.worker.world e h)
      fetch_keeps_Held (inr h) = inr h

  turn-Held : (wake : Wake) (l : Loop S) → Held l → Held (turn svc con ctx wake l).loop
  unfolding turn
  turn-Held done l h = flush-Held l h
  turn-Held ticked l h = poll-Held (flush svc con ctx l) (flush-Held l h)
  turn-Held idle l h = poll-Held l h

  turn-Kept : (wake : Wake) (l : Loop S) → Kept (turn svc con ctx wake l)
  unfolding turn
  turn-Kept done l = λ h. absurd h
  turn-Kept ticked l =
      polled-Kept (flush svc con ctx l) (con.fetch ctx (flush svc con ctx l).worker.world)
  turn-Kept idle l = polled-Kept l (con.fetch ctx l.worker.world)

  In-append : (xs ys : List Event) → In e (xs ++ ys) → In e xs ⊎ In e ys
  In-append [] ys h = inr h
  In-append (x ∷ xs) ys (inl p) = inl (inl p)
  In-append (x ∷ xs) ys (inr h) = further (In-append xs ys h)
    where
      further : In e xs ⊎ In e ys → In e (x ∷ xs) ⊎ In e ys
      further (inl h) = inl (inr h)
      further (inr h) = inr h

  -- For a notion of a safe event that the worker's calls, the fetching of a message and the steps outside
  -- the loop keep: after any number of turns, however each of them woke, fetched, decoded and flushed,
  -- each event that the loop has decoded is safe or still in its batch.
  pub turn-delivers :
      (start : Loop S) (es : List Event) (l : Loop S)
      → Turns svc con ctx outside start es l
      → In e es
      → safe e l.worker.world ⊎ In e (map (λ q. q.event) l.batch)
  turn-delivers start [] l begin h = absurd h
  turn-delivers start es l (disturbed {l = k} s o t) h = kept (turn-delivers start es k t h)
    where
      kept : Held k → safe e s ⊎ Queues k.batch
      kept (inl p) = inl (outside_keeps k.worker.world s o p)
      kept (inr q) = inr q
  turn-delivers start es l (turned {es = before} {l = k} wake t) h =
      chosen (turn-delivers start before k t) (In-append (turn svc con ctx wake k).events before h)
    where
      chosen :
          (In e before → Held k)
          → In e (turn svc con ctx wake k).events ⊎ In e before
          → Held (turn svc con ctx wake k).loop
      chosen rest (inl p) = turn-Kept wake k p
      chosen rest (inr q) = turn-Held wake k (rest q)
