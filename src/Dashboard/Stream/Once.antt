-- ===== src/Dashboard/Stream/Once.antt =====
-- The stream writes each record once (internal/dashboard/http.go).
use log_service.Prelude.{
  ℕ, zero, suc, ◌≡◌, inl, inr, refl, sym, ap, Bool, true, false, List, [], ◌∷◌, ◌++◌, Result, ok,
  err, All, Bool-cases, arith,
}
use mathlib.Core.List.{reverse, reverse-cons}
use log_service.Prelude.Clock.{Time, utc}
use log_service.Prelude.Int.{pos}
use log_service.Prelude.Text.{Text, text_eq_refl}
use log_service.Dashboard.{LogRecord, LogsResponse}
use log_service.Dashboard.Query.{back}
use log_service.Dashboard.Elastic.{Elastic, logs}
use log_service.Dashboard.Stream.{
  Sent, connected, error, log, Stream, exists, key_of, write_event, write_record, write_records,
  polled, tick, ticks,
}

-- No key is there twice.
abbrev pub Distinct : List Text → Type 0
Distinct [] = Unit
Distinct (k ∷ ks) = (exists k ks ≡ false) × Distinct ks

module _ {Object S : Type 0} (es : Elastic Object S) (format_nano : Time → Text)
    (can_marshal : Sent → Bool) (now : S → Time)
    (marshals : (x : Sent) → can_marshal x ≡ true) where
  -- The keys of the records that were sent, the last first
  unfoldable pub keys : List Sent → List Text
  keys [] = []
  keys (connected ∷ sent) = keys sent
  keys (error e ∷ sent) = keys sent
  keys (log r ∷ sent) = key_of es format_nano can_marshal now r ∷ keys sent

  abbrev IsOnce : Stream S → Type 0
  IsOnce w = Distinct w.seen × (keys w.sent ≡ w.seen)

  Shows : Stream S → LogRecord → Type 0
  Shows w r = exists (key_of es format_nano can_marshal now r) w.seen ≡ true

  exists_self : (k : Text) (ks : List Text) → exists k (k ∷ ks) ≡ true
  unfolding exists
  exists_self k ks = rw (text_eq_refl k) refl

  exists_later : (k j : Text) (ks : List Text) → exists k ks ≡ true → exists k (j ∷ ks) ≡ true
  unfolding exists
  exists_later k j ks h = ground arith

  write_record-IsOnce :
      (r : LogRecord) (w : Stream S)
      → IsOnce w
      → IsOnce (write_record es format_nano can_marshal now r w)
  unfolding write_record write_event keys
  write_record-IsOnce r w (d, same) =
      elim (Bool-cases (exists (key_of es format_nano can_marshal now r) w.seen)) [
        | inl e ↦ rw e (d, same)
        | inr e ↦
            rw (e, marshals (log r))
              ((e, d), ap (λ ks. key_of es format_nano can_marshal now r ∷ ks) same)
      ]

  write_record-Shows :
      (r : LogRecord) (w : Stream S) → Shows (write_record es format_nano can_marshal now r w) r
  unfolding write_record Shows
  write_record-Shows r w =
      elim (Bool-cases (exists (key_of es format_nano can_marshal now r) w.seen)) [
        | inl e ↦ rw e e
        | inr e ↦ rw e (exists_self (key_of es format_nano can_marshal now r) w.seen)
      ]

  write_record-keeps :
      (r q : LogRecord) (w : Stream S)
      → Shows w q
      → Shows (write_record es format_nano can_marshal now r w) q
  unfolding write_record Shows
  write_record-keeps r q w h =
      elim (Bool-cases (exists (key_of es format_nano can_marshal now r) w.seen)) [
        | inl e ↦ rw e h
        | inr e ↦ rw e (exists_later _ (key_of es format_nano can_marshal now r) w.seen h)
      ]

  write_records-IsOnce :
      (rs : List LogRecord) (w : Stream S)
      → IsOnce w
      → IsOnce (write_records es format_nano can_marshal now rs w)
  unfolding write_records
  write_records-IsOnce [] w h = h
  write_records-IsOnce (r ∷ rs) w h = write_records-IsOnce rs _ (write_record-IsOnce r w h)

  write_records-keeps :
      (rs : List LogRecord) (q : LogRecord) (w : Stream S)
      → Shows w q
      → Shows (write_records es format_nano can_marshal now rs w) q
  unfolding write_records
  write_records-keeps [] q w h = h
  write_records-keeps (r ∷ rs) q w h = write_records-keeps rs q _ (write_record-keeps r q w h)

  write_records-Shows :
      (rs : List LogRecord) (w : Stream S)
      → All (Shows (write_records es format_nano can_marshal now rs w)) rs
  unfolding write_records
  write_records-Shows [] w = tt
  write_records-Shows (r ∷ rs) w =
      (write_records-keeps rs r _ (write_record-Shows r w), write_records-Shows rs _)

  All-reverse_append :
      (P : LogRecord → Type 0) (xs ys : List LogRecord) → All P (xs ++ ys) → All P xs × All P ys
  All-reverse_append P [] ys h = (tt, h)
  All-reverse_append P (x ∷ xs) ys (h, k) = let (l, r) = All-reverse_append P xs ys k in ((h, l), r)

  All-reverse : (P : LogRecord → Type 0) (xs : List LogRecord) → All P (reverse xs) → All P xs
  All-reverse P [] h = tt
  All-reverse P (x ∷ xs) h =
      put (All-reverse P xs)
        (All-reverse_append P (reverse xs) (x ∷ []) (rw (sym (reverse-cons x xs)) h))
    where
      put : (All P (reverse xs) → All P xs) → All P (reverse xs) × All P (x ∷ []) → All P (x ∷ xs)
      put rest (later, (now_here, _)) = (now_here, rest later)

  polled-IsOnce :
      (w : Stream S) (out : Result Text LogsResponse × S)
      → IsOnce w
      → IsOnce (polled es format_nano can_marshal now w out)
  unfolding keys write_event
  polled-IsOnce w (err e, s) h = rw (marshals (error e)) h
  polled-IsOnce w (ok page, s) h =
      write_records-IsOnce (reverse page.logs) (record w { world = s }) h

  -- The query of a tick
  abbrev pub asked : Stream S → Result Text LogsResponse × S
  asked w = logs es (back 10 (utc (now w.world))) (utc (now w.world)) [] [] [] (pos 25) w.world

  ticks-IsOnce : (n : ℕ) (s : S) → IsOnce (ticks es format_nano can_marshal now n s)
  unfolding ticks tick keys
  ticks-IsOnce zero s = (tt, refl)
  ticks-IsOnce (suc n) s =
      polled-IsOnce (ticks es format_nano can_marshal now n s)
        (asked (ticks es format_nano can_marshal now n s)) (ticks-IsOnce n s)

  polled-Shows :
      (w : Stream S) (out : Result Text LogsResponse × S) (page : LogsResponse)
      → out.0 ≡ ok page
      → All (Shows (polled es format_nano can_marshal now w out)) page.logs
  polled-Shows w (err e, s) page h = absurd cc
  polled-Shows w (ok got, s) page h =
      let same : got ≡ page = cc in
      rw (sym same) (
        All-reverse (Shows (polled es format_nano can_marshal now w (ok got, s))) got.logs
          (write_records-Shows (reverse got.logs) (record w { world = s })))

  -- When each event can be encoded: after any number of ticks, and one more whose query succeeded, no key (a
  -- record's time and line) has been written to the stream twice, and the key of each record that the
  -- query gave has been written.
  pub ticks-once :
      (n : ℕ) (s : S) (page : LogsResponse)
      → (asked (ticks es format_nano can_marshal now n s)).0 ≡ ok page
      → Distinct (keys (ticks es format_nano can_marshal now (suc n) s).sent)
        × All
            (λ r.
              exists
                (key_of es format_nano can_marshal now r)
                (keys (ticks es format_nano can_marshal now (suc n) s).sent)
              ≡ true)
            page.logs
  unfolding ticks tick Shows
  ticks-once n s page h =
      let (d, same) = ticks-IsOnce (suc n) s in
      rw same (
        d,
        polled-Shows (ticks es format_nano can_marshal now n s)
            (asked (ticks es format_nano can_marshal now n s)) page h,
      )
