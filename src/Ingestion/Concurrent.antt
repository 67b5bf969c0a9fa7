-- ===== src/Ingestion/Concurrent.antt =====
-- Requests that the handler serves at the same time (internal/ingestion/handler.go): what they do before, while
-- and after they hold a place, in any order.
use log_service.Prelude.{
  ℕ, suc, ◌+◌, ◌≡◌, ◌≤◌, ◌↔◌, refl, sym, ap, ◌∙◌, true, List, [], ◌∷◌, ◌++◌, Option, none, some,
  length, length-append, arith,
}
use log_service.Prelude.Int.{ℤ, pos_part, is_positive}
use log_service.Metrics
use log_service.Ingestion.Types.{HttpRequest, Handler, Slots, Server}
use log_service.Ingestion.{
  new_in_flight, acquire, release, observe, observe_spool_state, handle, enter,
}

-- The server, the requests that have a place and are not handled yet, and the number of those that are
-- handled and have not given their place back.
pub record System (S : Type 0) : Type 0 where
  pub server : Server S
  pub entered : List HttpRequest
  pub handled : ℕ

module _ {S : Type 0} (h : Handler S) where
  -- What `serve_http` does before it asks for a place.
  abbrev pub started : Server S → Server S
  started s = observe_spool_state h (observe Metrics.observe_request s)

  -- A request takes a place or is refused, is handled, and gives its place back; meanwhile the world may
  -- change.
  pub data Step : System S → System S → Type 0 where
    enters :
        {x : System S} (r : HttpRequest) (slots : Option Slots)
        → acquire (started x.server).in_flight ≡ some slots
        → Step x (record {
          server = record (started x.server) { in_flight = slots };
          entered = r ∷ x.entered;
          handled = x.handled;
        })
    refused :
        {x : System S} (r : HttpRequest)
        → acquire (started x.server).in_flight ≡ none
        → Step x (record x { server = (enter h r (started x.server) none).1 })
    works :
        {x : System S} (before after : List HttpRequest) (r : HttpRequest)
        → x.entered ≡ before ++ (r ∷ after)
        → Step x (record {
          server = (handle h r x.server).1;
          entered = before ++ after;
          handled = x.handled + 1;
        })
    leaves :
        {x : System S} (n : ℕ)
        → x.handled ≡ suc n
        → Step x (record x {
          server = record (x.server) { in_flight = release x.server.in_flight };
          handled = n;
        })
    meanwhile :
        {x : System S} (w : S) → Step x (record x { server = record (x.server) { world = w } })

  pub data Reach (start : System S) : System S → Type 0 where
    begins : Reach start start
    steps : {x y : System S} → Reach start x → Step x y → Reach start y

  -- The requests that hold a place
  abbrev pub running : System S → ℕ
  running x = length x.entered + x.handled

  -- The places of a channel of a capacity, or no channel, when some requests hold one.
  abbrev pub places : Option ℕ → ℕ → Option Slots
  places none n = none
  places (some cap) n = some (record { cap = cap; taken = n })

  abbrev pub Within : Option ℕ → ℕ → Type 0
  Within none n = Unit
  Within (some cap) n = n ≤ cap

  abbrev Holds : Option ℕ → System S → Type 0
  Holds cap x = (x.server.in_flight ≡ places cap (running x)) × Within cap (running x)

  in_flight-started : (s : Server S) → (started s).in_flight ≡ s.in_flight
  unfolding observe_spool_state
  in_flight-started s = ground arith

  in_flight-handle : (r : HttpRequest) (s : Server S) → (handle h r s).1.in_flight ≡ s.in_flight
  unfolding handle
  in_flight-handle r s = ground arith

  acquire-places :
      (cap : Option ℕ) (n : ℕ) (slots : Option Slots)
      → Within cap n
      → acquire (places cap n) ≡ some slots
      → (slots ≡ places cap (n + 1)) × Within cap (n + 1)
  unfolding acquire
  acquire-places none n slots w e = (cc, tt)
  acquire-places (some cap) n slots w e = ground arith

  release-places : (cap : Option ℕ) (n : ℕ) → release (places cap (suc n)) ≡ places cap n
  unfolding release
  release-places none n = refl
  release-places (some cap) n = ground arith

  in_flight-refused :
      (r : HttpRequest) (s : Server S) → (enter h r s none).1.in_flight ≡ s.in_flight
  in_flight-refused r s = refl

  Within-suc : (cap : Option ℕ) (n : ℕ) → Within cap (suc n) → Within cap n
  Within-suc none n w = tt
  Within-suc (some cap) n w = omega arith

  -- A place for each request that is running.
  enters-Holds :
      (cap : Option ℕ) (x : System S) (r : HttpRequest) (slots : Option Slots)
      → acquire (started x.server).in_flight ≡ some slots
      → Holds cap x
      → (slots ≡ places cap (running x + 1)) × Within cap (running x + 1)
  enters-Holds cap x r slots e (p, w) =
      acquire-places cap (running x) slots w (ap acquire (sym (in_flight-started x.server ∙ p)) ∙ e)

  running-works :
      (before after : List HttpRequest) (r : HttpRequest) (n : ℕ)
      → length (before ++ after) + (n + 1) ≡ length (before ++ (r ∷ after)) + n
  running-works before after r n =
      omega (arith, length-append before after, length-append before (r ∷ after))

  Step-Holds : (cap : Option ℕ) (x y : System S) → Step x y → Holds cap x → Holds cap y
  Step-Holds cap x y (enters r slots e) k =
      let (p, w) = enters-Holds cap x r slots e k in
      let one : running x + 1 ≡ suc (length x.entered) + x.handled = omega arith in
      (p ∙ ap (places cap) one, rw (sym one) w)
  Step-Holds cap x y (refused r e) (p, w) =
      (in_flight-refused r (started x.server) ∙ (in_flight-started x.server ∙ p), w)
  Step-Holds cap x y (works before after r e) (p, w) =
      let same : length (before ++ after) + (x.handled + 1) ≡ running x =
        running-works before after r x.handled ∙ ap (λ l. length l + x.handled) (sym e) in
      (in_flight-handle r x.server ∙ (p ∙ ap (places cap) (sym same)), rw same w)
  Step-Holds cap x y (leaves n e) (p, w) =
      let one : running x ≡ suc (length x.entered + n) = omega (arith, e) in
      (
        ap release (p ∙ ap (places cap) one) ∙ release-places cap (length x.entered + n),
        Within-suc cap (length x.entered + n) (rw (sym one) w),
      )
  Step-Holds cap x y (meanwhile w) k = k

  Reach-Holds :
      (cap : Option ℕ) (start x : System S) → Holds cap start → Reach start x → Holds cap x
  Reach-Holds cap start x k begins = k
  Reach-Holds cap start x k (steps {x = y} reach step) =
      Step-Holds cap y x step (Reach-Holds cap start y k reach)

  acquire-full :
      (cap n : ℕ) → n ≤ cap → (acquire (some (record { cap = cap; taken = n })) ≡ none) ↔ (n ≡ cap)
  unfolding acquire
  acquire-full cap n w = ground arith

  -- With a limit above zero: whatever requests enter, are handled and leave in whatever order, never more
  -- of them hold a place than the limit, and the next request is refused exactly if as many hold one
  -- as the limit is.
  pub running-within :
      (max : ℤ) (s : Server S) (x : System S)
      → is_positive max ≡ true
      → s.in_flight ≡ new_in_flight max
      → Reach (record { server = s; entered = []; handled = 0 }) x
      → (running x ≤ pos_part max)
        × ((acquire (started x.server).in_flight ≡ none) ↔ (running x ≡ pos_part max))
  running-within max s x positive none_taken reach =
      let (p, w) =
        Reach-Holds (some (pos_part max)) (record { server = s; entered = []; handled = 0 }) x
          (rw (none_taken, positive) refl, omega arith) reach in
      (w, rw (in_flight-started x.server ∙ p) (acquire-full (pos_part max) (running x) w))
