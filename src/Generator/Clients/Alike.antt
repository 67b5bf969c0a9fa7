-- ===== src/Generator/Clients/Alike.antt =====
-- Two operations on the counters of the generator come to the same in either order (cmd/log-generator/main.go).
use log_service.Prelude.{ℕ, ◌≡◌, Option, none, some, refl, ap, ◌∙◌, List, [], ◌∷◌, ltb, arith}
use log_service.Prelude.Int.{pos, add64, int64_of}
use log_service.Prelude.Sorting.{sort}
use log_service.Generator.{Stats}
use log_service.Generator.Clients.{
  Update, generated, sent, accepted, failed, retried, took, apply, apply_all,
}
use log_service.Generator.Clients.Latencies.{append_some, sort-append_some, sort-append_some_comm}

-- What an update adds to a counter, or to the latencies, if anything.
add_some : Option ℕ → ℕ → ℕ
add_some none a = a
add_some (some k) a = add64 a k

record Amounts : Type 0 where
  generated_by : Option ℕ
  sent_by : Option ℕ
  accepted_by : Option ℕ
  failed_by : Option ℕ
  retries_by : Option ℕ
  latency : Option ℕ

abbrev nothing : Amounts
nothing = record {
  generated_by = none;
  sent_by = none;
  accepted_by = none;
  failed_by = none;
  retries_by = none;
  latency = none;
}

abbrev amounts : Update → Amounts
amounts (generated n) = record nothing { generated_by = some (int64_of (pos n)) }
amounts (sent n) = record nothing { sent_by = some (int64_of (pos n)) }
amounts (accepted n) = record nothing { accepted_by = some (int64_of n) }
amounts failed = record nothing { failed_by = some 1 }
amounts retried = record nothing { retries_by = some 1 }
amounts (took n) = record nothing { latency = some n }

abbrev add_amounts : Amounts → Stats → Stats
add_amounts a t = record {
  generated = add_some a.generated_by t.generated;
  sent = add_some a.sent_by t.sent;
  accepted = add_some a.accepted_by t.accepted;
  failed_requests = add_some a.failed_by t.failed_requests;
  retries = add_some a.retries_by t.retries;
  latencies = append_some a.latency t.latencies;
}

apply-amounts : (x : Update) (t : Stats) → apply x t ≡ add_amounts (amounts x) t
unfolding apply add_some
apply-amounts (generated n) t = refl
apply-amounts (sent n) t = refl
apply-amounts (accepted n) t = refl
apply-amounts failed t = refl
apply-amounts retried t = refl
apply-amounts (took n) t = refl

add_some_comm : (j k : Option ℕ) (a : ℕ) → add_some j (add_some k a) ≡ add_some k (add_some j a)
unfolding add_some add64
add_some_comm none k a = refl
add_some_comm (some m) none a = refl
add_some_comm (some m) (some n) a = omega arith

-- The same counts, and the same latencies but for their order.
pub record Alike (t u : Stats) : Type 0 where
  pub generated : t.generated ≡ u.generated
  pub sent : t.sent ≡ u.sent
  pub accepted : t.accepted ≡ u.accepted
  pub failed : t.failed_requests ≡ u.failed_requests
  pub retries : t.retries ≡ u.retries
  pub sorted : sort ltb t.latencies ≡ sort ltb u.latencies

pub Alike-refl : (t : Stats) → Alike t t
Alike-refl t = record {
  generated = refl;
  sent = refl;
  accepted = refl;
  failed = refl;
  retries = refl;
  sorted = refl;
}

pub Alike-trans : (t u v : Stats) → Alike t u → Alike u v → Alike t v
Alike-trans t u v h k = record {
  generated = h.generated ∙ k.generated;
  sent = h.sent ∙ k.sent;
  accepted = h.accepted ∙ k.accepted;
  failed = h.failed ∙ k.failed;
  retries = h.retries ∙ k.retries;
  sorted = h.sorted ∙ k.sorted;
}

add_amounts-Alike :
    (a : Amounts) (t u : Stats) → Alike t u → Alike (add_amounts a t) (add_amounts a u)
add_amounts-Alike a t u h = record {
  generated = ap (add_some a.generated_by) h.generated;
  sent = ap (add_some a.sent_by) h.sent;
  accepted = ap (add_some a.accepted_by) h.accepted;
  failed = ap (add_some a.failed_by) h.failed;
  retries = ap (add_some a.retries_by) h.retries;
  sorted = sort-append_some a.latency t.latencies u.latencies h.sorted;
}

add_amounts_comm :
    (a b : Amounts) (t : Stats)
    → Alike (add_amounts a (add_amounts b t)) (add_amounts b (add_amounts a t))
add_amounts_comm a b t = record {
  generated = add_some_comm a.generated_by b.generated_by t.generated;
  sent = add_some_comm a.sent_by b.sent_by t.sent;
  accepted = add_some_comm a.accepted_by b.accepted_by t.accepted;
  failed = add_some_comm a.failed_by b.failed_by t.failed_requests;
  retries = add_some_comm a.retries_by b.retries_by t.retries;
  sorted = sort-append_some_comm a.latency b.latency t.latencies;
}

apply-Alike : (x : Update) (t u : Stats) → Alike t u → Alike (apply x t) (apply x u)
apply-Alike x t u h =
    rw (apply-amounts x t, apply-amounts x u) (add_amounts-Alike (amounts x) t u h)

apply-apply : (x y : Update) (t : Stats) → Alike (apply x (apply y t)) (apply y (apply x t))
apply-apply x y t =
    rw
      (
        apply-amounts x (apply y t),
        apply-amounts y t,
        apply-amounts y (apply x t),
        apply-amounts x t,
      )
      (add_amounts_comm (amounts x) (amounts y) t)

pub apply_all-Alike :
    (us : List Update) (t u : Stats) → Alike t u → Alike (apply_all us t) (apply_all us u)
unfolding apply_all
apply_all-Alike [] t u h = h
apply_all-Alike (x ∷ us) t u h = apply_all-Alike us (apply x t) (apply x u) (apply-Alike x t u h)

pub apply_all-apply :
    (us : List Update) (x : Update) (t : Stats)
    → Alike (apply_all us (apply x t)) (apply x (apply_all us t))
unfolding apply_all
apply_all-apply [] x t = Alike-refl (apply x t)
apply_all-apply (y ∷ us) x t =
    Alike-trans _ _ _
      (apply_all-Alike us (apply y (apply x t)) (apply x (apply y t)) (apply-apply y x t))
      (apply_all-apply us x (apply y t))
