-- ===== src/Generator/Clients/Order.antt =====
-- What `main` of the generator prints does not depend on how its clients interleave (cmd/log-generator/main.go).
use log_service.Prelude.{ℕ, ◌≡◌, refl, List, [], ◌∷◌, some}
use log_service.Prelude.Clock.{Time}
use log_service.Prelude.Text.{Text}
use log_service.Prelude.Int.{ℤ}
use log_service.Generator.{Stats, Target}
use log_service.Generator.Pace.{Timer, Plan, Client, run_client}
use log_service.Generator.Clients.{
  Update, apply, apply_all, Merge, done, left, right, Runs, nobody, another, report, no_stats,
  in_turn, run_each, AllDo, nobody_does, another_does,
}
use log_service.Generator.Clients.Latencies.{summary_sorted}
use log_service.Generator.Clients.Alike.{
  Alike, Alike-refl, Alike-trans, apply_all-Alike, apply_all-apply,
}
use log_service.Generator.Clients.Turns.{run_client-Does}

merge-Alike :
    (us vs ws : List Update) (t : Stats)
    → Merge us vs ws
    → Alike (apply_all ws t) (apply_all vs (apply_all us t))
unfolding apply_all
merge-Alike us vs ws t done = Alike-refl t
merge-Alike us vs ws t (left {u = u} {us = us'} {ws = ws'} m) = merge-Alike us' vs ws' (apply u t) m
merge-Alike us vs ws t (right {v = v} {vs = vs'} {ws = ws'} m) =
    Alike-trans _ _ _ (merge-Alike us vs' ws' (apply v t) m)
      (apply_all-Alike vs' _ _ (apply_all-apply us v t))

in_turn-Alike :
    (clients : List (List Update)) (ws : List Update) (t : Stats)
    → Runs clients ws
    → Alike (apply_all ws t) (in_turn clients t)
unfolding in_turn apply_all
in_turn-Alike clients ws t nobody = Alike-refl t
in_turn-Alike clients ws t (another {us = us} {vs = vs} {clients = rest} m r) =
    Alike-trans _ _ _ (merge-Alike us vs ws t m) (in_turn-Alike rest vs (apply_all us t) r)

-- What `main` prints does not depend on the order in which the clients' operations come.
report-in_turn :
    (scaled : ℕ → ℤ) (clients : List (List Update)) (ws : List Update) (t : Stats)
    → Runs clients ws
    → report scaled (apply_all ws t) ≡ report scaled (in_turn clients t)
unfolding report
report-in_turn scaled clients ws t r =
    let h : Alike (apply_all ws t) (in_turn clients t) = in_turn-Alike clients ws t r in
    rw
      (
        h.generated,
        h.sent,
        h.accepted,
        h.failed,
        h.retries,
        summary_sorted scaled (apply_all ws t).latencies (in_turn clients t).latencies h.sorted,
      )
      refl

module _ {S R : Type 0} (target : Target S) (timer : Timer S) (intn : ℕ → R → ℕ × R)
    (format : Time → Text) (plan : Plan) where
  -- Each client returns, alone and with its counters.
  abbrev pub AllReturn : ℕ → List (Client S R) → Type 0
  AllReturn fuel [] = Unit
  AllReturn fuel (c ∷ clients) =
      ((d : Client S R) × (run_client target timer intn format plan fuel c ≡ some d))
      × AllReturn fuel clients

  -- Clients that return have done operations that do not depend on what the counters hold.
  all_do :
      (fuel : ℕ) (clients : List (Client S R))
      → AllReturn fuel clients
      → (uss : List (List Update)) × AllDo target timer intn format plan fuel clients uss
  all_do fuel [] h = ([], nobody_does)
  all_do fuel (c ∷ clients) ((d, e), h) =
      let (us, k) = run_client-Does target timer intn format plan fuel c.world c.rng c.stats d e in
      let (uss, ks) = all_do fuel clients h in (us ∷ uss, another_does k ks)

  run_each-in_turn :
      (fuel : ℕ) (clients : List (Client S R)) (uss : List (List Update)) (t : Stats)
      → AllDo target timer intn format plan fuel clients uss
      → run_each target timer intn format plan fuel clients t ≡ some (in_turn uss t)
  unfolding run_each in_turn
  run_each-in_turn fuel clients uss t nobody_does = refl
  run_each-in_turn fuel clients uss t
        (another_does {clients = rest} {us = us} {uss = more} (s, r, k) h) =
      rw (k t) (run_each-in_turn fuel rest more (apply_all us t) h)

  -- If each client returns, having done some operations on the counters, and the operations of all come in
  -- some order, each client's own order kept: the clients also return when they run one after the other, and
  -- then `main` prints the same counts and latencies.
  pub clients-report :
      (scaled : ℕ → ℤ) (fuel : ℕ) (clients : List (Client S R)) (uss : List (List Update))
      (ws : List Update)
      → AllDo target timer intn format plan fuel clients uss
      → Runs uss ws
      → (t : Stats) × (run_each target timer intn format plan fuel clients no_stats ≡ some t)
        × (report scaled (apply_all ws no_stats) ≡ report scaled t)
  clients-report scaled fuel clients uss ws does runs = (
    in_turn uss no_stats,
    run_each-in_turn fuel clients uss no_stats does,
    report-in_turn scaled uss ws no_stats runs,
  )
