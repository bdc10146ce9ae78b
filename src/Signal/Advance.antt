-- ===== src/Signal/Advance.antt =====
-- tscb/signal.h: a step of a walk along the links, while links connect and disconnect.
use mathlib.Core.Path.{subst}
use mathlib.Core.List.{append_assoc}
use libtscb.Base.{ℕ, ◌≡◌, Option, some, true, List, [], ◌∷◌, ◌++◌, sym}
use libtscb.Chain.Walk.{Call, called, Visits, visit, Visits-IsDying, Next, link-Next}
use libtscb.Signal.{Signal, Op, run_ops}
use libtscb.Chain.Members.{HasFunctions, IsDying-suffix}
use libtscb.Signal.Valid.{IsSignal, Grown, run_ops-Grown, connects}

pub HasFunctions-middle :
    (function : ℕ → Option ℕ) (xs : List ℕ) (p : ℕ) (ys : List ℕ)
    → HasFunctions function (xs ++ (p ∷ ys))
    → (f : ℕ) × (function p ≡ some f)
HasFunctions-middle function [] p ys h = h.0
HasFunctions-middle function (x ∷ xs) p ys h = HasFunctions-middle function xs p ys h.1

-- The state after the changes `ops` that the visit of one link makes, and where the walk goes on.
pub record Advance (s : Signal) (p : ℕ) (xs : List ℕ) (log : List Call) (ops : List Op)
    : Type 0 where
  pub grown : Grown s xs (run_ops ops s) (connects ops)
  pub later : List ℕ
  pub sooner : List ℕ
  pub split : grown.new ++ xs ≡ later ++ sooner
  pub visited : Visits (run_ops ops s).connected sooner (called p true ∷ log)
  pub next :
      Next
        (run_ops ops s).connected
        (grown.new ++ xs)
        (called p true ∷ log)
        ((run_ops ops s).active_next p)

pub run_ops-Advance :
    (ops : List Op) (s : Signal) (p : ℕ) (later sooner : List ℕ) (log : List Call)
    → IsSignal s (later ++ (p ∷ sooner))
    → Visits s.connected sooner log
    → Advance s p (later ++ (p ∷ sooner)) log ops
run_ops-Advance ops s p later sooner log h v =
    let t = run_ops ops s in
    let g = run_ops-Grown ops s (later ++ (p ∷ sooner)) h in
    let split : g.new ++ (later ++ (p ∷ sooner)) ≡ (g.new ++ later) ++ (p ∷ sooner) =
      sym (append_assoc g.new later (p ∷ sooner)) in
    let here : Visits t.connected (p ∷ sooner) (called p true ∷ log) =
      Visits-IsDying s.connected t.connected (p ∷ sooner) (called p true ∷ log) (visit v)
        (IsDying-suffix s.connected t.connected later (p ∷ sooner) g.dying) in
    record {
      grown = g;
      later = g.new ++ later;
      sooner = p ∷ sooner;
      split = split;
      visited = here;
      next =
          subst (λ l. Next t.connected l (called p true ∷ log) (t.active_next p)) (sym split)
            (link-Next t.connected (called p true ∷ log) t.links p (g.new ++ later) sooner
              (subst (λ l. IsSignal t l) split g.valid).chain here);
    }
