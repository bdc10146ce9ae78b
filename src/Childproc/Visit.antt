-- ===== src/Childproc/Visit.antt =====
-- tscb/childproc-monitor.cc: a round of `dispatch`, with `wait4` and the callbacks as parameters.
use mathlib.Core.Path.{subst}
use libtscb.Base.{
  Option, none, some, ℕ, suc, ◌≡◌, ◌≢◌, ◌⊎◌, inl, inr, Bool, true, false, if◌then◌else◌, List, [],
  ◌∷◌, ◌++◌, ◌≤◌, arith, refl, sym, ap, ◌∙◌, ◌==◌,
}
use libtscb.Chain.Active.{size}
use libtscb.Chain.Members.{IsIn}
use libtscb.Chain.Walk.{called, IsDying, Visits, Next}
use libtscb.Signal.{Signal}
use libtscb.Signal
use libtscb.Signal.Valid.{IsSignal, connects, run_ops-Grown, disconnect-IsSignal}
use libtscb.Signal.Advance.{run_ops-Advance, HasFunctions-middle}
use libtscb.Childproc.{
  Monitor, disconnect, Reply, running, exited, failed, Op, run_ops, Poll, poll, threw, call_link,
  handle, dispatch_from,
}
use libtscb.Childproc.Registry.{
  ops_of, watches, connects-ops_of, disconnect_registry, run_ops_registry, calls_of, IsSettled,
  IsDying-IsIn, IsIn-append, IsIn-middle, IsSettled-Kept, Kept, IsHandled, disconnect-same,
  run_ops-same, disconnect-connected,
}

module _ (wait : List Poll → ℕ → Reply) (call : ℕ → Reply → Monitor → List Op × Bool) where
  -- What the visit of a link does.
  pub record Step (m : Monitor) (xs : List ℕ) (p : ℕ) (r : Reply) : Type 0 where
    pub after : Monitor
    pub thrown : Bool
    pub ops : List Signal.Op
    pub fired : Option ℕ
    pub made : handle wait call m p r ≡ (after, thrown, fired)
    pub same : after.registry ≡ Signal.run_ops ops m.registry
    pub handled : IsHandled after p r fired
    pub kept : (q : ℕ) → IsIn q xs → (after.pid q ≡ m.pid q) × (after.function q ≡ m.function q)
    pub few :
        (connects ops ≡ 0) ⊎ ((f : ℕ) × (n : Monitor) × (connects ops ≡ watches (call f r n).0))

  -- The link is disconnected and its function is called.
  record Fired (m : Monitor) (xs : List ℕ) (p : ℕ) (r : Reply) : Type 0 where
    after : Monitor
    thrown : Bool
    ops : List Signal.Op
    function : ℕ
    made : call_link wait call (disconnect m p false) p r ≡ (after, thrown, some function)
    same : after.registry ≡ Signal.run_ops ops m.registry
    own : after.function p ≡ some function
    gone : after.connected p ≡ false
    kept : (q : ℕ) → IsIn q xs → (after.pid q ≡ m.pid q) × (after.function q ≡ m.function q)
    few : (f : ℕ) × (n : Monitor) × (connects ops ≡ watches (call f r n).0)

  fire :
      (m : Monitor) (p : ℕ) (r : Reply) (later sooner : List ℕ)
      → IsSignal m.registry (later ++ (p ∷ sooner))
      → Fired m (later ++ (p ∷ sooner)) p r
  unfolding call_link Signal.run_ops Signal.run_op
  fire m p r later sooner h =
      let xs = later ++ (p ∷ sooner) in
      let m1 = disconnect m p false in
      let e1 = disconnect_registry m p in
      let s1 = Signal.disconnect m.registry p false in
      let h1 : IsSignal s1 xs = disconnect-IsSignal m.registry p xs h in
      let h1' : IsSignal m1.registry xs = subst (λ s. IsSignal s xs) (sym e1) h1 in
      let (f, e) = HasFunctions-middle m1.function later p sooner h1'.functions in
      let (os, thrown) = call f r m1 in
      let same = run_ops_registry os m1 ∙ ap (Signal.run_ops (ops_of os)) e1 in
      let g = run_ops-Grown (ops_of os) s1 xs h1 in
      record {
        after = run_ops os m1;
        thrown = thrown;
        ops = Signal.disconnecting p ∷ ops_of os;
        function = f;
        made = rw (e, call_link) refl;
        own = (run_ops-same os m1 xs h1' p (IsIn-middle p later sooner)).1 ∙ e;
        kept = λ q i.
            let (a, b) = run_ops-same os m1 xs h1' q i in
            let (c, k) = disconnect-same m p q in (a ∙ c, b ∙ k);
        same = same;
        gone =
            ap (λ (s : Signal). s.connected p) same
            ∙ IsDying-IsIn s1.connected (Signal.run_ops (ops_of os) s1).connected p xs g.dying
                (IsIn-middle p later sooner) (disconnect-connected m.registry p);
        few = (f, m1, connects-ops_of os);
      }

  pub handle-Step :
      (m : Monitor) (p : ℕ) (r : Reply) (later sooner : List ℕ)
      → IsSignal m.registry (later ++ (p ∷ sooner))
      → Step m (later ++ (p ∷ sooner)) p r
  unfolding handle Signal.run_ops
  handle-Step m p running later sooner h = record {
    after = m;
    thrown = false;
    ops = [];
    fired = none;
    made = refl;
    same = refl;
    handled = refl;
    kept = λ q i. (refl, refl);
    few = inl refl;
  }
  handle-Step m p (exited status) later sooner h =
      let f = fire m p (exited status) later sooner h in
      record {
        after = f.after;
        thrown = f.thrown;
        ops = f.ops;
        fired = some f.function;
        made = f.made;
        same = f.same;
        handled = (f.function, refl, f.own, f.gone);
        kept = f.kept;
        few = inr f.few;
      }
  handle-Step m p failed later sooner h =
      let f = fire m p failed later sooner h in
      record {
        after = f.after;
        thrown = f.thrown;
        ops = f.ops;
        fired = some f.function;
        made = f.made;
        same = f.same;
        handled = (f.function, refl, f.own, f.gone);
        kept = f.kept;
        few = inr f.few;
      }

  pub dispatch_from-link :
      (n : ℕ) (m t : Monitor) (p : ℕ) (log : List Poll) (thrown : Bool) (fired : Option ℕ)
      → p ≢ 0
      → m.connected p ≡ true
      → handle wait call m p (wait log (m.pid p)) ≡ (t, thrown, fired)
      → dispatch_from wait call (suc n) m p log ≡ (
          if thrown
          then threw t (poll p true (wait log (m.pid p)) fired ∷ log)
          else dispatch_from wait call n t
              (t.active_next p)
              (poll p true (wait log (m.pid p)) fired ∷ log))
  unfolding dispatch_from
  dispatch_from-link n m t p log thrown fired z on e =
      let b : (p == 0) ≡ false = ground (arith, z) in rw (b, e, on) refl

  -- The facts about the state after a visit.
  pub record After (m t : Monitor) (p : ℕ) (xs : List ℕ) (log : List Poll) (k : ℕ) : Type 0 where
    pub new : List ℕ
    pub later : List ℕ
    pub sooner : List ℕ
    pub split : new ++ xs ≡ later ++ sooner
    pub valid : IsSignal t.registry (new ++ xs)
    pub visited : Visits t.connected sooner (calls_of log)
    pub next : Next t.connected (new ++ xs) (calls_of log) (t.active_next p)
    pub settled : IsSettled wait t (new ++ xs) log
    pub few : size new ≤ k

  pub Step-After :
      (m : Monitor) (p : ℕ) (later sooner : List ℕ) (log : List Poll)
      → IsSignal m.registry (later ++ (p ∷ sooner))
      → Visits m.connected sooner (calls_of log)
      → IsSettled wait m (later ++ (p ∷ sooner)) log
      → (st : Step m (later ++ (p ∷ sooner)) p (wait log (m.pid p)))
      → After m st.after p
          (later ++ (p ∷ sooner))
          (poll p true (wait log (m.pid p)) st.fired ∷ log)
          (connects st.ops)
  Step-After m p later sooner log h v i st =
      let xs = later ++ (p ∷ sooner) in
      let ad = run_ops-Advance st.ops m.registry p later sooner (calls_of log) h v in
      let u = Signal.run_ops st.ops m.registry in
      let g = ad.grown in
      record {
        new = g.new;
        later = ad.later;
        sooner = ad.sooner;
        split = ad.split;
        valid = subst (λ (s : Signal). IsSignal s (g.new ++ xs)) (sym st.same) g.valid;
        visited =
            subst (λ (s : Signal). Visits s.connected ad.sooner (called p true ∷ calls_of log))
              (sym st.same) ad.visited;
        next =
            subst
              (λ (s : Signal).
                Next s.connected (g.new ++ xs) (called p true ∷ calls_of log) (s.active_next p))
              (sym st.same) ad.next;
        settled =
            let kept : Kept m xs st.after = record {
              pids = λ q k. (st.kept q k).0;
              functions = λ q k. (st.kept q k).1;
              dying =
                  subst (λ (s : Signal). IsDying m.connected s.connected xs) (sym st.same) g.dying;
            } in
            (
              IsIn-append p g.new xs (IsIn-middle p later sooner),
              ap (wait log) (sym (st.kept p (IsIn-middle p later sooner)).0),
              st.handled,
              IsSettled-Kept wait m st.after g.new xs log kept i,
            );
        few = omega (arith, g.few);
      }
