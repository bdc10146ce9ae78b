-- ===== src/Childproc/Registry.antt =====
-- tscb/childproc-monitor.cc: the registry of the links as a signal's, and the links of a log of rounds.
use mathlib.Core.Path.{subst}
use libtscb.Base.{
  ℕ, suc, ◌≡◌, inl, inr, Bool, false, Bool-cases, List, [], ◌∷◌, ◌++◌, arith, refl, sym, ap, ◌∙◌,
  ◌≢◌, Option, none, some,
}
use libtscb.Chain.Walk.{Call, called, IsDying}
use libtscb.Signal.{Signal}
use libtscb.Signal
use libtscb.Chain.Members.{IsIn, below-IsFreeOf}
use libtscb.Signal.Valid.{IsSignal, connects, connect-IsSignal, disconnect-IsSignal}
use libtscb.Chain.Frame.{IsFreeOf-ne}
use libtscb.Childproc.{
  Monitor, remove, disconnect, watch_childproc, Reply, running, exited, failed, Op, watching,
  disconnecting, run_op, run_ops, Poll, poll,
}

-- The same changes, of the registry.
abbrev pub ops_of : List Op → List Signal.Op
ops_of [] = []
ops_of (watching f pid ∷ os) = Signal.connecting f ∷ ops_of os
ops_of (disconnecting p ∷ os) = Signal.disconnecting p ∷ ops_of os

abbrev pub watches : List Op → ℕ
watches [] = 0
watches (watching f pid ∷ os) = suc (watches os)
watches (disconnecting p ∷ os) = watches os

pub connects-ops_of : (os : List Op) → connects (ops_of os) ≡ watches os
connects-ops_of [] = refl
connects-ops_of (watching f pid ∷ os) = ap suc (connects-ops_of os)
connects-ops_of (disconnecting p ∷ os) = connects-ops_of os

pub disconnect_registry :
    (m : Monitor) (p : ℕ) → (disconnect m p false).registry ≡ Signal.disconnect m.registry p false
unfolding disconnect remove Signal.disconnect
disconnect_registry m p = elim (Bool-cases (m.connected p)) [
  | inl on ↦ rw (on) refl
  | inr off ↦ rw (off) refl
]

pub run_ops_registry :
    (os : List Op) (m : Monitor) → (run_ops os m).registry ≡ Signal.run_ops (ops_of os) m.registry
unfolding run_ops run_op watch_childproc Signal.run_ops Signal.run_op
run_ops_registry [] m = refl
run_ops_registry (watching f pid ∷ os) m = run_ops_registry os (watch_childproc m f pid false)
run_ops_registry (disconnecting p ∷ os) m =
    run_ops_registry os (disconnect m p false)
    ∙ ap (Signal.run_ops (ops_of os)) (disconnect_registry m p)

-- The rounds as calls of links.
abbrev pub calls_of : List Poll → List Call
calls_of [] = []
calls_of (poll p b r fired ∷ log) = called p b ∷ calls_of log

-- What a round has done: the function of a link whose process is not running was called once, and
-- the link is disconnected.
abbrev pub IsHandled : Monitor → ℕ → Reply → Option ℕ → Type 0
IsHandled m p running fired = fired ≡ none
IsHandled m p (exited status) fired =
    (f : ℕ) × (fired ≡ some f) × (m.function p ≡ some f) × (m.connected p ≡ false)
IsHandled m p failed fired =
    (f : ℕ) × (fired ≡ some f) × (m.function p ≡ some f) × (m.connected p ≡ false)

-- The links of the log are in the list, the answers are those of `wait4` for their pids, and they have
-- been handled.
abbrev pub IsSettled : (List Poll → ℕ → Reply) → Monitor → List ℕ → List Poll → Type 0
IsSettled wait m xs [] = Unit
IsSettled wait m xs (poll p b r fired ∷ log) =
    IsIn p xs × (r ≡ wait log (m.pid p)) × IsHandled m p r fired × IsSettled wait m xs log

-- The links `xs` keep their pids and functions, and none of them is connected anew.
pub record Kept (m : Monitor) (xs : List ℕ) (t : Monitor) : Type 0 where
  pub pids : (p : ℕ) → IsIn p xs → t.pid p ≡ m.pid p
  pub functions : (p : ℕ) → IsIn p xs → t.function p ≡ m.function p
  pub dying : IsDying m.connected t.connected xs

pub IsDying-IsIn :
    (a b : ℕ → Bool) (p : ℕ) (xs : List ℕ) → IsDying a b xs → IsIn p xs → a p ≡ false → b p ≡ false
IsDying-IsIn a b p [] d i e = absurd i
IsDying-IsIn a b p (x ∷ xs) d (inl w) e = subst (λ t. b t ≡ false) w (d.0 (ap a w ∙ e))
IsDying-IsIn a b p (x ∷ xs) d (inr i) e = IsDying-IsIn a b p xs d.1 i e

pub IsIn-append : (p : ℕ) (xs ys : List ℕ) → IsIn p ys → IsIn p (xs ++ ys)
IsIn-append p [] ys i = i
IsIn-append p (x ∷ xs) ys i = inr (IsIn-append p xs ys i)

pub IsIn-middle : (p : ℕ) (xs ys : List ℕ) → IsIn p (xs ++ (p ∷ ys))
IsIn-middle p [] ys = inl refl
IsIn-middle p (x ∷ xs) ys = inr (IsIn-middle p xs ys)

IsHandled-Kept :
    (m t : Monitor) (xs : List ℕ) (p : ℕ) (r : Reply) (fired : Option ℕ)
    → Kept m xs t
    → IsIn p xs
    → IsHandled m p r fired
    → IsHandled t p r fired
IsHandled-Kept m t xs p running fired k i h = h
IsHandled-Kept m t xs p (exited status) fired k i (f, e, w, off) =
    (f, e, k.functions p i ∙ w, IsDying-IsIn m.connected t.connected p xs k.dying i off)
IsHandled-Kept m t xs p failed fired k i (f, e, w, off) =
    (f, e, k.functions p i ∙ w, IsDying-IsIn m.connected t.connected p xs k.dying i off)

pub IsSettled-Kept :
    (wait : List Poll → ℕ → Reply) (m t : Monitor) (new xs : List ℕ) (log : List Poll)
    → Kept m xs t
    → IsSettled wait m xs log
    → IsSettled wait t (new ++ xs) log
IsSettled-Kept wait m t new xs [] k h = tt
IsSettled-Kept wait m t new xs (poll p b r fired ∷ log) k h = (
  IsIn-append p new xs h.0,
  h.1 ∙ ap (wait log) (sym (k.pids p h.0)),
  IsHandled-Kept m t xs p r fired k h.0 h.2,
  IsSettled-Kept wait m t new xs log k h.3,
)

disconnect-pid : (m : Monitor) (p : ℕ) → (disconnect m p false).pid ≡ m.pid
unfolding disconnect remove
disconnect-pid m p = elim (Bool-cases (m.connected p)) [
  | inl on ↦ rw (on) refl
  | inr off ↦ rw (off) refl
]

disconnect-function : (s : Signal) (p : ℕ) → (Signal.disconnect s p false).function ≡ s.function
unfolding Signal.disconnect Signal.remove
disconnect-function s p = elim (Bool-cases (s.connected p)) [
  | inl on ↦ rw (on) refl
  | inr off ↦ rw (off) refl
]

pub disconnect-same :
    (m : Monitor) (p q : ℕ)
    → ((disconnect m p false).pid q ≡ m.pid q) × ((disconnect m p false).function q ≡ m.function q)
disconnect-same m p q = (
  ap (λ f. f q) (disconnect-pid m p),
  ap (λ (s : Signal). s.function q) (disconnect_registry m p)
      ∙ ap (λ f. f q) (disconnect-function m.registry p),
)

watch-same :
    (m : Monitor) (f pid q : ℕ)
    → q ≢ m.next_link
    → ((watch_childproc m f pid false).pid q ≡ m.pid q)
      × ((watch_childproc m f pid false).function q ≡ m.function q)
unfolding watch_childproc Signal.connect Signal.push_back
watch-same m f pid q d = (ground (arith, d), ground (arith, d))

watch-IsSignal :
    (m : Monitor) (f pid : ℕ) (xs : List ℕ)
    → IsSignal m.registry xs
    → IsSignal (watch_childproc m f pid false).registry (m.next_link ∷ xs)
unfolding watch_childproc
watch-IsSignal m f pid xs h = connect-IsSignal m.registry f xs h

pub run_ops-same :
    (os : List Op) (m : Monitor) (xs : List ℕ)
    → IsSignal m.registry xs
    → (q : ℕ) → IsIn q xs
    → ((run_ops os m).pid q ≡ m.pid q) × ((run_ops os m).function q ≡ m.function q)
unfolding run_ops run_op
run_ops-same [] m xs h q i = (refl, refl)
run_ops-same (watching f pid ∷ os) m xs h q i =
    let new = watch_childproc m f pid false in
    let here =
      watch-same m f pid q
        (IsFreeOf-ne m.next_link q xs i (below-IsFreeOf m.next_link xs h.below)) in
    let rest = run_ops-same os new (m.next_link ∷ xs) (watch-IsSignal m f pid xs h) q (inr i) in
    (rest.0 ∙ here.0, rest.1 ∙ here.1)
run_ops-same (disconnecting p ∷ os) m xs h q i =
    let off = disconnect m p false in
    let here = disconnect-same m p q in
    let rest =
      run_ops-same os off xs
        (subst (λ s. IsSignal s xs) (sym (disconnect_registry m p))
          (disconnect-IsSignal m.registry p xs h))
        q i in
    (rest.0 ∙ here.0, rest.1 ∙ here.1)

pub disconnect-connected : (s : Signal) (p : ℕ) → (Signal.disconnect s p false).connected p ≡ false
unfolding Signal.disconnect Signal.remove
disconnect-connected s p = elim (Bool-cases (s.connected p)) [
  | inl on ↦ rw (on) (ground arith)
  | inr off ↦ rw (off) off
]
