-- ===== src/Signal/Change.antt =====
-- tscb/signal.h: `connect` and `disconnect`, with the links that wait for destruction.
use mathlib.Core.Path.{subst}
use native.Mathlib.Decide.{ℕ_discrete}
use libtscb.Base.{
  ℕ, ◌≡◌, ◌≢◌, inl, inr, Bool, true, false, Bool-cases, update, List, [], ◌∷◌, arith, refl, sym, ap,
  ◌∙◌,
}
use libtscb.Chain.Active.{IsFreeOf, size, IsBack}
use libtscb.Chain.Change.{back-middle}
use libtscb.Signal.{
  Signal, connect, push_back, disconnect, remove, Op, connecting, disconnecting, run_op, run_ops,
}
use libtscb.Chain.Members.{IsIn, Around, around, IsIn-Around, below-IsFreeOf}
use libtscb.Signal.Valid.{IsSignal, connect-IsSignal, disconnect-IsSignal}
use libtscb.Chain.Waiting.{
  IsDeferred-update, kept, IsPending, IsCovered, IsDeferred, alive-IsFreeOf, kept-update, kept_dies,
}
use libtscb.Signal.Synchronize.{HasDeferred}

IsPending-alive :
    (alive : ℕ → Bool) (q : ℕ) (b : Bool) (xs ds : List ℕ)
    → IsFreeOf q ds
    → IsPending alive xs ds
    → IsPending (update alive q b) xs ds
IsPending-alive alive q b xs [] f h = tt
IsPending-alive alive q b xs (d ∷ ds) f h =
    (h.0, ground (arith, h.1, f.0), h.2, IsPending-alive alive q b xs ds f.1 h.3)

IsPending-cons :
    (alive : ℕ → Bool) (x : ℕ) (xs ds : List ℕ)
    → IsPending alive xs ds
    → IsPending alive (x ∷ xs) ds
IsPending-cons alive x xs [] h = tt
IsPending-cons alive x xs (d ∷ ds) h = (inr h.0, h.1, h.2, IsPending-cons alive x xs ds h.3)

IsCovered-born :
    (alive : ℕ → Bool) (q : ℕ) (ds xs : List ℕ)
    → IsCovered alive ds xs
    → IsCovered (update alive q true) ds xs
IsCovered-born alive q ds [] c = tt
IsCovered-born alive q ds (x ∷ xs) c = (
  elim (c.0) [ inl on ↦ inl (ground (arith, on)) | inr i ↦ inr i ],
  IsCovered-born alive q ds xs c.1,
)

IsCovered-dies :
    (alive : ℕ → Bool) (q : ℕ) (ds xs : List ℕ)
    → IsCovered alive ds xs
    → IsCovered (update alive q false) (q ∷ ds) xs
IsCovered-dies alive q ds [] c = tt
IsCovered-dies alive q ds (x ∷ xs) c = (
  elim (ℕ_discrete q x) [
    | yes e ↦ inr (inl e)
    | no n ↦ elim (c.0) [ inl on ↦ inl (ground (arith, on, n)) | inr i ↦ inr (inr i) ]
  ],
  IsCovered-dies alive q ds xs c.1,
)

IsIn-ne : (d q : ℕ) (xs : List ℕ) → IsIn d xs → IsFreeOf q xs → d ≢ q
IsIn-ne d q [] i f = absurd i
IsIn-ne d q (x ∷ xs) (inl e) f = λ w. f.0 (e ∙ w)
IsIn-ne d q (x ∷ xs) (inr i) f = IsIn-ne d q xs i f.1

pending-IsFreeOf :
    (alive : ℕ → Bool) (q : ℕ) (xs ds : List ℕ)
    → IsFreeOf q xs
    → IsPending alive xs ds
    → IsFreeOf q ds
pending-IsFreeOf alive q xs [] f h = tt
pending-IsFreeOf alive q xs (d ∷ ds) f h =
    (IsIn-ne d q xs h.0 f, pending-IsFreeOf alive q xs ds f h.3)

pub connect-HasDeferred :
    (s : Signal) (f : ℕ) (xs ds : List ℕ)
    → IsSignal s xs
    → HasDeferred s xs ds
    → HasDeferred (connect s f false) (s.next_link ∷ xs) ds
unfolding connect push_back
connect-HasDeferred s f xs ds h k =
    let q = s.next_link in
    let free = below-IsFreeOf q xs h.below in
    let free' = pending-IsFreeOf s.connected q xs ds free k.pending in
    let up : update (update s.connected q true) q true q ≡ true = ground arith in
    let same =
      kept-update (update s.connected q true) q true xs free
      ∙ kept-update s.connected q true xs free in
    record {
      deferred = k.deferred;
      pending = IsPending-cons (update (update s.connected q true) q true) q xs ds (
          IsPending-alive (update s.connected q true) q true xs ds free'
            (IsPending-alive s.connected q true xs ds free' k.pending));
      covered = (
        inl up,
        IsCovered-born (update s.connected q true) q ds xs
            (IsCovered-born s.connected q ds xs k.covered),
      );
      count = rw (up) (omega (arith, k.count, ap size same));
    }

pub removed-HasDeferred :
    (s : Signal) (p : ℕ) (xs ds : List ℕ)
    → IsSignal s xs
    → HasDeferred s xs ds
    → s.connected p ≡ true
    → Around p xs
    → HasDeferred (disconnect s p false) xs (p ∷ ds)
unfolding disconnect remove
removed-HasDeferred s p xs ds h k on (around later sooner e) =
    let free = alive-IsFreeOf s.connected p xs ds on k.pending in
    let (z, f, g, rest) =
      back-middle s.prev s.last p later sooner
        (subst (λ t. IsBack s.prev s.last t) e h.chain.back) in
    let here : update s.deferred_destroy_next p s.deferred_destroy p ≡ s.deferred_destroy =
      ground arith in
    let fewer = kept_dies s.connected p later sooner on f g in
    rw (on) (record {
      deferred = (
        refl,
        z,
        subst (λ t. IsDeferred (update s.deferred_destroy_next p s.deferred_destroy) t ds)
            (sym here)
            (IsDeferred-update s.deferred_destroy_next s.deferred_destroy p s.deferred_destroy ds
              free k.deferred),
      );
      pending = (
        h.members p on,
        ground arith,
        free,
        IsPending-alive s.connected p false xs ds free k.pending,
      );
      covered = IsCovered-dies s.connected p ds xs k.covered;
      count = omega (
        arith,
        k.count,
        fewer,
        ap (λ t. size (kept s.connected t)) e,
        ap (λ t. size (kept (update s.connected p false) t)) e,
      );
    })

-- The signal's chain is `xs`, and `ds` are the links of it that wait for destruction.
pub record Stands (s : Signal) : Type 0 where
  pub links : List ℕ
  pub waiting : List ℕ
  pub valid : IsSignal s links
  pub deferred : HasDeferred s links waiting

run_op-Stands : (o : Op) (s : Signal) → Stands s → Stands (run_op o s)
unfolding run_op disconnect
run_op-Stands (connecting f) s h = record {
  links = s.next_link ∷ h.links;
  waiting = h.waiting;
  valid = connect-IsSignal s f h.links h.valid;
  deferred = connect-HasDeferred s f h.links h.waiting h.valid h.deferred;
}
run_op-Stands (disconnecting p) s h = elim (Bool-cases (s.connected p)) [
  | inl on ↦ record {
    links = h.links;
    waiting = p ∷ h.waiting;
    valid = disconnect-IsSignal s p h.links h.valid;
    deferred =
        removed-HasDeferred s p h.links h.waiting h.valid h.deferred on
          (IsIn-Around p h.links (h.valid.members p on));
  }
  | inr off ↦ rw (disconnect, off) h
]

-- Whatever links connect and disconnect while a call of the signal is in progress, there is still a
-- sequence of links that the chain holds and one that the list to destroy holds.
pub run_ops-Stands : (os : List Op) (s : Signal) → Stands s → Stands (run_ops os s)
unfolding run_ops
run_ops-Stands [] s h = h
run_ops-Stands (o ∷ os) s h = run_ops-Stands os (run_op o s) (run_op-Stands o s h)
