-- ===== src/Signal/Valid.antt =====
-- tscb/signal.h: the invariant of a signal, when callbacks connect and disconnect.
use mathlib.Core.Path.{subst}
use mathlib.Core.List.{append_assoc}
use libtscb.Base.{
  ℕ, suc, ◌+◌, ◌<◌, ◌≤◌, ◌≡◌, inl, inr, Bool, true, false, Bool-cases, some, update, List, [], ◌∷◌,
  ◌++◌, arith, sym,
}
use native.Mathlib.Decide.{ℕ_discrete}
use libtscb.Chain.{LinkChain, deactivate_link}
use libtscb.Chain.Active.{IsFreeOf, size, IsActive-alive}
use libtscb.Chain.Change.{IsChain, append_link_lem, deactivate_link_lem}
use libtscb.Chain.Walk.{IsDying}
use libtscb.Chain.Members.{
  around, IsIn, IsBelow, HasFunctions, Around, IsIn-Around, below-IsFreeOf, IsBelow-suc,
  HasFunctions-update, size-append, IsDying-update, IsDying-free, IsDying-refl, IsDying-trans,
  IsDying-suffix,
}
use libtscb.Signal.{
  Signal, connect, push_back, remove, disconnect, Op, connecting, disconnecting, run_op, run_ops,
}

-- The chain's links are `xs`, last first, and the active ones are those that are connected. All of
-- them have a function, and addresses that the allocator has given out.
pub record IsSignal (s : Signal) (xs : List ℕ) : Type 0 where
  pub chain : IsChain s.links s.connected xs
  pub members : (p : ℕ) → s.connected p ≡ true → IsIn p xs
  pub functions : HasFunctions s.function xs
  pub below : IsBelow s.next_link xs
  pub sized : size xs < s.next_link

IsChain-alive :
    (c : LinkChain) (alive : ℕ → Bool) (q : ℕ) (b : Bool) (xs : List ℕ)
    → IsFreeOf q xs
    → IsChain c alive xs
    → IsChain c (update alive q b) xs
IsChain-alive c alive q b xs f h = record {
  back = h.back;
  full = h.full;
  actives = IsActive-alive alive c.actives 0 q b xs f h.actives;
}

-- A callback connects.
pub connect-IsSignal :
    (s : Signal) (f : ℕ) (xs : List ℕ)
    → IsSignal s xs
    → IsSignal (connect s f false) (s.next_link ∷ xs)
unfolding connect push_back
connect-IsSignal s f xs h =
    let free = below-IsFreeOf s.next_link xs h.below in
    record {
      chain =
          append_link_lem (s.next_link + 1) (update s.connected s.next_link true) s.links
            s.next_link xs (IsChain-alive s.links s.connected s.next_link true xs free h.chain)
            (omega (arith, h.sized)) free (omega (arith, h.sized));
      members = λ p c. elim (ℕ_discrete s.next_link p) [
        | yes e ↦ inl e
        | no d ↦ inr (h.members p (ground (arith, c, d)))
      ];
      functions = (
        (f, ground arith),
        HasFunctions-update s.function s.next_link (some f) xs free h.functions,
      );
      below = (omega arith, IsBelow-suc s.next_link xs h.below);
      sized = omega (arith, h.sized);
    }

-- A connected link goes to the list of those to destroy.
removed-IsSignal :
    (s : Signal) (p : ℕ) (xs : List ℕ)
    → IsSignal s xs
    → s.connected p ≡ true
    → Around p xs
    → IsSignal
        (record s {
          links = deactivate_link s.next_link s.links p;
          deferred_destroy = p;
          deferred_destroy_next = update s.deferred_destroy_next p s.deferred_destroy;
          connected = update s.connected p false;
        })
        xs
removed-IsSignal s p xs h on (around later sooner e) = record {
  chain =
      subst (λ t. IsChain (deactivate_link s.next_link s.links p) (update s.connected p false) t)
        (sym e)
        (deactivate_link_lem s.next_link s.connected s.links p later sooner
          (subst (λ t. IsChain s.links s.connected t) e h.chain) on
          (subst (λ t. size t < s.next_link) e h.sized));
  members = λ q c. h.members q (ground (arith, c));
  functions = h.functions;
  below = h.below;
  sized = h.sized;
}

pub disconnect-IsSignal :
    (s : Signal) (p : ℕ) (xs : List ℕ) → IsSignal s xs → IsSignal (disconnect s p false) xs
unfolding disconnect remove
disconnect-IsSignal s p xs h = elim (Bool-cases (s.connected p)) [
  | inl on ↦ rw (on) (removed-IsSignal s p xs h on (IsIn-Around p xs (h.members p on)))
  | inr off ↦ rw (off) h
]

abbrev pub connects : List Op → ℕ
connects [] = 0
connects (connecting f ∷ os) = suc (connects os)
connects (disconnecting p ∷ os) = connects os

-- What callbacks can do to a signal: at most `k` new links join, and no old link comes to life.
pub record Grown (s : Signal) (xs : List ℕ) (t : Signal) (k : ℕ) : Type 0 where
  pub new : List ℕ
  pub few : size new ≤ k
  pub valid : IsSignal t (new ++ xs)
  pub dying : IsDying s.connected t.connected xs

run_op-Grown :
    (o : Op) (s : Signal) (xs : List ℕ)
    → IsSignal s xs
    → Grown s xs (run_op o s) (connects (o ∷ []))
unfolding run_op connect push_back disconnect remove
run_op-Grown (connecting f) s xs h = record {
  new = s.next_link ∷ [];
  few = omega arith;
  valid = connect-IsSignal s f xs h;
  dying = IsDying-free s.connected s.next_link xs (below-IsFreeOf s.next_link xs h.below);
}
run_op-Grown (disconnecting p) s xs h = record {
  new = [];
  few = omega arith;
  valid = disconnect-IsSignal s p xs h;
  dying = elim (Bool-cases (s.connected p)) [
    | inl on ↦ rw (disconnect, remove, on) (IsDying-update s.connected p xs)
    | inr off ↦ rw (disconnect, off) (IsDying-refl s.connected xs)
  ];
}

connects-cons : (o : Op) (os : List Op) → connects (o ∷ os) ≡ connects (o ∷ []) + connects os
connects-cons (connecting f) os = omega arith
connects-cons (disconnecting p) os = omega arith

pub run_ops-Grown :
    (os : List Op) (s : Signal) (xs : List ℕ)
    → IsSignal s xs
    → Grown s xs (run_ops os s) (connects os)
unfolding run_ops
run_ops-Grown [] s xs h = record {
  new = [];
  few = omega arith;
  valid = h;
  dying = IsDying-refl s.connected xs;
}
run_ops-Grown (o ∷ os) s xs h =
    let one = run_op-Grown o s xs h in
    let t = run_op o s in
    let more = run_ops-Grown os t (one.new ++ xs) one.valid in
    record {
      new = more.new ++ one.new;
      few = omega (arith, one.few, more.few, size-append more.new one.new, connects-cons o os);
      valid =
          subst (λ w. IsSignal (run_ops os t) w) (sym (append_assoc more.new one.new xs))
            more.valid;
      dying =
          IsDying-trans s.connected t.connected (run_ops os t).connected xs one.dying
            (IsDying-suffix t.connected (run_ops os t).connected one.new xs more.dying);
    }
