-- ===== src/Signal/Synchronize.antt =====
-- tscb/signal.h: the links that wait for destruction, and `synchronize`.
use mathlib.Core.Path.{subst}
use libtscb.Base.{
  ℕ, zero, suc, ◌+◌, ◌<◌, ◌≤◌, ◌≡◌, Bool, false, List, [], ◌∷◌, ◌++◌, arith, refl, sym, ap, ◌∙◌,
  ◌==◌,
}
use libtscb.Chain.{LinkChain, unlink_link}
use libtscb.Chain.Active.{IsFreeOf, size}
use libtscb.Chain.Change.{IsChain, back-middle}
use libtscb.Chain.Unlink.{unlink_link_lem}
use libtscb.Signal.{Signal, repair, synchronize_top, synchronize_bottom, drop_function, synchronize}
use libtscb.Chain.Members.{Around, around, IsIn-Around, IsBelow}
use libtscb.Signal.Valid.{IsSignal}
use libtscb.Chain.Distinct.{IsDistinct}
use libtscb.Chain.Waiting.{
  kept, HasNone, IsPending, IsCovered, IsDeferred, kept_covered, kept-dead, IsCovered-dead,
  IsPending-other, kept-IsBelow, size-kept, kept-IsIn, alive-IsFreeOf, kept-HasFunctions,
  kept-IsCovered,
}

repair-IsChain :
    (n : ℕ) (next : ℕ → ℕ) (c : LinkChain) (alive : ℕ → Bool) (p : ℕ) (ds xs : List ℕ)
    → size ds < n
    → IsDeferred next p ds
    → IsChain c alive xs
    → IsPending alive xs ds
    → IsCovered alive ds xs
    → IsChain (repair n next c p) alive (kept alive xs)
unfolding repair
repair-IsChain zero next c alive p ds xs l w h d k = absurd (omega arith)
repair-IsChain (suc n) next c alive p [] xs l w h d k =
    rw (w) (subst (λ t. IsChain c alive t) (sym (kept_covered alive xs k)) h)
repair-IsChain (suc n) next c alive p (e ∷ ds) xs l w h d k =
    let b : (e == 0) ≡ false = ground (arith, w.1) in
    rw (w.0, b)
      (go (IsIn-Around e xs d.0)
        (λ zs. repair-IsChain n next (unlink_link c e) alive (next e) ds zs (omega arith) w.2))
  where
    go :
        Around e xs
        → ((zs : List ℕ)
            → IsChain (unlink_link c e) alive zs
            → IsPending alive zs ds
            → IsCovered alive ds zs
            → IsChain (repair n next (unlink_link c e) (next e)) alive (kept alive zs))
        → IsChain (repair n next (unlink_link c e) (next e)) alive (kept alive xs)
    go (around later sooner s) ih =
        let g = subst (λ t. IsChain c alive t) s h in
        let (z, f, f', rest) = back-middle c.prev c.last e later sooner g.back in
        subst (λ t. IsChain (repair n next (unlink_link c e) (next e)) alive t)
          (sym (ap (kept alive) s ∙ kept-dead alive later e sooner d.1))
          (ih (later ++ sooner) (unlink_link_lem c alive e later sooner g d.1)
            (IsPending-other alive e later sooner ds d.2 (subst (λ t. IsPending alive t ds) s d.3))
            (IsCovered-dead alive e ds later sooner f f'
              (subst (λ t. IsCovered alive (e ∷ ds) t) s k)))

-- The links to destroy are `ds`: those of the list that are not connected.
pub record HasDeferred (s : Signal) (xs ds : List ℕ) : Type 0 where
  pub deferred : IsDeferred s.deferred_destroy_next s.deferred_destroy ds
  pub pending : IsPending s.connected xs ds
  pub covered : IsCovered s.connected ds xs
  pub count : size ds + size (kept s.connected xs) ≤ size xs

-- `synchronize_bottom` drops the functions of the links to destroy, and changes nothing else.
record IsDropped (s t : Signal) (ds : List ℕ) : Type 0 where
  links : t.links ≡ s.links
  deferred_destroy : t.deferred_destroy ≡ s.deferred_destroy
  connected : t.connected ≡ s.connected
  next_link : t.next_link ≡ s.next_link
  dropped : HasNone t.function ds
  function : (p : ℕ) → IsFreeOf p ds → t.function p ≡ s.function p

IsPending-IsDistinct : (alive : ℕ → Bool) (xs ds : List ℕ) → IsPending alive xs ds → IsDistinct ds
IsPending-IsDistinct alive xs [] h = tt
IsPending-IsDistinct alive xs (d ∷ ds) h = (h.2, IsPending-IsDistinct alive xs ds h.3)

bottom-IsDropped :
    (n : ℕ) (s : Signal) (p : ℕ) (ds : List ℕ)
    → size ds < n
    → IsDeferred s.deferred_destroy_next p ds
    → IsDistinct ds
    → IsDropped s (synchronize_bottom n s p) ds
unfolding synchronize_bottom drop_function
bottom-IsDropped zero s p ds l w k = absurd (omega arith)
bottom-IsDropped (suc n) s p [] l w k = rw (w) (record {
  links = refl;
  deferred_destroy = refl;
  connected = refl;
  next_link = refl;
  dropped = tt;
  function = λ q f. refl;
})
bottom-IsDropped (suc n) s p (d ∷ ds) l w k =
    let b : (d == 0) ≡ false = ground (arith, w.1) in
    let h =
      bottom-IsDropped n (drop_function s d) (s.deferred_destroy_next d) ds (omega arith) w.2 k.1 in
    rw (w.0, b)
      (record {
        links = h.links;
        deferred_destroy = h.deferred_destroy;
        connected = h.connected;
        next_link = h.next_link;
        dropped = (h.function d k.0 ∙ ground arith, h.dropped);
        function = λ q f. h.function q f.1 ∙ ground (arith, f.0);
      })

pub record IsSynchronized (s : Signal) (xs ds : List ℕ) (t : Signal) : Type 0 where
  pub valid : IsSignal t (kept s.connected xs)
  pub deferred : HasDeferred t (kept s.connected xs) []
  pub connected : t.connected ≡ s.connected
  pub dropped : HasNone t.function ds

-- `synchronize`: exactly the links that are still connected remain, in their order, all others are
-- out of the chain and their functions are dropped, and no link waits for destruction any more.
pub synchronize_lem :
    (s : Signal) (xs ds : List ℕ)
    → IsSignal s xs
    → HasDeferred s xs ds
    → IsSynchronized s xs ds (synchronize s)
unfolding synchronize synchronize_top
synchronize_lem s xs ds h k =
    let short : size ds < s.next_link = omega (arith, k.count, h.sized) in
    let (u, p) = synchronize_top s in
    let b =
      bottom-IsDropped s.next_link u p ds short k.deferred
        (IsPending-IsDistinct s.connected xs ds k.pending) in
    let c =
      repair-IsChain s.next_link s.deferred_destroy_next s.links s.connected s.deferred_destroy ds
        xs short k.deferred h.chain k.pending k.covered in
    record {
      valid = record {
        chain =
            subst (λ l. IsChain l (synchronize s).connected (kept s.connected xs)) (sym b.links)
              (subst
                (λ f.
                  IsChain (repair s.next_link s.deferred_destroy_next s.links s.deferred_destroy) f
                    (kept s.connected xs))
                (sym b.connected) c);
        members = λ q e.
            kept-IsIn s.connected q xs (ap (λ f. f q) (sym b.connected) ∙ e)
              (h.members q (ap (λ f. f q) (sym b.connected) ∙ e));
        functions =
            kept-HasFunctions s.connected s.function (synchronize s).function xs
              (λ q e. b.function q (alive-IsFreeOf s.connected q xs ds e k.pending)) h.functions;
        below =
            subst (λ n. IsBelow n (kept s.connected xs)) (sym b.next_link)
              (kept-IsBelow s.connected s.next_link xs h.below);
        sized = omega (arith, b.next_link, h.sized, size-kept s.connected xs);
      };
      deferred = record {
        deferred = b.deferred_destroy;
        pending = tt;
        covered =
            subst (λ f. IsCovered f [] (kept s.connected xs)) (sym b.connected)
              (kept-IsCovered s.connected xs);
        count = ground (
          arith,
          kept_covered s.connected (kept s.connected xs) (kept-IsCovered s.connected xs),
          b.connected,
        );
      };
      connected = b.connected;
      dropped = b.dropped;
    }
