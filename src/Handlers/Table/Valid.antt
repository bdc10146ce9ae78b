-- ===== src/Handlers/Table/Valid.antt =====
-- tscb/detail/fd-handler-table.cc: the invariant of a table, and a change of one of its chains.
use mathlib.Core.Path.{subst}
use libtscb.Base.{
  ℕ, ◌<◌, ◌≡◌, ◌≢◌, inl, inr, Bool, true, false, Bool-cases, update, update-elim, List, [], arith,
  refl, sym, ◌∙◌,
}
use libtscb.Chain.Active.{IsFreeOf, size}
use libtscb.Chain.Change.{IsChain}
use libtscb.Chain.Distinct.{back-size, absent-IsFreeOf}
use libtscb.Chain.Frame.{SameAt, IsChain-same}
use libtscb.Chain.Members.{IsIn, IsBelow, HasFunctions}
use libtscb.Handlers.Chain.{HandlerChain}
use libtscb.Handlers.Table.{Table, chain_at, put_chain}

-- The chains of the entries are `xs`, last link first, and the active links are those that are
-- alive. Each link stands in the chain of its descriptor and has a function.
pub record IsTable (t : Table) (alive : ℕ → Bool) (xs : ℕ → List ℕ) : Type 0 where
  pub chains : (i : ℕ) → t.cookies.made i ≡ true → IsChain (chain_at t i).links alive (xs i)
  pub absent : (i : ℕ) → t.cookies.made i ≡ false → xs i ≡ []
  pub within : (i : ℕ) → t.cookies.made i ≡ true → i < t.capacity
  pub places : (i p : ℕ) → IsIn p (xs i) → t.fd p ≡ i
  pub members : (p : ℕ) → alive p ≡ true → IsIn p (xs (t.fd p))
  pub functions : (i : ℕ) → HasFunctions t.function (xs i)
  pub below : (i : ℕ) → IsBelow t.next_link (xs i)
  pub positive : 0 < t.next_link

-- The fields of a table that the change of a chain leaves alone, apart from lists of removed links.
pub put-same :
    (t : Table) (i j : ℕ) (c : HandlerChain) (alive alive' : ℕ → Bool) (xs : List ℕ)
    → i ≢ j
    → ((x : ℕ) → IsIn x xs → SameAt (chain_at t i).links c.links x × (alive' x ≡ alive x))
    → IsChain (chain_at t j).links alive xs
    → IsChain (chain_at (put_chain t i c) j).links alive' xs
put-same t i j c alive alive' xs d e h =
    IsChain-same (chain_at t j).links (chain_at (put_chain t i c) j).links alive alive' xs
      (ground (arith, d)) (ground (arith, d)) (ground (arith, d))
      (λ x k.
        let (s, l) = e x k in
        (record { active_next = s.active_next; prev = s.prev; next = s.next }, l))
      h

pub put-here :
    (t : Table) (i : ℕ) (c : HandlerChain) (alive : ℕ → Bool) (xs : List ℕ)
    → IsChain c.links alive xs
    → IsChain (chain_at (put_chain t i c) i).links alive xs
put-here t i c alive xs h =
    IsChain-same c.links (chain_at (put_chain t i c) i).links alive alive xs (ground arith)
      (ground arith) (ground arith)
      (λ x k. (record { active_next = refl; prev = refl; next = refl }, refl)) h

-- What a change of chain `i` to `ys` has to show.
pub record IsReplaced (t : Table) (alive : ℕ → Bool) (i : ℕ) (c : HandlerChain) (alive' : ℕ → Bool)
    (ys : List ℕ) : Type 0 where
  pub made : t.cookies.made i ≡ true
  pub chain : IsChain c.links alive' ys
  pub others :
      (x : ℕ)
      → t.fd x ≢ i
      → SameAt (chain_at t i).links c.links x
        × (alive' x ≡ alive x)
        × (c.event_mask x ≡ t.event_mask x)
  pub places : (p : ℕ) → IsIn p ys → t.fd p ≡ i
  pub members : (p : ℕ) → t.fd p ≡ i → alive' p ≡ true → IsIn p ys
  pub functions : HasFunctions t.function ys
  pub below : IsBelow t.next_link ys

module _ (t : Table) (alive : ℕ → Bool) (xs : ℕ → List ℕ) (h : IsTable t alive xs) where
  pub sized : (i : ℕ) → t.cookies.made i ≡ true → size (xs i) < t.next_link
  sized i m =
      back-size t.prev (t.last_of i) t.next_link (xs i) h.positive (h.chains i m).back (h.below i)

  pub other-IsFreeOf : (i p : ℕ) → t.fd p ≢ i → IsFreeOf p (xs i)
  other-IsFreeOf i p d = absent-IsFreeOf p (xs i) (λ k. d (h.places i p k))

  -- The chain of a link that is alive is there.
  pub alive-made : (p : ℕ) → alive p ≡ true → t.cookies.made (t.fd p) ≡ true
  alive-made p on = elim (Bool-cases (t.cookies.made (t.fd p))) [
    | inl m ↦ m
    | inr off ↦ absurd (subst (λ l. IsIn p l) (h.absent (t.fd p) off) (h.members p on))
  ]

  pub put-IsTable :
      (i : ℕ) (c : HandlerChain) (alive' : ℕ → Bool) (ys : List ℕ)
      → IsReplaced t alive i c alive' ys
      → IsTable (put_chain t i c) alive' (update xs i ys)
  put-IsTable i c alive' ys r = record {
    chains =
        update-elim
          (λ j l. t.cookies.made j ≡ true → IsChain (chain_at (put_chain t i c) j).links alive' l)
          xs i ys (λ m. put-here t i c alive' ys r.chain)
          (λ j d m.
            put-same t i j c alive alive' (xs j) (λ e. d (sym e))
              (λ x k. let (s, l, m) = r.others x (λ e. d (sym (h.places j x k) ∙ e)) in (s, l))
              (h.chains j m));
    absent =
        update-elim (λ j l. t.cookies.made j ≡ false → l ≡ []) xs i ys
          (λ m. absurd (ground (arith, r.made, m))) (λ j d. h.absent j);
    within = h.within;
    places = λ j p.
        update-elim (λ j l. IsIn p l → t.fd p ≡ j) xs i ys (r.places p) (λ j d. h.places j p) j;
    members = λ p.
        update-elim (λ j l. t.fd p ≡ j → alive' p ≡ true → IsIn p l) xs i ys (r.members p)
          (λ j d e on.
            subst (λ k. IsIn p (xs k)) e
              (h.members p (sym (r.others p (λ w. d (sym e ∙ w))).1 ∙ on)))
          (t.fd p) refl;
    functions =
        update-elim (λ j l. HasFunctions t.function l) xs i ys r.functions (λ j d. h.functions j);
    below = update-elim (λ j l. IsBelow t.next_link l) xs i ys r.below (λ j d. h.below j);
    positive = h.positive;
  }
