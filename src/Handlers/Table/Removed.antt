-- ===== src/Handlers/Table/Removed.antt =====
-- tscb/detail/fd-handler-table.cc: the list of removed links, through `insert`, `modify` and `remove`.
use mathlib.Core.Path.{subst}
use native.Mathlib.Decide.{ℕ_discrete}
use libtscb.Base.{
  ℕ, ◌≡◌, ◌≢◌, ◌⊎◌, inl, inr, Bool, true, false, update, update-elim, List, [], ◌∷◌, arith, refl,
  sym, ap,
}
use libtscb.Chain.Active.{IsFreeOf}
use libtscb.Chain.Frame.{IsFreeOf-ne}
use libtscb.Chain.Members.{IsIn}
use libtscb.Chain.Waiting.{IsDeferred-update, IsCovered, IsDeferred}
use libtscb.Handlers.Chain.{remove_link}
use libtscb.Handlers.Table.{Table, remove}
use libtscb.Handlers.Table.Effect.{IsPendingAt, HasRemoved}

pub IsPendingAt-map :
    (alive alive' : ℕ → Bool) (fd fd' : ℕ → ℕ) (xs xs' : ℕ → List ℕ) (ds : List ℕ)
    → ((d : ℕ)
        → IsIn d ds
        → IsIn d (xs (fd d))
        → alive d ≡ false
        → IsIn d (xs' (fd' d)) × (alive' d ≡ false))
    → IsPendingAt alive fd xs ds
    → IsPendingAt alive' fd' xs' ds
IsPendingAt-map alive alive' fd fd' xs xs' [] e h = tt
IsPendingAt-map alive alive' fd fd' xs xs' (d ∷ ds) e h =
    let (i, off) = e d (inl refl) h.0 h.1 in
    (i, off, h.2, IsPendingAt-map alive alive' fd fd' xs xs' ds (λ c k. e c (inr k)) h.3)

pub IsCovered-map :
    (alive alive' : ℕ → Bool) (ds ds' xs : List ℕ)
    → ((x : ℕ) → IsIn x xs → alive x ≡ true → (alive' x ≡ true) ⊎ IsIn x ds')
    → ((x : ℕ) → IsIn x xs → IsIn x ds → (alive' x ≡ true) ⊎ IsIn x ds')
    → IsCovered alive ds xs
    → IsCovered alive' ds' xs
IsCovered-map alive alive' ds ds' [] e f h = tt
IsCovered-map alive alive' ds ds' (x ∷ xs) e f h = (
  elim (h.0) [ inl on ↦ e x (inl refl) on | inr k ↦ f x (inl refl) k ],
  IsCovered-map alive alive' ds ds' xs (λ y k. e y (inr k)) (λ y k. f y (inr k)) h.1,
)

-- No list of removed links changes when a link joins.
pub joined-HasRemoved :
    (t u : Table) (alive : ℕ → Bool) (xs : ℕ → List ℕ) (i p : ℕ) (ds : List ℕ)
    → u.fd ≡ t.fd
    → u.inactive ≡ t.inactive
    → u.inactive_next ≡ t.inactive_next
    → ((j : ℕ) → IsFreeOf p (xs j))
    → HasRemoved t alive xs ds
    → HasRemoved u (update alive p true) (update xs i (p ∷ xs i)) ds
joined-HasRemoved t u alive xs i p ds a b c free h = record {
  listed =
      subst (λ n. IsDeferred n u.inactive ds) (sym c)
        (subst (λ q. IsDeferred t.inactive_next q ds) (sym b) h.listed);
  pending =
      subst (λ f. IsPendingAt (update alive p true) f (update xs i (p ∷ xs i)) ds) (sym a)
        (IsPendingAt-map alive (update alive p true) t.fd t.fd xs (update xs i (p ∷ xs i)) ds
          (λ d m k off.
            let other : d ≢ p = IsFreeOf-ne p d (xs (t.fd d)) k (free (t.fd d)) in
            (
              update-elim (λ j l. IsIn d (xs j) → IsIn d l) xs i (p ∷ xs i) inr (λ j n k. k)
                  (t.fd d) k,
              ground (arith, off, other),
            ))
          h.pending);
  covered =
      let keep = λ (l : List ℕ).
        IsCovered-map alive (update alive p true) ds ds l (λ x k on. inl (ground (arith, on)))
          (λ x k m. inr m) in
      update-elim (λ j l. IsCovered (update alive p true) ds l) xs i (p ∷ xs i)
        (inl (ground arith), keep (xs i) (h.covered i)) (λ j n. keep (xs j) (h.covered j));
}

pub same-HasRemoved :
    (t u : Table) (alive : ℕ → Bool) (xs : ℕ → List ℕ) (ds : List ℕ)
    → u.fd ≡ t.fd
    → u.inactive ≡ t.inactive
    → u.inactive_next ≡ t.inactive_next
    → HasRemoved t alive xs ds
    → HasRemoved u alive xs ds
same-HasRemoved t u alive xs ds a b c h = record {
  listed =
      subst (λ n. IsDeferred n u.inactive ds) (sym c)
        (subst (λ q. IsDeferred t.inactive_next q ds) (sym b) h.listed);
  pending = subst (λ f. IsPendingAt alive f xs ds) (sym a) h.pending;
  covered = h.covered;
}

pub pending-IsFreeOf :
    (alive : ℕ → Bool) (fd : ℕ → ℕ) (xs : ℕ → List ℕ) (p : ℕ) (ds : List ℕ)
    → alive p ≡ true
    → IsPendingAt alive fd xs ds
    → IsFreeOf p ds
pending-IsFreeOf alive fd xs p [] on h = tt
pending-IsFreeOf alive fd xs p (d ∷ ds) on h =
    (λ e. ground (arith, h.1, on, ap alive e), pending-IsFreeOf alive fd xs p ds on h.3)

-- `remove` puts its link at the head of the list.
pub remove-HasRemoved :
    (t : Table) (alive : ℕ → Bool) (xs : ℕ → List ℕ) (p : ℕ) (ds : List ℕ)
    → p ≢ 0
    → IsIn p (xs (t.fd p))
    → alive p ≡ true
    → HasRemoved t alive xs ds
    → HasRemoved (remove t p).0 (update alive p false) xs (p ∷ ds)
unfolding remove remove_link
remove-HasRemoved t alive xs p ds z i on h =
    let free = pending-IsFreeOf alive t.fd xs p ds on h.pending in
    let here : update t.inactive_next p t.inactive p ≡ t.inactive = ground arith in
    record {
      listed = (
        refl,
        z,
        subst (λ q. IsDeferred (update t.inactive_next p t.inactive) q ds) (sym here)
            (IsDeferred-update t.inactive_next t.inactive p t.inactive ds free h.listed),
      );
      pending = (
        i,
        ground arith,
        free,
        IsPendingAt-map alive (update alive p false) t.fd t.fd xs xs ds
            (λ d m k off. (k, ground (arith, off))) h.pending,
      );
      covered = λ j.
          IsCovered-map alive (update alive p false) ds (p ∷ ds) (xs j)
            (λ x k up. elim (ℕ_discrete p x) [
              | yes e ↦ inr (inl e)
              | no d ↦ inl (ground (arith, up, d))
            ])
            (λ x k m. inr (inr m)) (h.covered j);
    }
