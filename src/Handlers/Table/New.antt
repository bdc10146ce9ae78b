-- ===== src/Handlers/Table/New.antt =====
-- tscb/detail/fd-handler-table.h: a new table, and a new link.
use mathlib.Core.Path.{subst}
use libtscb.Base.{ℕ, ◌≡◌, ◌≢◌, Bool, false, some, update, List, [], arith, refl, sym}
use libtscb.Chain.Frame.{IsChain-same, IsFreeOf-ne}
use libtscb.Chain.Members.{IsIn, below-IsFreeOf, IsBelow-suc, HasFunctions-update}
use libtscb.Handlers.Chain.{Events}
use libtscb.Handlers.Chain.Masks.{mask_of}
use libtscb.Handlers.Table.{Table, empty, chain_at, make_link}
use libtscb.Handlers.Table.Valid.{IsTable}
use libtscb.Handlers.Table.Effect.{mask_at, HasRemoved, mask_of-same}
use libtscb.Handlers.Table.Change.{IsNew}
use libtscb.Handlers.Table.Removed.{IsPendingAt-map}

pub empty-IsTable : (n : ℕ) → IsTable (empty n) (λ p. false) (λ i. [])
empty-IsTable n = record {
  chains = λ i m. absurd (ground (arith, m));
  absent = λ i m. refl;
  within = λ i m. absurd (ground (arith, m));
  places = λ i p k. absurd k;
  members = λ p on. absurd (ground (arith, on));
  functions = λ i. tt;
  below = λ i. tt;
  positive = omega arith;
}

pub make_link-IsTable :
    (t : Table) (alive : ℕ → Bool) (xs : ℕ → List ℕ) (f fd : ℕ) (mask : Events)
    → IsTable t alive xs
    → IsTable (make_link t f fd mask) alive xs
unfolding make_link
make_link-IsTable t alive xs f fd mask h =
    let p = t.next_link in
    let free = λ (i : ℕ). below-IsFreeOf p (xs i) (h.below i) in
    record {
      chains = λ i m.
          IsChain-same (chain_at t i).links (chain_at (make_link t f fd mask) i).links alive alive
            (xs i) refl refl refl
            (λ x k. (record { active_next = refl; prev = refl; next = refl }, refl)) (h.chains i m);
      absent = h.absent;
      within = h.within;
      places = λ i q k.
          let other : q ≢ p = IsFreeOf-ne p q (xs i) k (free i) in
          ground (arith, other, h.places i q k);
      members = λ q on.
          let k = h.members q on in
          let other : q ≢ p = IsFreeOf-ne p q (xs (t.fd q)) k (free (t.fd q)) in
          let same : update t.fd p fd q ≡ t.fd q = ground (arith, other) in
          subst (λ j. IsIn q (xs j)) (sym same) k;
      functions = λ i. HasFunctions-update t.function p (some f) (xs i) (free i) (h.functions i);
      below = λ i. IsBelow-suc p (xs i) (h.below i);
      positive = omega arith;
    }

pub make_link-HasRemoved :
    (t : Table) (alive : ℕ → Bool) (xs : ℕ → List ℕ) (ds : List ℕ) (f fd : ℕ) (mask : Events)
    → IsTable t alive xs
    → HasRemoved t alive xs ds
    → HasRemoved (make_link t f fd mask) alive xs ds
unfolding make_link
make_link-HasRemoved t alive xs ds f fd mask h k =
    let p = t.next_link in
    record {
      listed = k.listed;
      pending =
          IsPendingAt-map alive alive t.fd (update t.fd p fd) xs xs ds
            (λ q m i off.
              let other : q ≢ p =
                IsFreeOf-ne p q (xs (t.fd q)) i
                  (below-IsFreeOf p (xs (t.fd q)) (h.below (t.fd q))) in
              let same : update t.fd p fd q ≡ t.fd q = ground (arith, other) in
              (subst (λ j. IsIn q (xs j)) (sym same) i, off))
            k.pending;
      covered = k.covered;
    }

-- The new link's mask is in no chain yet.
pub make_link-mask :
    (t : Table) (alive : ℕ → Bool) (xs : ℕ → List ℕ) (f fd : ℕ) (mask : Events) (i : ℕ)
    → IsTable t alive xs
    → mask_at (make_link t f fd mask) alive xs i ≡ mask_at t alive xs i
unfolding make_link mask_of
make_link-mask t alive xs f fd mask i h =
    let p = t.next_link in
    mask_of-same alive t.event_mask (update t.event_mask p mask) (xs i) []
      (λ x k.
        let other : x ≢ p = IsFreeOf-ne p x (xs i) k (below-IsFreeOf p (xs i) (h.below i)) in
        ground (arith, other))
      refl

pub make_link-IsNew :
    (t : Table) (alive : ℕ → Bool) (xs : ℕ → List ℕ) (f fd : ℕ) (mask : Events)
    → IsTable t alive xs
    → IsNew (make_link t f fd mask) alive xs t.next_link
unfolding make_link
make_link-IsNew t alive xs f fd mask h = record {
  some_link = omega (arith, h.positive);
  below = omega arith;
  free = λ i. below-IsFreeOf t.next_link (xs i) (h.below i);
  function = (f, ground arith);
}
