-- ===== src/Handlers/Table/UnlinkAll.antt =====
-- tscb/detail/fd-handler-table.cc: the loop of `synchronize` over the removed links.
use mathlib.Core.Path.{subst, fun_ext}
use libtscb.Base.{
  ℕ, zero, suc, ◌<◌, ◌≡◌, ◌==◌, Bool, false, update, List, [], ◌∷◌, ◌++◌, arith, refl, sym, ◌∙◌,
}
use libtscb.Chain.Active.{size}
use libtscb.Chain.Members.{Around, around, IsIn-Around}
use libtscb.Chain.Waiting.{kept, kept_covered, IsCovered, IsDeferred}
use libtscb.Handlers.Chain.{unlink_removed}
use libtscb.Handlers.Table.{Table, chain_at, put_chain, unlink_all}
use libtscb.Handlers.Table.Valid.{IsTable, put-IsTable}
use libtscb.Handlers.Table.Effect.{IsPendingAt}
use libtscb.Handlers.Table.Unlink.{unlinked-IsReplaced, rest-IsPendingAt, rest-IsCovered, kept-rest}

-- The loop takes the links `ds` out, and leaves all but the chains alone.
pub record IsUnlinked (t : Table) (alive : ℕ → Bool) (xs : ℕ → List ℕ) (u : Table) : Type 0 where
  pub valid : IsTable u alive (λ i. kept alive (xs i))
  pub fd : u.fd ≡ t.fd
  pub event_mask : u.event_mask ≡ t.event_mask
  pub next_link : u.next_link ≡ t.next_link
  pub function : u.function ≡ t.function
  pub inactive_next : u.inactive_next ≡ t.inactive_next
  pub inactive : u.inactive ≡ t.inactive
  pub cookies : u.cookies ≡ t.cookies
  pub old : u.old ≡ t.old

IsUnlinked-step :
    (t : Table) (alive : ℕ → Bool) (xs ys : ℕ → List ℕ) (u v : Table)
    → ((i : ℕ) → kept alive (ys i) ≡ kept alive (xs i))
    → u.fd ≡ t.fd
    → u.event_mask ≡ t.event_mask
    → u.next_link ≡ t.next_link
    → u.function ≡ t.function
    → u.inactive_next ≡ t.inactive_next
    → u.inactive ≡ t.inactive
    → u.cookies ≡ t.cookies
    → u.old ≡ t.old
    → IsUnlinked u alive ys v
    → IsUnlinked t alive xs v
IsUnlinked-step t alive xs ys u v k a b c d e f g o h = record {
  valid = subst (λ l. IsTable v alive l) (fun_ext k) h.valid;
  fd = h.fd ∙ a;
  event_mask = h.event_mask ∙ b;
  next_link = h.next_link ∙ c;
  function = h.function ∙ d;
  inactive_next = h.inactive_next ∙ e;
  inactive = h.inactive ∙ f;
  cookies = h.cookies ∙ g;
  old = h.old ∙ o;
}

pub unlink_all-IsUnlinked :
    (n : ℕ) (t : Table) (alive : ℕ → Bool) (xs : ℕ → List ℕ) (p : ℕ) (ds : List ℕ)
    → size ds < n
    → IsTable t alive xs
    → IsDeferred t.inactive_next p ds
    → IsPendingAt alive t.fd xs ds
    → ((i : ℕ) → IsCovered alive ds (xs i))
    → IsUnlinked t alive xs (unlink_all n t p)
unfolding unlink_all unlink_removed
unlink_all-IsUnlinked zero t alive xs p ds l h w d c = absurd (omega arith)
unlink_all-IsUnlinked (suc n) t alive xs p [] l h w d c = rw (w) (record {
  valid = subst (λ l. IsTable t alive l) (fun_ext (λ i. sym (kept_covered alive (xs i) (c i)))) h;
  fd = refl;
  event_mask = refl;
  next_link = refl;
  function = refl;
  inactive_next = refl;
  inactive = refl;
  cookies = refl;
  old = refl;
})
unlink_all-IsUnlinked (suc n) t alive xs p (e ∷ ds) l h w d c =
    let b : (e == 0) ≡ false = ground (arith, w.1) in
    rw (w.0, b)
      (go (IsIn-Around e (xs (t.fd e)) d.0)
        (λ u ys. unlink_all-IsUnlinked n u alive ys (t.inactive_next e) ds (omega arith)))
  where
    next : Table
    next = put_chain t (t.fd e) (unlink_removed (chain_at t (t.fd e)) e)

    go :
        Around e (xs (t.fd e))
        → ((u : Table) (ys : ℕ → List ℕ)
            → IsTable u alive ys
            → IsDeferred u.inactive_next (t.inactive_next e) ds
            → IsPendingAt alive u.fd ys ds
            → ((i : ℕ) → IsCovered alive ds (ys i))
            → IsUnlinked u alive ys (unlink_all n u (t.inactive_next e)))
        → IsUnlinked t alive xs (unlink_all n next (t.inactive_next e))
    go (around later sooner s) ih =
        let ys = update xs (t.fd e) (later ++ sooner) in
        IsUnlinked-step t alive xs ys next (unlink_all n next (t.inactive_next e))
          (kept-rest t alive xs e later sooner ds h d.1 s) refl refl refl refl refl refl refl refl
          (ih next ys
            (put-IsTable t alive xs h (t.fd e) (unlink_removed (chain_at t (t.fd e)) e) alive
              (later ++ sooner) (unlinked-IsReplaced t alive xs e later sooner ds h d.1 s))
            w.2 (rest-IsPendingAt t alive xs e later sooner ds h d.1 s d.2 d.3)
            (rest-IsCovered t alive xs e later sooner ds h d.1 s c))
