-- ===== src/Handlers/Table/Unlink.antt =====
-- tscb/detail/fd-handler-table.cc: one removed link leaves the full list of its chain.
use mathlib.Core.Path.{subst}
use libtscb.Base.{
  ℕ, ◌≡◌, inl, inr, Bool, true, false, Bool-cases, Option, update, update-elim, List, [], ◌∷◌, ◌++◌,
  arith, refl, sym, ap, ◌∙◌,
}
use libtscb.Chain.Active.{IsFreeOf}
use libtscb.Chain.Change.{IsChain, back-middle}
use libtscb.Chain.Frame.{unlink-SameAt, IsFreeOf-ne}
use libtscb.Chain.Members.{IsIn, IsBelow, HasFunctions}
use libtscb.Chain.Unlink.{unlink_link_lem}
use libtscb.Chain.Waiting.{kept, kept-dead, IsCovered, IsCovered-dead, IsIn-other}
use libtscb.Handlers.Chain.{unlink_removed}
use libtscb.Handlers.Table.{Table, chain_at}
use libtscb.Handlers.Table.Valid.{IsTable, IsReplaced, other-IsFreeOf}
use libtscb.Handlers.Table.Effect.{IsPendingAt}
use libtscb.Handlers.Table.Removed.{IsPendingAt-map, IsCovered-map}

HasFunctions-other :
    (f : ℕ → Option ℕ) (d : ℕ) (xs ys : List ℕ)
    → HasFunctions f (xs ++ (d ∷ ys))
    → HasFunctions f (xs ++ ys)
HasFunctions-other f d [] ys h = h.1
HasFunctions-other f d (x ∷ xs) ys h = (h.0, HasFunctions-other f d xs ys h.1)

IsBelow-other : (n d : ℕ) (xs ys : List ℕ) → IsBelow n (xs ++ (d ∷ ys)) → IsBelow n (xs ++ ys)
IsBelow-other n d [] ys h = h.1
IsBelow-other n d (x ∷ xs) ys h = (h.0, IsBelow-other n d xs ys h.1)

IsIn-more : (x d : ℕ) (xs ys : List ℕ) → IsIn x (xs ++ ys) → IsIn x (xs ++ (d ∷ ys))
IsIn-more x d [] ys k = inr k
IsIn-more x d (y ∷ xs) ys (inl e) = inl e
IsIn-more x d (y ∷ xs) ys (inr k) = inr (IsIn-more x d xs ys k)

filled-made :
    (t : Table) (alive : ℕ → Bool) (xs : ℕ → List ℕ) (i d : ℕ)
    → IsTable t alive xs
    → IsIn d (xs i)
    → t.cookies.made i ≡ true
filled-made t alive xs i d h k = elim (Bool-cases (t.cookies.made i)) [
  | inl m ↦ m
  | inr off ↦ absurd (subst (λ l. IsIn d l) (h.absent i off) k)
]

module _ (t : Table) (alive : ℕ → Bool) (xs : ℕ → List ℕ) (d : ℕ) (later sooner ds : List ℕ)
    (h : IsTable t alive xs) (off : alive d ≡ false) (e : xs (t.fd d) ≡ later ++ (d ∷ sooner)) where
  IsIn-middle : (xs ys : List ℕ) → IsIn d (xs ++ (d ∷ ys))
  IsIn-middle [] ys = inl refl
  IsIn-middle (x ∷ xs) ys = inr (IsIn-middle xs ys)

  here-made : t.cookies.made (t.fd d) ≡ true
  here-made =
      filled-made t alive xs (t.fd d) d h (subst (λ l. IsIn d l) (sym e) (IsIn-middle later sooner))

  now : IsChain (chain_at t (t.fd d)).links alive (later ++ (d ∷ sooner))
  now = subst (λ l. IsChain (chain_at t (t.fd d)).links alive l) e (h.chains (t.fd d) here-made)

  pub unlinked-IsReplaced :
      IsReplaced t alive (t.fd d) (unlink_removed (chain_at t (t.fd d)) d) alive (later ++ sooner)
  unfolding unlink_removed
  unlinked-IsReplaced =
      let i = t.fd d in
      record {
        made = here-made;
        chain = unlink_link_lem (chain_at t i).links alive d later sooner now off;
        others = λ x n. (
          unlink-SameAt (chain_at t i).links alive d later sooner now x
              (subst (λ l. IsFreeOf x l) e (other-IsFreeOf t alive xs h i x n)),
          refl,
          refl,
        );
        places = λ q k. h.places i q (subst (λ l. IsIn q l) (sym e) (IsIn-more q d later sooner k));
        members = λ q w on.
            IsIn-other q d later sooner (λ y. ground (arith, on, off, ap alive y))
              (subst (λ l. IsIn q l) (ap xs w ∙ e) (h.members q on));
        functions =
            HasFunctions-other t.function d later sooner
              (subst (λ l. HasFunctions t.function l) e (h.functions i));
        below =
            IsBelow-other t.next_link d later sooner
              (subst (λ l. IsBelow t.next_link l) e (h.below i));
      }

  pub rest-IsPendingAt :
      IsFreeOf d ds
      → IsPendingAt alive t.fd xs ds
      → IsPendingAt alive t.fd (update xs (t.fd d) (later ++ sooner)) ds
  rest-IsPendingAt f p =
      let i = t.fd d in
      IsPendingAt-map alive alive t.fd t.fd xs (update xs i (later ++ sooner)) ds
        (λ c m k o. (
          update-elim (λ j l. t.fd c ≡ j → IsIn c l) xs i (later ++ sooner)
              (λ w.
                IsIn-other c d later sooner (IsFreeOf-ne d c ds m f)
                  (subst (λ l. IsIn c l) (ap xs w ∙ e) k))
              (λ j n w. subst (λ q. IsIn c (xs q)) w k) (t.fd c) refl,
          o,
        ))
        p

  pub rest-IsCovered :
      ((i : ℕ) → IsCovered alive (d ∷ ds) (xs i))
      → (i : ℕ) → IsCovered alive ds (update xs (t.fd d) (later ++ sooner) i)
  rest-IsCovered c =
      let i = t.fd d in
      let (z, f, g, k) = back-middle t.prev (t.last_of i) d later sooner now.back in
      update-elim (λ j l. IsCovered alive ds l) xs i (later ++ sooner)
        (IsCovered-dead alive d ds later sooner f g
          (subst (λ l. IsCovered alive (d ∷ ds) l) e (c i)))
        (λ j n.
          IsCovered-map alive alive (d ∷ ds) ds (xs j) (λ x k on. inl on)
            (λ x k m. elim m [
              | inl w ↦ absurd (n (sym (h.places j x k) ∙ sym (ap t.fd w)))
              | inr r ↦ inr r
            ])
            (c j))

  pub kept-rest : (i : ℕ) → kept alive (update xs (t.fd d) (later ++ sooner) i) ≡ kept alive (xs i)
  kept-rest =
      update-elim (λ j l. kept alive l ≡ kept alive (xs j)) xs (t.fd d) (later ++ sooner)
        (sym (ap (kept alive) e ∙ kept-dead alive later d sooner off)) (λ j n. refl)
