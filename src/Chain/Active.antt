-- ===== src/Chain/Active.antt =====
-- The active list within the full list, and the loop over it.
use mathlib.Core.Path.{subst}
use libtscb.Base.{
  ℕ, zero, suc, ◌<◌, ◌≡◌, ◌≢◌, Bool, Bool-cases, if◌then◌else◌, update, List, [], ◌∷◌, arith, refl,
  inl, inr, sym, ◌∙◌,
}
use libtscb.Chain.{ActiveList, redirect}

-- `p` is not among the links.
abbrev pub IsFreeOf : ℕ → List ℕ → Type 0
IsFreeOf p [] = Unit
IsFreeOf p (x ∷ xs) = (x ≢ p) × IsFreeOf p xs

abbrev pub size : List ℕ → ℕ
size [] = 0
size (x ∷ xs) = suc (size xs)

-- The walk along `prev` from `p` visits the links of the list, all different and none null.
abbrev pub IsBack : (ℕ → ℕ) → ℕ → List ℕ → Type 0
IsBack prev p [] = p ≡ 0
IsBack prev p (x ∷ xs) = (p ≡ x) × (x ≢ 0) × IsFreeOf x xs × IsBack prev (prev x) xs

-- The links stand last first. Each points to the first one after it that is alive, or to `a` if none
-- is, and `active` is the first of all that are alive.
abbrev pub IsActive : (ℕ → Bool) → ActiveList → ℕ → List ℕ → Type 0
IsActive alive s a [] = s.active ≡ a
IsActive alive s a (x ∷ xs) = (s.active_next x ≡ a) × IsActive alive s (if alive x then x else a) xs

pub IsActive-update :
    (alive : ℕ → Bool) (s : ActiveList) (a q v : ℕ) (xs : List ℕ)
    → IsFreeOf q xs
    → IsActive alive s a xs
    → IsActive alive (record s { active_next = update s.active_next q v }) a xs
IsActive-update alive s a q v [] f h = h
IsActive-update alive s a q v (x ∷ xs) f h =
    (ground (arith, h.0, f.0), IsActive-update alive s (if alive x then x else a) q v xs f.1 h.1)

pub IsActive-alive :
    (alive : ℕ → Bool) (s : ActiveList) (a q : ℕ) (b : Bool) (xs : List ℕ)
    → IsFreeOf q xs
    → IsActive alive s a xs
    → IsActive (update alive q b) s a xs
IsActive-alive alive s a q b [] f h = h
IsActive-alive alive s a q b (x ∷ xs) f h = (
  h.0,
  subst (λ t. IsActive (update alive q b) s (if t then x else a) xs) (ground (arith, f.0))
      (IsActive-alive alive s (if alive x then x else a) q b xs f.1 h.1),
)

module _ (prev : ℕ → ℕ) (alive : ℕ → Bool) (old new : ℕ) where
  -- The loop stops at once when nothing points to `old`.
  redirect-stop :
      (n : ℕ) (s : ActiveList) (p x : ℕ) (xs : List ℕ)
      → x ≢ old
      → IsBack prev p xs
      → IsActive alive s x xs
      → redirect n prev old new s p ≡ s
  unfolding redirect
  redirect-stop zero s p x xs d b h = refl
  redirect-stop (suc n) s p x [] d b h = ground (arith, b, h, d)
  redirect-stop (suc n) s p x (y ∷ xs) d b h = ground (arith, b, h.0, d)

  -- What `redirect` does to a list whose last part points to `old`.
  pub record IsRedirected (s t : ActiveList) (xs : List ℕ) : Type 0 where
    pub actives : IsActive alive t new xs
    pub others : (q : ℕ) → IsFreeOf q xs → t.active_next q ≡ s.active_next q

  redirect-cons :
      (n : ℕ) (s : ActiveList) (p x : ℕ) (xs : List ℕ)
      → p ≡ x
      → x ≢ 0
      → s.active_next x ≡ old
      → redirect (suc n) prev old new s p
        ≡ redirect n prev old new (record s { active_next = update s.active_next x new }) (prev x)
  unfolding redirect
  redirect-cons n s p x xs e z o = ground (arith, e, z, o)

  pub redirect_lem :
      (n : ℕ) (s : ActiveList) (p : ℕ) (xs : List ℕ)
      → size xs < n
      → IsBack prev p xs
      → IsFreeOf old xs
      → IsActive alive s old xs
      → IsRedirected s (redirect n prev old new s p) xs
  unfolding redirect
  redirect_lem zero s p xs l b f h = absurd (omega arith)
  redirect_lem (suc n) s p [] l b f h = record {
    actives = ground (arith, b, h);
    others = λ q g. ground (arith, b, h);
  }
  redirect_lem (suc n) s p (x ∷ xs) l b f h =
      let set = record s { active_next = update s.active_next x new } in
      let e = redirect-cons n s p x xs b.0 b.1 h.0 in
      elim (Bool-cases (alive x)) [
        | inl on ↦
            let rest : IsActive alive s x xs =
              subst (λ t. IsActive alive s (if t then x else old) xs) on h.1 in
            let kept = IsActive-update alive s x x new xs b.2 rest in
            subst (λ t. IsRedirected s t (x ∷ xs))
              (sym (e ∙ redirect-stop n set (prev x) x xs f.0 b.3 kept))
              (record {
                actives = (
                  ground (arith),
                  subst (λ t. IsActive alive set (if t then x else new) xs) (sym on) kept,
                );
                others = λ q g. ground (arith, g.0);
              })
        | inr off ↦
            let rest : IsActive alive s old xs =
              subst (λ t. IsActive alive s (if t then x else old) xs) off h.1 in
            let r =
              redirect_lem n set (prev x) xs (omega arith) b.3 f.1
                (IsActive-update alive s old x new xs b.2 rest) in
            let t = redirect n prev old new set (prev x) in
            subst (λ t. IsRedirected s t (x ∷ xs)) (sym e)
              (record {
                actives = (
                  ground (arith, r.others x b.2),
                  subst (λ c. IsActive alive t (if c then x else new) xs) (sym off) r.actives,
                );
                others = λ q g. ground (arith, g.0, r.others q g.1);
              })
      ]
