-- ===== src/Chain/Distinct.antt =====
-- How many links there can be, and links that are in no list.
use libtscb.Base.{
  ℕ, zero, suc, ◌<◌, ◌≤◌, ◌≡◌, inl, inr, ◌==◌, true, false, if◌then◌else◌, List, [], ◌∷◌, arith,
}
use native.Mathlib.Decide.{ℕ_discrete}
use libtscb.Chain.Active.{IsFreeOf, size, IsBack}
use libtscb.Chain.Change.{null-IsFreeOf}
use libtscb.Chain.Members.{IsIn, IsBelow}

pub absent-IsFreeOf : (x : ℕ) (xs : List ℕ) → (IsIn x xs → ⊥) → IsFreeOf x xs
absent-IsFreeOf x [] h = tt
absent-IsFreeOf x (y ∷ xs) h = (λ e. h (inl e), absent-IsFreeOf x xs (λ i. h (inr i)))

abbrev pub IsDistinct : List ℕ → Type 0
IsDistinct [] = Unit
IsDistinct (d ∷ ds) = IsFreeOf d ds × IsDistinct ds

without : ℕ → List ℕ → List ℕ
without n [] = []
without n (x ∷ xs) = if x == n then without n xs else x ∷ without n xs

without-free : (n : ℕ) (xs : List ℕ) → IsFreeOf n xs → size (without n xs) ≡ size xs
unfolding without
without-free n [] f = omega arith
without-free n (x ∷ xs) f = ground (arith, f.0, without-free n xs f.1)

size-without : (n : ℕ) (xs : List ℕ) → IsDistinct xs → size xs ≤ suc (size (without n xs))
unfolding without
size-without n [] d = omega arith
size-without n (x ∷ xs) d = elim (ℕ_discrete x n) [
  | yes e ↦ ground (arith, e, without-free x xs d.0)
  | no k ↦ ground (arith, k, size-without n xs d.1)
]

without-IsFreeOf : (x n : ℕ) (xs : List ℕ) → IsFreeOf x xs → IsFreeOf x (without n xs)
unfolding without
without-IsFreeOf x n [] f = tt
without-IsFreeOf x n (y ∷ xs) f = elim (ℕ_discrete y n) [
  | yes e ↦ let b : (y == n) ≡ true = ground (arith, e) in rw (b) (without-IsFreeOf x n xs f.1)
  | no k ↦ let b : (y == n) ≡ false = ground (arith, k) in rw (b) (f.0, without-IsFreeOf x n xs f.1)
]

without-IsDistinct : (n : ℕ) (xs : List ℕ) → IsDistinct xs → IsDistinct (without n xs)
unfolding without
without-IsDistinct n [] d = tt
without-IsDistinct n (x ∷ xs) d = elim (ℕ_discrete x n) [
  | yes e ↦ let b : (x == n) ≡ true = ground (arith, e) in rw (b) (without-IsDistinct n xs d.1)
  | no k ↦
      let b : (x == n) ≡ false = ground (arith, k) in
      rw (b) (without-IsFreeOf x n xs d.0, without-IsDistinct n xs d.1)
]

without-IsBelow : (n : ℕ) (xs : List ℕ) → IsBelow (suc n) xs → IsBelow n (without n xs)
unfolding without
without-IsBelow n [] h = tt
without-IsBelow n (x ∷ xs) h = elim (ℕ_discrete x n) [
  | yes e ↦ let b : (x == n) ≡ true = ground (arith, e) in rw (b) (without-IsBelow n xs h.1)
  | no k ↦
      let b : (x == n) ≡ false = ground (arith, k) in
      rw (b) (omega (arith, h.0, k), without-IsBelow n xs h.1)
]

-- Different links below `n` are at most `n` many.
pub distinct-size : (n : ℕ) (xs : List ℕ) → IsDistinct xs → IsBelow n xs → size xs ≤ n
distinct-size zero [] d b = omega arith
distinct-size zero (x ∷ xs) d b = absurd (omega (arith, b.0))
distinct-size (suc n) xs d b = omega (
  arith,
  size-without n xs d,
  distinct-size n (without n xs) (without-IsDistinct n xs d) (without-IsBelow n xs b),
)

IsBack-IsDistinct : (prev : ℕ → ℕ) (p : ℕ) (xs : List ℕ) → IsBack prev p xs → IsDistinct xs
IsBack-IsDistinct prev p [] b = tt
IsBack-IsDistinct prev p (x ∷ xs) b = (b.2, IsBack-IsDistinct prev (prev x) xs b.3)

pub back-size :
    (prev : ℕ → ℕ) (p n : ℕ) (xs : List ℕ) → 0 < n → IsBack prev p xs → IsBelow n xs → size xs < n
back-size prev p n xs l b h = omega (
  arith,
  distinct-size n (0 ∷ xs) (null-IsFreeOf prev p xs b, IsBack-IsDistinct prev p xs b) (l, h),
)
