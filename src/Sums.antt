-- ===== src/Sums.antt =====
-- Sums of the weights of the first values of a function.
use libtscb.Base.{ℕ, zero, suc, ◌+◌, ◌<◌, ◌≤◌, ◌≡◌, ◌≢◌, refl, arith, update, ◌*◌}
use native.Mathlib.Decide.{dec_lt}

module _ {ℓ} {A : Type ℓ} (weight : A → ℕ) where
  -- The weights of the first `n` values together.
  unfoldable pub sum_of : ℕ → (ℕ → A) → ℕ
  sum_of zero f = 0
  sum_of (suc n) f = weight (f n) + sum_of n f

  sum_of-outside :
      (n : ℕ) (f : ℕ → A) (i : ℕ) (a : A) → n ≤ i → sum_of n (update f i a) ≡ sum_of n f
  unfolding sum_of
  sum_of-outside zero f i a h = refl
  sum_of-outside (suc n) f i a h = ground (arith, sum_of-outside n f i a)

  pub sum_of-update :
      (n : ℕ) (f : ℕ → A) (i : ℕ) (a : A)
      → i < n
      → sum_of n (update f i a) + weight (f i) ≡ sum_of n f + weight a
  unfolding sum_of
  sum_of-update zero f i a h = absurd (omega arith)
  sum_of-update (suc n) f i a h = elim (dec_lt i n) [
    | yes inside ↦ ground (arith, sum_of-update n f i a inside)
    | no last ↦ ground (arith, sum_of-outside n f i a)
  ]

  pub le-sum_of : (n : ℕ) (f : ℕ → A) (i : ℕ) → i < n → weight (f i) ≤ sum_of n f
  unfolding sum_of
  le-sum_of zero f i h = absurd (omega arith)
  le-sum_of (suc n) f i h = elim (dec_lt i n) [
    | yes inside ↦ omega (arith, le-sum_of n f i inside)
    | no last ↦ ground arith
  ]

  pub sum_of-two :
      (n : ℕ) (f : ℕ → A) (i j : ℕ)
      → i < n
      → j < n
      → i ≢ j
      → weight (f i) + weight (f j) ≤ sum_of n f
  unfolding sum_of
  sum_of-two zero f i j h k d = absurd (omega arith)
  sum_of-two (suc n) f i j h k d = elim (dec_lt i n) [
    | yes inside ↦ elim (dec_lt j n) [
      | yes inside' ↦ omega (arith, sum_of-two n f i j inside inside' d)
      | no last ↦ ground (arith, le-sum_of n f i inside)
    ]
    | no last ↦ ground (arith, le-sum_of n f j)
  ]

  pub sum_of_zero : (n : ℕ) (f : ℕ → A) → ((i : ℕ) → weight (f i) ≡ 0) → sum_of n f ≡ 0
  unfolding sum_of
  sum_of_zero zero f h = refl
  sum_of_zero (suc n) f h = omega (arith, h n, sum_of_zero n f h)

  -- A sum above 0 has a value above 0.
  pub sum_of_pos : (n : ℕ) (f : ℕ → A) → 0 < sum_of n f → (i : ℕ) × (i < n) × (0 < weight (f i))
  unfolding sum_of
  sum_of_pos zero f h = absurd (omega arith)
  sum_of_pos (suc n) f h = elim (dec_lt 0 (weight (f n))) [
    | yes here ↦ (n, omega arith, here)
    | no none_here ↦ let (i, l, p) = sum_of_pos n f (omega arith) in (i, omega arith, p)
  ]

  -- Weights of at most `d` sum up to at most `n * d`.
  pub sum_of-le : (d n : ℕ) (f : ℕ → A) → ((i : ℕ) → weight (f i) ≤ d) → sum_of n f ≤ n * d
  unfolding sum_of
  sum_of-le d zero f h = omega arith
  sum_of-le d (suc n) f h = omega (arith, h n, sum_of-le d n f h)
