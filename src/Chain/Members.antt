-- ===== src/Chain/Members.antt =====
-- Membership in the lists of a chain's links, and what changes of `alive` mean for them.
use libtscb.Base.{
  sym, ◌∙◌, ℕ, ◌+◌, ◌<◌, ◌≡◌, ◌⊎◌, inl, inr, Bool, true, false, Option, some, update, List, [], ◌∷◌,
  ◌++◌, arith, ap,
}
use libtscb.Chain.Active.{IsFreeOf, size}
use libtscb.Chain.Walk.{IsDying, IsDead}

abbrev pub IsIn : ℕ → List ℕ → Type 0
IsIn p [] = ⊥
IsIn p (x ∷ xs) = (x ≡ p) ⊎ IsIn p xs

abbrev pub IsBelow : ℕ → List ℕ → Type 0
IsBelow n [] = Unit
IsBelow n (x ∷ xs) = (x < n) × IsBelow n xs

abbrev pub HasFunctions : (ℕ → Option ℕ) → List ℕ → Type 0
HasFunctions function [] = Unit
HasFunctions function (x ∷ xs) = ((f : ℕ) × (function x ≡ some f)) × HasFunctions function xs

-- The list around a link of it.
pub data Around (p : ℕ) (xs : List ℕ) : Type 0 where
  around : (later sooner : List ℕ) → xs ≡ later ++ (p ∷ sooner) → Around p xs

pub IsIn-Around : (p : ℕ) (xs : List ℕ) → IsIn p xs → Around p xs
IsIn-Around p [] h = absurd h
IsIn-Around p (x ∷ xs) (inl e) = around [] xs (ap (λ t. t ∷ xs) e)
IsIn-Around p (x ∷ xs) (inr h) = cons (IsIn-Around p xs h)
  where
    cons : Around p xs → Around p (x ∷ xs)
    cons (around later sooner e) = around (x ∷ later) sooner (ap (λ t. x ∷ t) e)

pub below-IsFreeOf : (n : ℕ) (xs : List ℕ) → IsBelow n xs → IsFreeOf n xs
below-IsFreeOf n [] h = tt
below-IsFreeOf n (x ∷ xs) h = (omega arith, below-IsFreeOf n xs h.1)

pub IsBelow-suc : (n : ℕ) (xs : List ℕ) → IsBelow n xs → IsBelow (n + 1) xs
IsBelow-suc n [] h = tt
IsBelow-suc n (x ∷ xs) h = (omega arith, IsBelow-suc n xs h.1)

pub HasFunctions-update :
    (function : ℕ → Option ℕ) (p : ℕ) (f : Option ℕ) (xs : List ℕ)
    → IsFreeOf p xs
    → HasFunctions function xs
    → HasFunctions (update function p f) xs
HasFunctions-update function p f [] d h = tt
HasFunctions-update function p f (x ∷ xs) d h =
    ((h.0.0, ground (arith, h.0.1, d.0)), HasFunctions-update function p f xs d.1 h.1)

pub IsDying-update :
    (alive : ℕ → Bool) (p : ℕ) (xs : List ℕ) → IsDying alive (update alive p false) xs
IsDying-update alive p [] = tt
IsDying-update alive p (x ∷ xs) = (λ e. ground (arith, e), IsDying-update alive p xs)

pub IsDying-free :
    (alive : ℕ → Bool) (p : ℕ) (xs : List ℕ)
    → IsFreeOf p xs
    → IsDying alive (update (update alive p true) p true) xs
IsDying-free alive p [] f = tt
IsDying-free alive p (x ∷ xs) f = (λ e. ground (arith, e, f.0), IsDying-free alive p xs f.1)

pub IsDying-born :
    (alive : ℕ → Bool) (p : ℕ) (xs : List ℕ)
    → IsFreeOf p xs
    → IsDying alive (update alive p true) xs
IsDying-born alive p [] f = tt
IsDying-born alive p (x ∷ xs) f = (λ e. ground (arith, e, f.0), IsDying-born alive p xs f.1)

pub IsDying-refl : (alive : ℕ → Bool) (xs : List ℕ) → IsDying alive alive xs
IsDying-refl alive [] = tt
IsDying-refl alive (x ∷ xs) = (λ e. e, IsDying-refl alive xs)

pub IsDying-trans :
    (a b c : ℕ → Bool) (xs : List ℕ) → IsDying a b xs → IsDying b c xs → IsDying a c xs
IsDying-trans a b c [] d e = tt
IsDying-trans a b c (x ∷ xs) d e = (λ o. e.0 (d.0 o), IsDying-trans a b c xs d.1 e.1)

pub IsDying-suffix : (a b : ℕ → Bool) (xs ys : List ℕ) → IsDying a b (xs ++ ys) → IsDying a b ys
IsDying-suffix a b [] ys d = d
IsDying-suffix a b (x ∷ xs) ys d = IsDying-suffix a b xs ys d.1

pub dead-off :
    (alive : ℕ → Bool) (p : ℕ) (xs : List ℕ) → IsIn p xs → IsDead alive xs → alive p ≡ false
dead-off alive p [] k h = absurd k
dead-off alive p (x ∷ xs) (inl e) h = ap alive (sym e) ∙ h.0
dead-off alive p (x ∷ xs) (inr k) h = dead-off alive p xs k h.1

pub size-append : (xs ys : List ℕ) → size (xs ++ ys) ≡ size xs + size ys
size-append [] ys = omega arith
size-append (x ∷ xs) ys = omega (arith, size-append xs ys)
