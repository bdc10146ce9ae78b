-- ===== src/Chain/Waiting.antt =====
-- Lists of links that are alive or wait for destruction.
use mathlib.Core.Path.{subst}
use libtscb.Base.{
  ℕ, suc, ◌≤◌, ◌≡◌, ◌≢◌, ◌⊎◌, inl, inr, Bool, true, false, Bool-cases, Option, none, if◌then◌else◌,
  update, List, [], ◌∷◌, ◌++◌, arith, refl, sym, ap, ◌∙◌,
}
use libtscb.Chain.Active.{IsFreeOf, size}
use libtscb.Chain.Members.{IsIn, IsBelow, HasFunctions, size-append}

-- The links that are alive.
abbrev pub kept : (ℕ → Bool) → List ℕ → List ℕ
kept alive [] = []
kept alive (x ∷ xs) = if alive x then x ∷ kept alive xs else kept alive xs

-- The links `ds` stand in the list, are dead, and all different.
abbrev pub IsPending : (ℕ → Bool) → List ℕ → List ℕ → Type 0
IsPending alive xs [] = Unit
IsPending alive xs (d ∷ ds) = IsIn d xs × (alive d ≡ false) × IsFreeOf d ds × IsPending alive xs ds

-- Each link is alive or one of `ds`.
abbrev pub IsCovered : (ℕ → Bool) → List ℕ → List ℕ → Type 0
IsCovered alive ds [] = Unit
IsCovered alive ds (x ∷ xs) = ((alive x ≡ true) ⊎ IsIn x ds) × IsCovered alive ds xs

abbrev pub HasNone : (ℕ → Option ℕ) → List ℕ → Type 0
HasNone function [] = Unit
HasNone function (d ∷ ds) = (function d ≡ none) × HasNone function ds

-- The list of the links to destroy, from `p` on.
abbrev pub IsDeferred : (ℕ → ℕ) → ℕ → List ℕ → Type 0
IsDeferred next p [] = p ≡ 0
IsDeferred next p (d ∷ ds) = (p ≡ d) × (d ≢ 0) × IsDeferred next (next d) ds

pub kept_covered : (alive : ℕ → Bool) (xs : List ℕ) → IsCovered alive [] xs → kept alive xs ≡ xs
kept_covered alive [] h = refl
kept_covered alive (x ∷ xs) h = elim (h.0) [
  | inl on ↦ rw (on) (ap (λ t. x ∷ t) (kept_covered alive xs h.1))
  | inr i ↦ absurd i
]

pub kept-dead :
    (alive : ℕ → Bool) (xs : List ℕ) (d : ℕ) (ys : List ℕ)
    → alive d ≡ false
    → kept alive (xs ++ (d ∷ ys)) ≡ kept alive (xs ++ ys)
kept-dead alive [] d ys e = rw (e) refl
kept-dead alive (x ∷ xs) d ys e = ap (λ t. if alive x then x ∷ t else t) (kept-dead alive xs d ys e)

pub IsCovered-dead :
    (alive : ℕ → Bool) (d : ℕ) (ds xs ys : List ℕ)
    → IsFreeOf d xs
    → IsFreeOf d ys
    → IsCovered alive (d ∷ ds) (xs ++ (d ∷ ys))
    → IsCovered alive ds (xs ++ ys)
IsCovered-dead alive d ds [] [] f g c = tt
IsCovered-dead alive d ds [] (y ∷ ys) f g c = (
  elim (c.1.0) [ inl on ↦ inl on | inr (inl e) ↦ absurd (g.0 (sym e)) | inr (inr i) ↦ inr i ],
  IsCovered-dead alive d ds [] ys tt g.1 (c.0, c.1.1),
)
IsCovered-dead alive d ds (x ∷ xs) ys f g c = (
  elim (c.0) [ inl on ↦ inl on | inr (inl e) ↦ absurd (f.0 (sym e)) | inr (inr i) ↦ inr i ],
  IsCovered-dead alive d ds xs ys f.1 g c.1,
)

pub IsIn-other : (x d : ℕ) (xs ys : List ℕ) → x ≢ d → IsIn x (xs ++ (d ∷ ys)) → IsIn x (xs ++ ys)
IsIn-other x d [] ys n (inl e) = absurd (n (sym e))
IsIn-other x d [] ys n (inr i) = i
IsIn-other x d (z ∷ xs) ys n (inl e) = inl e
IsIn-other x d (z ∷ xs) ys n (inr i) = inr (IsIn-other x d xs ys n i)

pub IsPending-other :
    (alive : ℕ → Bool) (d : ℕ) (xs ys ds : List ℕ)
    → IsFreeOf d ds
    → IsPending alive (xs ++ (d ∷ ys)) ds
    → IsPending alive (xs ++ ys) ds
IsPending-other alive d xs ys [] f h = tt
IsPending-other alive d xs ys (e ∷ ds) f h =
    (IsIn-other e d xs ys f.0 h.0, h.1, h.2, IsPending-other alive d xs ys ds f.1 h.3)

pub kept-IsBelow :
    (alive : ℕ → Bool) (n : ℕ) (xs : List ℕ) → IsBelow n xs → IsBelow n (kept alive xs)
kept-IsBelow alive n [] h = tt
kept-IsBelow alive n (x ∷ xs) h = elim (Bool-cases (alive x)) [
  | inl on ↦ rw (on) (h.0, kept-IsBelow alive n xs h.1)
  | inr off ↦ rw (off) (kept-IsBelow alive n xs h.1)
]

pub size-kept : (alive : ℕ → Bool) (xs : List ℕ) → size (kept alive xs) ≤ size xs
size-kept alive [] = omega arith
size-kept alive (x ∷ xs) = ground (arith, size-kept alive xs)

pub kept-IsIn :
    (alive : ℕ → Bool) (p : ℕ) (xs : List ℕ) → alive p ≡ true → IsIn p xs → IsIn p (kept alive xs)
kept-IsIn alive p [] on h = h
kept-IsIn alive p (x ∷ xs) on (inl e) = rw (ap alive e ∙ on) (inl e)
kept-IsIn alive p (x ∷ xs) on (inr h) = elim (Bool-cases (alive x)) [
  | inl up ↦ rw (up) (inr (kept-IsIn alive p xs on h))
  | inr down ↦ rw (down) (kept-IsIn alive p xs on h)
]

pub alive-IsFreeOf :
    (alive : ℕ → Bool) (p : ℕ) (xs ds : List ℕ)
    → alive p ≡ true
    → IsPending alive xs ds
    → IsFreeOf p ds
alive-IsFreeOf alive p xs [] on h = tt
alive-IsFreeOf alive p xs (d ∷ ds) on h =
    (λ e. cc (ap alive e, h.1), alive-IsFreeOf alive p xs ds on h.3)

pub kept-HasFunctions :
    (alive : ℕ → Bool) (f g : ℕ → Option ℕ) (xs : List ℕ)
    → ((p : ℕ) → alive p ≡ true → g p ≡ f p)
    → HasFunctions f xs
    → HasFunctions g (kept alive xs)
kept-HasFunctions alive f g [] same h = tt
kept-HasFunctions alive f g (x ∷ xs) same h = elim (Bool-cases (alive x)) [
  | inl on ↦ rw (on) ((h.0.0, same x on ∙ h.0.1), kept-HasFunctions alive f g xs same h.1)
  | inr off ↦ rw (off) (kept-HasFunctions alive f g xs same h.1)
]

pub kept-IsCovered : (alive : ℕ → Bool) (xs : List ℕ) → IsCovered alive [] (kept alive xs)
kept-IsCovered alive [] = tt
kept-IsCovered alive (x ∷ xs) = elim (Bool-cases (alive x)) [
  | inl on ↦ rw (on) (inl on, kept-IsCovered alive xs)
  | inr off ↦ rw (off) (kept-IsCovered alive xs)
]

pub kept-update :
    (alive : ℕ → Bool) (p : ℕ) (b : Bool) (xs : List ℕ)
    → IsFreeOf p xs
    → kept (update alive p b) xs ≡ kept alive xs
kept-update alive p b [] f = refl
kept-update alive p b (x ∷ xs) f =
    let same : update alive p b x ≡ alive x = ground (arith, f.0) in
    ap (λ t. if t then x ∷ kept (update alive p b) xs else kept (update alive p b) xs) same
    ∙ ap (λ t. if alive x then x ∷ t else t) (kept-update alive p b xs f.1)

pub kept-append :
    (alive : ℕ → Bool) (xs ys : List ℕ) → kept alive (xs ++ ys) ≡ kept alive xs ++ kept alive ys
kept-append alive [] ys = refl
kept-append alive (x ∷ xs) ys = elim (Bool-cases (alive x)) [
  | inl on ↦ rw (on) (ap (λ t. x ∷ t) (kept-append alive xs ys))
  | inr off ↦ rw (off) (kept-append alive xs ys)
]

-- A link that dies leaves the kept ones, which are one less then.
pub kept_dies :
    (alive : ℕ → Bool) (p : ℕ) (xs ys : List ℕ)
    → alive p ≡ true
    → IsFreeOf p xs
    → IsFreeOf p ys
    → size (kept alive (xs ++ (p ∷ ys))) ≡ suc (size (kept (update alive p false) (xs ++ (p ∷ ys))))
kept_dies alive p xs ys on f g =
    let off : update alive p false p ≡ false = ground arith in
    let old : kept alive (p ∷ ys) ≡ p ∷ kept alive ys = rw (on) refl in
    let new : kept (update alive p false) (p ∷ ys) ≡ kept (update alive p false) ys =
      rw (off) refl in
    omega (
      arith,
      ap size (kept-append alive xs (p ∷ ys)),
      ap size (kept-append (update alive p false) xs (p ∷ ys)),
      size-append (kept alive xs) (kept alive (p ∷ ys)),
      size-append (kept (update alive p false) xs) (kept (update alive p false) (p ∷ ys)),
      ap size (kept-update alive p false xs f),
      ap size (kept-update alive p false ys g),
      ap size old,
      ap size new,
    )

pub IsDeferred-update :
    (next : ℕ → ℕ) (p q v : ℕ) (ds : List ℕ)
    → IsFreeOf q ds
    → IsDeferred next p ds
    → IsDeferred (update next q v) p ds
IsDeferred-update next p q v [] f h = h
IsDeferred-update next p q v (d ∷ ds) f h =
    let same : update next q v d ≡ next d = ground (arith, f.0) in
    (
      h.0,
      h.1,
      subst (λ t. IsDeferred (update next q v) t ds) (sym same)
          (IsDeferred-update next (next d) q v ds f.1 h.2),
    )
