-- ===== src/Workqueue/List/Linked.antt =====
-- When a doubly linked list holds the links of a sequence.
use mathlib.Core.List.{append-nil}
use libtscb.Base.{
  arith, ◌==◌, if◌then◌else◌, ℕ, ◌≡◌, ◌≢◌, List, [], ◌∷◌, ◌++◌, ◌⊎◌, inl, inr, refl, ◌∙◌, sym,
}
use libtscb.Workqueue.List.{Nodes, Chain}

abbrev pub head : List ℕ → ℕ → ℕ
head [] b = b
head (x ∷ xs) b = x

abbrev pub final : ℕ → List ℕ → ℕ
final a [] = a
final a (x ∷ xs) = final x xs

-- The nodes link `xs` both ways, from `a` to `b`.
abbrev pub IsLinked : Nodes → ℕ → List ℕ → ℕ → Type 0
IsLinked s a [] b = Unit
IsLinked s a (x ∷ xs) b = (s.prev x ≡ a) × (s.next x ≡ head xs b) × IsLinked s x xs b

abbrev pub IsFreeOf : ℕ → List ℕ → Type 0
IsFreeOf p [] = Unit
IsFreeOf p (x ∷ xs) = (x ≢ p) × IsFreeOf p xs

-- No link stands twice, and none is null.
abbrev pub IsSound : List ℕ → Type 0
IsSound [] = Unit
IsSound (x ∷ xs) = (x ≢ 0) × IsFreeOf x xs × IsSound xs

-- The list holds exactly `xs`, in this order.
pub record Holds (c : Chain) (xs : List ℕ) : Type 0 where
  pub linked : IsLinked c.nodes 0 xs 0
  pub sound : IsSound xs
  pub first : c.first ≡ head xs 0
  pub last : c.last ≡ final 0 xs

module _ (s : Nodes) where
  pub IsLinked-append :
      (a : ℕ) (xs ys : List ℕ) (b : ℕ)
      → IsLinked s a (xs ++ ys) b
      → IsLinked s a xs (head ys b) × IsLinked s (final a xs) ys b
  IsLinked-append a [] ys b h = (tt, h)
  IsLinked-append a (x ∷ []) ys b h = ((h.0, h.1, tt), h.2)
  IsLinked-append a (x ∷ y ∷ xs) ys b h =
      let (l, r) = IsLinked-append x (y ∷ xs) ys b h.2 in ((h.0, h.1, l), r)

  pub append-IsLinked :
      (a : ℕ) (xs ys : List ℕ) (b : ℕ)
      → IsLinked s a xs (head ys b)
      → IsLinked s (final a xs) ys b
      → IsLinked s a (xs ++ ys) b
  append-IsLinked a [] ys b h k = k
  append-IsLinked a (x ∷ []) ys b h k = (h.0, h.1, k)
  append-IsLinked a (x ∷ y ∷ xs) ys b h k = (h.0, h.1, append-IsLinked x (y ∷ xs) ys b h.2 k)

abbrev pub IsIn : ℕ → List ℕ → Type 0
IsIn p [] = ⊥
IsIn p (x ∷ xs) = (x ≡ p) ⊎ IsIn p xs

pub IsIn-ne : (p q : ℕ) (xs : List ℕ) → IsIn p xs → IsFreeOf q xs → p ≢ q
IsIn-ne p q [] h f = absurd h
IsIn-ne p q (x ∷ xs) (inl e) f = λ z. f.0 (e ∙ z)
IsIn-ne p q (x ∷ xs) (inr h) f = IsIn-ne p q xs h f.1

pub final-IsIn : (x : ℕ) (xs : List ℕ) → IsIn (final x xs) (x ∷ xs)
final-IsIn x [] = inl refl
final-IsIn x (y ∷ xs) = inr (final-IsIn y xs)

pub IsFreeOf-append :
    (p : ℕ) (xs ys : List ℕ) → IsFreeOf p (xs ++ ys) → IsFreeOf p xs × IsFreeOf p ys
IsFreeOf-append p [] ys h = (tt, h)
IsFreeOf-append p (x ∷ xs) ys h = let (l, r) = IsFreeOf-append p xs ys h.1 in ((h.0, l), r)

pub append-IsFreeOf :
    (p : ℕ) (xs ys : List ℕ) → IsFreeOf p xs → IsFreeOf p ys → IsFreeOf p (xs ++ ys)
append-IsFreeOf p [] ys h k = k
append-IsFreeOf p (x ∷ xs) ys h k = (h.0, append-IsFreeOf p xs ys h.1 k)

-- The two halves of a sound sequence are sound and share no link.
pub IsSound-append :
    (xs ys : List ℕ)
    → IsSound (xs ++ ys)
    → IsSound xs × IsSound ys × ((x : ℕ) → IsIn x xs → IsFreeOf x ys)
IsSound-append [] ys h = (tt, h, λ x i. absurd i)
IsSound-append (x ∷ xs) ys h =
    let (free, free') = IsFreeOf-append x xs ys h.1 in
    let (l, r, apart) = IsSound-append xs ys h.2 in
    ((h.0, free, l), r, apart_cons x xs ys free' apart)
  where
    apart_cons :
        (x : ℕ) (xs ys : List ℕ)
        → IsFreeOf x ys
        → ((y : ℕ) → IsIn y xs → IsFreeOf y ys)
        → (y : ℕ) → IsIn y (x ∷ xs)
        → IsFreeOf y ys
    apart_cons x xs ys f g y (inl e) = rw e at f
    apart_cons x xs ys f g y (inr i) = g y i

pub append-IsSound :
    (xs ys : List ℕ)
    → IsSound xs
    → IsSound ys
    → ((x : ℕ) → IsIn x xs → IsFreeOf x ys)
    → IsSound (xs ++ ys)
append-IsSound [] ys h k apart = k
append-IsSound (x ∷ xs) ys h k apart = (
  h.0,
  append-IsFreeOf x xs ys h.1 (apart x (inl refl)),
  append-IsSound xs ys h.2 k (λ y i. apart y (inr i)),
)

-- A sequence keeps its links when only its two outward pointers change.
pub relink :
    (s t : Nodes) (a a' b b' x : ℕ) (xs : List ℕ)
    → IsLinked s a (x ∷ xs) b
    → IsSound (x ∷ xs)
    → t.prev x ≡ a'
    → t.next (final x xs) ≡ b'
    → ((y : ℕ) → IsIn y (x ∷ xs) → y ≢ x → t.prev y ≡ s.prev y)
    → ((y : ℕ) → IsIn y (x ∷ xs) → y ≢ final x xs → t.next y ≡ s.next y)
    → IsLinked t a' (x ∷ xs) b'
relink s t a a' b b' x [] h d p n ps ns = (p, n, tt)
relink s t a a' b b' x (y ∷ xs) h d p n ps ns =
    let x_ne : x ≢ final y xs =
      λ e. IsIn-ne (final y xs) x (y ∷ xs) (final-IsIn y xs) d.1 (sym e) in
    (
      p,
      ns x (inl refl) x_ne ∙ h.1,
      relink s t x x b b' y xs h.2 d.2 (ps y (inr (inl refl)) d.1.0 ∙ h.2.0) n
          (λ z i e. ps z (inr i) (IsIn-ne z x (y ∷ xs) i d.1)) (λ z i e. ns z (inr i) e),
    )

pub IsIn-ne_zero : (p : ℕ) (xs : List ℕ) → IsIn p xs → IsSound xs → p ≢ 0
IsIn-ne_zero p [] i s = absurd i
IsIn-ne_zero p (x ∷ xs) (inl e) s = λ z. s.0 (e ∙ z)
IsIn-ne_zero p (x ∷ xs) (inr i) s = IsIn-ne_zero p xs i s.2

pub ne-head : (p : ℕ) (xs : List ℕ) → IsFreeOf p xs → p ≢ 0 → p ≢ head xs 0
ne-head p [] f z = z
ne-head p (x ∷ xs) f z = λ e. f.0 (sym e)

pub final-append : (a : ℕ) (xs ys : List ℕ) → final a (xs ++ ys) ≡ final (final a xs) ys
final-append a [] ys = refl
final-append a (x ∷ xs) ys = final-append x xs ys

linked-final :
    (s : Nodes) (a b x : ℕ) (xs : List ℕ) → IsLinked s a (x ∷ xs) b → s.next (final x xs) ≡ b
linked-final s a b x [] h = h.1
linked-final s a b x (y ∷ xs) h = linked-final s x b y xs h.2

pub relink_last :
    (s t : Nodes) (a b b' : ℕ) (xs : List ℕ)
    → IsLinked s a xs b
    → IsSound xs
    → ((y : ℕ) → IsIn y xs → t.prev y ≡ s.prev y)
    → ((y : ℕ) → IsIn y xs → y ≢ final 0 xs → t.next y ≡ s.next y)
    → (final 0 xs ≢ 0 → t.next (final 0 xs) ≡ b')
    → IsLinked t a xs b'
relink_last s t a b b' [] h d ps ns n = tt
relink_last s t a b b' (x ∷ xs) h d ps ns n =
    relink s t a a b b' x xs h d (ps x (inl refl) ∙ h.0)
      (n (IsIn-ne_zero (final x xs) (x ∷ xs) (final-IsIn x xs) d)) (λ y i e. ps y i) ns

pub relink_first :
    (s t : Nodes) (a a' b : ℕ) (xs : List ℕ)
    → IsLinked s a xs b
    → IsSound xs
    → ((y : ℕ) → IsIn y xs → t.next y ≡ s.next y)
    → ((y : ℕ) → IsIn y xs → y ≢ head xs 0 → t.prev y ≡ s.prev y)
    → (head xs 0 ≢ 0 → t.prev (head xs 0) ≡ a')
    → IsLinked t a' xs b
relink_first s t a a' b [] h d ns ps p = tt
relink_first s t a a' b (x ∷ xs) h d ns ps p =
    relink s t a a' b b x xs h d (p d.0)
      (ns (final x xs) (final-IsIn x xs) ∙ linked-final s a b x xs h) ps (λ y i e. ns y i)

pub ne-final :
    (y : ℕ) (xs ys : List ℕ)
    → IsIn y ys
    → IsSound ys
    → ((x : ℕ) → IsIn x xs → IsFreeOf x ys)
    → y ≢ final 0 xs
ne-final y [] ys i d apart = IsIn-ne_zero y ys i d
ne-final y (x ∷ xs) ys i d apart =
    IsIn-ne y (final x xs) ys i (apart (final x xs) (final-IsIn x xs))

pub head-without :
    (xs ys : List ℕ) (p : ℕ)
    → IsSound xs
    → (if final 0 xs == 0 then head ys 0 else head (xs ++ p ∷ ys) 0) ≡ head (xs ++ ys) 0
head-without [] ys p d = refl
head-without (x ∷ xs) ys p d =
    ground (arith, IsIn-ne_zero (final x xs) (x ∷ xs) (final-IsIn x xs) d)

pub final-without :
    (xs ys : List ℕ) (p : ℕ)
    → IsSound ys
    → (if head ys 0 == 0 then final 0 xs else final 0 (xs ++ p ∷ ys)) ≡ final 0 (xs ++ ys)
final-without xs [] p d = rw append-nil
final-without xs (y ∷ ys) p d =
    rw (final-append 0 xs (p ∷ y ∷ ys), final-append 0 xs (y ∷ ys)) (ground arith)
