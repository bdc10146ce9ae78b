-- ===== src/Chain/Frame.antt =====
-- The links that a step of a chain leaves as they are, and the other chains of the same links.
use mathlib.Core.Path.{subst}
use libtscb.Base.{
  ℕ, ◌<◌, ◌≡◌, ◌≢◌, ◌⊎◌, inl, inr, Bool, true, if◌then◌else◌, update, List, [], ◌∷◌, ◌++◌, arith,
  refl, sym, ◌∙◌,
}
use libtscb.Chain.{ActiveList, LinkChain, append_link, deactivate_link, unlink_link}
use libtscb.Chain.Active.{IsFreeOf, size, IsBack, IsActive, IsActive-update, redirect_lem}
use libtscb.Chain.Change.{
  full_of, IsChain, IsBack-update, null-IsFreeOf, IsActive-after, append-IsFreeOf, back-middle,
  size-suffix,
}
use libtscb.Chain.Unlink.{final, final-IsActive}
use libtscb.Chain.Members.{IsIn}

pub record SameAt (c d : LinkChain) (x : ℕ) : Type 0 where
  pub active_next : d.active_next x ≡ c.active_next x
  pub prev : d.prev x ≡ c.prev x
  pub next : d.next x ≡ c.next x

IsBack-same :
    (prev prev' : ℕ → ℕ) (p : ℕ) (xs : List ℕ)
    → ((x : ℕ) → IsIn x xs → prev' x ≡ prev x)
    → IsBack prev p xs
    → IsBack prev' p xs
IsBack-same prev prev' p [] e b = b
IsBack-same prev prev' p (x ∷ xs) e b = (
  b.0,
  b.1,
  b.2,
  subst (λ t. IsBack prev' t xs) (sym (e x (inl refl)))
      (IsBack-same prev prev' (prev x) xs (λ y i. e y (inr i)) b.3),
)

IsActive-same :
    (alive alive' : ℕ → Bool) (s t : ActiveList) (a : ℕ) (xs : List ℕ)
    → t.active ≡ s.active
    → ((x : ℕ) → IsIn x xs → (t.active_next x ≡ s.active_next x) × (alive' x ≡ alive x))
    → IsActive alive s a xs
    → IsActive alive' t a xs
IsActive-same alive alive' s t a [] w e h = w ∙ h
IsActive-same alive alive' s t a (x ∷ xs) w e h =
    let (n, l) = e x (inl refl) in
    (
      n ∙ h.0,
      subst (λ b. IsActive alive' t (if b then x else a) xs) (sym l)
          (IsActive-same alive alive' s t (if alive x then x else a) xs w (λ y i. e y (inr i)) h.1),
    )

-- A chain stays what it is when its links and its ends are left alone.
pub IsChain-same :
    (c d : LinkChain) (alive alive' : ℕ → Bool) (xs : List ℕ)
    → d.active ≡ c.active
    → d.first ≡ c.first
    → d.last ≡ c.last
    → ((x : ℕ) → IsIn x xs → SameAt c d x × (alive' x ≡ alive x))
    → IsChain c alive xs
    → IsChain d alive' xs
IsChain-same c d alive alive' xs a f l e h = record {
  back =
      subst (λ t. IsBack d.prev t xs) (sym l)
        (IsBack-same c.prev d.prev c.last xs (λ x i. (e x i).0.prev) h.back);
  full =
      IsActive-same (λ _. true) (λ _. true) (full_of c) (full_of d) 0 xs f
        (λ x i. ((e x i).0.next, refl)) h.full;
  actives =
      IsActive-same alive alive' c.actives d.actives 0 xs a
        (λ x i. ((e x i).0.active_next, (e x i).1)) h.actives;
}

pub IsFreeOf-ne : (x y : ℕ) (xs : List ℕ) → IsIn y xs → IsFreeOf x xs → y ≢ x
IsFreeOf-ne x y [] i f = absurd i
IsFreeOf-ne x y (z ∷ xs) (inl e) f = λ w. f.0 (e ∙ w)
IsFreeOf-ne x y (z ∷ xs) (inr i) f = IsFreeOf-ne x y xs i f.1

head-IsIn : (prev : ℕ → ℕ) (p : ℕ) (xs : List ℕ) → IsBack prev p xs → (p ≡ 0) ⊎ IsIn p xs
head-IsIn prev p [] b = inl b
head-IsIn prev p (x ∷ xs) b = inr (inl (sym b.0))

pub append-SameAt :
    (n : ℕ) (alive : ℕ → Bool) (c : LinkChain) (p : ℕ) (xs : List ℕ)
    → IsChain c alive xs
    → IsFreeOf p xs
    → size xs < n
    → (x : ℕ) → x ≢ p
    → IsFreeOf x xs
    → SameAt c (append_link n c p) x
unfolding append_link
append-SameAt n alive c p xs h f l x d g =
    let prev' = update c.prev p c.last in
    let ready = record (c.actives) { active_next = update c.active_next p 0 } in
    let r =
      redirect_lem prev' alive 0 p n ready c.last xs l
        (IsBack-update c.prev c.last p c.last xs f h.back) (null-IsFreeOf c.prev c.last xs h.back)
        (IsActive-update alive c.actives 0 p 0 xs f h.actives) in
    record {
      active_next = ground (arith, r.others x g, d);
      prev = ground (arith, d);
      next = elim (head-IsIn c.prev c.last xs h.back) [
        | inl z ↦ ground (arith, z, d)
        | inr i ↦ ground (arith, IsFreeOf-ne x c.last xs i g, d)
      ];
    }

pub deactivate-SameAt :
    (n : ℕ) (alive : ℕ → Bool) (c : LinkChain) (p : ℕ) (xs ys : List ℕ)
    → IsChain c alive (xs ++ (p ∷ ys))
    → alive p ≡ true
    → size (xs ++ (p ∷ ys)) < n
    → (x : ℕ) → IsFreeOf x (xs ++ (p ∷ ys))
    → SameAt c (deactivate_link n c p) x
unfolding deactivate_link
deactivate-SameAt n alive c p xs ys h on l x g =
    let (z, f, f', k) = back-middle c.prev c.last p xs ys h.back in
    let r =
      redirect_lem c.prev alive p (c.active_next p) n c.actives (c.prev p) ys
        (omega (arith, l, size-suffix xs (p ∷ ys))) k f'
        (IsActive-after alive c.actives 0 p xs ys on h.actives) in
    record {
      active_next = r.others x (append-IsFreeOf x xs (p ∷ ys) g).1.1;
      prev = refl;
      next = refl;
    }

final-IsIn : (x : ℕ) (xs : List ℕ) → IsIn (final x xs) (x ∷ xs)
unfolding final
final-IsIn x [] = inl refl
final-IsIn x (y ∷ xs) = inr (final-IsIn y xs)

next-IsIn : (xs : List ℕ) → (final 0 xs ≡ 0) ⊎ IsIn (final 0 xs) xs
unfolding final
next-IsIn [] = inl refl
next-IsIn (x ∷ xs) = inr (final-IsIn x xs)

pub unlink-SameAt :
    (c : LinkChain) (alive : ℕ → Bool) (p : ℕ) (xs ys : List ℕ)
    → IsChain c alive (xs ++ (p ∷ ys))
    → (x : ℕ) → IsFreeOf x (xs ++ (p ∷ ys))
    → SameAt c (unlink_link c p) x
unfolding unlink_link
unlink-SameAt c alive p xs ys h x g =
    let (z, f, f', k) = back-middle c.prev c.last p xs ys h.back in
    let (gx, (gp, gy)) = append-IsFreeOf x xs (p ∷ ys) g in
    let e = final-IsActive (full_of c) 0 p xs ys h.full in
    record {
      active_next = refl;
      prev = elim (next-IsIn xs) [
        | inl n ↦ ground (arith, e, n)
        | inr i ↦ ground (arith, e, IsFreeOf-ne x (final 0 xs) xs i gx)
      ];
      next = elim (head-IsIn c.prev (c.prev p) ys k) [
        | inl n ↦ ground (arith, n)
        | inr i ↦ ground (arith, IsFreeOf-ne x (c.prev p) ys i gy)
      ];
    }
