-- ===== src/Chain/Unlink.antt =====
-- A removed link leaves the full list.
use mathlib.Core.Path.{subst}
use libtscb.Base.{
  ℕ, ◌≡◌, ◌≢◌, ◌==◌, Bool, true, false, if◌then◌else◌, update, List, [], ◌∷◌, ◌++◌, arith, refl,
  sym, ◌∙◌,
}
use libtscb.Chain.{ActiveList, LinkChain, unlink_link}
use libtscb.Chain.Active.{IsFreeOf, IsBack, IsActive, IsActive-update, IsRedirected}
use libtscb.Chain.Change.{
  full_of, IsChain, IsBack-update, null-IsFreeOf, IsActive-after, append-IsFreeOf, back-middle,
}

-- The end of a list, or `a`.
unfoldable pub final : ℕ → List ℕ → ℕ
final a [] = a
final a (x ∷ xs) = final x xs

pub final-IsActive :
    (s : ActiveList) (a p : ℕ) (xs ys : List ℕ)
    → IsActive (λ _. true) s a (xs ++ (p ∷ ys))
    → s.active_next p ≡ final a xs
unfolding final
final-IsActive s a p [] ys h = h.0
final-IsActive s a p (x ∷ xs) ys h = final-IsActive s x p xs ys h.1

pub final_ne : (x q : ℕ) (xs : List ℕ) → x ≢ q → IsFreeOf q xs → final x xs ≢ q
unfolding final
final_ne x q [] d f = d
final_ne x q (y ∷ xs) d f = final_ne y q xs f.0 f.1

free_append : (q : ℕ) (xs ys : List ℕ) → IsFreeOf q xs → IsFreeOf q ys → IsFreeOf q (xs ++ ys)
free_append q [] ys f g = g
free_append q (x ∷ xs) ys f g = (f.0, free_append q xs ys f.1 g)

back-skip :
    (prev : ℕ → ℕ) (q p x : ℕ) (xs ys : List ℕ)
    → IsBack prev q (x ∷ (xs ++ (p ∷ ys)))
    → IsBack (update prev (final x xs) (prev p)) q (x ∷ (xs ++ ys))
unfolding final
back-skip prev q p x [] ys b =
    let here : update prev x (prev p) x ≡ prev p = ground arith in
    (
      b.0,
      b.1,
      b.2.1,
      subst (λ t. IsBack (update prev x (prev p)) t ys) (sym here)
          (IsBack-update prev (prev p) x (prev p) ys b.2.1 b.3.3),
    )
back-skip prev q p x (y ∷ xs) ys b =
    let (f, g) = append-IsFreeOf x (y ∷ xs) (p ∷ ys) b.2 in
    let end = final y xs in
    let kept : update prev end (prev p) x ≡ prev x = ground (arith, final_ne y x xs f.0 f.1) in
    (
      b.0,
      b.1,
      free_append x (y ∷ xs) ys f g.1,
      subst (λ t. IsBack (update prev end (prev p)) t (y ∷ (xs ++ ys))) (sym kept)
          (back-skip prev (prev x) p y xs ys b.3),
    )

skip-IsActive :
    (prev : ℕ → ℕ) (alive : ℕ → Bool) (s t : ActiveList) (a p q : ℕ) (xs ys : List ℕ)
    → IsBack prev q (xs ++ (p ∷ ys))
    → IsActive alive s a (xs ++ (p ∷ ys))
    → IsRedirected prev alive p (s.active_next p) s t ys
    → IsActive alive t a (xs ++ ys)
skip-IsActive prev alive s t a p q [] ys b h r = subst (λ c. IsActive alive t c ys) h.0 r.actives
skip-IsActive prev alive s t a p q (x ∷ xs) ys b h r =
    let (f, g) = append-IsFreeOf x xs (p ∷ ys) b.2 in
    (
      r.others x g.1 ∙ h.0,
      skip-IsActive prev alive s t (if alive x then x else a) p (prev x) xs ys b.3 h.1 r,
    )

inactive-IsActive :
    (alive : ℕ → Bool) (s : ActiveList) (a p : ℕ) (xs ys : List ℕ)
    → alive p ≡ false
    → IsActive alive s a (xs ++ (p ∷ ys))
    → IsActive alive s a (xs ++ ys)
inactive-IsActive alive s a p [] ys off h =
    subst (λ t. IsActive alive s (if t then p else a) ys) off h.1
inactive-IsActive alive s a p (x ∷ xs) ys off h =
    (h.0, inactive-IsActive alive s (if alive x then x else a) p xs ys off h.1)

unlink_back :
    (c : LinkChain) (alive : ℕ → Bool) (p : ℕ) (xs ys : List ℕ)
    → IsChain c alive (xs ++ (p ∷ ys))
    → IsBack (unlink_link c p).prev (unlink_link c p).last (xs ++ ys)
unfolding unlink_link final
unlink_back c alive p [] ys h =
    let e : (c.next p == 0) ≡ true = ground (arith, h.full.0) in
    subst
      (λ t.
        IsBack (if t then c.prev else update c.prev (c.next p) (c.prev p))
          (if t then c.prev p else c.last) ys)
      (sym e) h.back.3
unlink_back c alive p (x ∷ xs) ys h =
    let end = final x xs in
    let e : c.next p ≡ end = final-IsActive (full_of c) 0 p (x ∷ xs) ys h.full in
    let (d, none_null) =
      append-IsFreeOf 0 (x ∷ xs) (p ∷ ys)
        (null-IsFreeOf c.prev c.last (x ∷ (xs ++ (p ∷ ys))) h.back) in
    let some : (end == 0) ≡ false = ground (arith, final_ne x 0 xs d.0 d.1) in
    subst
      (λ v.
        IsBack (if v == 0 then c.prev else update c.prev v (c.prev p))
          (if v == 0 then c.prev p else c.last) (x ∷ (xs ++ ys)))
      (sym e)
      (subst
        (λ t.
          IsBack (if t then c.prev else update c.prev end (c.prev p))
            (if t then c.prev p else c.last) (x ∷ (xs ++ ys)))
        (sym some) (back-skip c.prev c.last p x xs ys h.back))

unlink_full :
    (c : LinkChain) (alive : ℕ → Bool) (p : ℕ) (xs ys : List ℕ)
    → IsChain c alive (xs ++ (p ∷ ys))
    → IsRedirected c.prev (λ _. true) p (c.next p) (full_of c) (full_of (unlink_link c p)) ys
unfolding unlink_link
unlink_full c alive p xs [] h =
    let (z, f, g, k) = back-middle c.prev c.last p xs [] h.back in
    record { actives = ground (arith, k); others = λ q d. ground (arith, k) }
unlink_full c alive p xs (y ∷ ys) h =
    let (z, f, g, k) = back-middle c.prev c.last p xs (y ∷ ys) h.back in
    let some : (y == 0) ≡ false = ground (arith, k.1) in
    let rest = IsActive-after (λ _. true) (full_of c) 0 p xs (y ∷ ys) refl h.full in
    subst
      (λ v.
        IsRedirected c.prev (λ _. true) p (c.next p) (full_of c)
          (record {
            active_next = if v == 0 then c.next else update c.next v (c.next p);
            active = if v == 0 then c.next p else c.first;
          })
          (y ∷ ys))
      (sym k.0)
      (subst
        (λ b.
          IsRedirected c.prev (λ _. true) p (c.next p) (full_of c)
            (record {
              active_next = if b then c.next else update c.next y (c.next p);
              active = if b then c.next p else c.first;
            })
            (y ∷ ys))
        (sym some)
        (record {
          actives =
              (ground arith, IsActive-update (λ _. true) (full_of c) y y (c.next p) ys k.2 rest.1);
          others = λ q d. ground (arith, d.0);
        }))

pub unlink_link_lem :
    (c : LinkChain) (alive : ℕ → Bool) (p : ℕ) (xs ys : List ℕ)
    → IsChain c alive (xs ++ (p ∷ ys))
    → alive p ≡ false
    → IsChain (unlink_link c p) alive (xs ++ ys)
unfolding unlink_link
unlink_link_lem c alive p xs ys h off = record {
  back = unlink_back c alive p xs ys h;
  full =
      skip-IsActive c.prev (λ _. true) (full_of c) (full_of (unlink_link c p)) 0 p c.last xs ys
        h.back h.full (unlink_full c alive p xs ys h);
  actives = inactive-IsActive alive c.actives 0 p xs ys off h.actives;
}
