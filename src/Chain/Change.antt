-- ===== src/Chain/Change.antt =====
-- What the steps of a chain do to the sequences that it holds.
use mathlib.Core.Path.{subst}
use libtscb.Base.{
  ℕ, ◌<◌, ◌≤◌, ◌≡◌, ◌≢◌, ◌==◌, Bool, true, false, if◌then◌else◌, update, List, [], ◌∷◌, ◌++◌, arith,
  refl, sym, ◌∙◌,
}
use libtscb.Chain.{ActiveList, LinkChain, redirect, append_link, deactivate_link}
use libtscb.Chain.Active.{
  IsFreeOf, size, IsBack, IsActive, IsActive-update, IsActive-alive, IsRedirected, redirect_lem,
}

-- The full list, forwards.
abbrev pub full_of : LinkChain → ActiveList
full_of c = record { active_next = c.next; active = c.first }

-- The full list is `xs`, last first, linked both ways, and the active list is that of the links of
-- `xs` that are alive.
pub record IsChain (c : LinkChain) (alive : ℕ → Bool) (xs : List ℕ) : Type 0 where
  pub back : IsBack c.prev c.last xs
  pub full : IsActive (λ _. true) (full_of c) 0 xs
  pub actives : IsActive alive c.actives 0 xs

pub IsBack-update :
    (prev : ℕ → ℕ) (p q v : ℕ) (xs : List ℕ)
    → IsFreeOf q xs
    → IsBack prev p xs
    → IsBack (update prev q v) p xs
IsBack-update prev p q v [] f b = b
IsBack-update prev p q v (x ∷ xs) f b =
    let same : update prev q v x ≡ prev x = ground (arith, f.0) in
    (
      b.0,
      b.1,
      b.2,
      subst (λ t. IsBack (update prev q v) t xs) (sym same)
          (IsBack-update prev (prev x) q v xs f.1 b.3),
    )

pub null-IsFreeOf : (prev : ℕ → ℕ) (p : ℕ) (xs : List ℕ) → IsBack prev p xs → IsFreeOf 0 xs
null-IsFreeOf prev p [] b = tt
null-IsFreeOf prev p (x ∷ xs) b = (b.1, null-IsFreeOf prev (prev x) xs b.3)

-- The forward list takes a new link at its end.
full-insert :
    (next : ℕ → ℕ) (prev : ℕ → ℕ) (first last p : ℕ) (xs : List ℕ)
    → p ≢ 0
    → IsFreeOf p xs
    → IsBack prev last xs
    → IsActive (λ _. true) (record { active_next = next; active = first }) 0 xs
    → IsActive
        (λ _. true)
        (record {
          active_next = if last == 0 then update next p 0 else update (update next p 0) last p;
          active = if last == 0 then p else first;
        })
        0
        (p ∷ xs)
full-insert next prev first last p [] z f b h = rw (b) (ground arith, refl)
full-insert next prev first last p (x ∷ xs) z f b h =
    let more : (last == 0) ≡ false = ground (arith, b.0, b.1) in
    let old = update (update next p 0) last p in
    let kept =
      IsActive-update (λ _. true) (record { active_next = update next p 0; active = first }) x last
        p xs (subst (λ t. IsFreeOf t xs) (sym b.0) b.2)
        (IsActive-update (λ _. true) (record { active_next = next; active = first }) x p 0 xs f.1
          h.1) in
    subst
      (λ t.
        IsActive (λ _. true)
          (record {
            active_next = if t then update next p 0 else old;
            active = if t then p else first;
          })
          0 (p ∷ x ∷ xs))
      (sym more) (ground (arith, b.0, f.0), (ground (arith, b.0), kept))

pub append_link_lem :
    (n : ℕ) (alive : ℕ → Bool) (c : LinkChain) (p : ℕ) (xs : List ℕ)
    → IsChain c alive xs
    → p ≢ 0
    → IsFreeOf p xs
    → size xs < n
    → IsChain (append_link n c p) (update alive p true) (p ∷ xs)
unfolding append_link
append_link_lem n alive c p xs h z f l =
    let prev' = update c.prev p c.last in
    let ready = record (c.actives) { active_next = update c.active_next p 0 } in
    let back = IsBack-update c.prev c.last p c.last xs f h.back in
    let r =
      redirect_lem prev' alive 0 p n ready c.last xs l back (null-IsFreeOf c.prev c.last xs h.back)
        (IsActive-update alive c.actives 0 p 0 xs f h.actives) in
    let here : update alive p true p ≡ true = ground arith in
    record {
      back = (refl, z, f, subst (λ t. IsBack prev' t xs) (ground arith) back);
      full = full-insert c.next c.prev c.first c.last p xs z f h.back h.full;
      actives = (
        ground (arith, r.others p f),
        subst
            (λ t.
              IsActive (update alive p true) (redirect n prev' 0 p ready c.last)
                (if t then p else 0) xs)
            (sym here)
            (IsActive-alive alive (redirect n prev' 0 p ready c.last) p p true xs f r.actives),
      );
    }

pub append-IsFreeOf :
    (q : ℕ) (xs ys : List ℕ) → IsFreeOf q (xs ++ ys) → IsFreeOf q xs × IsFreeOf q ys
append-IsFreeOf q [] ys f = (tt, f)
append-IsFreeOf q (x ∷ xs) ys f = let (g, h) = append-IsFreeOf q xs ys f.1 in ((f.0, g), h)

-- The link in the middle is not null, and the links before it are those from its `prev` on.
pub back-middle :
    (prev : ℕ → ℕ) (q p : ℕ) (xs ys : List ℕ)
    → IsBack prev q (xs ++ (p ∷ ys))
    → (p ≢ 0) × IsFreeOf p xs × IsFreeOf p ys × IsBack prev (prev p) ys
back-middle prev q p [] ys b = (b.1, tt, b.2, b.3)
back-middle prev q p (x ∷ xs) ys b =
    let (z, f, g, k) = back-middle prev (prev x) p xs ys b.3 in
    (z, (λ e. (append-IsFreeOf x xs (p ∷ ys) b.2).1.0 (sym e), f), g, k)

pub size-suffix : (xs ys : List ℕ) → size ys ≤ size (xs ++ ys)
size-suffix [] ys = omega arith
size-suffix (x ∷ xs) ys = omega (arith, size-suffix xs ys)

pub IsActive-after :
    (alive : ℕ → Bool) (s : ActiveList) (a p : ℕ) (xs ys : List ℕ)
    → alive p ≡ true
    → IsActive alive s a (xs ++ (p ∷ ys))
    → IsActive alive s p ys
IsActive-after alive s a p [] ys on h = subst (λ t. IsActive alive s (if t then p else a) ys) on h.1
IsActive-after alive s a p (x ∷ xs) ys on h =
    IsActive-after alive s (if alive x then x else a) p xs ys on h.1

-- The links before the removed one are redirected to its successor, those after it stay.
IsActive-remove :
    (alive : ℕ → Bool) (prev : ℕ → ℕ) (s t : ActiveList) (a p q : ℕ) (xs ys : List ℕ)
    → alive p ≡ true
    → IsBack prev q (xs ++ (p ∷ ys))
    → IsActive alive s a (xs ++ (p ∷ ys))
    → IsRedirected prev alive p (s.active_next p) s t ys
    → IsActive (update alive p false) t a (xs ++ (p ∷ ys))
IsActive-remove alive prev s t a p q [] ys on b h r =
    let off : update alive p false p ≡ false = ground arith in
    (
      r.others p b.2 ∙ h.0,
      subst (λ c. IsActive (update alive p false) t (if c then p else a) ys) (sym off)
          (IsActive-alive alive t a p false ys b.2
            (subst (λ c. IsActive alive t c ys) h.0 r.actives)),
    )
IsActive-remove alive prev s t a p q (x ∷ xs) ys on b h r =
    let (f, (d, g)) = append-IsFreeOf x xs (p ∷ ys) b.2 in
    let same : update alive p false x ≡ alive x = ground (arith, d) in
    (
      r.others x g ∙ h.0,
      subst (λ c. IsActive (update alive p false) t (if c then x else a) (xs ++ (p ∷ ys)))
          (sym same)
          (IsActive-remove alive prev s t (if alive x then x else a) p (prev x) xs ys on b.3 h.1 r),
    )

pub deactivate_link_lem :
    (n : ℕ) (alive : ℕ → Bool) (c : LinkChain) (p : ℕ) (xs ys : List ℕ)
    → IsChain c alive (xs ++ (p ∷ ys))
    → alive p ≡ true
    → size (xs ++ (p ∷ ys)) < n
    → IsChain (deactivate_link n c p) (update alive p false) (xs ++ (p ∷ ys))
unfolding deactivate_link
deactivate_link_lem n alive c p xs ys h on l =
    let (z, f, g, k) = back-middle c.prev c.last p xs ys h.back in
    let r =
      redirect_lem c.prev alive p (c.active_next p) n c.actives (c.prev p) ys
        (omega (arith, l, size-suffix xs (p ∷ ys))) k g
        (IsActive-after alive c.actives 0 p xs ys on h.actives) in
    record {
      back = h.back;
      full = h.full;
      actives =
          IsActive-remove alive c.prev c.actives
            (redirect n c.prev p (c.active_next p) c.actives (c.prev p)) 0 p c.last xs ys on h.back
            h.actives r;
    }
