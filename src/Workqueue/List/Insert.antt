-- ===== src/Workqueue/List/Insert.antt =====
-- tscb/workqueue.cc: `list_insert` before a link, and with a null position.
use libtscb.Base.{
  ℕ, zero, suc, ◌≡◌, ◌≢◌, List, [], ◌∷◌, ◌++◌, inl, refl, ◌∙◌, sym, ap, ◌==◌, if◌then◌else◌, arith,
}
use libtscb.Workqueue.List.{Nodes, Chain, list_insert, walk}
use libtscb.Workqueue.List.Linked.{
  head, final, IsLinked, IsFreeOf, IsSound, IsIn, Holds, IsLinked-append, append-IsLinked,
  IsSound-append, append-IsSound, IsIn-ne, IsIn-ne_zero, ne-final, relink_last, relink_first,
  final-append, final-IsIn, IsFreeOf-append,
}

module _ (c : Chain) (pos p : ℕ) (at : pos ≢ 0) (ne : p ≢ pos) (nonnull : p ≢ 0) where
  insert-prev : (z : ℕ) → z ≢ p → z ≢ pos → (list_insert c pos p).prev z ≡ c.prev z
  unfolding list_insert
  insert-prev z d e = ground arith

  insert-next : (z : ℕ) → z ≢ p → z ≢ c.prev pos → (list_insert c pos p).next z ≡ c.next z
  unfolding list_insert
  insert-next z d e = ground arith

  insert-here :
      ((list_insert c pos p).prev pos ≡ p)
      × (c.prev pos ≢ p → (list_insert c pos p).prev p ≡ c.prev pos)
      × (c.prev pos ≢ p → (list_insert c pos p).next p ≡ pos)
      × (c.prev pos ≢ 0 → (list_insert c pos p).next (c.prev pos) ≡ p)
  unfolding list_insert
  insert-here = (ground arith, λ d. ground arith, λ d. ground arith, λ d. ground arith)

  insert-ends :
      ((list_insert c pos p).first ≡ (if c.prev pos == 0 then p else c.first))
      × ((list_insert c pos p).last ≡ c.last)
  unfolding list_insert
  insert-ends = (ground arith, ground arith)

head-with :
    (xs zs ys : List ℕ) (p : ℕ)
    → IsSound xs
    → (if final 0 xs == 0 then p else head (xs ++ zs) 0) ≡ head (xs ++ p ∷ ys) 0
head-with [] zs ys p d = refl
head-with (x ∷ xs) zs ys p d =
    ground (arith, IsIn-ne_zero (final x xs) (x ∷ xs) (final-IsIn x xs) d)

module _ (c : Chain) (xs : List ℕ) (pos : ℕ) (ys : List ℕ) (p : ℕ) (h : Holds c (xs ++ pos ∷ ys))
    (new : IsFreeOf p (xs ++ pos ∷ ys)) (nonnull : p ≢ 0) where
  abbrev t : Nodes
  t = (list_insert c pos p).nodes

  halves : IsLinked c.nodes 0 xs pos × IsLinked c.nodes (final 0 xs) (pos ∷ ys) 0
  halves = IsLinked-append c.nodes 0 xs (pos ∷ ys) 0 h.linked

  sounds : IsSound xs × IsSound (pos ∷ ys) × ((x : ℕ) → IsIn x xs → IsFreeOf x (pos ∷ ys))
  sounds = IsSound-append xs (pos ∷ ys) h.sound

  news : IsFreeOf p xs × IsFreeOf p (pos ∷ ys)
  news = IsFreeOf-append p xs (pos ∷ ys) new

  p_ne_pos : p ≢ pos
  p_ne_pos e = news.1.0 (sym e)

  before_ne_p : c.prev pos ≢ p
  before_ne_p e =
      ne-final p xs (p ∷ []) (inl refl) (nonnull, tt, tt)
        (λ x i. (λ q. IsIn-ne x p xs i news.0 (sym q), tt)) (sym e ∙ halves.1.0)

  left : IsLinked t 0 xs p
  left =
      relink_last c.nodes t 0 pos p xs halves.0 sounds.0
        (λ y i.
          insert-prev c pos p sounds.1.0 p_ne_pos nonnull y (IsIn-ne y p xs i news.0)
            (λ e. (sounds.2 y i).0 (sym e)))
        (λ y i d.
          insert-next c pos p sounds.1.0 p_ne_pos nonnull y (IsIn-ne y p xs i news.0)
            (λ e. d (e ∙ halves.1.0)))
        (λ d.
          ap t.next (sym halves.1.0)
          ∙ (insert-here c pos p sounds.1.0 p_ne_pos nonnull).3 (λ e. d (sym halves.1.0 ∙ e)))

  right : IsLinked t p (pos ∷ ys) 0
  right =
      relink_first c.nodes t (final 0 xs) p 0 (pos ∷ ys) halves.1 sounds.1
        (λ y i.
          insert-next c pos p sounds.1.0 p_ne_pos nonnull y (IsIn-ne y p (pos ∷ ys) i news.1)
            (λ e. ne-final y xs (pos ∷ ys) i sounds.1 sounds.2 (e ∙ halves.1.0)))
        (λ y i d.
          insert-prev c pos p sounds.1.0 p_ne_pos nonnull y (IsIn-ne y p (pos ∷ ys) i news.1) d)
        (λ d. (insert-here c pos p sounds.1.0 p_ne_pos nonnull).0)

  -- Before a link of the list, `list_insert` puts a new link in its place in the sequence.
  pub list_insert-Holds : Holds (list_insert c pos p) (xs ++ p ∷ pos ∷ ys)
  list_insert-Holds =
      let here = insert-here c pos p sounds.1.0 p_ne_pos nonnull in
      let ends = insert-ends c pos p sounds.1.0 p_ne_pos nonnull in
      record {
        linked =
            append-IsLinked t 0 xs (p ∷ pos ∷ ys) 0 left
              (here.1 before_ne_p ∙ halves.1.0, here.2 before_ne_p, right);
        sound =
            append-IsSound xs (p ∷ pos ∷ ys) sounds.0 (nonnull, news.1, sounds.1)
              (λ x i. (λ e. IsIn-ne x p xs i news.0 (sym e), sounds.2 x i));
        first = ends.0 ∙ rw (halves.1.0, h.first) (head-with xs (pos ∷ ys) (pos ∷ ys) p sounds.0);
        last =
            ends.1 ∙ h.last ∙ rw (final-append 0 xs (pos ∷ ys), final-append 0 xs (p ∷ pos ∷ ys));
      }

walk-null : (n : ℕ) (next : ℕ → ℕ) → walk n next 0 ≡ []
unfolding walk
walk-null zero next = refl
walk-null (suc n) next = refl

walk-two :
    (n : ℕ) (next : ℕ → ℕ) (x p : ℕ)
    → next x ≡ p
    → next p ≡ 0
    → x ≢ 0
    → p ≢ 0
    → walk (suc (suc n)) next x ≡ x ∷ p ∷ []
unfolding walk
walk-two n next x p nx np dx dp = rw (nx, np, walk-null n next) (ground arith)

insert-null :
    (c : Chain) (x p : ℕ)
    → c.first ≡ x
    → x ≢ 0
    → x ≢ p
    → p ≢ 0
    → let r = list_insert c 0 p in (r.first ≡ x) × (r.last ≡ p) × (r.next x ≡ p) × (r.next p ≡ 0)
unfolding list_insert
insert-null c x p f dx d dp = (ground arith, ground arith, ground arith, ground arith)

-- With a null position the new link follows the first one, whatever the list holds behind it:
-- a walk from the first link then visits these two only.
pub list_insert-end :
    (c : Chain) (x : ℕ) (ys : List ℕ) (p n : ℕ)
    → Holds c (x ∷ ys)
    → IsFreeOf p (x ∷ ys)
    → p ≢ 0
    → let r = list_insert c 0 p in (walk (suc (suc n)) r.next r.first ≡ x ∷ p ∷ []) × (r.last ≡ p)
list_insert-end c x ys p n h new z =
    let (f, l, nx, np) = insert-null c x p h.first h.sound.0 new.0 z in
    (rw f (walk-two n _ x p nx np h.sound.0 z), l)

-- The empty list then holds exactly the new link.
pub list_insert-empty :
    (c : Chain) (p : ℕ) → Holds c [] → p ≢ 0 → Holds (list_insert c 0 p) (p ∷ [])
unfolding list_insert
list_insert-empty c p h z = record {
  linked = (ground (arith, h.first), ground (arith, h.first), tt);
  sound = (z, tt, tt);
  first = ground (arith, h.first);
  last = ground arith;
}
