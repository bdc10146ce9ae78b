-- ===== src/Workqueue/List/Erase.antt =====
-- tscb/workqueue.cc: `list_erase`, on the sequence that a list holds.
use libtscb.Base.{ℕ, ◌≡◌, ◌≢◌, List, ◌∷◌, ◌++◌, refl, ◌∙◌, sym, ap, ◌==◌, if◌then◌else◌, arith}
use libtscb.Workqueue.List.{Nodes, Chain, list_erase}
use libtscb.Workqueue.List.Linked.{
  head, final, IsLinked, IsFreeOf, IsSound, IsIn, Holds, IsLinked-append, append-IsLinked,
  IsSound-append, append-IsSound, IsIn-ne_zero, ne-head, relink_last, ne-final, head-without,
  final-without, relink_first,
}

module _ (c : Chain) (p : ℕ) where
  erase-prev : (z : ℕ) → z ≢ c.next p → (list_erase c p).prev z ≡ c.prev z
  unfolding list_erase
  erase-prev z d = ground arith

  erase-next : (z : ℕ) → z ≢ c.prev p → (list_erase c p).next z ≡ c.next z
  unfolding list_erase
  erase-next z d = ground arith

  erase-after : c.next p ≢ 0 → (list_erase c p).prev (c.next p) ≡ c.prev p
  unfolding list_erase
  erase-after d = ground arith

  erase-before : c.prev p ≢ 0 → (list_erase c p).next (c.prev p) ≡ c.next p
  unfolding list_erase
  erase-before d = ground arith

  erase-ends :
      ((list_erase c p).first ≡ (if c.prev p == 0 then c.next p else c.first))
      × ((list_erase c p).last ≡ (if c.next p == 0 then c.prev p else c.last))
  unfolding list_erase
  erase-ends = (refl, refl)

module _ (c : Chain) (xs : List ℕ) (p : ℕ) (ys : List ℕ) (h : Holds c (xs ++ p ∷ ys)) where
  abbrev t : Nodes
  t = (list_erase c p).nodes

  halves : IsLinked c.nodes 0 xs p × IsLinked c.nodes (final 0 xs) (p ∷ ys) 0
  halves = IsLinked-append c.nodes 0 xs (p ∷ ys) 0 h.linked

  sounds : IsSound xs × IsSound (p ∷ ys) × ((x : ℕ) → IsIn x xs → IsFreeOf x (p ∷ ys))
  sounds = IsSound-append xs (p ∷ ys) h.sound

  left : IsLinked t 0 xs (head ys 0)
  left =
      relink_last c.nodes t 0 p (head ys 0) xs halves.0 sounds.0
        (λ y i.
          erase-prev c p y
            (λ e. ne-head y ys (sounds.2 y i).1 (IsIn-ne_zero y xs i sounds.0) (e ∙ halves.1.1)))
        (λ y i d. erase-next c p y (λ e. d (e ∙ halves.1.0)))
        (λ d.
          ap t.next (sym halves.1.0) ∙ erase-before c p (λ e. d (sym halves.1.0 ∙ e)) ∙ halves.1.1)

  right : IsLinked t (final 0 xs) ys 0
  right =
      relink_first c.nodes t p (final 0 xs) 0 ys halves.1.2 sounds.1.2
        (λ y i.
          erase-next c p y
            (λ e. ne-final y xs ys i sounds.1.2 (λ x j. (sounds.2 x j).1) (e ∙ halves.1.0)))
        (λ y i d. erase-prev c p y (λ e. d (e ∙ halves.1.1)))
        (λ d.
          ap t.prev (sym halves.1.1) ∙ erase-after c p (λ e. d (sym halves.1.1 ∙ e)) ∙ halves.1.0)

  -- From a list that holds `xs`, `p` and `ys`, `list_erase` leaves a list of `xs` and `ys`.
  pub list_erase-Holds : Holds (list_erase c p) (xs ++ ys)
  list_erase-Holds = record {
    linked = append-IsLinked t 0 xs ys 0 left right;
    sound = append-IsSound xs ys sounds.0 sounds.1.2 (λ x i. (sounds.2 x i).1);
    first =
        (erase-ends c p).0 ∙ rw (halves.1.0, halves.1.1, h.first) (head-without xs ys p sounds.0);
    last =
        (erase-ends c p).1 ∙ rw (halves.1.0, halves.1.1, h.last) (final-without xs ys p sounds.1.2);
  }
