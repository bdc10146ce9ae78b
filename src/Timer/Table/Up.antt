-- ===== src/Timer/Table/Up.antt =====
-- tscb/timer.h: the upward loops of `make_active` and `make_inactive`.
use libtscb.Base.{ℕ, zero, suc, ◌<◌, ◌≤◌, ◌≡◌, inl, inr, Bool, true, false, arith, ◌==◌, Bool-cases}
use libtscb.Timer.Table.{Table, parent, move_slot, place, sift_up, stop_active, stop_inactive}
use libtscb.Timer.Table.Order.{IsBack, key, IsHeapBut, Hole, Kept}

-- The tests of the two loops.
pub stop_inactive-stops : (p e : ℕ) → stop_inactive p e ≡ true → p ≤ e
unfolding stop_inactive
stop_inactive-stops p e h = ground arith

pub stop_inactive-rises : (p e : ℕ) → stop_inactive p e ≡ false → e ≤ p
unfolding stop_inactive
stop_inactive-rises p e h = ground arith

pub stop_active-stops : (p e : ℕ) → stop_active p e ≡ true → p ≤ e
unfolding stop_active
stop_active-stops p e h = ground arith

pub stop_active-rises : (p e : ℕ) → stop_active p e ≡ false → e ≤ p
unfolding stop_active
stop_active-rises p e h = ground arith

module _ (when : ℕ → ℕ) (active n o : ℕ) where
  module _ (t : Table) (e i : ℕ) (h : Hole when active n o t e i) where
    open h use {element, inside, within, hollow, back, edges, bridge, kids}

    place-back : (j : ℕ) → j < n → IsBack (place t e i) j
    unfolding place
    place-back j q = ground (arith, back j)

    place-Kept : Kept active n t e (place t e i)
    unfolding place
    place-Kept = record {
      above = λ j q. ground arith;
      there = λ p z d q. ground arith;
      before = λ p z d q. ground arith;
      placed = ground arith;
    }

    -- At the top, or below a parent that does not come later, the element fits.
    place-IsHeapBut :
        (0 < i → key when t (parent i) ≤ when e) → IsHeapBut when active (place t e i) o
    unfolding place
    place-IsHeapBut fits = record {
      edges = λ c p q d. ground (arith, edges c, kids c, fits);
      bridge = λ c p q d r. ground (arith, edges c, edges o, kids c, kids o, bridge c, fits);
    }

    move-Hole :
        (0 < i)
        → when e ≤ key when t (parent i)
        → Hole when active n o (move_slot t i (parent i)) e (parent i)
    unfolding move_slot
    move-Hole pos le = record {
      element = element;
      inside = omega arith;
      within = within;
      hollow = ground arith;
      back = λ j q d. ground (arith, back j, back (parent i));
      edges = λ c p q d d'. ground (arith, edges c, bridge c);
      bridge = λ c p q d r. ground (arith, edges c, edges (parent i));
      kids = λ c p q d. ground (arith, edges c);
    }

    move-Kept :
        {r : Table} → 0 < i → Kept active n (move_slot t i (parent i)) e r → Kept active n t e r
    unfolding move_slot
    move-Kept pos k = record {
      above = λ j q. ground (arith, k.above j);
      there = λ p z d q. ground (arith, k.there p, back (parent i));
      before = λ p z d q. ground (arith, k.before p, back (parent i));
      placed = k.placed;
    }

  -- A loop that stops only where the parent is not later, and goes on only where it is not
  -- earlier, leaves the heap order broken at most below the slot where it began.
  module _ (stop : ℕ → ℕ → Bool) (stops : (p e : ℕ) → stop p e ≡ true → p ≤ e)
      (rises : (p e : ℕ) → stop p e ≡ false → e ≤ p) where
    pub sift_up_lem :
        (fuel : ℕ) (t : Table) (e i : ℕ)
        → i < fuel
        → Hole when active n o t e i
        → let r = sift_up when stop fuel t e i in
          ((j : ℕ) → j < n → IsBack r j) × Kept active n t e r × IsHeapBut when active r o
    unfolding sift_up
    sift_up_lem zero t e i q h = absurd (omega arith)
    sift_up_lem (suc fuel) t e i q h = elim (Bool-cases (i == 0)) [
      | inl top ↦
          rw top (place-back t e i h, place-Kept t e i h, place-IsHeapBut t e i h (ground arith))
      | inr below ↦ elim (Bool-cases (stop (when (t.slots (parent i))) (when e))) [
        | inl fits ↦
            rw (below, fits)
              (
                place-back t e i h,
                place-Kept t e i h,
                place-IsHeapBut t e i h (λ _. stops _ _ fits),
              )
        | inr late ↦
            rw (below, late)
              (let up = move-Hole t e i h (ground arith) (rises _ _ late) in
                let (back, kept, heap) =
                  sift_up_lem fuel (move_slot t i (parent i)) e (parent i) (ground arith) up in
                (back, move-Kept t e i h (ground arith) kept, heap))
      ]
    ]
