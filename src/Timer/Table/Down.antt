-- ===== src/Timer/Table/Down.antt =====
-- tscb/timer.h: the downward loop, `rebalance`.
use libtscb.Base.{
  ℕ, zero, suc, ◌+◌, ◌<◌, ◌≤◌, ◌≡◌, ◌≢◌, inl, inr, arith, ◌==◌, Bool-cases, refl, ◌∙◌,
}
use libtscb.Timer.Table.{Table, parent, swap_slots, lowest, rebalance}
use libtscb.Timer.Table.Order.{IsBack, key, IsHeap, IsHeapBut, Same}

module _ (when : ℕ → ℕ) (active n : ℕ) (within : active ≤ n) where
  module _ (t : Table) (i : ℕ) where
    -- The slot that comes first among `i` and its children.
    record IsLowest (l : ℕ) : Type 0 where
      kids : (c : ℕ) → 0 < c → c < active → parent c ≡ i → key when t l ≤ key when t c
      self : key when t l ≤ key when t i
      child : l ≢ i → (0 < l) × (l < active) × (parent l ≡ i) × (i < l)

    lowest-IsLowest : IsLowest (lowest when active t i)
    unfolding lowest
    lowest-IsLowest = record {
      kids = λ c p q e. ground arith;
      self = ground arith;
      child = λ d. ground arith;
    }

  module _ (t : Table) (i l : ℕ) (low : IsLowest t i l) (d : l ≢ i)
      (back : (j : ℕ) → j < n → IsBack t j) where
    swap-back : (j : ℕ) → j < n → IsBack (swap_slots t i l) j
    unfolding swap_slots
    swap-back j q = ground (arith, back j, back i, back l, low.child d)

    swap-Same : Same active n t (swap_slots t i l)
    unfolding swap_slots
    swap-Same = record {
      above = λ j q. ground (arith, low.child d);
      there = λ p z q. ground (arith, back i, back l, low.child d);
      before = λ p z q. ground (arith, back i, back l, low.child d);
    }

    swap-IsHeapBut : IsHeapBut when active t i → IsHeapBut when active (swap_slots t i l) l
    unfolding swap_slots
    swap-IsHeapBut h = record {
      edges = λ c p q e.
          ground (arith, h.edges c, h.bridge c, h.bridge l, low.kids c, low.self, low.child d);
      bridge = λ c p q e z. ground (arith, h.edges c, low.child d);
    }

  Same-trans : {a b c : Table} → Same active n a b → Same active n b c → Same active n a c
  Same-trans p q = record {
    above = λ j h. q.above j h ∙ p.above j h;
    there = λ x z h. q.there x z (p.there x z h);
    before = λ x z h. p.before x z (q.before x z h);
  }

  Same-refl : {a : Table} → Same active n a a
  Same-refl = record { above = λ j h. refl; there = λ x z h. h; before = λ x z h. h }

  -- From a heap that may be broken below `i`, `rebalance` makes a heap of the same links.
  pub rebalance_lem :
      (fuel : ℕ) (t : Table) (i : ℕ)
      → 0 < fuel
      → active ≤ fuel + i
      → ((j : ℕ) → j < n → IsBack t j)
      → IsHeapBut when active t i
      → let r = rebalance when active fuel t i in
        ((j : ℕ) → j < n → IsBack r j) × Same active n t r × IsHeap when active r
  unfolding rebalance
  rebalance_lem zero t i pos f back h = absurd (omega arith)
  rebalance_lem (suc fuel) t i pos f back h =
      let l = lowest when active t i in
      let low : IsLowest t i l = lowest-IsLowest t i in
      elim (Bool-cases (l == i)) [
        | inl done ↦ rw done (back, Same-refl, λ c p q. ground (arith, h.edges c, low.kids c))
        | inr more ↦
            let d : l ≢ i = ground arith in
            let (back', same, heap) =
              rebalance_lem fuel (swap_slots t i l) l (ground (arith, low.child d))
                (ground (arith, low.child d)) (swap-back t i l low d back)
                (swap-IsHeapBut t i l low d back h) in
            rw more (back', Same-trans (swap-Same t i l low d back) same, heap)
      ]
