-- ===== src/Timer/Queue/Inactive.antt =====
-- tscb/timer.h: `make_inactive`.
use libtscb.Base.{ℕ, suc, ◌+◌, ◌-◌, ◌<◌, ◌≤◌, ◌≡◌, ◌≢◌, inl, inr, arith, leb, Bool-cases, refl}
use libtscb.Timer.Table.{Table, stop_inactive, sift_up, rebalance}
use libtscb.Timer.Table.Order.{IsBack, Has, Hole, Kept, Same}
use libtscb.Timer.Table.Up.{sift_up_lem, stop_inactive-stops, stop_inactive-rises}
use libtscb.Timer.Table.Down.{rebalance_lem}
use libtscb.Timer.Queue.{Queue, exchange, make_inactive}
use libtscb.Timer.Queue.Order.{IsShaped, IsHeapAround, IsOrdered, Deactivated}

-- Slot `i` is in the heap and is not its last slot, `a`.
module _ (when : ℕ → ℕ) (size a i : ℕ) (q : Queue) (heap_size : suc a ≡ q.active_limit) (lt : i < a)
    (s : IsShaped size q) where
  abbrev t : Table
  t = q.table

  le : a < size
  le = omega (arith, s.limit)

  abbrev back : (j : ℕ) → j < size → IsBack t j
  back = s.back

  exchange-Hole : IsHeapAround when q i → Hole when a size i (exchange t a i) (t.slots a) i
  unfolding exchange
  exchange-Hole h = record {
    element = ground (arith, back a, le);
    inside = lt;
    within = omega (arith, le);
    hollow = ground arith;
    back = λ j l d. ground (arith, back j, back i, back a, le);
    edges = λ c p l d d'. ground (arith, h.edges c);
    bridge = λ c p l d z. ground (arith, h.bridge c);
    kids = λ c p l d. inl refl;
  }

  abbrev result : Table → Queue
  result r = record { table = r; active_limit = a }

  -- What the loops make of the exchanged slots, seen from the slots before.
  module _ (u r : Table) (kept : Kept a size (exchange t a i) (t.slots a) u)
      (same : Same a size u r) (back' : (j : ℕ) → j < size → IsBack r j) where
    result-above : (j : ℕ) → suc a ≤ j → r.slots j ≡ t.slots j
    unfolding exchange
    result-above j l = ground (arith, same.above j, kept.above j)

    result-out : r.slots a ≡ t.slots i
    unfolding exchange
    result-out = ground (arith, same.above a, kept.above a)

    result-there : (p : ℕ) → p ≢ 0 → Has t size p → Has r size p
    unfolding exchange
    result-there p z h = ground (arith, same.there p, kept.there p, kept.placed, back i)

    result-before : (p : ℕ) → p ≢ 0 → Has r size p → Has t size p
    unfolding exchange
    result-before p z h = ground (arith, same.before p, kept.before p, back a, back i)

    result-Deactivated : Deactivated size q (t.slots i) (result r)
    result-Deactivated = record {
      shaped = record { limit = omega (arith, le); back = back' };
      links = record { there = result-there; before = result-before };
      others = λ x z d h. (
        λ act. ground (arith, result-above (t.index x), back' (t.index x)),
        λ act.
            ground
              (arith, result-there x z h, result-above (r.index x), back (r.index x), result-out),
      );
      out = ground (arith, result-out, back' a, le);
    }

  moved-Deactivated :
      IsHeapAround when q i
      → let u = sift_up when stop_inactive (i + 1) (exchange t a i) (t.slots a) i in
        let r = result (rebalance when a (a + 1) u i) in
        Deactivated size q (t.slots i) r × IsOrdered when r × (r.slots a ≡ t.slots i)
  moved-Deactivated h =
      let (back_u, kept, heap) =
        sift_up_lem when a size i stop_inactive stop_inactive-stops stop_inactive-rises (i + 1)
          (exchange t a i) (t.slots a) i (omega arith) (exchange-Hole h) in
      let u = sift_up when stop_inactive (i + 1) (exchange t a i) (t.slots a) i in
      let (back_r, same, order) =
        rebalance_lem when a size (omega (arith, le)) (a + 1) u i (omega arith) (omega arith) back_u
          heap in
      (
        result-Deactivated u (rebalance when a (a + 1) u i) kept same back_r,
        order,
        result-out u (rebalance when a (a + 1) u i) kept same back_r,
      )

module _ (when : ℕ → ℕ) (size : ℕ) where
  -- `make_inactive` past the heap does nothing.
  idle-Deactivated :
      (q : Queue) (i : ℕ)
      → IsShaped size q
      → i < size
      → q.active_limit ≤ i
      → Deactivated size q (q.slots i) q
  idle-Deactivated q i s lt le = record {
    shaped = s;
    links = record { there = λ p z h. h; before = λ p z h. h };
    others = λ x z d h. (λ act. act, λ act. act);
    out = ground (arith, s.back i);
  }

  -- At the last slot of the heap only the limit moves.
  last-Deactivated :
      (q : Queue) (i : ℕ)
      → IsShaped size q
      → suc i ≡ q.active_limit
      → Deactivated size q (q.slots i) (record q { active_limit = q.active_limit - 1 })
  last-Deactivated q i s e = record {
    shaped = record { limit = ground (arith, s.limit); back = s.back };
    links = record { there = λ p z h. h; before = λ p z h. h };
    others = λ x z d h. (λ act. omega arith, λ act. ground (arith, s.back i));
    out = ground (arith, s.back i, s.limit);
  }

  pub make_inactive_lem :
      (q : Queue) (i : ℕ)
      → IsShaped size q
      → IsHeapAround when q i
      → i < size
      → let r = make_inactive when q i in
        Deactivated size q (q.slots i) r
        × IsOrdered when r
        × (i < q.active_limit
            → (suc r.active_limit ≡ q.active_limit) × (r.slots r.active_limit ≡ q.slots i))
  unfolding make_inactive
  make_inactive_lem q i s h lt = elim (Bool-cases (leb q.active_limit i)) [
    | inl past ↦ rw past (
      idle-Deactivated q i s lt (ground arith),
      λ c p d. ground (arith, h.edges c),
      λ e. absurd (ground arith),
    )
    | inr inside ↦ elim (Bool-cases (leb (q.active_limit - 1) i)) [
      | inl last ↦
          rw (inside, last)
            (
              last-Deactivated q i s (ground arith),
              λ c p d. ground (arith, h.edges c),
              λ e. (omega arith, ground arith),
            )
      | inr before ↦
          rw (inside, before)
            (let (out, order, spot) =
                moved-Deactivated when size (q.active_limit - 1) i q (ground arith) (ground arith) s
                  h in
              (out, order, λ e. (omega arith, spot)))
    ]
  ]
