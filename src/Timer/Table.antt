-- ===== src/Timer/Table.antt =====
-- tscb/timer.h: the vector `timers_` with the back pointers `index_`, and the loops that sift it.
-- A link is named by its address, and 0 is the null pointer that `std::move` leaves in a slot.
pub mod Order
pub mod Up
pub mod Down
use libtscb.Base.{
  ℕ, zero, suc, ◌+◌, ◌-◌, ◌*◌, ◌/◌, ◌<◌, Bool, ltb, ◌==◌, if◌then◌else◌, update, not,
}

-- `timers_[i]` is `slots i`, and `index_` of the link at `p` is `index p`.
pub record Table : Type 0 where
  pub slots : ℕ → ℕ
  pub index : ℕ → ℕ

-- `(index - 1) >> 1`
abbrev pub parent : ℕ → ℕ
parent i = (i - 1) / 2

-- `timers_[i] = std::move(timers_[j]); timers_[i]->index_ = i;`
unfoldable pub move_slot : Table → ℕ → ℕ → Table
move_slot t i j = record t {
  slots = update (update t.slots j 0) i (t.slots j);
  index = update t.index (t.slots j) i;
}

-- `element->index_ = i; timers_[i] = std::move(element);`
unfoldable pub place : Table → ℕ → ℕ → Table
place t e i = record t { slots = update t.slots i e; index = update t.index e i }

-- `timers_[i].swap(timers_[j])`, then both back pointers
unfoldable pub swap_slots : Table → ℕ → ℕ → Table
swap_slots t i j = record t {
  slots = update (update t.slots i (t.slots j)) j (t.slots i);
  index = update (update t.index (t.slots j) i) (t.slots i) j;
}

-- The tests that end the two upward loops, on the key of the parent and that of the element.
unfoldable pub stop_active : ℕ → ℕ → Bool
stop_active p e = not (ltb e p)

unfoldable pub stop_inactive : ℕ → ℕ → Bool
stop_inactive p e = ltb p e

module _ (when : ℕ → ℕ) where
  -- The loop `while (index) { … }` with the store behind it: `e` is held outside, and slot `i` is
  -- the hole.
  unfoldable pub sift_up : (ℕ → ℕ → Bool) → ℕ → Table → ℕ → ℕ → Table
  sift_up stop zero t e i = t
  sift_up stop (suc fuel) t e i =
      let rise = sift_up stop fuel (move_slot t i (parent i)) e (parent i) in
      if i == 0
      then place t e i
      else if stop (when (t.slots (parent i))) (when e)
      then place t e i
      else rise

  -- The child that `rebalance` goes on with, or `i` itself.
  unfoldable pub lowest : ℕ → Table → ℕ → ℕ
  lowest active_limit t i =
      let left = i * 2 + 1 in
      let right = left + 1 in
      let low = if ltb (when (t.slots left)) (when (t.slots i)) then left else i in
      let low' = if ltb (when (t.slots right)) (when (t.slots low)) then right else low in
      if ltb left active_limit then (if ltb right active_limit then low' else low) else i

  unfoldable pub rebalance : ℕ → ℕ → Table → ℕ → Table
  rebalance active_limit zero t i = t
  rebalance active_limit (suc fuel) t i =
      let l = lowest active_limit t i in
      let rest = rebalance active_limit fuel (swap_slots t i l) l in if l == i then t else rest
