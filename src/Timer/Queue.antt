-- ===== src/Timer/Queue.antt =====
-- tscb/timer.h: `make_active`, `make_inactive` and `unlink`, which move a link in and out of the
-- heap of active timers. The due time of the link at `p` is `when p`.
pub mod Order
pub mod Inactive
pub mod Active
pub mod Unlink
use libtscb.Base.{ℕ, suc, ◌+◌, ◌-◌, ltb, leb, ◌==◌, if◌then◌else◌, update}
use libtscb.Timer.Table.{Table, sift_up, stop_active, stop_inactive, rebalance, swap_slots}

-- `timers_` and `active_limit_`: the first `active_limit` slots are the heap.
pub record Queue : Type 0 where
  pub table : Table
  pub open table use *
  pub active_limit : ℕ

-- The moves of `make_inactive` before its loop: the element at `i` goes behind the shrunken heap,
-- and slot `i` is left empty. The link that stood behind the heap is `tmp`, held outside.
unfoldable pub exchange : Table → ℕ → ℕ → Table
exchange t a i = record t {
  slots = update (update (update t.slots a 0) i 0) a (update t.slots a 0 i);
  index = update t.index (update t.slots a 0 i) a;
}

module _ (when : ℕ → ℕ) where
  unfoldable pub make_inactive : Queue → ℕ → Queue
  make_inactive q i =
      let a = q.active_limit - 1 in
      let tmp = q.slots a in
      let risen = sift_up when stop_inactive (i + 1) (exchange q.table a i) tmp i in
      let moved = record q { table = rebalance when a (a + 1) risen i; active_limit = a } in
      if leb q.active_limit i then q else if leb a i then record q { active_limit = a } else moved

  -- The part of `make_active` that appends slot `active_limit` to the heap.
  unfoldable pub append_active : Queue → Queue
  append_active q =
      let a = q.active_limit in
      let t = q.table in
      let taken = record t { slots = update t.slots a 0 } in
      record q {
        table = sift_up when stop_active (a + 1) taken (t.slots a) a;
        active_limit = a + 1;
      }

  unfoldable pub make_active : Queue → ℕ → Queue
  make_active q i =
      let q' = if ltb i q.active_limit then make_inactive q i else q in
      let i' = if ltb i q.active_limit then q'.active_limit else i in
      let t = if i' == q'.active_limit then q'.table else swap_slots q'.table i' q'.active_limit in
      append_active (record q' { table = t })

  -- `timers_` has `size` slots; the result has one less, without the link at `i`.
  unfoldable pub unlink : Queue → ℕ → ℕ → Queue
  unlink q size i =
      let q' = if ltb i q.active_limit then make_inactive q i else q in
      let i' = if ltb i q.active_limit then q'.active_limit else i in
      let last = size - 1 in
      let t = q'.table in
      let swapped : Table = record t {
        slots = update (update t.slots i' (t.slots last)) last (t.slots i');
        index = update t.index (t.slots last) i';
      } in
      let u = if i' == last then t else swapped in
      record q' { table = record u { slots = update u.slots last 0 } }
