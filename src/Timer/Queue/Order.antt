-- ===== src/Timer/Queue/Order.antt =====
-- The invariant of `timers_` and what it says of each link.
use libtscb.Base.{ℕ, ◌<◌, ◌≤◌, ◌≡◌, ◌≢◌, ◌-◌, zero, suc, arith}
use libtscb.Timer.Table.{parent}
use libtscb.Timer.Table.Order.{IsBack, Has, IsHeap}
use libtscb.Timer.Queue.{Queue}

-- Each of the `size` slots holds a link that knows its position.
pub record IsShaped (size : ℕ) (q : Queue) : Type 0 where
  pub limit : q.active_limit ≤ size
  pub back : (j : ℕ) → j < size → IsBack q.table j

-- The link at `i` may be out of order, with the ones around it in order.
pub record IsHeapAround (when : ℕ → ℕ) (q : Queue) (i : ℕ) : Type 0 where
  pub edges :
      (c : ℕ)
      → 0 < c
      → c < q.active_limit
      → c ≢ i
      → parent c ≢ i
      → when (q.slots (parent c)) ≤ when (q.slots c)
  pub bridge :
      (c : ℕ)
      → 0 < c
      → c < q.active_limit
      → parent c ≡ i
      → 0 < i
      → when (q.slots (parent i)) ≤ when (q.slots c)

abbrev pub IsOrdered : (ℕ → ℕ) → Queue → Type 0
IsOrdered when q = IsHeap when q.active_limit q.table

-- The link `p` is one of the dispatcher's, and it is among the active ones.
abbrev pub IsActive : Queue → ℕ → Type 0
IsActive q p = q.index p < q.active_limit

-- The same links in other slots.
pub record SameLinks (size : ℕ) (q r : Queue) : Type 0 where
  pub there : (p : ℕ) → p ≢ 0 → Has q.table size p → Has r.table size p
  pub before : (p : ℕ) → p ≢ 0 → Has r.table size p → Has q.table size p

-- `r` has the links of `q` in other slots; `p` is not active, and the rest is as before.
pub record Deactivated (size : ℕ) (q : Queue) (p : ℕ) (r : Queue) : Type 0 where
  pub shaped : IsShaped size r
  pub links : SameLinks size q r
  pub others :
      (x : ℕ)
      → x ≢ 0
      → x ≢ p
      → Has q.table size x
      → (IsActive r x → IsActive q x) × (IsActive q x → IsActive r x)
  pub out : r.active_limit ≤ r.index p

-- `r` has the links of `q` in other slots; `p` is active, and the rest is as before.
pub record Activated (size : ℕ) (q : Queue) (p : ℕ) (r : Queue) : Type 0 where
  pub shaped : IsShaped size r
  pub links : SameLinks size q r
  pub others :
      (x : ℕ)
      → x ≢ 0
      → x ≢ p
      → Has q.table size x
      → (IsActive r x → IsActive q x) × (IsActive q x → IsActive r x)
  pub member : Has r.table r.active_limit p

pub IsHeapAround-of_IsOrdered :
    (when : ℕ → ℕ) (q : Queue) (i : ℕ) → IsOrdered when q → IsHeapAround when q i
IsHeapAround-of_IsOrdered when q i h = record {
  edges = λ c p l d d'. h c p l;
  bridge = λ c p l e z. ground (arith, h c, h i);
}

-- `r` has one slot less: the link `p` is gone, and the rest is as before.
pub record Removed (size : ℕ) (q : Queue) (p : ℕ) (r : Queue) : Type 0 where
  pub shaped : IsShaped (size - 1) r
  pub there : (x : ℕ) → x ≢ 0 → x ≢ p → Has q.table size x → Has r.table (size - 1) x
  pub before : (x : ℕ) → x ≢ 0 → Has r.table (size - 1) x → Has q.table size x × (x ≢ p)
  pub others :
      (x : ℕ)
      → x ≢ 0
      → x ≢ p
      → Has q.table size x
      → (IsActive r x → IsActive q x) × (IsActive q x → IsActive r x)

first_le_below :
    (k : ℕ) (when : ℕ → ℕ) (q : Queue) (i : ℕ)
    → IsOrdered when q
    → i < k
    → i < q.active_limit
    → when (q.slots 0) ≤ when (q.slots i)
first_le_below zero when q i h f l = absurd (omega arith)
first_le_below (suc k) when q i h f l = ground (arith, h i, first_le_below k when q (parent i) h)

-- The link in slot 0 is due first.
pub first_le :
    (when : ℕ → ℕ) (q : Queue) (i : ℕ)
    → IsOrdered when q
    → i < q.active_limit
    → when (q.slots 0) ≤ when (q.slots i)
first_le when q i h l = first_le_below (suc i) when q i h (omega arith) l
