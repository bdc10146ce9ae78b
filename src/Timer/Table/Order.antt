-- ===== src/Timer/Table/Order.antt =====
-- What the loops over `timers_` keep: the back pointers, the heap order, and the links themselves.
use libtscb.Base.{ℕ, ◌<◌, ◌≤◌, ◌≡◌, ◌≢◌, ◌⊎◌}
use libtscb.Timer.Table.{Table, parent}

-- Slot `j` holds a link, and that link knows its position.
abbrev pub IsBack : Table → ℕ → Type 0
IsBack t j = (t.slots j ≢ 0) × (t.index (t.slots j) ≡ j)

-- The link `p` stands in one of the first `n` slots.
abbrev pub Has : Table → ℕ → ℕ → Type 0
Has t n p = (t.index p < n) × (t.slots (t.index p) ≡ p)

-- Where the links of `t` and the link `e` are afterwards: none is lost, none is added, and the
-- slots past the heap are as they were.
pub record Kept (active n : ℕ) (t : Table) (e : ℕ) (r : Table) : Type 0 where
  pub above : (j : ℕ) → active ≤ j → r.slots j ≡ t.slots j
  pub there : (p : ℕ) → p ≢ 0 → p ≢ e → Has t n p → Has r n p
  pub before : (p : ℕ) → p ≢ 0 → p ≢ e → Has r n p → Has t n p
  pub placed : Has r active e

-- The same for a loop that holds no link outside.
pub record Same (active n : ℕ) (t r : Table) : Type 0 where
  pub above : (j : ℕ) → active ≤ j → r.slots j ≡ t.slots j
  pub there : (p : ℕ) → p ≢ 0 → Has t n p → Has r n p
  pub before : (p : ℕ) → p ≢ 0 → Has r n p → Has t n p

abbrev pub key : (ℕ → ℕ) → Table → ℕ → ℕ
key when t j = when (t.slots j)

module _ (when : ℕ → ℕ) (active : ℕ) where
  -- No child comes before its parent.
  abbrev pub IsHeap : Table → Type 0
  IsHeap t = (c : ℕ) → 0 < c → c < active → key when t (parent c) ≤ key when t c

  -- The heap order, but for the edges from `o` to its children.
  pub record IsHeapBut (t : Table) (o : ℕ) : Type 0 where
    pub edges : (c : ℕ) → 0 < c → c < active → parent c ≢ o → key when t (parent c) ≤ key when t c
    pub bridge :
        (c : ℕ) → 0 < c → c < active → parent c ≡ o → 0 < o → key when t (parent o) ≤ key when t c

  -- The state of an upward loop that holds `e`, with the hole at `i`; it began at `o`.
  pub record Hole (n o : ℕ) (t : Table) (e i : ℕ) : Type 0 where
    pub element : e ≢ 0
    pub inside : i < active
    pub within : active ≤ n
    pub hollow : t.slots i ≡ 0
    pub back : (j : ℕ) → j < n → j ≢ i → IsBack t j × (t.slots j ≢ e)
    pub edges :
        (c : ℕ) → 0 < c → c < active → c ≢ i → parent c ≢ i → key when t (parent c) ≤ key when t c
    pub bridge :
        (c : ℕ) → 0 < c → c < active → parent c ≡ i → 0 < i → key when t (parent i) ≤ key when t c
    pub kids : (c : ℕ) → 0 < c → c < active → parent c ≡ i → (i ≡ o) ⊎ (when e ≤ key when t c)
