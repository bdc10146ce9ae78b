-- ===== src/Lock/Deferred/Invariant.antt =====
-- The invariant of the deferred lock, and the steps of the threads.
use libtscb.Base.{ℕ, ◌+◌, ◌*◌, ◌<◌, ◌≤◌, ◌≡◌, ◌≢◌, true, false, if◌then◌else◌, update, arith, refl}
use native.Mathlib.Decide.{ℕ_discrete}
use libtscb.Lock.Deferred.{
  Memory, Thread, Pc, loading, acquiring, lock_slow, slow_loading, slow_acquiring, slow_won,
  unlock_slow, unlock_check, unlock_leave, write_start, writing, syncing, sync_leave, Move,
  read_begin, load_zero, load_some, cas_win, slow_enter, slow_zero, slow_some, slow_win, drop_more,
  drop_last, unlock_enter, check_some, check_zero, write_enter, write_again, write_first,
  write_sync,
}
use libtscb.Sums.{sum_of, sum_of-update, le-sum_of, sum_of-two, sum_of-le}

abbrev pub held_of : Thread → ℕ
held_of t = t.held

-- The thread has `writers_`.
abbrev pub owns : Pc → ℕ
owns slow_loading = 1
owns (slow_acquiring e) = 1
owns slow_won = 1
owns unlock_check = 1
owns unlock_leave = 1
owns write_start = 1
owns writing = 1
owns syncing = 1
owns sync_leave = 1
owns _ = 0

abbrev pub owner_of : Thread → ℕ
owner_of t = owns t.pc

-- The thread will find `readers_` at 0 and synchronize, or does so now.
abbrev pub heads : Pc → ℕ
heads unlock_slow = 1
heads unlock_check = 1
heads syncing = 1
heads _ = 0

abbrev pub heads_of : Thread → ℕ
heads_of t = heads t.pc

-- What the place of a thread says of its own values.
abbrev pub Local : ℕ → Pc → ℕ → Type 0
Local depth loading h = h < depth
Local depth (acquiring e) h = (h < depth) × (e ≢ 0)
Local depth lock_slow h = h < depth
Local depth slow_loading h = h < depth
Local depth (slow_acquiring e) h = (h < depth) × (e ≢ 0)
Local depth _ h = h ≤ depth

pub record Inv (n depth : ℕ) (m : Memory) (th : ℕ → Thread) : Type 0 where
  pub count : m.readers ≡ sum_of held_of n th + (if m.queued then 0 else 1)
  pub owners : sum_of owner_of n th ≡ (if m.locked then 1 else 0)
  pub synced : (i : ℕ) → i < n → (th i).pc ≡ syncing → (m.readers ≡ 0) × (m.queued ≡ true)
  pub headed : m.queued ≡ true → m.readers ≡ 0 → 0 < sum_of heads_of n th
  pub places : (i : ℕ) → Local depth (th i).pc (th i).held

-- What a move may rely on, read off its premise.
abbrev Guard : {depth : ℕ} {m m' : Memory} {t t' : Thread} → Move depth m t m' t' → Type 0
Guard {depth} (read_begin {h} _) = h < depth
Guard {m} (load_zero _) = m.readers ≡ 0
Guard {m} (load_some _) = m.readers ≢ 0
Guard {m} (cas_win {e} _) = m.readers ≡ e
Guard {m} (slow_enter _) = m.locked ≡ false
Guard {m} (slow_zero _) = m.readers ≡ 0
Guard {m} (slow_some _) = m.readers ≢ 0
Guard {m} (slow_win {e} _) = m.readers ≡ e
Guard {m} (drop_more _) = m.readers ≢ 1
Guard {m} (drop_last _) = m.readers ≡ 1
Guard {m} (unlock_enter _) = m.locked ≡ false
Guard {m} (check_some _) = m.readers ≢ 0
Guard {m} (check_zero _) = m.readers ≡ 0
Guard {m} (write_enter _) = m.locked ≡ false
Guard {m} (write_again _) = m.queued ≡ true
Guard {m} (write_first _ _) = (m.queued ≡ false) × (m.readers ≢ 1)
Guard {m} (write_sync _ _) = (m.queued ≡ false) × (m.readers ≡ 1)
Guard _ = Unit

guard : {depth : ℕ} {m m' : Memory} {t t' : Thread} (mv : Move depth m t m' t') → Guard mv
guard (read_begin g) = g
guard (load_zero g) = g
guard (load_some g) = g
guard (cas_win g) = g
guard (slow_enter g) = g
guard (slow_zero g) = g
guard (slow_some g) = g
guard (slow_win g) = g
guard (drop_more g) = g
guard (drop_last g) = g
guard (unlock_enter g) = g
guard (check_some g) = g
guard (check_zero g) = g
guard (write_enter g) = g
guard (write_again g) = g
guard (write_first g k) = (g, k)
guard (write_sync g k) = (g, k)
guard _ = tt

Local-le : (depth : ℕ) (p : Pc) (h : ℕ) → Local depth p h → h ≤ depth
Local-le depth p h l = ground arith

module _ {n depth : ℕ} {m : Memory} {th : ℕ → Thread} (inv : Inv n depth m th) (i : ℕ) (lt : i < n)
    (small : n * depth < 18446744073709551614) where
  -- Thread `i` goes from `t` to `t'`.
  record Mover (t t' : Thread) : Type 0 where
    place : Local depth t.pc t.held
    held_sum : sum_of held_of n (update th i t') + t.held ≡ sum_of held_of n th + t'.held
    owner_sum : sum_of owner_of n (update th i t') + owner_of t ≡ sum_of owner_of n th + owner_of t'
    heads_sum : sum_of heads_of n (update th i t') + heads_of t ≡ sum_of heads_of n th + heads_of t'
    held_le : t.held ≤ sum_of held_of n th
    owner_le : owner_of t ≤ sum_of owner_of n th
    bound : m.readers < 18446744073709551615
    synced : t.pc ≡ syncing → (m.readers ≡ 0) × (m.queued ≡ true)

  mover : (t' : Thread) → Mover (th i) t'
  mover t' = record {
    place = inv.places i;
    held_sum = sum_of-update held_of n th i t' lt;
    owner_sum = sum_of-update owner_of n th i t' lt;
    heads_sum = sum_of-update heads_of n th i t' lt;
    held_le = le-sum_of held_of n th i lt;
    owner_le = le-sum_of owner_of n th i lt;
    bound = ground (
      arith,
      inv.count,
      sum_of-le held_of depth n th (λ j. Local-le depth (th j).pc (th j).held (inv.places j)),
    );
    synced = inv.synced i lt;
  }

  Move-count :
      {t t' : Thread} {m' : Memory}
      → Move depth m t m' t'
      → Mover t t'
      → m'.readers ≡ sum_of held_of n (update th i t') + (if m'.queued then 0 else 1)
  Move-count (read_begin g) f = ground (arith, inv.count)
  Move-count mv f = ground (arith, guard mv, inv.count)

  Move-owners :
      {t t' : Thread} {m' : Memory}
      → Move depth m t m' t'
      → Mover t t'
      → sum_of owner_of n (update th i t') ≡ (if m'.locked then 1 else 0)
  Move-owners (read_begin g) f = ground (arith, inv.owners)
  Move-owners mv f = ground (arith, guard mv, inv.owners)

  Move-headed :
      {t t' : Thread} {m' : Memory}
      → Move depth m t m' t'
      → Mover t t'
      → m'.queued ≡ true
      → m'.readers ≡ 0
      → 0 < sum_of heads_of n (update th i t')
  Move-headed (read_begin g) f q r = ground (arith, inv.headed)
  Move-headed mv f q r = ground (arith, guard mv, inv.headed, inv.count)

  Move-place :
      {t t' : Thread} {m' : Memory} → Move depth m t m' t' → Mover t t' → Local depth t'.pc t'.held
  Move-place (read_begin g) f = ground arith
  Move-place mv f = ground (arith, guard mv, f.place)

  Move-synced_self :
      {t t' : Thread} {m' : Memory}
      → Move depth m t m' t'
      → Mover t t'
      → t'.pc ≡ syncing
      → (m'.readers ≡ 0) × (m'.queued ≡ true)
  Move-synced_self (read_begin g) f e = cc
  Move-synced_self mv f e = ground (arith, guard mv, inv.count)

  -- While thread `j` synchronizes, no other thread changes `readers_` or `queued_`.
  Move-synced_other :
      {t t' : Thread} {m' : Memory}
      → Move depth m t m' t'
      → Mover t t'
      → owner_of t ≡ 0
      → (m.readers ≡ 0) × (m.queued ≡ true)
      → (m'.readers ≡ 0) × (m'.queued ≡ true)
  Move-synced_other (read_begin g) f o s = s
  Move-synced_other mv f o s = ground (arith, guard mv, inv.count)

  Move-synced :
      {t' : Thread} {m' : Memory}
      → Move depth m (th i) m' t'
      → (j : ℕ) → j < n
      → (update th i t' j).pc ≡ syncing
      → (m'.readers ≡ 0) × (m'.queued ≡ true)
  Move-synced {t'} mv j l e = elim (ℕ_discrete i j) [
    | yes same ↦ Move-synced_self mv (mover t') (ground arith)
    | no other ↦
        let at_j : (th j).pc ≡ syncing = ground arith in
        let two = sum_of-two owner_of n th i j lt l other in
        let own_j : owner_of (th j) ≡ 1 = rw at_j refl in
        Move-synced_other mv (mover t') (ground (arith, inv.owners)) (inv.synced j l at_j)
  ]

  pub Move-Inv :
      {t' : Thread} {m' : Memory} → Move depth m (th i) m' t' → Inv n depth m' (update th i t')
  Move-Inv {t'} mv =
      let f = mover t' in
      record {
        count = Move-count mv f;
        owners = Move-owners mv f;
        synced = Move-synced mv;
        headed = Move-headed mv f;
        places = λ j. ground (arith, inv.places j, Move-place mv f);
      }
