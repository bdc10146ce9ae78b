-- ===== src/Lock/Deferred.antt =====
-- tscb/detail/deferred-locks.h and .cc: `deferred_rwlock`, used by `n` threads at a time.
pub mod Invariant
pub mod Safety
mod Tests
use libtscb.Base.{
  ℕ, zero, suc, ◌+◌, ◌-◌, ◌<◌, ◌≤◌, ◌≡◌, ◌≢◌, ◌%◌, ◌^◌, Bool, true, false, ◌==◌, if◌then◌else◌,
  update,
}

-- The memory that the threads share: `readers_`, whether `writers_` is locked, and `queued_`.
pub record Memory : Type 0 where
  pub readers : ℕ
  pub locked : Bool
  pub queued : Bool

-- Where a thread stands. `queued_` is only read and written by the thread that has `writers_`, so
-- an access to it goes together with the access to `readers_` next to it.
pub data Pc : Type 0 where
  idle : Pc  -- outside all calls
  loading : Pc  -- the load in `read_acquire`, from `read_lock`
  acquiring : (expected : ℕ) → Pc  -- its compare-exchange
  lock_slow : Pc  -- `writers_.lock()` in `read_lock_slow`
  slow_loading : Pc  -- the load in `read_acquire`, from `read_lock_slow`
  slow_acquiring : (expected : ℕ) → Pc  -- its compare-exchange
  slow_won : Pc  -- `writers_.unlock()` in `read_lock_slow`
  unlock_slow : Pc  -- `writers_.lock()` in `read_unlock_slow`
  unlock_check : Pc  -- its load of `readers_`
  unlock_leave : Pc  -- its `writers_.unlock()`
  write_start : Pc  -- `write_lock_async` with `writers_` locked
  writing : Pc  -- after `write_lock_async` returned false
  syncing : Pc  -- after a call returned true, up to the end of the synchronization
  sync_leave : Pc  -- `writers_.unlock()` in `sync_finished`

-- A thread, with the number of read locks that it has.
pub record Thread : Type 0 where
  pub pc : Pc
  pub held : ℕ

abbrev pub at : Pc → ℕ → Thread
at p h = record { pc = p; held = h }

-- `fetch_sub(1)` and `fetch_add(1)` on a `size_t`
abbrev pub fetch_sub : ℕ → ℕ
fetch_sub r = if r == 0 then 18446744073709551615 else r - 1

abbrev pub fetch_add : ℕ → ℕ
fetch_add r = if r == 18446744073709551615 then 0 else r + 1

-- One atomic step of one thread. A thread begins `read_lock` with less than `depth` read locks.
pub data Move (depth : ℕ) (m : Memory) : Thread → Memory → Thread → Type 0 where
  -- read_lock
  read_begin : {h : ℕ} → h < depth → Move depth m (at idle h) m (at loading h)
  load_zero : {h : ℕ} → m.readers ≡ 0 → Move depth m (at loading h) m (at lock_slow h)
  load_some : {h : ℕ} → m.readers ≢ 0 → Move depth m (at loading h) m (at (acquiring m.readers) h)
  cas_win :
      {h e : ℕ}
      → m.readers ≡ e
      → Move depth m (at (acquiring e) h) (record m { readers = fetch_add e }) (at idle (suc h))
  cas_lose : {h e : ℕ} → m.readers ≢ e → Move depth m (at (acquiring e) h) m (at loading h)
  slow_enter :
      {h : ℕ}
      → m.locked ≡ false
      → Move depth m (at lock_slow h) (record m { locked = true }) (at slow_loading h)
  slow_zero : {h : ℕ} → m.readers ≡ 0 → Move depth m (at slow_loading h) m (at syncing h)
  slow_some :
      {h : ℕ} → m.readers ≢ 0 → Move depth m (at slow_loading h) m (at (slow_acquiring m.readers) h)
  slow_win :
      {h e : ℕ}
      → m.readers ≡ e
      → Move depth m
          (at (slow_acquiring e) h)
          (record m { readers = fetch_add e })
          (at slow_won (suc h))
  slow_lose :
      {h e : ℕ} → m.readers ≢ e → Move depth m (at (slow_acquiring e) h) m (at slow_loading h)
  slow_exit : {h : ℕ} → Move depth m (at slow_won h) (record m { locked = false }) (at idle h)
  -- read_unlock
  drop_more :
      {h : ℕ}
      → m.readers ≢ 1
      → Move depth m (at idle (suc h)) (record m { readers = fetch_sub m.readers }) (at idle h)
  drop_last :
      {h : ℕ}
      → m.readers ≡ 1
      → Move depth m
          (at idle (suc h))
          (record m { readers = fetch_sub m.readers })
          (at unlock_slow h)
  unlock_enter :
      {h : ℕ}
      → m.locked ≡ false
      → Move depth m (at unlock_slow h) (record m { locked = true }) (at unlock_check h)
  check_some : {h : ℕ} → m.readers ≢ 0 → Move depth m (at unlock_check h) m (at unlock_leave h)
  check_zero : {h : ℕ} → m.readers ≡ 0 → Move depth m (at unlock_check h) m (at syncing h)
  unlock_exit : {h : ℕ} → Move depth m (at unlock_leave h) (record m { locked = false }) (at idle h)
  -- write_lock_async and write_unlock_async
  write_enter :
      {h : ℕ}
      → m.locked ≡ false
      → Move depth m (at idle h) (record m { locked = true }) (at write_start h)
  write_again : {h : ℕ} → m.queued ≡ true → Move depth m (at write_start h) m (at writing h)
  write_first :
      {h : ℕ}
      → m.queued ≡ false
      → m.readers ≢ 1
      → Move depth m
          (at write_start h)
          (record m { readers = fetch_sub m.readers; queued = true })
          (at writing h)
  write_sync :
      {h : ℕ}
      → m.queued ≡ false
      → m.readers ≡ 1
      → Move depth m
          (at write_start h)
          (record m { readers = fetch_sub m.readers; queued = true })
          (at syncing h)
  write_exit : {h : ℕ} → Move depth m (at writing h) (record m { locked = false }) (at idle h)
  -- sync_finished
  sync_end :
      {h : ℕ}
      → Move depth m
          (at syncing h)
          (record m { readers = fetch_add m.readers; queued = false })
          (at sync_leave h)
  sync_exit : {h : ℕ} → Move depth m (at sync_leave h) (record m { locked = false }) (at idle h)

pub record System : Type 0 where
  pub memory : Memory
  pub thread : ℕ → Thread

abbrev pub init : System
init = record {
  memory = record { readers = 1; locked = false; queued = false };
  thread = λ i. record { pc = idle; held = 0 };
}

pub data Step (n depth : ℕ) (s : System) : System → Type 0 where
  turn :
      (i : ℕ) {m : Memory} {t : Thread}
      → i < n
      → Move depth s.memory (s.thread i) m t
      → Step n depth s (record { memory = m; thread = update s.thread i t })

pub data Reach (n depth : ℕ) : System → Type 0 where
  start : Reach n depth init
  later : {s t : System} → Reach n depth s → Step n depth s t → Reach n depth t
