-- ===== src/Eventflag.antt =====
-- tscb/detail/eventflag.h and tscb/detail/eventflag.cc: `pipe_eventflag`, used by `n` threads at a
-- time, of which thread 0 calls `clear`.
pub mod Invariant
pub mod Wakeup
mod Tests
use libtscb.Base.{ℕ, zero, suc, ◌+◌, ◌-◌, ◌<◌, ◌≡◌, ◌≢◌, ◌==◌, if◌then◌else◌, update}
use libtscb.Lock.Deferred.{fetch_sub, fetch_add}

-- `flagged_`, `waiting_`, and the number of bytes in the pipe.
pub record Flag : Type 0 where
  pub flagged : ℕ
  pub waiting : ℕ
  pub bytes : ℕ

-- Where a thread stands.
pub data Place : Type 0 where
  outside : Place  -- outside all calls
  set_load : Place  -- the load in `set`
  set_cas : Place  -- its compare-exchange from 0 to 1
  set_check : Place  -- its load of `waiting_`
  set_slow : Place  -- the compare-exchange from 1 to 2 in `set_slow`
  set_write : Place  -- the loop with its `write`
  wait_load : Place  -- the load in `wait`
  wait_start : Place  -- `start_waiting` in `wait_slow`
  wait_check : Place  -- its load of `flagged_`
  polling : Place  -- its loop with `poll`
  wait_stop : Place  -- `stop_waiting`
  clear_load : Place  -- the load in `clear`
  clear_cas : (oldval : ℕ) → Place  -- its compare-exchange to 0
  clear_read : Place  -- the loop with `read` in `clear_slow`

-- One atomic access of thread `i`. A compare-exchange that fails leaves the value that it has found
-- in `oldval`, and the load of `clear` is not repeated.
pub data Access (i : ℕ) (m : Flag) : Place → Flag → Place → Type 0 where
  -- set
  set_begin : Access i m outside m set_load
  set_already : m.flagged ≢ 0 → Access i m set_load m outside
  set_clear : m.flagged ≡ 0 → Access i m set_load m set_cas
  raise : m.flagged ≡ 0 → Access i m set_cas (record m { flagged = 1 }) set_check
  raise_late : m.flagged ≢ 0 → Access i m set_cas m outside
  check_none : m.waiting ≡ 0 → Access i m set_check m outside
  check_some : m.waiting ≢ 0 → Access i m set_check m set_slow
  mark : m.flagged ≡ 1 → Access i m set_slow (record m { flagged = 2 }) set_write
  mark_late : m.flagged ≢ 1 → Access i m set_slow m outside
  write_byte : Access i m set_write (record m { bytes = m.bytes + 1 }) outside
  -- wait
  wait_begin : Access i m outside m wait_load
  wait_already : m.flagged ≢ 0 → Access i m wait_load m outside
  wait_clear : m.flagged ≡ 0 → Access i m wait_load m wait_start
  start_waiting : Access i m wait_start (record m { waiting = fetch_add m.waiting }) wait_check
  check_set : m.flagged ≢ 0 → Access i m wait_check m wait_stop
  check_unset : m.flagged ≡ 0 → Access i m wait_check m polling
  wake : m.bytes ≢ 0 → Access i m polling m wait_stop
  stop_waiting : Access i m wait_stop (record m { waiting = fetch_sub m.waiting }) outside
  -- clear
  clear_begin : i ≡ 0 → Access i m outside m clear_load
  clear_already : m.flagged ≡ 0 → Access i m clear_load m outside
  clear_set : m.flagged ≢ 0 → Access i m clear_load m (clear_cas m.flagged)
  clear_lose : {e : ℕ} → m.flagged ≢ e → Access i m (clear_cas e) m (clear_cas m.flagged)
  clear_win_one : m.flagged ≡ 1 → Access i m (clear_cas 1) (record m { flagged = 0 }) outside
  clear_win_slow :
      {e : ℕ}
      → e ≢ 1
      → m.flagged ≡ e
      → Access i m (clear_cas e) (record m { flagged = 0 }) clear_read
  read_byte : m.bytes ≢ 0 → Access i m clear_read (record m { bytes = m.bytes - 1 }) outside

pub record State : Type 0 where
  pub flag : Flag
  pub place : ℕ → Place

abbrev pub initial : State
initial = record { flag = record { flagged = 0; waiting = 0; bytes = 0 }; place = λ i. outside }

pub data Turn (n : ℕ) (s : State) : State → Type 0 where
  turn :
      (i : ℕ) {m : Flag} {p : Place}
      → i < n
      → Access i s.flag (s.place i) m p
      → Turn n s (record { flag = m; place = update s.place i p })

pub data Course (n : ℕ) : State → Type 0 where
  start : Course n initial
  later : {s t : State} → Course n s → Turn n s t → Course n t
