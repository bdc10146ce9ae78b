-- ===== src/Lock/Deferred/Tests.antt =====
-- A run of two threads with the deferred lock, and the theorems applied to it.
use libtscb.Base.{ℕ, Bool, ◌<◌, ◌≡◌, ◌≢◌, ◌⊎◌, true, false, update, arith, refl}
use libtscb.Lock.Deferred.{
  idle, acquiring, loading, writing, syncing, sync_leave, write_start, unlock_slow, unlock_check,
  System, Memory, Thread, at, init, turn, Reach, start, later, read_begin, load_some, cas_win,
  write_enter, write_first, write_exit, drop_last, unlock_enter, check_zero, sync_end, sync_exit,
}
use libtscb.Lock.Deferred.Invariant.{heads}
use libtscb.Lock.Deferred.Safety.{sync_exclusive, writers_exclusive, no_lost_sync}

abbrev memory_of : ℕ → Bool → Bool → Memory
memory_of r l q = record { readers = r; locked = l; queued = q }

abbrev then : System → ℕ → Memory → Thread → System
then s i m t = record { memory = m; thread = update s.thread i t }

-- Thread 0 gets a read lock.
abbrev reading : System
reading =
    then (then (then init 0 init.memory (at loading 0)) 0 init.memory (at (acquiring 1) 0)) 0
      (memory_of 2 false false) (at idle 1)

reading-Reach : Reach 2 1 reading
reading-Reach =
    later
      (later (later start (turn 0 (omega arith) (read_begin (omega arith))))
        (turn 0 (omega arith) (load_some (omega arith))))
      (turn 0 (omega arith) (cas_win refl))

-- Thread 1 writes, and leaves the synchronization to thread 0.
abbrev write : System
write =
    then (then reading 1 (memory_of 2 true false) (at write_start 0)) 1 (memory_of 1 true true)
      (at writing 0)

write-Reach : Reach 2 1 write
write-Reach =
    later (later reading-Reach (turn 1 (omega arith) (write_enter refl)))
      (turn 1 (omega arith) (write_first refl (omega arith)))

abbrev queued : System
queued = then write 1 (memory_of 1 false true) (at idle 0)

queued-Reach : Reach 2 1 queued
queued-Reach = later write-Reach (turn 1 (omega arith) write_exit)

-- Thread 0 gives its read lock back and synchronizes.
abbrev sync : System
sync =
    then
      (then (then queued 0 (memory_of 0 false true) (at unlock_slow 0)) 0 (memory_of 0 true true)
        (at unlock_check 0))
      0 (memory_of 0 true true) (at syncing 0)

sync-Reach : Reach 2 1 sync
sync-Reach =
    later
      (later (later queued-Reach (turn 0 (omega arith) (drop_last refl)))
        (turn 0 (omega arith) (unlock_enter refl)))
      (turn 0 (omega arith) (check_zero refl))

abbrev rest : System
rest =
    then (then sync 0 (memory_of 1 true false) (at sync_leave 0)) 0 (memory_of 1 false false)
      (at idle 0)

rest-Reach : Reach 2 1 rest
rest-Reach =
    later (later sync-Reach (turn 0 (omega arith) sync_end)) (turn 0 (omega arith) sync_exit)

rest_idle : (i : ℕ) → rest.thread i ≡ at idle 0
rest_idle i = ground arith

sync_exclusive_example :
    ((sync.thread 1).held ≡ 0)
    × (◌≡◌ {A = ℕ} 0 1 ⊎ (((sync.thread 1).pc ≢ syncing) × ((sync.thread 1).pc ≢ writing)))
sync_exclusive_example =
    sync_exclusive (omega arith) sync-Reach 0 1 (omega arith) (omega arith) refl

writers_exclusive_example : ◌≡◌ {A = ℕ} 1 1
writers_exclusive_example =
    writers_exclusive (omega arith) write-Reach 1 1 (omega arith) (omega arith) refl refl

no_lost_sync_example :
    (i : ℕ) × (i < 2) × ((0 < (queued.thread i).held) ⊎ (heads (queued.thread i).pc ≡ 1))
no_lost_sync_example = no_lost_sync (omega arith) queued-Reach refl
