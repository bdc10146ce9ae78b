-- ===== src/Eventflag/Tests.antt =====
-- tscb/detail/eventflag.cc: one thread waits, another sets the flag, and the theorem there.
use libtscb.Base.{ℕ, ◌<◌, ◌≤◌, ◌≡◌, ◌≢◌, ◌⊎◌, update, arith, refl}
use libtscb.Eventflag.{
  Flag, Place, outside, set_load, set_cas, set_check, set_slow, set_write, wait_load, wait_start,
  wait_check, polling, clear_read, State, turn, Course, start, later, set_begin, set_clear, raise,
  check_some, mark, wait_begin, wait_clear, start_waiting, check_unset,
}
use libtscb.Eventflag.Wakeup.{Writing, IsComing, Course-IsComing}

abbrev moved : State → ℕ → Flag → Place → State
moved s i m p = record { flag = m; place = update s.place i p }

-- Thread 0 waits, and polls the pipe.
abbrev waiting_one : State
waiting_one = record {
  flag = record { flagged = 0; waiting = 1; bytes = 0 };
  place =
      update (update (update (update (λ i. outside) 0 wait_load) 0 wait_start) 0 wait_check) 0
        polling;
}

waiting-Course : Course 2 waiting_one
waiting-Course =
    later
      (later
        (later (later start (turn 0 (omega arith) wait_begin))
          (turn 0 (omega arith) (wait_clear refl)))
        (turn 0 (omega arith) start_waiting))
      (turn 0 (omega arith) (check_unset refl))

-- Thread 1 sets the flag and is about to write.
abbrev marked : State
marked = record {
  flag = record { flagged = 2; waiting = 1; bytes = 0 };
  place =
      update
        (update (update (update (update waiting_one.place 1 set_load) 1 set_cas) 1 set_check) 1
          set_slow)
        1 set_write;
}

marked-Course : Course 2 marked
marked-Course =
    later
      (later
        (later
          (later (later waiting-Course (turn 1 (omega arith) set_begin))
            (turn 1 (omega arith) (set_clear refl)))
          (turn 1 (omega arith) (raise refl)))
        (turn 1 (omega arith) (check_some (omega arith))))
      (turn 1 (omega arith) (mark refl))

Course-IsComing_example :
    ((i : ℕ) → i < 2 → marked.place i ≡ polling → marked.flag.flagged ≢ 0 → IsComing 2 marked)
    × ((i : ℕ) → i < 2 → marked.place i ≡ clear_read → (0 < marked.flag.bytes) ⊎ Writing 2 marked)
    × (marked.flag.bytes ≤ 2)
Course-IsComing_example = Course-IsComing (omega arith) marked-Course
