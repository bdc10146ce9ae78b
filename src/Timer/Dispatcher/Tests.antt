-- ===== src/Timer/Dispatcher/Tests.antt =====
-- Runs of the timer dispatcher, and the theorems at concrete timers.
use libtscb.Base.{
  ℕ, ◌<◌, ◌≤◌, ◌≡◌, ◌⊎◌, ◌+◌, ◌==◌, Bool, true, false, none, some, arith, refl, Option,
}
use libtscb.Timer.Table.{
  sift_up, rebalance, lowest, place, move_slot, swap_slots, stop_active, stop_inactive,
}
use libtscb.Timer.Queue.{make_active, append_active, make_inactive, unlink, exchange}
use libtscb.Timer.Dispatcher.{
  Dispatcher, empty, timer, one_shot_timer, suspended_timer, one_shot_suspended_timer, set, suspend,
  disconnect, next_timer, run_single, run, destroy, call_link, take_first, acquire_hold_count,
  release_hold_count, size_suc, size_pred, Ending, returned, raised, register_timer, push_link,
  new_link,
}
use libtscb.Timer.Dispatcher.Valid.{IsRegistered, IsValid, empty-IsValid}
use libtscb.Timer.Dispatcher.Next.{IsWaiting, next_timer_lem}
use libtscb.Timer.Dispatcher.Registered.{IsMade, timer-IsMade}
use libtscb.Timer.Dispatcher.Change.{OthersSame, set_lem, suspend_lem}
use libtscb.Timer.Dispatcher.Disconnect.{disconnect_lem, disconnect-disconnect}
use libtscb.Timer.Dispatcher.Run.{KeepsValid, AreFew, IsRun, IsDone, run_single_lem, run_lem}
use libtscb.Timer.Dispatcher.Destroy.{destroy_lem}

abbrev no_calls : ℕ → ℕ
no_calls p = 0

-- Timer 1 is due at 5.
abbrev one : Dispatcher
one = timer empty 70 5

-- Timer 2, a one-shot timer, is due at 3.
abbrev two : Dispatcher
two = one_shot_timer one 80 3

one-IsMade : IsMade no_calls empty one 5 false
one-IsMade = (timer-IsMade empty 70 5 empty-IsValid).0

two-IsMade : IsMade no_calls one two 3 false
two-IsMade = (timer-IsMade one 80 3 one-IsMade.valid).1

timer-IsMade_example :
    IsMade no_calls one (timer one 80 3) 3 false
    × IsMade no_calls one (one_shot_timer one 80 3) 3 false
    × IsMade no_calls one (suspended_timer one 80) 0 true
    × IsMade no_calls one (one_shot_suspended_timer one 80) 0 true
timer-IsMade_example = timer-IsMade one 80 3 one-IsMade.valid

next_timer_lem_example :
    ((next_timer one).0 ≡ false → (x : ℕ) → ¬ IsWaiting one x)
    × ((next_timer one).0 ≡ true
        → ((p : ℕ) × IsWaiting one p × ((next_timer one).1 ≡ one.when p))
          × ((x : ℕ) → IsWaiting one x → (next_timer one).1 ≤ one.when x))
next_timer_lem_example = next_timer_lem one one-IsMade.valid

set_lem_example :
    let r = set one 1 9 in
    IsValid no_calls r
    × IsWaiting r 1
    × (r.when 1 ≡ 9)
    × OthersSame one 1 r
    × (one.hold_count 1 < 2
        → (r.wakeups ≡ one.wakeups + 1)
          ⊎ (((next_timer one).0 ≡ true) × ((next_timer one).1 ≤ (next_timer r).1)))
set_lem_example = set_lem one 1 9 one-IsMade.valid (omega arith) one-IsMade.connected.1

suspend_lem_example :
    let r = suspend one 1 in
    IsValid no_calls r × IsRegistered r 1 × (¬ IsWaiting r 1) × OthersSame one 1 r
suspend_lem_example = suspend_lem one 1 one-IsMade.valid (omega arith) one-IsMade.connected.1

disconnect_lem_example :
    let r = disconnect one 1 in
    IsValid no_calls r
    × (r.master 1 ≡ false)
    × (¬ IsRegistered r 1)
    × (no_calls 1 ≡ 0 → r.function 1 ≡ none)
    × (0 < no_calls 1 → r.function 1 ≡ one.function 1)
    × OthersSame one 1 r
disconnect_lem_example = disconnect_lem one 1 one-IsMade.valid (omega arith) one-IsMade.connected.1

disconnect-disconnect_example : disconnect (disconnect one 1) 1 ≡ disconnect one 1
disconnect-disconnect_example = disconnect-disconnect one 1

-- A function that does nothing, and throws if it is number 99.
abbrev quiet : ℕ → ℕ → Dispatcher → Dispatcher × Bool
quiet f now d = (d, f == 99)

quiet-KeepsValid : KeepsValid quiet
quiet-KeepsValid calls f now d v = v

no_calls-AreFew : AreFew no_calls
no_calls-AreFew p = omega arith

run_single_lem_example : IsRun quiet no_calls two 4 (run_single quiet two 4)
run_single_lem_example =
    run_single_lem quiet quiet-KeepsValid no_calls two 4 two-IsMade.valid no_calls-AreFew

run_lem_example : IsDone quiet no_calls 4 10 two (run quiet two 4 10)
run_lem_example = run_lem quiet quiet-KeepsValid no_calls two 4 10 two-IsMade.valid no_calls-AreFew

destroy_lem_example :
    ((destroy one.size one).master 1 ≡ false) × ((destroy one.size one).function 1 ≡ none)
destroy_lem_example = destroy_lem one 1 one-IsMade.valid (omega arith) one-IsMade.connected.0

-- How many calls `run` makes at 4 and how many timers are left.
numbers : Ending → Option (ℕ × ℕ)
numbers (returned n e) = some (n, e.size)
numbers (raised e) = none

after : Dispatcher → Ending
unfolding run run_single call_link take_first acquire_hold_count release_hold_count size_suc
    size_pred disconnect timer one_shot_timer register_timer push_link new_link make_active
    append_active make_inactive unlink exchange sift_up rebalance lowest place move_slot swap_slots
    stop_active stop_inactive
after d = run quiet d 4 10

after-two : numbers (after two) ≡ some (1, 1)
unfolding after numbers
after-two = refl

-- The function throws, and its link is held by the timer and by the call that is over.
held_of : Ending → Option ℕ
held_of (returned n e) = none
held_of (raised e) = some (e.hold_count 1)

after-throw : held_of (after (timer empty 99 3)) ≡ some 2
unfolding after held_of timer
after-throw = refl
