-- ===== src/Timer/Dispatcher.antt =====
-- tscb/timer.h: `basic_timer_dispatcher` and its links, with due times in ℕ (the code only compares
-- and copies them, and a default `TimePoint` is 0). Each function is one critical section of
-- `mutex_`, except the runs, where the user's function is called with the mutex released.
pub mod Valid
pub mod Moves
pub mod Next
pub mod Register
pub mod Registered
pub mod Change
pub mod Disconnect
pub mod First
pub mod Run
pub mod Destroy
mod Tests
use libtscb.Base.{
  ℕ, zero, suc, ◌+◌, ◌-◌, ◌%◌, Bool, true, false, ◌&&◌, not, Option, none, some, ltb, ◌==◌,
  if◌then◌else◌, update,
}
use libtscb.Timer.Table.{Table}
use libtscb.Timer.Queue.{Queue, make_active, make_inactive, unlink}

-- The dispatcher's fields, and those of its links by the link's address. `function` holds a number
-- for each callback, `master` says whether `master_` is set, and `next` is the address that the
-- allocator gives to the next link. `wakeups` counts the calls of `timer_added_`.
pub record Dispatcher : Type 0 where
  pub queue : Queue
  pub open queue use *
  pub size : ℕ
  pub wakeups : ℕ
  pub next : ℕ
  pub when : ℕ → ℕ
  pub hold_count : ℕ → ℕ
  pub suspended : ℕ → Bool
  pub one_shot : ℕ → Bool
  pub master : ℕ → Bool
  pub function : ℕ → Option ℕ

abbrev pub empty : Dispatcher
empty = record {
  queue = record { table = record { slots = λ _. 0; index = λ _. 0 }; active_limit = 0 };
  size = 0;
  wakeups = 0;
  next = 1;
  when = λ _. 0;
  hold_count = λ _. 0;
  suspended = λ _. false;
  one_shot = λ _. false;
  master = λ _. false;
  function = λ _. none;
}

-- `fetch_add(1)` and `fetch_sub(1)` on a `size_t`
pub size_suc : ℕ → ℕ
size_suc n = (n + 1) % 18446744073709551616

pub size_pred : ℕ → ℕ
size_pred n = if n == 0 then 18446744073709551615 else n - 1

pub acquire_hold_count : Dispatcher → ℕ → Dispatcher
acquire_hold_count d p = record d { hold_count = update d.hold_count p (size_suc (d.hold_count p)) }

pub release_hold_count : Dispatcher → ℕ → Dispatcher
release_hold_count d p = record d {
  hold_count = update d.hold_count p (size_pred (d.hold_count p));
  function = if d.hold_count p == 1 then update d.function p none else d.function;
}

-- The constructor of `link_type`.
pub new_link : Dispatcher → ℕ → ℕ → Bool → Dispatcher
new_link d f w once = record d {
  next = d.next + 1;
  when = update d.when d.next w;
  hold_count = update d.hold_count d.next 1;
  suspended = update d.suspended d.next false;
  one_shot = update d.one_shot d.next once;
  master = update d.master d.next true;
  function = update d.function d.next (some f);
}

-- `link->index_ = timers_.size(); timers_.push_back(link);`
pub push_link : Dispatcher → ℕ → Bool → Dispatcher
push_link d p asleep = record d {
  queue = record (d.queue) {
    table = record (d.queue.table) {
      slots = update d.slots d.size p;
      index = update d.index p d.size;
    };
  };
  size = d.size + 1;
  suspended = update d.suspended p asleep;
}

pub register_timer : Dispatcher → ℕ → Bool → Dispatcher
register_timer d p asleep =
    let e = push_link d p asleep in
    let q = make_active e.when e.queue d.size in
    let woken = if q.index p == 0 then e.wakeups + 1 else e.wakeups in
    if asleep then e else record e { queue = q; wakeups = woken }

-- The four public calls: the new link's address is `d.next`.
pub timer : Dispatcher → ℕ → ℕ → Dispatcher
timer d f w = register_timer (new_link d f w false) d.next false

pub one_shot_timer : Dispatcher → ℕ → ℕ → Dispatcher
one_shot_timer d f w = register_timer (new_link d f w true) d.next false

pub suspended_timer : Dispatcher → ℕ → Dispatcher
suspended_timer d f = register_timer (new_link d f 0 false) d.next true

pub one_shot_suspended_timer : Dispatcher → ℕ → Dispatcher
one_shot_suspended_timer d f = register_timer (new_link d f 0 true) d.next true

pub disconnect : Dispatcher → ℕ → Dispatcher
disconnect d p =
    let q = make_inactive d.when d.queue (d.index p) in
    let u = unlink d.when q d.size (q.index p) in
    let gone = record d { queue = u; size = d.size - 1; master = update d.master p false } in
    if d.master p then release_hold_count gone p else d

pub set : Dispatcher → ℕ → ℕ → Dispatcher
set d p w =
    let times = update d.when p w in
    let q = make_active times d.queue (d.index p) in
    let woken = if (q.slots 0 == p) && ltb (d.hold_count p) 2 then d.wakeups + 1 else d.wakeups in
    if d.master p
    then record d {
      queue = q;
      when = times;
      suspended = update d.suspended p false;
      wakeups = woken;
    }
    else d

pub suspend : Dispatcher → ℕ → Dispatcher
suspend d p =
    let still = record d {
      queue = make_inactive d.when d.queue (d.index p);
      suspended = update d.suspended p true;
    } in
    if d.master p && not (d.suspended p) then still else d

-- `{true, timers_[0]->when()}` or `{false, TimePoint()}`
pub next_timer : Dispatcher → Bool × ℕ
next_timer d = if ltb 0 d.active_limit then (true, d.when (d.slots 0)) else (false, 0)

-- How `run_single` ends: it found no timer that is due, it ran one, or the function that it called
-- threw an exception. A call of an empty function throws `std::bad_function_call`.
pub data Outcome : Type 0 where
  idle : Outcome
  ran : Dispatcher → Outcome
  thrown : Dispatcher → Outcome

-- The first timer leaves the heap; `run_single` holds it from here on.
pub take_first : Dispatcher → Dispatcher
take_first d =
    let p = d.slots 0 in
    acquire_hold_count
      (record d {
        queue = make_inactive d.when d.queue (d.index p);
        suspended = update d.suspended p true;
      })
      p

-- How `run` ends: it returns the number of calls, or a function threw.
pub data Ending : Type 0 where
  returned : ℕ → Dispatcher → Ending
  raised : Dispatcher → Ending

-- One call more, made before the others.
abbrev pub one_more : Ending → Ending
one_more (returned n d) = returned (suc n) d
one_more (raised d) = raised d

-- `call f now` is what the user's function number `f` does to the dispatcher, and whether it throws.
-- The hold on the link is not released then.
module _ (call : ℕ → ℕ → Dispatcher → Dispatcher × Bool) where
  call_link : Dispatcher → ℕ → ℕ → Outcome
  call_link d p now = elim (d.function p) [
    | none ↦ thrown d
    | some f ↦
        let (e, throws) = call f now d in if throws then thrown e else ran (release_hold_count e p)
  ]

  pub run_single : Dispatcher → ℕ → Outcome
  unfolding call_link
  run_single d now =
      let p = d.slots 0 in
      let t = take_first d in
      let ready = if d.one_shot p then disconnect t p else t in
      let fire = call_link ready p now in
      if d.active_limit == 0 then idle else if ltb now (d.when p) then idle else fire

  pub run : Dispatcher → ℕ → ℕ → Ending
  run d now zero = returned 0 d
  run d now (suc limit) = elim (run_single d now) [
    | idle ↦ returned 0 d
    | thrown e ↦ raised e
    | ran e ↦ one_more (run e now limit)
  ]

-- `detach_registered`, without its result.
pub detach_registered : Dispatcher → Dispatcher
detach_registered d =
    let last = d.size - 1 in
    let p = d.slots last in
    let detached = record d {
      queue = record (d.queue) { table = record (d.queue.table) { slots = update d.slots last 0 } };
      size = last;
      master = update d.master p false;
      function = if p == 0 then d.function else update d.function p none;
    } in
    if d.size == 0 then d else detached

-- `while (detach_registered()) {}` on `n` slots
pub destroy : ℕ → Dispatcher → Dispatcher
destroy zero d = d
destroy (suc n) d = destroy n (detach_registered d)
