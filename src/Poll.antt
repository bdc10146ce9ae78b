-- ===== src/Poll.antt =====
-- tscb/ioready-poll.cc: the table of descriptors of `ioready_dispatcher_poll`, and what it makes of
-- the answer of `poll`. A number stands for a position in `polltab_` or for a descriptor.
pub mod Translate
pub mod Table
pub mod Changes
pub mod Handle
pub mod Dispatcher
mod Tests
use libtscb.Base.{
  ℕ, zero, suc, ◌+◌, ◌*◌, ◌/◌, ◌%◌, ◌^◌, ◌-◌, ◌==◌, Bool, true, false, ◌&&◌, ◌||◌, not, ltb, Option,
  none, some, List, [], ◌∷◌, if◌then◌else◌, update,
}
use libtscb.Lock.Deferred.{fetch_sub, fetch_add}
use libtscb.Handlers.Chain.{Events, events_or, events_none}

-- The bits of the `events` and `revents` of `poll`; `other` stands for all that the code does not
-- name.
pub record PollEvents : Type 0 where
  pub pollin : Bool
  pub pollout : Bool
  pub pollhup : Bool
  pub pollerr : Bool
  pub other : Bool

abbrev pub poll_none : PollEvents
poll_none = record {
  pollin = false;
  pollout = false;
  pollhup = false;
  pollerr = false;
  other = false;
}

abbrev pub poll_any : PollEvents → Bool
poll_any e = e.pollin || (e.pollout || (e.pollhup || (e.pollerr || e.other)))

abbrev all_events : Events
all_events = record { input = true; output = true; error = true; hangup = true }

unfoldable pub translate_os_to_tscb : PollEvents → Events
translate_os_to_tscb ev =
    let e1 =
      if ev.pollin
      then events_or events_none (record events_none { input = true })
      else events_none in
    let e2 = if ev.pollout then events_or e1 (record events_none { output = true }) else e1 in
    let e3 = if ev.pollhup then events_or e2 all_events else e2 in
    if ev.pollerr then events_or e3 (record all_events { hangup = false }) else e3

unfoldable pub translate_tscb_to_os : Events → PollEvents
translate_tscb_to_os ev =
    let e1 = if ev.input then record poll_none { pollin = true } else poll_none in
    if ev.output then record e1 { pollout = true } else e1

-- `polltab_` (the fields of its entries and its size) and `polltab_index_`.
pub record PollTable : Type 0 where
  pub fds : ℕ → ℕ
  pub events : ℕ → PollEvents
  pub revents : ℕ → PollEvents
  pub size : ℕ
  pub use_count : ℕ → ℕ
  pub index : ℕ → ℕ
  pub index_size : ℕ

abbrev pub empty : PollTable
empty = record {
  fds = λ n. 0;
  events = λ n. poll_none;
  revents = λ n. poll_none;
  size = 0;
  use_count = λ fd. 0;
  index = λ fd. 0;
  index_size = 0;
}

-- `polltab_index_.resize(n)`, for an `n` above its size.
unfoldable pub resize_index : PollTable → ℕ → PollTable
resize_index t n = record t {
  use_count = λ fd. if ltb fd t.index_size then t.use_count fd else 0;
  index_size = n;
}

-- The table and the position.
unfoldable pub allocate_polltab_entry : PollTable → ℕ → PollTable × ℕ
allocate_polltab_entry t fd =
    let g = if ltb fd t.index_size then t else resize_index t (fd + 1) in
    let added = record g {
      fds = update g.fds g.size fd;
      events = update g.events g.size poll_none;
      revents = update g.revents g.size poll_none;
      size = g.size + 1;
      index = update g.index fd g.size;
      use_count = update g.use_count fd 1;
    } in
    if g.use_count fd == 0
    then (added, g.size)
    else (record g { use_count = update g.use_count fd (fetch_add (g.use_count fd)) }, g.index fd)

unfoldable pub update_polltab_entry : PollTable → ℕ → Events → PollTable
update_polltab_entry t fd mask = record t {
  events = update t.events (t.index fd) (translate_tscb_to_os mask);
}

-- `polltab_index_alloc_guard::commit`
unfoldable pub commit : PollTable → ℕ → Events → PollTable
commit t index mask = record t { events = update t.events index (translate_tscb_to_os mask) }

abbrev move_last : PollTable → ℕ → ℕ → PollTable
move_last t last index = record t {
  fds = update t.fds index (t.fds last);
  events = update t.events index (t.events last);
  revents = update t.revents index (t.revents last);
  index = update t.index (t.fds last) index;
}

unfoldable pub free_polltab_entry : PollTable → ℕ → PollTable
free_polltab_entry t fd =
    let u = record t { use_count = update t.use_count fd (fetch_sub (t.use_count fd)) } in
    let last = fetch_sub u.size in
    let filled = if last == u.index fd then u else move_last u last (u.index fd) in
    if u.use_count fd == 0 then record filled { size = last } else u

-- What `watch` and `disconnect` do with the table, with the mask that the handler table reports.
unfoldable pub enter : PollTable → ℕ → Events → PollTable
enter t fd mask = let (a, index) = allocate_polltab_entry t fd in commit a index mask

unfoldable pub leave : PollTable → ℕ → Events → PollTable
leave t fd mask = free_polltab_entry (update_polltab_entry t fd mask) fd

-- The calls of `watch`, `modify` and `disconnect`, with the masks that the handler table reports.
pub data Change : Type 0 where
  watching : ℕ → Events → Change
  modifying : ℕ → Events → Change
  leaving : ℕ → Events → Change

unfoldable pub run_change : Change → PollTable → PollTable
run_change (watching fd mask) t = enter t fd mask
run_change (modifying fd mask) t = update_polltab_entry t fd mask
run_change (leaving fd mask) t = leave t fd mask

unfoldable pub run_changes : List Change → PollTable → PollTable
run_changes [] t = t
run_changes (c ∷ cs) t = run_changes cs (run_change c t)

-- The entries that `handle_events` goes through, from `n` on with `k` to go: `notify` is the handler
-- table's function and tells whether a handler has thrown. The result is the state, the number of
-- entries handled, and whether one has thrown.
module _ {S : Type 0} (notify : ℕ → Events → S → S × Bool) where
  unfoldable pub handle_from : (ℕ → ℕ) → (ℕ → PollEvents) → ℕ → ℕ → ℕ → ℕ → S → S × ℕ × Bool
  handle_from fds revents zero n limit count s = (s, count, false)
  handle_from fds revents (suc k) n limit count s =
      let (t, thrown) = notify (fds n) (translate_os_to_tscb (revents n)) s in
      let called = handle_from fds revents k (n + 1) limit (count + 1) t in
      let passed = handle_from fds revents k (n + 1) limit count s in
      let next = if thrown then (t, count, true) else called in
      let visited = if poll_any (revents n) then next else passed in
      if ltb count limit then visited else (s, count, false)

  unfoldable pub handle_events : (ℕ → ℕ) → (ℕ → PollEvents) → ℕ → ℕ → S → S × ℕ × Bool
  handle_events fds revents size limit s = handle_from fds revents size 0 limit 0 s

-- The `timeout` argument of `poll`, where a negative number means to wait for as long as it takes.
pub data Timeout : Type 0 where
  infinite : Timeout
  bounded : ℕ → Timeout

abbrev pub to_int : ℕ → Timeout
to_int ms = let r = ms % 4294967296 in if ltb r 2147483648 then bounded r else infinite

-- A timeout of `dispatch` in nanoseconds, not negative, in milliseconds.
unfoldable pub round_up : Option ℕ → Timeout
round_up none = infinite
round_up (some ns) = to_int ((ns + 999999) / 1000000)

-- What `poll` returns: an error, or the number of entries with events (0 after the timeout) and their
-- `revents`.
pub data Answer : Type 0 where
  failed : Answer
  reported : ℕ → (ℕ → PollEvents) → Answer

abbrev min : ℕ → ℕ → ℕ
min a b = if ltb b a then b else a

-- `dispatch` and `dispatch_pending` between taking the read lock and `clear`, where `flagged` is the
-- answer of the wakeup flag.
module _ (poll : (ℕ → ℕ) → (ℕ → PollEvents) → ℕ → Timeout → Answer) {S : Type 0}
    (notify : ℕ → Events → S → S × Bool) where
  unfoldable pub handle_answer : PollTable → ℕ → Answer → S → S × ℕ × Bool
  handle_answer t limit failed s = (s, 0, false)
  handle_answer t limit (reported count revents) s =
      let handled = handle_events notify t.fds revents t.size (min limit count) s in
      if ltb 0 count then handled else (s, 0, false)

  unfoldable pub dispatch : PollTable → Option ℕ → Bool → ℕ → S → S × ℕ × Bool
  dispatch t timeout flagged limit s =
      let poll_timeout = if flagged then bounded 0 else round_up timeout in
      handle_answer t limit (poll t.fds t.events t.size poll_timeout) s

  unfoldable pub dispatch_pending : PollTable → ℕ → S → S × ℕ × Bool
  dispatch_pending t limit s = handle_answer t limit (poll t.fds t.events t.size (bounded 0)) s
