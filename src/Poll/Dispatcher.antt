-- ===== src/Poll/Dispatcher.antt =====
-- tscb/ioready-poll.cc: `ioready_dispatcher_poll` and its links, over the handler table and the table
-- of descriptors. What the lock answers (`write_lock_async`) and whether there is memory are arguments.
pub mod Valid
pub mod Grows
pub mod Stands
pub mod Changed
pub mod Joined
pub mod Calls
pub mod Sequence
pub mod Inside
pub mod Visit
pub mod Tour
pub mod Walk
pub mod Notify
pub mod Deliver
pub mod Dispatch
pub mod Destroy
mod Tests
use mathlib.Core.Option.{map}
use libtscb.Base.{
  ◌||◌, Option, none, some, ℕ, zero, suc, ◌+◌, ◌==◌, Bool, true, false, List, [], ◌∷◌,
  if◌then◌else◌, update,
}
use libtscb.Handlers.Chain.{Events}
use libtscb.Handlers.Table.{
  get_chain, Table, Memory, make_link, inserted, no_memory, insert, release, Notified,
}
use libtscb.Handlers.Table
use libtscb.Poll
use libtscb.Poll.{PollEvents, Timeout, Answer}
use libtscb.Poll.{
  PollTable, allocate_polltab_entry, update_polltab_entry, free_polltab_entry, commit, leave,
}

-- `fdtab_`, the two tables of descriptors, and how often `wakeup_flag_` was set; `connected` says
-- whether `master_` of a link is set.
pub record Dispatcher : Type 0 where
  pub table : Table
  pub connected : ℕ → Bool
  pub polltab : PollTable
  pub wakeups : ℕ

unfoldable pub synchronize : Dispatcher → Dispatcher
synchronize d =
    let (t, p) = Table.synchronize d.table in record d { table = release t.next_link t p }

-- What stands at the end of a write guard.
abbrev unlock : Bool → Dispatcher → Dispatcher
unlock sync d = if sync then synchronize d else d

pub data Outcome : Type 0 where
  watched : Dispatcher → Outcome
  bad_alloc : Dispatcher → Outcome

-- `watch`: the link that is made is `next_link` of the table. When `insert` throws, the guard of the
-- table of descriptors does not free the entry, since `committed_` is true from the start.
unfoldable pub watch : Memory → Dispatcher → ℕ → ℕ → Events → Bool → Outcome
watch m d f fd mask sync =
    let p = d.table.next_link in
    let (entries, index) = allocate_polltab_entry d.polltab fd in
    elim (insert m (make_link d.table f fd mask) p) [
      | inserted t old_mask new_mask ↦
          watched
            (record (unlock sync (record d {
              table = t;
              connected = update d.connected p true;
              polltab = commit entries index new_mask;
            })) { wakeups = d.wakeups + 1 })
      | no_memory t ↦ bad_alloc (unlock sync (record d { table = t; polltab = entries }))
    ]

unfoldable pub disconnect : Dispatcher → ℕ → Bool → Dispatcher
disconnect d p sync =
    let (t, old_mask, new_mask) = Table.remove d.table p in
    let gone = record d {
      table = t;
      connected = update d.connected p false;
      polltab = leave d.polltab (t.fd p) new_mask;
      wakeups = d.wakeups + 1;
    } in
    if d.connected p then unlock sync gone else d

unfoldable pub modify : Dispatcher → ℕ → Events → Bool → Dispatcher
modify d p mask sync =
    let (t, old_mask, new_mask) = Table.modify d.table p mask in
    let changed = record d {
      table = t;
      polltab = update_polltab_entry d.polltab (t.fd p) new_mask;
      wakeups = d.wakeups + 1;
    } in
    if d.connected p then unlock sync changed else d

-- The constructor, for the descriptor that `wakeup_flag_` is read from: function 0 does nothing.
abbrev pub fresh : Dispatcher
fresh = record { table = Table.empty 32; connected = λ p. false; polltab = Poll.empty; wakeups = 0 }

abbrev pub start : Memory → ℕ → Outcome
start m readfd =
    watch m fresh 0 readfd (record { input = true; output = false; error = false; hangup = false })
      false

-- The calls, with memory for all that is needed, and with a reader or without.
pub data Call : Type 0 where
  watching : ℕ → ℕ → Events → Bool → Call
  disconnecting : ℕ → Bool → Call
  modifying : ℕ → Events → Bool → Call

abbrev roomy : Memory
roomy = record { table_fits = true; chain_fits = true }

abbrev outcome : Outcome → Dispatcher
outcome (watched d) = d
outcome (bad_alloc d) = d

unfoldable pub run_call : Call → Dispatcher → Dispatcher
run_call (watching f fd mask sync) d = outcome (watch roomy d f fd mask sync)
run_call (disconnecting p sync) d = disconnect d p sync
run_call (modifying p mask sync) d = modify d p mask sync

unfoldable pub run_calls : List Call → Dispatcher → Dispatcher
run_calls [] d = d
run_calls (c ∷ cs) d = run_calls cs (run_call c d)

-- What a callback of a notification does, as `call` of `Table.notify`: a list of calls, which all
-- find a reader, and whether it throws.
abbrev acting :
    (ℕ → Events → Dispatcher → List Call × Bool) → ℕ → Events → Dispatcher → Dispatcher × Bool
acting act f events d = let (calls, thrown) = act f events d in (run_calls calls d, thrown)

unfoldable pub notify :
    (ℕ → Events → Dispatcher → List Call × Bool)
    → ℕ
    → Dispatcher
    → ℕ
    → Events
    → ℕ
    → Notified Dispatcher
notify act n d fd events cookie =
    Table.notify (λ (d : Dispatcher). d.table) (λ (d : Dispatcher). d.connected) (acting act) n d fd
      events cookie

-- `fdtab_.notify` as `handle_events` calls it. The state is `none` once a notification does not end.
unfoldable pub deliver :
    (ℕ → Events → Dispatcher → List Call × Bool)
    → ℕ
    → ℕ
    → ℕ
    → Events
    → Option Dispatcher
    → Option Dispatcher × Bool
deliver act n cookie fd events none = (none, true)
deliver act n cookie fd events (some d) = elim (notify act n d fd events cookie) [
  | Table.done e log ↦ (some e, false)
  | Table.threw e log ↦ (some e, true)
  | Table.endless ↦ (none, true)
]

-- `read_guard`: it synchronizes as often as `read_lock` asks for it, and on the way out, exceptions
-- included, if `read_unlock` does.
unfoldable pub enter : ℕ → Dispatcher → Dispatcher
enter zero d = d
enter (suc rounds) d = enter rounds (synchronize d)

-- `dispatch`: the dispatcher at the end, the number of descriptors that were handled, and whether a
-- callback threw. `rounds` and `sync` are the answers of the lock.
unfoldable pub dispatch :
    (poll : (ℕ → ℕ) → (ℕ → PollEvents) → ℕ → Timeout → Answer)
    → (ℕ → Events → Dispatcher → List Call × Bool)
    → ℕ
    → ℕ
    → Bool
    → Option ℕ
    → Bool
    → ℕ
    → Dispatcher
    → Option Dispatcher × ℕ × Bool
dispatch poll act n rounds sync timeout flagged limit d =
    let e = enter rounds d in
    let (r, count, thrown) =
      Poll.dispatch poll (deliver act n e.table.cookies.cookie) e.polltab timeout flagged limit
        (some e) in
    (map (unlock sync) r, count, thrown)

-- `disconnect_all`: the loop over a chain, the loop over the entries, and whether anything was
-- disconnected. The caller reads, so nothing is synchronized on the way.
unfoldable pub disconnect_chain : ℕ → Dispatcher → ℕ → Dispatcher × Bool
disconnect_chain zero d i = (d, false)
disconnect_chain (suc n) d i =
    let p = d.table.active_of i in
    let (e, any) = disconnect_chain n (disconnect d p false) i in
    if p == 0 then (d, false) else (e, true)

unfoldable pub disconnect_entry : Dispatcher → ℕ → Dispatcher × Bool
disconnect_entry d i =
    if get_chain d.table i then disconnect_chain d.table.next_link d i else (d, false)

unfoldable pub disconnect_entries : ℕ → ℕ → Dispatcher → Dispatcher × Bool
disconnect_entries zero i d = (d, false)
disconnect_entries (suc k) i d =
    let (e, here) = disconnect_entry d i in
    let (r, any) = disconnect_entries k (i + 1) e in (r, here || any)

unfoldable pub disconnect_all : Dispatcher → Dispatcher × Bool
disconnect_all d = disconnect_entries d.table.capacity 0 d

-- The destructor, where `sync` is what `read_unlock` answers. If it does not ask for it, the
-- destructor waits for the lock and synchronizes, once it has disconnected something. That the code
-- discards the guard of `write_lock_sync`, which then unlocks twice, concerns the lock only, whose
-- state is no part of this.
unfoldable pub destroy : ℕ → Bool → Dispatcher → Dispatcher
destroy rounds sync d =
    let (e, any_disconnected) = disconnect_all (enter rounds d) in
    if sync || any_disconnected then synchronize e else e
