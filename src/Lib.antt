-- ===== src/Lib.antt =====
-- libtscb, a C++ library of thread-safe callbacks: timers, deferred procedures, signals, file
-- descriptors, child processes and file changes, each with a dispatcher that calls the functions that
-- the user has registered, while other threads and the called functions register and disconnect more.
-- This development models nine of its parts; a reactor (tscb/reactor.cc) puts such parts together.
--
-- Timer: tscb/timer.h, `basic_timer_dispatcher`.
--   Timer/Table     `timers_` and `index_`, with the assignments that move a link (`place`, `move_slot`,
--                   `swap_slots`) and the loops of `make_active`, `make_inactive` and `rebalance`.
--                   Order, Up and Down are about these loops.
--   Timer/Queue     `active_limit_`, `make_active`, `make_inactive` and `unlink`.
--   Timer/Dispatcher  the links' fields, the registrations (`timer` and its three variants), `set`,
--                   `suspend`, `disconnect`, `next_timer`, `run_single`, `run` and the destructor.
--   Pointers to links are numbers, 0 is `nullptr`; `timers_` is a function from positions together
--   with its size. Due times are numbers, since the code only compares and copies them. What the
--   user's function does is an argument of the runs, and so is whether it throws: the link's hold is
--   then kept, as in the code.
--
-- Workqueue: tscb/workqueue.h and tscb/workqueue.cc, `workqueue`.
--   Workqueue/List  `list_insert` and `list_erase` on the links' `next` and `prev` fields, and the
--                   sequence that a list holds.
--   Workqueue/Queue the links' states, registration, the two triggers (the asynchronous one in the
--                   three pieces that its atomic accesses make of it), `disconnect`, `dispatch` with
--                   its guard, and the destructor. States is about the state diagram, Rounds about
--                   the calls that `dispatch` makes.
--   The procedures are an argument of `dispatch`.
--
-- Lock: tscb/detail/deferred-locks.h and tscb/detail/deferred-locks.cc, `deferred_rwlock`.
--   Lock/Deferred   any number of threads, each with a place in the code and a count of read locks; a
--                   step is one atomic access, or one lock or unlock of `writers_`.
--
-- Chain: the chain of links that tscb/signal.h, tscb/detail/fd-handler-table.cc and
-- tscb/childproc-monitor.cc share: a full list, and an active list within it that other threads walk
-- while links join and leave. Active, Change and Unlink are about the loops and steps, Walk about walks
-- along a chain that changes, Frame about what a step leaves alone, Members and Distinct about lists of
-- links, and Waiting about the list of removed links that `synchronize` goes through.
--
-- Signal: tscb/signal.h, `signal`.
--   Signal          the links and their fields, `connect`, `disconnect`, `push_back`, `remove`,
--                   `synchronize`, `operator()` with its read guard, and the destructor. The answers
--                   of the lock and what the callbacks do (a list of calls of `connect` and
--                   `disconnect`, and whether they throw) are arguments. Valid, Change and Abstract are
--                   about connecting and disconnecting, the last against an abstract registry of
--                   links, Emit about `operator()`, Synchronize about
--                   `synchronize`, Destroy about the destructor.
--
-- Childproc: tscb/childproc-monitor.cc, `childproc_monitor`.
--   Childproc       the links, which are those of a signal with a pid each: `watch_childproc`,
--                   `disconnect`, `remove`, `synchronize`, and `dispatch` with its read guard. The
--                   answers of `wait4` and what the callbacks do are arguments. Registry reads the
--                   monitor as a signal, Visit is about one round of `dispatch`, Dispatch about all.
--
-- Poll: tscb/ioready-poll.h and tscb/ioready-poll.cc, `ioready_dispatcher_poll`.
--   Poll            the translations of event masks, `polltab_` and `polltab_index_` with
--                   `allocate_polltab_entry`, `update_polltab_entry` and `free_polltab_entry`, what
--                   `watch`, `modify` and `disconnect` do with them, `handle_events`, `dispatch` and
--                   `dispatch_pending`. The system's `poll`, the handler table's `notify` and the
--                   wakeup flag's answer are arguments. Translate, Table with Changes, and Handle are
--                   about these in turn.
--   Poll/Dispatcher the dispatcher over the handler table: `watch`, `modify` and `disconnect` with the
--                   write guard, `synchronize`, and the notification of a descriptor whose callbacks
--                   make such calls. Valid states the invariant, with Stands (the end of the guard),
--                   Changed, Joined and Calls about one call, and Sequence about sequences. Grows and
--                   Inside are about the calls of callbacks, Visit, Tour, Walk and Notify about a
--                   notification, Deliver and Dispatch about a `dispatch` with its read guard, and
--                   Destroy about the destructor, with `disconnect_all` of the handler table.
--   The bits of a mask are Booleans; a position of `polltab_` is a number.
--
-- Eventflag: tscb/detail/eventflag.h and tscb/detail/eventflag.cc, `pipe_eventflag`.
--   Eventflag       any number of threads, each with a place in `set`, `wait` or `clear` (which only
--                   thread 0 calls, as a dispatcher does); a step is one atomic access, or a read or
--                   write of one byte of the pipe, which is a number of bytes. Invariant is about the
--                   steps, Wakeup about the threads that wait. `wait_slow` is the version with `poll`.
--
-- Pointer: tscb/detail/intrusive-ptr.h, `intrusive_ptr`, over the counts of tscb/connection.h.
--   Pointer         the constructors, assignments, `reset`, `swap`, `detach` and the destructor, on a
--                   store of pointer variables, counts and marks of deleted objects. Counted is about
--                   one operation, Run about sequences of them.
--
-- Handlers: tscb/detail/fd-handler-table.h and tscb/detail/fd-handler-table.cc, `fd_handler_table`.
--   Handlers/Chain  the chain of one file descriptor with the event masks: `insert`, `remove`,
--                   `modify`, the unlinking in `synchronize`, and the walk of `notify`. Masks is
--                   about the walks, Change and Unlink about the calls, Resume about a walk that stands at
--                   a removed link.
--   Handlers/Table  the table: `extend_table`, `get_create_chain` and `get_chain` with failing
--                   allocations, `insert`, `remove`, `modify`, `synchronize` with the list of removed
--                   links, its release, and `notify` with its callbacks as a parameter. Each entry has a
--                   chain of Handlers/Chain, over fields of links that the chains share. Valid is the
--                   invariant, Effect, Change and Removed are about one changed chain, New, Grow and
--                   Insert about `insert`, Unlink, UnlinkAll, Release and Synchronize about
--                   `synchronize`. The chains live on when a table is replaced, so `extend_table` keeps
--                   which entries are set.
--   Handlers/Cookie the cookies of `remove`, `notify`, `synchronize` and `get_create_chain`, 32 bits
--                   wide, with wrap-around.
--
-- Bounds and fuel. The loops of the heap recurse on fuel, and their callers give them the position or
-- the size, which is at least the number of rounds. `run` recurses on its `limit`, as the loop does.
-- `size_t` counters wrap around at 2 ^ 64: the theorems on the runs of timers ask that fewer than
-- 2 ^ 64 - 2 calls of each link's function are in progress, and those on the lock that the read locks
-- stay below. The loops of the work queue's `dispatch`
-- end only when the procedures stop triggering each other; they recurse on fuel, and what they do when
-- it ends is part of the model's result. The walks over a chain are given more fuel than the chain has
-- links, which the theorems ask for; the handler table gives its loops the number of links that were
-- ever made, and one more. Handlers/Cookie takes it that
-- `synchronize` follows each `remove`, as fd-handler-table.cc asks.
--
-- Not modelled: the I/O dispatchers other than that for `poll`, and negative timeouts; `disconnect_all`
-- of signals; the destructors of the handler table and of the child process monitor; inotify, the
-- reactor, connection handles, intrusive lists, and `deferrable_rwlock`; memory orders weaker than
-- sequential consistency; failure to allocate, except in the handler table.
pub mod Base
pub mod Sums
pub mod Timer
pub mod Workqueue
pub mod Lock
pub mod Chain
pub mod Handlers
pub mod Poll
pub mod Eventflag
pub mod Pointer
pub mod Signal
pub mod Childproc
