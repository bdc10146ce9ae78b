-- ===== src/Childproc/Tests.antt =====
-- tscb/childproc-monitor.cc: two processes, one of which has exited, and the theorem there.
use libtscb.Base.{
  none, some, ℕ, ◌≡◌, ◌≢◌, ◌==◌, Bool, true, false, List, [], ◌∷◌, if◌then◌else◌, arith, refl,
}
use libtscb.Chain.{redirect, append_link, deactivate_link, unlink_link}
use libtscb.Signal
use libtscb.Signal.Valid.{IsSignal, connect-IsSignal}
use libtscb.Childproc.{
  Monitor, watch_childproc, remove, disconnect, synchronize, Reply, running, exited, Op, run_op,
  run_ops, Poll, poll, Dispatched, done, threw, endless, call_link, handle, dispatch_from, dispatch,
  depart, guarded_dispatch,
}
use libtscb.Childproc.Dispatch.{IsDispatched, dispatch-IsDispatched, dispatch_ends}

abbrev empty : Monitor
empty = record { registry = Signal.empty; pid = λ _. 0 }

empty-IsSignal : IsSignal empty.registry []
empty-IsSignal = record {
  chain = record { back = refl; full = refl; actives = refl };
  members = λ p e. cc;
  functions = tt;
  below = tt;
  sized = omega arith;
}

-- Link 1 watches process 100, link 2 process 200.
abbrev watching_two : Monitor
watching_two = watch_childproc (watch_childproc empty 10 100 false) 20 200 false

watching_two-IsSignal : IsSignal watching_two.registry (2 ∷ 1 ∷ [])
unfolding watch_childproc Signal.connect Signal.push_back
watching_two-IsSignal =
    connect-IsSignal (Signal.connect Signal.empty 10 false) 20 (1 ∷ [])
      (connect-IsSignal Signal.empty 10 [] empty-IsSignal)

-- Process 100 has exited with status 7.
abbrev waits : List Poll → ℕ → Reply
waits log pid = if pid == 100 then exited 7 else running

abbrev quiet : ℕ → Reply → Monitor → List Op × Bool
quiet f r m = ([], false)

abbrev rounds_of : Dispatched → List Poll
rounds_of (done m log) = log
rounds_of (threw m log) = log
rounds_of endless = []

abbrev connected_of : Dispatched → ℕ → Bool
connected_of (done m log) p = m.connected p
connected_of (threw m log) p = m.connected p
connected_of endless p = false

outcome : Dispatched
unfolding guarded_dispatch depart dispatch dispatch_from handle call_link run_ops run_op disconnect
    remove synchronize watch_childproc Signal.connect Signal.push_back Signal.remove
    Signal.synchronize Signal.synchronize_top Signal.synchronize_bottom Signal.drop_function
    Signal.repair Signal.enter redirect append_link deactivate_link unlink_link
outcome = guarded_dispatch waits quiet 0 true 9 watching_two

outcome_rounds :
    rounds_of outcome ≡ poll 2 true running none ∷ poll 1 true (exited 7) (some 10) ∷ []
unfolding outcome
outcome_rounds = refl

outcome_connected : (connected_of outcome 1 ≡ false) × (connected_of outcome 2 ≡ true)
unfolding outcome
outcome_connected = (refl, refl)

dispatch-IsDispatched_example :
    IsDispatched waits (2 ∷ 1 ∷ []) (dispatch waits quiet 9 watching_two)
dispatch-IsDispatched_example =
    dispatch-IsDispatched waits quiet 9 watching_two (2 ∷ 1 ∷ []) watching_two-IsSignal

dispatch_ends_example : dispatch waits quiet 3 watching_two ≢ endless
dispatch_ends_example =
    dispatch_ends waits quiet (λ f r m. refl) 3 watching_two (2 ∷ 1 ∷ []) watching_two-IsSignal
      (omega arith)
