-- ===== src/Signal/Tests.antt =====
-- tscb/signal.h: calls of a signal whose callbacks connect and disconnect, and the theorems there.
use libtscb.Base.{
  ℕ, ◌≡◌, ◌≢◌, ◌==◌, Bool, true, false, none, List, [], ◌∷◌, if◌then◌else◌, arith, refl,
}
use libtscb.Chain.{redirect, append_link, deactivate_link, unlink_link}
use libtscb.Chain.Walk.{Call, called}
use libtscb.Signal.{
  Signal, empty, connect, push_back, disconnect, remove, repair, synchronize_top, drop_function,
  synchronize_bottom, synchronize, Op, connecting, disconnecting, run_op, run_ops, call_link,
  emit_from, emit, Emitted, done, threw, endless, enter, depart, call_signal,
}
use libtscb.Signal.Valid.{IsSignal, connects, connect-IsSignal}
use libtscb.Signal.Emit.{IsEmitted, emit-IsEmitted, emit_ends}
use libtscb.Signal.Synchronize.{IsSynchronized, synchronize_lem}
use libtscb.Signal.Change.{Stands, run_ops-Stands}
use libtscb.Signal.Abstract.{Registry, promise_all, Implements, run_ops-Implements}
use libtscb.Signal.{destroy}
use libtscb.Signal.Destroy.{IsVacant, destroy_disconnects}

empty-IsSignal : IsSignal empty []
empty-IsSignal = record {
  chain = record { back = refl; full = refl; actives = refl };
  members = λ p e. cc;
  functions = tt;
  below = tt;
  sized = omega arith;
}

empty-Stands : Stands empty
empty-Stands = record {
  links = [];
  waiting = [];
  valid = empty-IsSignal;
  deferred = record { deferred = refl; pending = tt; covered = tt; count = omega arith };
}

-- Four links; the third one is disconnected again.
abbrev script : List Op
script = connecting 10 ∷ connecting 20 ∷ connecting 30 ∷ connecting 40 ∷ disconnecting 3 ∷ []

abbrev four : Signal
four = run_ops script empty

abbrev nothing : Registry
nothing = record { links = []; alive = λ p. false; function = λ p. none; waiting = []; next = 1 }

empty-Implements : Implements empty nothing
unfolding empty-Stands
empty-Implements = record {
  valid = empty-IsSignal;
  deferred = empty-Stands.deferred;
  alive = λ p. refl;
  function = λ p. refl;
  next = refl;
}

run_ops-Implements_example : Implements (run_ops script empty) (promise_all script nothing)
run_ops-Implements_example = run_ops-Implements script empty nothing empty-Implements

four-Stands : Stands four
four-Stands = run_ops-Stands script empty empty-Stands

-- Callback 10 disconnects the next link, and callback 40 connects another one.
abbrev behaviour : ℕ → Signal → List Op × Bool
behaviour f s =
    if f == 10
    then (disconnecting 2 ∷ [], false)
    else (if f == 40 then (connecting 50 ∷ [], false) else ([], false))

abbrev calls_of : Emitted → List Call
calls_of (done s log) = log
calls_of (threw s log) = log
calls_of endless = []

run_four : List Call
unfolding run_ops run_op connect push_back disconnect remove repair synchronize_top drop_function
    synchronize_bottom synchronize call_link emit_from emit enter depart call_signal redirect
    append_link deactivate_link unlink_link
run_four = calls_of (call_signal behaviour 1 true 9 four)

calls_made : run_four ≡ called 5 true ∷ called 4 true ∷ called 1 true ∷ []
unfolding run_four
calls_made = refl

emit-IsEmitted_example : IsEmitted four-Stands.links (emit behaviour 9 four)
emit-IsEmitted_example = emit-IsEmitted behaviour 9 four four-Stands.links four-Stands.valid

synchronize_lem_example :
    IsSynchronized four four-Stands.links four-Stands.waiting (synchronize four)
synchronize_lem_example =
    synchronize_lem four four-Stands.links four-Stands.waiting four-Stands.valid
      four-Stands.deferred

-- Callback 10 disconnects the next link.
abbrev leaving : ℕ → Signal → List Op × Bool
leaving f s = if f == 10 then (disconnecting 2 ∷ [], false) else ([], false)

connects-leaving : (f : ℕ) (s : Signal) → connects (leaving f s).0 ≡ 0
connects-leaving f s = ground arith

abbrev two : Signal
two = connect (connect empty 10 false) 20 false

two-IsSignal : IsSignal two (2 ∷ 1 ∷ [])
unfolding connect push_back
two-IsSignal =
    connect-IsSignal (connect empty 10 false) 20 (1 ∷ [])
      (connect-IsSignal empty 10 [] empty-IsSignal)

emit_ends_example : emit leaving 3 two ≢ endless
emit_ends_example = emit_ends leaving connects-leaving 3 two (2 ∷ 1 ∷ []) two-IsSignal (omega arith)

destroy_disconnects_example : IsVacant (destroy 1 false four)
destroy_disconnects_example = destroy_disconnects 1 false four four-Stands
