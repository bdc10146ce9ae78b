-- ===== src/Poll/Dispatcher/Inside.antt =====
-- tscb/ioready-poll.cc: the calls that a callback makes, while the thread that notifies reads.
use libtscb.Base.{ℕ, ◌+◌, ◌≡◌, Bool, true, false, ◌||◌, List, [], ◌∷◌}
use libtscb.Poll.Dispatcher.{
  Dispatcher, Call, watching, disconnecting, modifying, run_call, run_calls,
}
use libtscb.Poll.Dispatcher.Calls.{watch-Grows, disconnect-Grows, modify-Grows}
use libtscb.Poll.Dispatcher.Grows.{Grows, Grows-refl, Grows-trans}
use libtscb.Poll.Dispatcher.Sequence.{IsAllowed}
use libtscb.Poll.Dispatcher.Valid.{IsDispatcher}

-- A call that is allowed and finds a reader.
abbrev pub IsInside : Call → Dispatcher → Type 0
IsInside (watching f fd mask sync) d = (sync ≡ false) × IsAllowed (watching f fd mask sync) d
IsInside (disconnecting p sync) d = sync ≡ false
IsInside (modifying p mask sync) d = sync ≡ false

abbrev pub AreInside : List Call → Dispatcher → Type 0
AreInside [] d = Unit
AreInside (c ∷ cs) d = IsInside c d × AreInside cs (run_call c d)

-- Whether a call is `modify`, and how many are `watch`.
abbrev modifies_one : Call → Bool
modifies_one (watching f fd mask sync) = false
modifies_one (disconnecting p sync) = false
modifies_one (modifying p mask sync) = true

abbrev pub modifies : List Call → Bool
modifies [] = false
modifies (c ∷ cs) = modifies_one c || modifies cs

abbrev watches_one : Call → ℕ
watches_one (watching f fd mask sync) = 1
watches_one (disconnecting p sync) = 0
watches_one (modifying p mask sync) = 0

abbrev pub watches : List Call → ℕ
watches [] = 0
watches (c ∷ cs) = watches_one c + watches cs

run_call-Grows :
    (c : Call) (d : Dispatcher) (xs : ℕ → List ℕ) (ds : List ℕ)
    → IsInside c d
    → IsDispatcher d xs ds
    → Grows d xs (run_call c d) (modifies_one c) (watches_one c)
unfolding run_call
run_call-Grows (watching f fd mask sync) d xs ds l h =
    rw (l.0) (watch-Grows d xs ds f fd mask l.1.0 l.1.1 h)
run_call-Grows (disconnecting p sync) d xs ds l h = rw (l) (disconnect-Grows d xs ds p h)
run_call-Grows (modifying p mask sync) d xs ds l h = rw (l) (modify-Grows d xs ds p mask h)

pub run_calls-Grows :
    (cs : List Call) (d : Dispatcher) (xs : ℕ → List ℕ) (ds : List ℕ)
    → AreInside cs d
    → IsDispatcher d xs ds
    → Grows d xs (run_calls cs d) (modifies cs) (watches cs)
unfolding run_calls
run_calls-Grows [] d xs ds l h = Grows-refl d xs ds false h
run_calls-Grows (c ∷ cs) d xs ds l h =
    let one = run_call-Grows c d xs ds l.0 h in
    Grows-trans d xs (run_call c d) (run_calls cs (run_call c d)) (modifies_one c) (modifies cs)
      (watches_one c) (watches cs) one
      (run_calls-Grows cs (run_call c d) one.links one.waiting l.1 one.holds)
