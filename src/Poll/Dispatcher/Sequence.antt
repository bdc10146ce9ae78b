-- ===== src/Poll/Dispatcher/Sequence.antt =====
-- tscb/ioready-poll.cc: sequences of `watch`, `modify` and `disconnect`.
use libtscb.Base.{◌<◌, false, List, [], ◌∷◌, arith, refl}
use libtscb.Handlers.Table
use libtscb.Handlers.Table.New.{empty-IsTable}
use libtscb.Poll
use libtscb.Poll.Table.{Holds}
use libtscb.Poll.Dispatcher.{
  Dispatcher, Call, watching, disconnecting, modifying, run_call, run_calls, fresh,
}
use libtscb.Poll.Dispatcher.Stands.{Stands}
use libtscb.Poll.Dispatcher.Calls.{watch-Stands, disconnect-Stands, modify-Stands}
use libtscb.Poll.Dispatcher.Valid.{watched_of}

-- A descriptor that is watched is not negative, and there is an address for the link.
abbrev pub IsAllowed : Call → Dispatcher → Type 0
IsAllowed (watching f fd mask sync) d =
    (fd < 9223372036854775808) × (d.table.next_link < 18446744073709551615)
IsAllowed (disconnecting p sync) d = Unit
IsAllowed (modifying p mask sync) d = Unit

abbrev pub AreAllowed : List Call → Dispatcher → Type 0
AreAllowed [] d = Unit
AreAllowed (c ∷ cs) d = IsAllowed c d × AreAllowed cs (run_call c d)

run_call-Stands : (c : Call) (d : Dispatcher) → IsAllowed c d → Stands d → Stands (run_call c d)
unfolding run_call
run_call-Stands (watching f fd mask sync) d l h = watch-Stands d f fd mask sync l.0 l.1 h
run_call-Stands (disconnecting p sync) d l h = disconnect-Stands d p sync h
run_call-Stands (modifying p mask sync) d l h = modify-Stands d p mask sync h

-- Any sequence of `watch`, `modify` and `disconnect`, each with another thread reading or with none,
-- keeps the dispatcher's tables together: each descriptor's chain of links is whole, a connected
-- link stands in its descriptor's chain, and the array for `poll` has one entry for each descriptor
-- that some connected link watches, and no other, which asks for the union of their events. This
-- goes for allocations that succeed, descriptors that are not negative, and fewer than 2 ^ 64 - 1
-- links made.
pub run_calls-Stands :
    (cs : List Call) (d : Dispatcher) → AreAllowed cs d → Stands d → Stands (run_calls cs d)
unfolding run_calls
run_calls-Stands [] d l h = h
run_calls-Stands (c ∷ cs) d l h = run_calls-Stands cs (run_call c d) l.1 (run_call-Stands c d l.0 h)

empty-Holds : Holds Poll.empty (watched_of (Table.empty 32) (λ p. false) (λ i. []))
empty-Holds = record {
  counts = λ fd l. absurd (omega (arith, l));
  outside = λ fd l. refl;
  within = λ fd l. absurd (omega (arith, l));
  placed = λ fd l. absurd (omega (arith, l));
  asked = λ fd l. absurd (omega (arith, l));
  watched = λ n l. absurd (omega (arith, l));
  listed = λ n l. absurd (omega (arith, l));
}

pub fresh-Stands : Stands fresh
fresh-Stands = record {
  links = λ i. [];
  waiting = [];
  holds = record {
    valid = empty-IsTable 32;
    removed = record { listed = refl; pending = tt; covered = λ i. tt };
    polled = empty-Holds;
  };
}
