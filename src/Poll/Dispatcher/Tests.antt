-- ===== src/Poll/Dispatcher/Tests.antt =====
-- tscb/ioready-poll.cc: descriptors that are watched and left, and a notification whose callback
-- disconnects a link.
use libtscb.Base.{
  ltb, ◌==◌, if◌then◌else◌, none, ℕ, ◌≡◌, ◌≢◌, Bool, true, false, List, [], ◌∷◌, arith, refl,
}
use libtscb.Chain.{append_link, deactivate_link, redirect}
use libtscb.Handlers.Chain.{Events, insert_link, remove_link}
use libtscb.Handlers.Cookie.{create_chain, is_stale}
use libtscb.Handlers.Table
use libtscb.Handlers.Table.{
  Notified, Round, told, done, threw, endless, notify_links, visit_link, call_link,
}
use libtscb.Poll.{
  PollEvents, poll_none, Timeout, Answer, reported, allocate_polltab_entry, commit, resize_index,
}
use libtscb.Poll.Dispatcher.Dispatch.{
  Promised, Dispatches, dispatch-Dispatches, dispatch_terminates,
}
use libtscb.Poll.Dispatcher.Destroy.{IsVacant, destroy-IsVacant}
use libtscb.Poll.Dispatcher.{
  destroy, dispatch, enter, Dispatcher, Call, watching, disconnecting, modifying, run_call,
  run_calls, watch, disconnect, fresh, notify,
}
use libtscb.Poll.Dispatcher.Sequence.{fresh-Stands, run_calls-Stands}
use libtscb.Poll.Dispatcher.Stands.{Stands}
use libtscb.Poll.Dispatcher.Visit.{AreTame}
use libtscb.Poll.Dispatcher.Notify.{Notifies, notify-Notifies}

abbrev reads : Events
reads = record { input = true; output = false; error = false; hangup = false }

abbrev writes : Events
writes = record { input = false; output = true; error = false; hangup = false }

abbrev calls : List Call
calls =
    watching 1 5 reads false
    ∷ watching 2 40 writes false
    ∷ modifying 1 writes false
    ∷ disconnecting 2 true
    ∷ []

-- One address was given to a link.
one_made : (f : ℕ) (mask : Events) → (run_call (watching f 5 mask false) fresh).table.next_link ≡ 2
unfolding run_call watch Table.insert Table.get_create_chain Table.make_link Table.add_chain
    Table.join_chain Table.new_chain create_chain
one_made f mask = refl

run_calls-Stands_example : Stands (run_calls calls fresh)
run_calls-Stands_example =
    run_calls-Stands calls fresh
      ((omega arith, omega arith), ((omega arith, omega (arith, one_made 1 reads)), (tt, (tt, tt))))
      fresh-Stands

-- Descriptor 5 has links 1 and 2; function 1 disconnects link 2.
abbrev two : Dispatcher
two = run_calls (watching 1 5 reads false ∷ watching 2 5 reads false ∷ []) fresh

two-Stands : Stands two
two-Stands =
    run_calls-Stands (watching 1 5 reads false ∷ watching 2 5 reads false ∷ []) fresh
      ((omega arith, omega arith), ((omega arith, omega (arith, one_made 1 reads)), tt))
      fresh-Stands

abbrev act : ℕ → Events → Dispatcher → List Call × Bool
act f events d = (disconnecting 2 false ∷ [], false)

act-AreTame : AreTame act true
act-AreTame = record { inside = λ f events d. (refl, tt); steady = λ f events d. refl }

notify-Notifies_example :
    Notifies two (two-Stands.links 5) 5 reads 0 true (notify act 3 two 5 reads 0)
notify-Notifies_example =
    notify-Notifies act true act-AreTame two two-Stands.links two-Stands.waiting two-Stands.holds 5
      reads 0 3

-- Only the first link is told.
rounds : Notified Dispatcher → List Round
rounds (done d log) = log
rounds (threw d log) = log
rounds endless = []

told_one : rounds (notify act 3 two 5 reads 0) ≡ told 1 true reads ∷ []
unfolding rounds notify Table.notify notify_links visit_link call_link run_calls run_call watch
    disconnect Table.insert Table.get_create_chain Table.make_link Table.add_chain Table.join_chain
    Table.new_chain insert_link append_link redirect Table.remove remove_link deactivate_link
    create_chain is_stale
told_one = refl

-- `poll` says that the first entry is ready for reading.
abbrev answers : (ℕ → ℕ) → (ℕ → PollEvents) → ℕ → Timeout → Answer
answers fds events size wait =
    if ltb 0 size
    then reported 1 (λ n. if n == 0 then record poll_none { pollin = true } else poll_none)
    else reported 0 (λ n. poll_none)

two_made : two.table.next_link ≡ 3
unfolding run_calls run_call watch Table.insert Table.get_create_chain Table.make_link
    Table.add_chain Table.join_chain Table.new_chain create_chain
two_made = refl

one_entry : two.polltab.size ≡ 1
unfolding run_calls run_call watch Table.insert Table.get_create_chain Table.make_link
    Table.add_chain Table.join_chain Table.new_chain create_chain allocate_polltab_entry commit
    resize_index
one_entry = refl

answers-Promised : Promised answers act true act-AreTame 3 0 true none false 8 two two-Stands
unfolding enter
answers-Promised wait = rw (one_entry) refl

dispatch-Dispatches_example :
    Dispatches answers act true act-AreTame 3 0 true none false 8 two two-Stands
      (dispatch answers act 3 0 true none false 8 two)
dispatch-Dispatches_example =
    dispatch-Dispatches answers act true act-AreTame 3 0 true none false 8 two two-Stands
      answers-Promised

dispatch_terminates_example : (dispatch answers act 3 0 true none false 8 two).0 ≢ none
dispatch_terminates_example =
    dispatch_terminates answers act true act-AreTame 3 0 true none false 8 two two-Stands
      answers-Promised (λ f e d. refl) (omega (arith, two_made))

destroy-IsVacant_example : IsVacant (destroy 1 false two)
destroy-IsVacant_example = destroy-IsVacant 1 false two two-Stands
