-- ===== src/Poll/Tests.antt =====
-- tscb/ioready-poll.cc: two descriptors, and the theorems there.
use libtscb.Base.{
  ℕ, ◌≡◌, ◌==◌, Bool, true, false, none, some, List, [], ◌∷◌, if◌then◌else◌, arith, refl,
}
use libtscb.Handlers.Chain.{Events, events_none, events_or, events_and}
use libtscb.Poll.{
  PollEvents, poll_none, PollTable, empty, resize_index, allocate_polltab_entry,
  update_polltab_entry, commit, free_polltab_entry, enter, leave, Change, watching, modifying,
  leaving, run_change, run_changes, handle_from, handle_events, handle_answer, Timeout, infinite,
  bounded, round_up, Answer, reported, dispatch, dispatch_pending, translate_os_to_tscb,
  translate_tscb_to_os,
}
use libtscb.Poll.Translate.{translate_roundtrip}
use libtscb.Poll.Table.{Watched, Holds}
use libtscb.Poll.Handle.{notified, dispatch-notified}

abbrev reading : Events
reading = record events_none { input = true }

abbrev writing : Events
writing = record events_none { output = true }

abbrev unwatched : Watched
unwatched = record { count = λ fd. 0; mask = λ fd. events_none }

empty-Holds : Holds empty unwatched
empty-Holds = record {
  counts = λ fd l. refl;
  outside = λ fd l. refl;
  within = λ fd l. omega (arith, l);
  placed = λ fd l. absurd (omega (arith, l));
  asked = λ fd l. absurd (omega (arith, l));
  watched = λ n l. omega (arith, l);
  listed = λ n l. absurd (omega (arith, l));
}

-- Descriptor 3 is watched twice, 5 once, and 3 is left and modified; then it is left altogether.
abbrev changes : List Change
changes =
    watching 3 reading
    ∷ watching 5 writing
    ∷ watching 3 reading
    ∷ leaving 3 reading
    ∷ modifying 3 writing
    ∷ []

abbrev table : PollTable
table = run_changes changes empty

entries :
    (table.size ≡ 2)
    × (table.fds 0 ≡ 3)
    × (table.fds 1 ≡ 5)
    × ((table.events 0).pollout ≡ true)
    × ((table.events 0).pollin ≡ false)
unfolding run_changes run_change enter leave allocate_polltab_entry resize_index
    update_polltab_entry commit free_polltab_entry translate_tscb_to_os
entries = (refl, refl, refl, refl, refl)

moved : ((leave table 3 events_none).size ≡ 1) × ((leave table 3 events_none).fds 0 ≡ 5)
unfolding run_changes run_change enter leave allocate_polltab_entry resize_index
    update_polltab_entry commit free_polltab_entry translate_tscb_to_os
moved = (refl, refl)

translate_roundtrip_example :
    translate_os_to_tscb (translate_tscb_to_os writing)
    ≡ events_and writing (record { input = true; output = true; error = false; hangup = false })
translate_roundtrip_example = translate_roundtrip writing

-- Descriptor 3 is ready for writing, and 5 has an error.
abbrev answers : (ℕ → ℕ) → (ℕ → PollEvents) → ℕ → Timeout → Answer
answers fds events size wait = reported 2 (λ n.
    if n == 0 then record poll_none { pollout = true } else record poll_none { pollerr = true })

abbrev note : ℕ → Events → List (ℕ × Events) → List (ℕ × Events) × Bool
note fd ev log = ((fd, ev) ∷ log, false)

abbrev waiting : PollTable
waiting = record empty { size = 2; fds = λ n. if n == 0 then 3 else 5 }

noted : dispatch answers note waiting none false 9 [] ≡ (
  (5, record { input = true; output = true; error = true; hangup = false }) ∷ (3, writing) ∷ [],
  2,
  false,
)
unfolding dispatch handle_answer handle_events handle_from translate_os_to_tscb events_or
noted = refl

dispatch-notified_example :
    (dispatch answers note waiting none false 1 []
      ≡ notified answers note 1 waiting.fds 2 (answers waiting.fds waiting.events 2 infinite) [])
    × (dispatch_pending answers note waiting 1 []
        ≡ notified answers note 1 waiting.fds 2
            (answers waiting.fds waiting.events 2 (bounded 0))
            [])
unfolding round_up
dispatch-notified_example = dispatch-notified answers note waiting none false 1 [] (λ wait. refl)

-- A timeout of 25 days.
long_timeout : round_up (some 2160000000000000) ≡ infinite
unfolding round_up
long_timeout = refl
