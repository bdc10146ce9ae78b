-- ===== src/Poll/Dispatcher/Dispatch.antt =====
-- tscb/ioready-poll.cc: `dispatch`, with `poll`, the lock's answers and the callbacks as parameters.
use mathlib.Core.Option.{map}
use mathlib.Core.Path.{subst}
use libtscb.Base.{
  ℕ, zero, suc, ◌≤◌, ◌≡◌, ◌≢◌, Bool, true, Option, none, some, if◌then◌else◌, List, [], arith, refl,
  sym, ap, ◌∙◌,
}
use libtscb.Handlers.Chain.{Events}
use libtscb.Handlers.Table.Synchronize.{synchronize-IsSynchronized}
use libtscb.Poll.{PollEvents, Timeout, bounded, round_up, Answer, failed, reported}
use libtscb.Poll.Handle.{ready, take, notify_all, Counts, notified, dispatch-notified}
use libtscb.Poll.Dispatcher.{Dispatcher, Call, synchronize, unlock, deliver, enter, dispatch}
use libtscb.Poll.Dispatcher.Inside.{watches}
use libtscb.Poll.Dispatcher.Stands.{Stands, unlock-Stands}
use libtscb.Poll.Dispatcher.Visit.{AreTame}
use libtscb.Poll.Dispatcher.Deliver.{
  Delivers, StandsAt, deliver_all_ends, Delivers-StandsAt, deliver_all-Delivers,
}

pub enter-Stands : (rounds : ℕ) (d : Dispatcher) → Stands d → Stands (enter rounds d)
unfolding enter
enter-Stands zero d h = h
enter-Stands (suc rounds) d h = enter-Stands rounds (synchronize d) (unlock-Stands true d h)

enter-next_link :
    (rounds : ℕ) (d : Dispatcher) → Stands d → (enter rounds d).table.next_link ≡ d.table.next_link
unfolding enter synchronize
enter-next_link zero d h = refl
enter-next_link (suc rounds) d h =
    enter-next_link rounds (synchronize d) (unlock-Stands true d h)
    ∙ (synchronize-IsSynchronized d.table d.connected h.links h.waiting h.holds.valid
        h.holds.removed).next_link

map-StandsAt : (sync : Bool) (r : Option Dispatcher) → StandsAt r → StandsAt (map (unlock sync) r)
map-StandsAt sync none h = tt
map-StandsAt sync (some d) h = unlock-Stands sync d h

-- The first `limit` of the entries that have events, if `poll` did not fail.
abbrev pub entries : ℕ → (ℕ → ℕ) → ℕ → Answer → List (ℕ × Events)
entries limit fds size failed = []
entries limit fds size (reported count revents) = take limit (ready fds revents size 0)

module _ (poll : (ℕ → ℕ) → (ℕ → PollEvents) → ℕ → Timeout → Answer)
    (act : ℕ → Events → Dispatcher → List Call × Bool) (exact : Bool) (tame : AreTame act exact)
    (n rounds : ℕ) (sync : Bool) (timeout : Option ℕ) (flagged : Bool) (limit : ℕ) (d : Dispatcher)
    (h : Stands d) where
  abbrev reading : Dispatcher
  reading = enter rounds d

  abbrev pub asked : Answer
  asked =
      let t = (enter rounds d).polltab in
      poll t.fds t.events t.size (if flagged then bounded 0 else round_up timeout)

  -- What a `dispatch` comes to.
  pub record Dispatches (result : Option Dispatcher × ℕ × Bool) : Type 0 where
    pub after : Option Dispatcher
    pub made : result.0 ≡ map (unlock sync) after
    pub delivers :
        Delivers
          (enter rounds d).table.cookies.cookie
          exact
          (enter rounds d)
          (entries limit (enter rounds d).polltab.fds (enter rounds d).polltab.size asked)
          after
          result.2
    pub stands : StandsAt result.0

  notified-entries :
      (act' : ℕ → Events → Option Dispatcher → Option Dispatcher × Bool) (fds : ℕ → ℕ) (size : ℕ)
      (a : Answer) (s : Option Dispatcher)
      → notified poll act' limit fds size a s ≡ notify_all act' (entries limit fds size a) 0 s
  notified-entries act' fds size failed s = refl
  notified-entries act' fds size (reported count revents) s = refl

  all : Option Dispatcher × ℕ × Bool
  all =
      let e = enter rounds d in
      notify_all (deliver act n e.table.cookies.cookie)
        (entries limit e.polltab.fds e.polltab.size asked) 0 (some e)

  -- What `poll` promises: it counts the entries whose `revents` are not 0.
  abbrev pub Promised : Type 0
  Promised =
      let t = (enter rounds d).polltab in
      (wait : Timeout)
      → Counts poll (deliver act n (enter rounds d).table.cookies.cookie) t.fds t.size
          (poll t.fds t.events t.size wait)

  dispatch_all :
      Promised
      → dispatch poll act n rounds sync timeout flagged limit d
        ≡ (map (unlock sync) all.0, all.1, all.2)
  unfolding dispatch all
  dispatch_all c =
      let e = enter rounds d in
      let act' = deliver act n e.table.cookies.cookie in
      ap (λ q. (map (unlock sync) q.0, q.1, q.2))
        ((dispatch-notified poll act' e.polltab timeout flagged limit (some e) c).0
          ∙ notified-entries act' e.polltab.fds e.polltab.size asked (some e))

  all-Dispatches : Dispatches (map (unlock sync) all.0, all.1, all.2)
  unfolding all
  all-Dispatches =
      let e = enter rounds d in
      let k =
        deliver_all-Delivers act exact tame n e.table.cookies.cookie
          (entries limit e.polltab.fds e.polltab.size asked) 0 e (enter-Stands rounds d h) in
      record {
        after = all.0;
        made = refl;
        delivers = k;
        stands = map-StandsAt sync all.0 (
            Delivers-StandsAt e.table.cookies.cookie exact e
              (entries limit e.polltab.fds e.polltab.size asked) all.0 all.2 k);
      }

  -- A whole `dispatch`, whatever the lock and the wakeup flag answer, if `poll` counts the entries with
  -- events right: the descriptors of the first `limit` entries with events are notified in the order of
  -- the table, up to the first whose callback throws, each as `notify-Notifies` says, with the cookie
  -- from before the call of `poll`; and at the end, where a guard has synchronized or not, what
  -- `run_calls-Stands` says of the dispatcher's tables holds.
  pub dispatch-Dispatches :
      Promised → Dispatches (dispatch poll act n rounds sync timeout flagged limit d)
  dispatch-Dispatches c = subst Dispatches (sym (dispatch_all c)) all-Dispatches

  all-none : all.0 ≢ none → map (unlock sync) all.0 ≢ none
  all-none = go all.0
    where
      go : (r : Option Dispatcher) → r ≢ none → map (unlock sync) r ≢ none
      go none k = λ e. k refl
      go (some e) k = λ e. cc

  -- A `dispatch` ends, if its callbacks watch no further descriptors: for each notification, one round
  -- for each link that was ever made, and one more, is enough.
  pub dispatch_terminates :
      Promised
      → ((f : ℕ) (e : Events) (d : Dispatcher) → watches (act f e d).0 ≡ 0)
      → d.table.next_link ≤ n
      → (dispatch poll act n rounds sync timeout flagged limit d).0 ≢ none
  unfolding all
  dispatch_terminates c quiet l =
      let e = enter rounds d in
      subst (λ q. q.0 ≢ none) (sym (dispatch_all c))
        (all-none (
          deliver_all_ends act exact tame n e.table.cookies.cookie quiet
            (entries limit e.polltab.fds e.polltab.size asked) 0 e (enter-Stands rounds d h)
            (omega (arith, enter-next_link rounds d h, l))))
