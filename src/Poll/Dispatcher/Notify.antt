-- ===== src/Poll/Dispatcher/Notify.antt =====
-- tscb/detail/fd-handler-table.cc: `notify`, over a poll dispatcher whose callbacks call it.
use mathlib.Core.Path.{subst}
use libtscb.Base.{
  ℕ, ◌≤◌, ◌≡◌, ◌≢◌, inl, inr, Bool, true, false, Bool-cases, List, [], arith, refl, sym,
}
use libtscb.Chain.Walk.{Next, first-Next}
use libtscb.Handlers.Chain.{Events}
use libtscb.Handlers.Cookie.{is_stale}
use libtscb.Handlers.Table.{
  Table, chain_at, get_chain, Round, Notified, done, threw, endless, visit_link, notify_links,
}
use libtscb.Handlers.Table
use libtscb.Handlers.Table.Valid.{sized}
use libtscb.Poll.Dispatcher.{Dispatcher, Call, notify}
use libtscb.Poll.Dispatcher.Inside.{watches}
use libtscb.Poll.Dispatcher.Valid.{IsDispatcher}
use libtscb.Poll.Dispatcher.Visit.{AreTame}
use libtscb.Poll.Dispatcher.Stands.{Stands}
use libtscb.Poll.Dispatcher.Tour.{Toured, IsNotified}
use libtscb.Poll.Dispatcher.Walk.{walk, walk-IsNotified, walk-Ends, Ends}

-- What a notification of descriptor `i` comes to: none if the descriptor has no chain, or one that
-- has a newer cookie than `cookie`.
pub data Notifies (d : Dispatcher) (xs : List ℕ) (i : ℕ) (events : Events) (cookie : ℕ)
    (exact : Bool) (r : Notified Dispatcher) : Type 0 where
  unknown : xs ≡ [] → r ≡ done d [] → Notifies d xs i events cookie exact r
  stale :
      is_stale (d.table.cookies.of_chain i) cookie ≡ true
      → r ≡ done d []
      → Notifies d xs i events cookie exact r
  notified :
      is_stale (d.table.cookies.of_chain i) cookie ≡ false
      → IsNotified i exact events xs r
      → Notifies d xs i events cookie exact r

abbrev pub StandsAfter : Notified Dispatcher → Type 0
StandsAfter (done e log) = Stands e
StandsAfter (threw e log) = Stands e
StandsAfter endless = Unit

Toured-Stands :
    (i : ℕ) (exact : Bool) (events : Events) (xs : List ℕ) (e : Dispatcher) (log : List Round)
    → Toured i exact events xs e log
    → Stands e
Toured-Stands i exact events xs e log t = record {
  links = t.links;
  waiting = t.waiting;
  holds = t.holds;
}

IsNotified-StandsAfter :
    (i : ℕ) (exact : Bool) (events : Events) (xs : List ℕ) (r : Notified Dispatcher)
    → IsNotified i exact events xs r
    → StandsAfter r
IsNotified-StandsAfter i exact events xs (done e log) (t, w) =
    Toured-Stands i exact events xs e log t
IsNotified-StandsAfter i exact events xs (threw e log) t = Toured-Stands i exact events xs e log t
IsNotified-StandsAfter i exact events xs endless u = tt

-- The dispatcher's tables hold together after a notification.
pub Notifies-StandsAfter :
    (d : Dispatcher) (xs : List ℕ) (i : ℕ) (events : Events) (cookie : ℕ) (exact : Bool)
    (r : Notified Dispatcher)
    → Stands d
    → Notifies d xs i events cookie exact r
    → StandsAfter r
Notifies-StandsAfter d xs i events cookie exact r h (unknown z e) =
    subst (λ q. StandsAfter q) (sym e) h
Notifies-StandsAfter d xs i events cookie exact r h (stale z e) =
    subst (λ q. StandsAfter q) (sym e) h
Notifies-StandsAfter d xs i events cookie exact r h (notified z k) =
    IsNotified-StandsAfter i exact events xs r k

module _ (act : ℕ → Events → Dispatcher → List Call × Bool) (exact : Bool)
    (tame : AreTame act exact) (d : Dispatcher) (xs : ℕ → List ℕ) (ds : List ℕ)
    (h : IsDispatcher d xs ds) (i : ℕ) (events : Events) (cookie : ℕ) where
  start-Next : get_chain d.table i ≡ true → Next d.connected (xs i) [] (d.table.active_of i)
  start-Next m =
      first-Next d.connected (chain_at d.table i).links (xs i)
        (h.valid.chains i (ground (arith, m)))

  missing : get_chain d.table i ≡ false → xs i ≡ []
  missing m = elim (Bool-cases (d.table.cookies.made i)) [
    | inl on ↦ absurd (ground (arith, on, m, h.valid.within i on))
    | inr off ↦ h.valid.absent i off
  ]

  -- A notification of a descriptor, with callbacks that watch, disconnect and modify at will, their
  -- own links and others. If the descriptor has no links or the notification is stale, nothing is
  -- called. Otherwise, when it is done, each link of the descriptor that is connected then has had
  -- its turn exactly once, in the order in which the links were registered, new ones included, and no
  -- link had a turn that was not connected at that moment. In its turn a link's function is called
  -- with those of the events that its mask holds, and only if there are some; where `exact` is true,
  -- which asks that no callback calls `modify`, this is the mask that the link still has. When a
  -- callback throws, this holds of the links up to the one that threw. In each case all that
  -- `run_calls-Stands` says of the dispatcher's tables holds at the end. The callbacks watch no
  -- negative descriptor, and none once 2 ^ 64 - 1 links were made.
  pub notify-Notifies :
      (n : ℕ) → Notifies d (xs i) i events cookie exact (notify act n d i events cookie)
  unfolding notify Table.notify walk
  notify-Notifies n = elim (Bool-cases (get_chain d.table i)) [
    | inr off ↦ unknown (missing off) (rw (off) refl)
    | inl on ↦ elim (Bool-cases (is_stale (d.table.cookies.of_chain i) cookie)) [
      | inl old ↦ stale old (rw (on, old) refl)
      | inr fresh ↦ notified fresh (
          rw (on, fresh)
            (walk-IsNotified act i events exact tame n d xs ds (d.table.active_of i) [] h tt
              (start-Next on)))
    ]
  ]

  pub notify-Ends :
      ((f : ℕ) (e : Events) (d : Dispatcher) → watches (act f e d).0 ≡ 0)
      → (n : ℕ) → d.table.next_link ≤ n
      → Ends d.table.next_link (notify act n d i events cookie)
  unfolding notify Table.notify walk
  notify-Ends quiet n l = elim (Bool-cases (get_chain d.table i)) [
    | inr off ↦ rw (off) (omega arith)
    | inl on ↦ elim (Bool-cases (is_stale (d.table.cookies.of_chain i) cookie)) [
      | inl old ↦ rw (on, old) (omega arith)
      | inr fresh ↦
          rw (on, fresh)
            (walk-Ends act i events exact tame quiet n d xs ds (d.table.active_of i) [] h tt
              (start-Next on)
              (omega (arith, l, sized d.table d.connected xs h.valid i (ground (arith, on)))))
    ]
  ]

  -- A notification ends, if its callbacks watch no further descriptors: one round for each link that
  -- was ever made, and one more, is enough.
  pub notify_ends :
      ((f : ℕ) (e : Events) (d : Dispatcher) → watches (act f e d).0 ≡ 0)
      → (n : ℕ) → d.table.next_link ≤ n
      → notify act n d i events cookie ≢ endless
  notify_ends quiet n l = λ e. subst (λ r. Ends d.table.next_link r) e (notify-Ends quiet n l)
