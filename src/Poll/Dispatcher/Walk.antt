-- ===== src/Poll/Dispatcher/Walk.antt =====
-- tscb/detail/fd-handler-table.cc: the loop of `notify`, over a poll dispatcher.
use mathlib.Core.Path.{subst}
use libtscb.Base.{
  ◌≤◌, ℕ, zero, suc, ◌+◌, ◌<◌, ◌≡◌, ◌≢◌, inl, inr, Bool, true, false, Bool-cases, if◌then◌else◌,
  List, [], ◌∷◌, arith, refl, sym, ap, ◌∙◌, ◌==◌,
}
use libtscb.Chain.Active.{size}
use libtscb.Chain.Members.{size-append}
use libtscb.Chain.Walk.{length, Visits-size, Next, over, stands}
use libtscb.Handlers.Chain.{Events}
use libtscb.Handlers.Table.{done, Round, Notified, threw, endless, visit_link, notify_links}
use libtscb.Poll.Dispatcher.{Dispatcher, Call, acting}
use libtscb.Poll.Dispatcher.Inside.{watches}
use libtscb.Poll.Dispatcher.Valid.{IsDispatcher}
use libtscb.Poll.Dispatcher.Visit.{calls_of, IsHeard, AreTame, Step, visit-Step}
use libtscb.Poll.Dispatcher.Tour.{IsNotified, IsNotified-append, After, Step-After}

-- A notification that ends, having made no links.
abbrev pub Ends : ℕ → Notified Dispatcher → Type 0
Ends bound (done e log) = e.table.next_link ≤ bound
Ends bound (threw e log) = e.table.next_link ≤ bound
Ends bound endless = ⊥

Ends-below : (a b : ℕ) (r : Notified Dispatcher) → a ≤ b → Ends a r → Ends b r
Ends-below a b (done e log) l h = omega (arith, h, l)
Ends-below a b (threw e log) l h = omega (arith, h, l)
Ends-below a b endless l h = h

module _ (act : ℕ → Events → Dispatcher → List Call × Bool) (i : ℕ) (events : Events) (exact : Bool)
    (tame : AreTame act exact) where
  unfoldable pub walk : ℕ → Dispatcher → ℕ → List Round → Notified Dispatcher
  walk n d p log =
      notify_links (λ (d : Dispatcher). d.table) (λ (d : Dispatcher). d.connected) (acting act) n d
        p events log

  walk-link :
      (n : ℕ) (d t : Dispatcher) (p : ℕ) (log : List Round) (thrown : Bool) (round : Round)
      → p ≢ 0
      → visit_link
          (λ (d : Dispatcher). d.table)
          (λ (d : Dispatcher). d.connected)
          (acting act)
          d
          p
          events
        ≡ (t, thrown, round)
      → walk (suc n) d p log
        ≡ (if thrown then threw t (round ∷ log) else walk n t (t.table.active_next p) (round ∷ log))
  unfolding walk notify_links
  walk-link n d t p log thrown round z e =
      let b : (p == 0) ≡ false = ground (arith, z) in rw (b, e) refl

  ended :
      (n : ℕ) (d : Dispatcher) (xs : ℕ → List ℕ) (p : ℕ) (log : List Round)
      → (st : Step act d xs p events exact) → After act i events exact tame d xs p log st
      → IsNotified i exact events
          (st.grows.links i)
          (walk n st.after (st.after.table.active_next p) (st.round ∷ log))
      → IsNotified i exact events (xs i) (
          if st.thrown
          then threw st.after (st.round ∷ log)
          else walk n st.after (st.after.table.active_next p) (st.round ∷ log))
  ended n d xs p log st a rest = elim (Bool-cases st.thrown) [
    | inl stop ↦ rw (stop) a.toured
    | inr go ↦ rw (go) (
        IsNotified-append i exact events (st.grows.new i) (xs i) _ (
          subst
            (λ l.
              IsNotified i exact events l
                (walk n st.after (st.after.table.active_next p) (st.round ∷ log)))
            (st.grows.grown i) rest))
  ]

  pub walk-IsNotified :
      (n : ℕ) (d : Dispatcher) (xs : ℕ → List ℕ) (ds : List ℕ) (p : ℕ) (log : List Round)
      → IsDispatcher d xs ds
      → IsHeard exact events d.table.event_mask (xs i) log
      → Next d.connected (xs i) (calls_of log) p
      → IsNotified i exact events (xs i) (walk n d p log)
  unfolding walk notify_links
  walk-IsNotified zero d xs ds p log h k w = tt
  walk-IsNotified (suc n) d xs ds p log h k (over z v) =
      let b : (p == 0) ≡ true = ground (arith, z) in
      rw (b) (
        record {
          links = xs;
          waiting = ds;
          holds = h;
          new = [];
          grown = refl;
          later = [];
          sooner = xs i;
          split = refl;
          visited = v;
          heard = k;
        },
        refl,
      )
  walk-IsNotified (suc n) d xs ds p log h k (stands later sooner z e on v) =
      let st = visit-Step act d xs ds i p later sooner events exact tame h e on in
      let a = Step-After act i events exact tame d xs ds p later sooner log h e v k st in
      let rest =
        walk-IsNotified n st.after st.grows.links st.grows.waiting (st.after.table.active_next p)
          (st.round ∷ log) st.grows.holds a.heard a.next in
      subst (λ r. IsNotified i exact events (xs i) r)
        (sym (walk-link n d st.after p log st.thrown st.round z st.made))
        (ended n d xs p log st a rest)

  pub walk-Ends :
      ((f : ℕ) (e : Events) (d : Dispatcher) → watches (act f e d).0 ≡ 0)
      → (n : ℕ) (d : Dispatcher) (xs : ℕ → List ℕ) (ds : List ℕ) (p : ℕ) (log : List Round)
      → IsDispatcher d xs ds
      → IsHeard exact events d.table.event_mask (xs i) log
      → Next d.connected (xs i) (calls_of log) p
      → size (xs i) < n + length (calls_of log)
      → Ends d.table.next_link (walk n d p log)
  unfolding walk notify_links
  walk-Ends quiet zero d xs ds p log h k (over z v) l =
      absurd (omega (arith, Visits-size d.connected (xs i) (calls_of log) v))
  walk-Ends quiet zero d xs ds p log h k (stands later sooner z w on v) l = absurd (
      omega (
        arith,
        Visits-size d.connected sooner (calls_of log) v,
        ap size w,
        size-append later (p ∷ sooner),
      ))
  walk-Ends quiet (suc n) d xs ds p log h k (over z v) l =
      let b : (p == 0) ≡ true = ground (arith, z) in rw (b) (omega arith)
  walk-Ends quiet (suc n) d xs ds p log h k (stands later sooner z w on v) l =
      let st = visit-Step act d xs ds i p later sooner events exact tame h w on in
      let a = Step-After act i events exact tame d xs ds p later sooner log h w v k st in
      let none_new : st.count ≡ 0 = elim (st.few) [
        | inl e ↦ e
        | inr (f, e, c, same) ↦ same ∙ quiet f e c
      ] in
      let longer : length (calls_of (st.round ∷ log)) ≡ length (calls_of log) + 1 = omega arith in
      let least : st.after.table.next_link ≤ d.table.next_link =
        omega (arith, st.grows.room, none_new) in
      let rest =
        walk-Ends quiet n st.after st.grows.links st.grows.waiting (st.after.table.active_next p)
          (st.round ∷ log) st.grows.holds a.heard a.next
          (omega (
            arith,
            longer,
            none_new,
            st.grows.few i,
            ap size (st.grows.grown i),
            size-append (st.grows.new i) (xs i),
          )) in
      subst (λ r. Ends d.table.next_link r)
        (sym (walk-link n d st.after p log st.thrown st.round z st.made))
        (elim (Bool-cases st.thrown) [
          | inl stop ↦ rw (stop) least
          | inr go ↦ rw (go) (Ends-below st.after.table.next_link d.table.next_link _ least rest)
        ])
