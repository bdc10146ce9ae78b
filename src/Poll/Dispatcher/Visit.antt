-- ===== src/Poll/Dispatcher/Visit.antt =====
-- tscb/detail/fd-handler-table.cc: a round of the loop of `notify`, over a poll dispatcher whose
-- callbacks call it.
use libtscb.Base.{
  ℕ, ◌≡◌, ◌⊎◌, inl, inr, Bool, true, false, ◌&&◌, Bool-cases, List, [], ◌∷◌, ◌++◌, arith, refl,
}
use mathlib.Core.Path.{subst}
use libtscb.Chain.Members.{IsIn, HasFunctions}
use libtscb.Chain.Walk
use libtscb.Handlers.Chain.{Events, events_and, events_any}
use libtscb.Handlers.Table.{Round, told, passed, visit_link, call_link}
use libtscb.Poll.Dispatcher.{Dispatcher, Call, run_calls, acting}
use libtscb.Poll.Dispatcher.Grows.{Grows, Grows-refl, IsIn-append}
use libtscb.Poll.Dispatcher.Inside.{AreInside, modifies, watches, run_calls-Grows}
use libtscb.Poll.Dispatcher.Valid.{IsDispatcher}
use libtscb.Signal.Advance.{HasFunctions-middle}

abbrev pub link_of : Round → ℕ
link_of (told p alive hit) = p
link_of (passed p alive) = p

abbrev pub alive_of : Round → Bool
alive_of (told p alive hit) = alive
alive_of (passed p alive) = alive

abbrev pub calls_of : List Round → List Walk.Call
calls_of [] = []
calls_of (r ∷ log) = Walk.called (link_of r) (alive_of r) ∷ calls_of log

-- What a function is called with: those of the events that the link's mask holds, and if there are
-- none, it is not called. Where masks may change later on, `exact` is false.
abbrev pub IsHit : Bool → Events → (ℕ → Events) → Round → Type 0
IsHit true events masks (told p alive hit) =
    (hit ≡ events_and events (masks p)) × (events_any hit ≡ true)
IsHit true events masks (passed p alive) = events_any (events_and events (masks p)) ≡ false
IsHit false events masks (told p alive hit) =
    ((m : Events) × (hit ≡ events_and events m)) × (events_any hit ≡ true)
IsHit false events masks (passed p alive) = Unit

abbrev pub IsHeard : Bool → Events → (ℕ → Events) → List ℕ → List Round → Type 0
IsHeard exact events masks xs [] = Unit
IsHeard exact events masks xs (r ∷ log) =
    IsIn (link_of r) xs × IsHit exact events masks r × IsHeard exact events masks xs log

IsHit-same :
    (exact : Bool) (events : Events) (masks masks' : ℕ → Events) (r : Round)
    → (exact ≡ true → masks' (link_of r) ≡ masks (link_of r))
    → IsHit exact events masks r
    → IsHit exact events masks' r
IsHit-same true events masks masks' (told p alive hit) e h = rw (e refl) h
IsHit-same true events masks masks' (passed p alive) e h = rw (e refl) h
IsHit-same false events masks masks' (told p alive hit) e h = h
IsHit-same false events masks masks' (passed p alive) e h = h

-- Links that join do not matter, nor do other masks.
pub IsHeard-same :
    (exact : Bool) (events : Events) (masks masks' : ℕ → Events) (new xs : List ℕ)
    (log : List Round)
    → (exact ≡ true → (x : ℕ) → IsIn x xs → masks' x ≡ masks x)
    → IsHeard exact events masks xs log
    → IsHeard exact events masks' (new ++ xs) log
IsHeard-same exact events masks masks' new xs [] e h = tt
IsHeard-same exact events masks masks' new xs (r ∷ log) e h = (
  IsIn-append (link_of r) new xs h.0,
  IsHit-same exact events masks masks' r (λ y. e y (link_of r) h.0) h.1,
  IsHeard-same exact events masks masks' new xs log e h.2,
)

-- The hypotheses on the callbacks: each call finds a reader and is allowed, and if `exact` is true,
-- none is `modify`.
pub record AreTame (act : ℕ → Events → Dispatcher → List Call × Bool) (exact : Bool) : Type 0 where
  pub inside : (f : ℕ) (events : Events) (d : Dispatcher) → AreInside (act f events d).0 d
  pub steady :
      (f : ℕ) (events : Events) (d : Dispatcher) → (exact && modifies (act f events d).0) ≡ false

module _ (act : ℕ → Events → Dispatcher → List Call × Bool) where
  -- What the visit of a link does.
  pub record Step (d : Dispatcher) (xs : ℕ → List ℕ) (p : ℕ) (events : Events) (exact : Bool)
      : Type 0 where
    pub after : Dispatcher
    pub thrown : Bool
    pub round : Round
    pub made :
        visit_link
          (λ (d : Dispatcher). d.table)
          (λ (d : Dispatcher). d.connected)
          (acting act)
          d
          p
          events
        ≡ (after, thrown, round)
    pub modified : Bool
    pub count : ℕ
    pub grows : Grows d xs after modified count
    pub steady : (exact && modified) ≡ false
    pub link : link_of round ≡ p
    pub alive : alive_of round ≡ true
    pub hit : IsHit exact events d.table.event_mask round
    pub few :
        (count ≡ 0) ⊎ ((f : ℕ) × (e : Events) × (c : Dispatcher) × (count ≡ watches (act f e c).0))

  told-IsHit :
      (exact : Bool) (events : Events) (masks : ℕ → Events) (p : ℕ) (alive : Bool)
      → events_any (events_and events (masks p)) ≡ true
      → IsHit exact events masks (told p alive (events_and events (masks p)))
  told-IsHit true events masks p alive e = (refl, e)
  told-IsHit false events masks p alive e = ((masks p, refl), e)

  passed-IsHit :
      (exact : Bool) (events : Events) (masks : ℕ → Events) (p : ℕ) (alive : Bool)
      → events_any (events_and events (masks p)) ≡ false
      → IsHit exact events masks (passed p alive)
  passed-IsHit true events masks p alive e = e
  passed-IsHit false events masks p alive e = tt

  pub visit-Step :
      (d : Dispatcher) (xs : ℕ → List ℕ) (ds : List ℕ) (i p : ℕ) (later sooner : List ℕ)
      (events : Events) (exact : Bool)
      → AreTame act exact
      → IsDispatcher d xs ds
      → xs i ≡ later ++ (p ∷ sooner)
      → d.connected p ≡ true
      → Step d xs p events exact
  unfolding visit_link call_link
  visit-Step d xs ds i p later sooner events exact tame h e on =
      let masks = d.table.event_mask in
      let hit = events_and events (masks p) in
      elim (Bool-cases (events_any hit)) [
        | inl any ↦
            let (f, g) =
              HasFunctions-middle d.table.function later p sooner
                (subst (λ l. HasFunctions d.table.function l) e (h.valid.functions i)) in
            let (ops, thrown) = act f hit d in
            record {
              after = run_calls ops d;
              thrown = thrown;
              round = told p (d.connected p) hit;
              made = rw (any, g, call_link) refl;
              modified = modifies ops;
              count = watches ops;
              grows = run_calls-Grows ops d xs ds (tame.inside f hit d) h;
              steady = tame.steady f hit d;
              link = refl;
              alive = on;
              hit = told-IsHit exact events masks p (d.connected p) any;
              few = inr (f, hit, d, refl);
            }
        | inr missed ↦ record {
          after = d;
          thrown = false;
          round = passed p (d.connected p);
          made = rw (missed) refl;
          modified = false;
          count = 0;
          grows = Grows-refl d xs ds false h;
          steady = ground arith;
          link = refl;
          alive = on;
          hit = passed-IsHit exact events masks p (d.connected p) missed;
          few = inl refl;
        }
      ]
