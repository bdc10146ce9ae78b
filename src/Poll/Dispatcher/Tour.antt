-- ===== src/Poll/Dispatcher/Tour.antt =====
-- tscb/detail/fd-handler-table.cc: what the rounds of `notify` have come to, and one more round.
use mathlib.Core.Path.{subst}
use mathlib.Core.List.{append_assoc}
use libtscb.Base.{
  ℕ, ◌≡◌, inl, inr, Bool, true, Bool-cases, List, [], ◌∷◌, ◌++◌, arith, refl, sym, ap, ◌∙◌,
}
use libtscb.Chain.Active.{size}
use libtscb.Chain.Members.{IsIn, size-append, IsDying-suffix}
use libtscb.Chain.Change.{IsChain}
use libtscb.Chain.Walk.{called, IsDying, Visits, visit, Visits-IsDying, Next, link-Next}
use libtscb.Handlers.Chain.{Events}
use libtscb.Handlers.Table.{Table, chain_at, Round, Notified, done, threw, endless}
use libtscb.Handlers.Table.Valid.{IsTable}
use libtscb.Poll.Dispatcher.{Dispatcher, Call}
use libtscb.Poll.Dispatcher.Grows.{IsIn-append}
use libtscb.Poll.Dispatcher.Valid.{IsDispatcher}
use libtscb.Poll.Dispatcher.Visit.{
  link_of, alive_of, calls_of, IsHeard, IsHeard-same, AreTame, Step,
}

-- The rounds so far have visited the links `sooner` of the descriptor's chain, which had the links
-- `xs` at the start.
pub record Toured (i : ℕ) (exact : Bool) (events : Events) (xs : List ℕ) (e : Dispatcher)
    (log : List Round) : Type 0 where
  pub links : ℕ → List ℕ
  pub waiting : List ℕ
  pub holds : IsDispatcher e links waiting
  pub new : List ℕ
  pub grown : links i ≡ new ++ xs
  pub later : List ℕ
  pub sooner : List ℕ
  pub split : links i ≡ later ++ sooner
  pub visited : Visits e.connected sooner (calls_of log)
  pub heard : IsHeard exact events e.table.event_mask (links i) log

-- A notification that is done has visited every link of the chain.
abbrev pub IsNotified : ℕ → Bool → Events → List ℕ → Notified Dispatcher → Type 0
IsNotified i exact events xs (done e log) = (t : Toured i exact events xs e log) × (t.later ≡ [])
IsNotified i exact events xs (threw e log) = Toured i exact events xs e log
IsNotified i exact events xs endless = Unit

abbrev pub Toured-append :
    (i : ℕ) (exact : Bool) (events : Events) (new xs : List ℕ) (e : Dispatcher) (log : List Round)
    → Toured i exact events (new ++ xs) e log
    → Toured i exact events xs e log
Toured-append i exact events new xs e log t = record {
  links = t.links;
  waiting = t.waiting;
  holds = t.holds;
  new = t.new ++ new;
  grown = t.grown ∙ sym (append_assoc t.new new xs);
  later = t.later;
  sooner = t.sooner;
  split = t.split;
  visited = t.visited;
  heard = t.heard;
}

pub IsNotified-append :
    (i : ℕ) (exact : Bool) (events : Events) (new xs : List ℕ) (r : Notified Dispatcher)
    → IsNotified i exact events (new ++ xs) r
    → IsNotified i exact events xs r
IsNotified-append i exact events new xs (done e log) (t, w) =
    (Toured-append i exact events new xs e log t, w)
IsNotified-append i exact events new xs (threw e log) t =
    Toured-append i exact events new xs e log t
IsNotified-append i exact events new xs endless u = tt

-- The chain of a link is there.
pub split-made :
    (t : Table) (alive : ℕ → Bool) (xs : ℕ → List ℕ) (i p : ℕ) (later sooner : List ℕ)
    → IsTable t alive xs
    → xs i ≡ later ++ (p ∷ sooner)
    → t.cookies.made i ≡ true
split-made t alive xs i p later sooner h e = elim (Bool-cases (t.cookies.made i)) [
  | inl m ↦ m
  | inr off ↦
      absurd (omega (arith, ap size (sym (h.absent i off) ∙ e), size-append later (p ∷ sooner)))
]

module _ (act : ℕ → Events → Dispatcher → List Call × Bool) (i : ℕ) (events : Events) (exact : Bool)
    (tame : AreTame act exact) where
  -- The facts after the visit of a link.
  pub record After (d : Dispatcher) (xs : ℕ → List ℕ) (p : ℕ) (log : List Round)
      (st : Step act d xs p events exact) : Type 0 where
    pub toured : Toured i exact events (xs i) st.after (st.round ∷ log)
    pub heard : IsHeard exact events st.after.table.event_mask (st.grows.links i) (st.round ∷ log)
    pub next :
        Next st.after.connected
          (st.grows.links i)
          (calls_of (st.round ∷ log))
          (st.after.table.active_next p)

  -- One round: the link has joined the visited ones, and the walk goes on behind it.
  pub Step-After :
      (d : Dispatcher) (xs : ℕ → List ℕ) (ds : List ℕ) (p : ℕ) (later sooner : List ℕ)
      (log : List Round)
      → IsDispatcher d xs ds
      → xs i ≡ later ++ (p ∷ sooner)
      → Visits d.connected sooner (calls_of log)
      → IsHeard exact events d.table.event_mask (xs i) log
      → (st : Step act d xs p events exact) → After d xs p log st
  Step-After d xs ds p later sooner log h e v k st =
      let g = st.grows in
      let t = st.after in
      let split : g.links i ≡ (g.new i ++ later) ++ (p ∷ sooner) =
        g.grown i ∙ ap (λ l. g.new i ++ l) e ∙ sym (append_assoc (g.new i) later (p ∷ sooner)) in
      let log' = st.round ∷ log in
      let same : called (link_of st.round) (alive_of st.round) ∷ calls_of log
          ≡ called p true ∷ calls_of log =
        ap (λ q. called q (alive_of st.round) ∷ calls_of log) st.link
        ∙ ap (λ b. called p b ∷ calls_of log) st.alive in
      let here : Visits t.connected (p ∷ sooner) (called p true ∷ calls_of log) =
        Visits-IsDying d.connected t.connected (p ∷ sooner) (called p true ∷ calls_of log) (visit v)
          (IsDying-suffix d.connected t.connected later (p ∷ sooner)
            (subst (λ l. IsDying d.connected t.connected l) e (g.dying i))) in
      let chain =
        subst (λ l. IsChain (chain_at t.table i).links t.connected l) split
          (g.holds.valid.chains i (
            split-made t.table t.connected g.links i p (g.new i ++ later) sooner g.holds.valid
              split)) in
      let heard : IsHeard exact events t.table.event_mask (g.links i) log' =
        subst (λ l. IsHeard exact events t.table.event_mask l log') (sym (g.grown i))
          (IsHeard-same exact events d.table.event_mask t.table.event_mask (g.new i) (xs i) log'
            (λ y. g.masks (ground (arith, y, st.steady)) i)
            (
              subst (λ q. IsIn q (xs i)) (sym st.link)
                  (subst (λ l. IsIn p l) (sym e) (IsIn-append p later (p ∷ sooner) (inl refl))),
              st.hit,
              k,
            )) in
      record {
        toured = record {
          links = g.links;
          waiting = g.waiting;
          holds = g.holds;
          new = g.new i;
          grown = g.grown i;
          later = g.new i ++ later;
          sooner = p ∷ sooner;
          split = split;
          visited = subst (λ c. Visits t.connected (p ∷ sooner) c) (sym same) here;
          heard = heard;
        };
        heard = heard;
        next =
            subst (λ c. Next t.connected (g.links i) c (t.table.active_next p)) (sym same)
              (subst
                (λ l. Next t.connected l (called p true ∷ calls_of log) (t.table.active_next p))
                (sym split)
                (link-Next t.connected (called p true ∷ calls_of log) (chain_at t.table i).links p
                  (g.new i ++ later) sooner chain here));
      }
