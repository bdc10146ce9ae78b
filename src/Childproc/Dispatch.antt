-- ===== src/Childproc/Dispatch.antt =====
-- tscb/childproc-monitor.cc: `dispatch`, with `wait4` and the callbacks as parameters.
use mathlib.Core.Path.{subst}
use mathlib.Core.List.{append_assoc}
use libtscb.Base.{
  ℕ, zero, suc, ◌+◌, ◌<◌, ◌≡◌, ◌≢◌, ap, ◌==◌, inl, inr, Bool, true, Bool-cases, if◌then◌else◌, List,
  [], ◌∷◌, ◌++◌, arith, sym, ◌∙◌,
}
use libtscb.Chain.Active.{size}
use libtscb.Chain.Walk.{length, Visits-size, Visits, Next, over, stands, first-Next}
use libtscb.Chain.Members.{size-append}
use libtscb.Signal.Valid.{IsSignal, connects}
use libtscb.Childproc.{
  Monitor, Reply, Op, Poll, poll, Dispatched, done, threw, endless, dispatch_from, dispatch,
}
use libtscb.Childproc.Registry.{calls_of, IsSettled, watches}
use libtscb.Childproc.Visit.{After, handle-Step, dispatch_from-link, Step-After}

-- A dispatch that is done has asked for the process of each link that is still connected, once and
-- in order, and each link that was called is disconnected.
abbrev pub IsDispatched : (List Poll → ℕ → Reply) → List ℕ → Dispatched → Type 0
IsDispatched wait xs (done t log) =
    (new : List ℕ) × IsSignal t.registry (new ++ xs)
    × Visits t.connected (new ++ xs) (calls_of log)
    × IsSettled wait t (new ++ xs) log
IsDispatched wait xs (threw t log) =
    (new : List ℕ) × (later : List ℕ) × (sooner : List ℕ) × (new ++ xs ≡ later ++ sooner)
    × IsSignal t.registry (new ++ xs)
    × Visits t.connected sooner (calls_of log)
    × IsSettled wait t (new ++ xs) log
IsDispatched wait xs endless = Unit

IsDispatched-append :
    (wait : List Poll → ℕ → Reply) (new xs : List ℕ) (r : Dispatched)
    → IsDispatched wait (new ++ xs) r
    → IsDispatched wait xs r
IsDispatched-append wait new xs (done t log) (more, v, w, i) =
    let e = append_assoc more new xs in
    (
      more ++ new,
      subst (λ l. IsSignal t.registry l) (sym e) v,
      subst (λ l. Visits t.connected l (calls_of log)) (sym e) w,
      subst (λ l. IsSettled wait t l log) (sym e) i,
    )
IsDispatched-append wait new xs (threw t log) (more, later, sooner, d, v, w, i) =
    let e = append_assoc more new xs in
    (
      more ++ new,
      later,
      sooner,
      e ∙ d,
      subst (λ l. IsSignal t.registry l) (sym e) v,
      w,
      subst (λ l. IsSettled wait t l log) (sym e) i,
    )
IsDispatched-append wait new xs endless u = tt

module _ (wait : List Poll → ℕ → Reply) (call : ℕ → Reply → Monitor → List Op × Bool) where
  ended :
      (n : ℕ) (m t : Monitor) (p k : ℕ) (xs : List ℕ) (log : List Poll) (thrown : Bool)
      → (a : After wait call m t p xs log k)
      → IsDispatched wait (a.new ++ xs) (dispatch_from wait call n t (t.active_next p) log)
      → IsDispatched wait xs
          (if thrown then threw t log else dispatch_from wait call n t (t.active_next p) log)
  ended n m t p k xs log thrown a rest = elim (Bool-cases thrown) [
    | inl stop ↦ rw (stop) (a.new, a.later, a.sooner, a.split, a.valid, a.visited, a.settled)
    | inr go ↦ rw (go) (IsDispatched-append wait a.new xs _ rest)
  ]

  walk-IsDispatched :
      (n : ℕ) (m : Monitor) (p : ℕ) (xs : List ℕ) (log : List Poll)
      → IsSignal m.registry xs
      → IsSettled wait m xs log
      → Next m.connected xs (calls_of log) p
      → IsDispatched wait xs (dispatch_from wait call n m p log)
  unfolding dispatch_from
  walk-IsDispatched zero m p xs log h i k = tt
  walk-IsDispatched (suc n) m p xs log h i (over z v) =
      let b : (p == 0) ≡ true = ground (arith, z) in rw (b) ([], h, v, i)
  walk-IsDispatched (suc n) m p xs log h i (stands later sooner z e on v) =
      let ys = later ++ (p ∷ sooner) in
      let r = wait log (m.pid p) in
      let h' = subst (λ l. IsSignal m.registry l) e h in
      let st = handle-Step wait call m p r later sooner h' in
      let a =
        Step-After wait call m p later sooner log h' v (subst (λ l. IsSettled wait m l log) e i)
          st in
      let rest =
        walk-IsDispatched n st.after (st.after.active_next p) (a.new ++ ys)
          (poll p true r st.fired ∷ log) a.valid a.settled a.next in
      subst (λ l. IsDispatched wait l (dispatch_from wait call (suc n) m p log)) (sym e)
        (subst (λ d. IsDispatched wait ys d)
          (sym (dispatch_from-link wait call n m st.after p log st.thrown st.fired z on st.made))
          (ended n m st.after p _ ys (poll p true r st.fired ∷ log) st.thrown a rest))

  -- A dispatch whose callbacks watch and disconnect at will: when it is done, it has asked `wait4`
  -- exactly once about each link that is connected then, in order, and about no link that was not
  -- connected at that moment. Each question is about the link's pid. If the process was not running any
  -- more, the link was disconnected, stays so, and its own function was called in this round; otherwise
  -- no function was. When a callback throws, this holds of the links up to the one that threw.
  pub dispatch-IsDispatched :
      (n : ℕ) (m : Monitor) (xs : List ℕ)
      → IsSignal m.registry xs
      → IsDispatched wait xs (dispatch wait call n m)
  unfolding dispatch
  dispatch-IsDispatched n m xs h =
      walk-IsDispatched n m m.active xs [] h tt (first-Next m.connected m.registry.links xs h.chain)

  walk_ends :
      ((f : ℕ) (r : Reply) (m : Monitor) → watches (call f r m).0 ≡ 0)
      → (n : ℕ) (m : Monitor) (p : ℕ) (xs : List ℕ) (log : List Poll) → IsSignal m.registry xs
      → IsSettled wait m xs log
      → Next m.connected xs (calls_of log) p
      → size xs < n + length (calls_of log)
      → dispatch_from wait call n m p log ≢ endless
  unfolding dispatch_from
  walk_ends quiet zero m p xs log h i (over z v) l =
      λ e. absurd (omega (arith, Visits-size m.connected xs (calls_of log) v))
  walk_ends quiet zero m p xs log h i (stands later sooner z w on v) l = λ e. absurd (
      omega (
        arith,
        Visits-size m.connected sooner (calls_of log) v,
        ap size w,
        size-append later (p ∷ sooner),
      ))
  walk_ends quiet (suc n) m p xs log h i (over z v) l =
      let b : (p == 0) ≡ true = ground (arith, z) in rw (b) (λ e. cc)
  walk_ends quiet (suc n) m p xs log h i (stands later sooner z w on v) l =
      let ys = later ++ (p ∷ sooner) in
      let r = wait log (m.pid p) in
      let h' = subst (λ l. IsSignal m.registry l) w h in
      let st = handle-Step wait call m p r later sooner h' in
      let a =
        Step-After wait call m p later sooner log h' v (subst (λ l. IsSettled wait m l log) w i)
          st in
      let none_new : connects st.ops ≡ 0 = elim (st.few) [
        | inl e ↦ e
        | inr (f, m', e) ↦ e ∙ quiet f r m'
      ] in
      let rest =
        walk_ends quiet n st.after (st.after.active_next p) (a.new ++ ys)
          (poll p true r st.fired ∷ log) a.valid a.settled a.next
          (omega (arith, none_new, a.few, size-append a.new ys, ap size w)) in
      subst (λ d. d ≢ endless)
        (sym (dispatch_from-link wait call n m st.after p log st.thrown st.fired z on st.made))
        (elim (Bool-cases st.thrown) [ inl stop ↦ rw (stop) (λ e. cc) | inr go ↦ rw (go) rest ])

  -- A dispatch ends, if its callbacks watch no further processes: one round more than there are links
  -- is enough.
  pub dispatch_ends :
      ((f : ℕ) (r : Reply) (m : Monitor) → watches (call f r m).0 ≡ 0)
      → (n : ℕ) (m : Monitor) (xs : List ℕ) → IsSignal m.registry xs
      → size xs < n
      → dispatch wait call n m ≢ endless
  unfolding dispatch
  dispatch_ends quiet n m xs h l =
      walk_ends quiet n m m.active xs [] h tt (first-Next m.connected m.registry.links xs h.chain)
        (omega (arith, l))
