-- ===== src/Signal/Emit.antt =====
-- tscb/signal.h: `operator()`, with the callbacks as a parameter.
use mathlib.Core.Path.{subst}
use mathlib.Core.List.{append_assoc}
use libtscb.Base.{
  ℕ, zero, suc, ◌+◌, ◌<◌, ◌≡◌, ◌≢◌, inl, inr, Bool, true, false, Bool-cases, if◌then◌else◌, List,
  [], ◌∷◌, ◌++◌, arith, refl, sym, ap, ◌∙◌, ◌==◌,
}
use libtscb.Chain.Active.{size}
use libtscb.Chain.Walk.{Call, called, length, Visits, Visits-size, Next, over, stands, first-Next}
use libtscb.Signal.{Signal, Op, run_ops, call_link, emit_from, emit, Emitted, done, threw, endless}
use libtscb.Signal.Advance.{Advance, run_ops-Advance, HasFunctions-middle}
use libtscb.Chain.Members.{size-append}
use libtscb.Signal.Valid.{IsSignal, connects}

-- A call of the signal that is done has visited all links; one that a callback ended has visited
-- all that stand before that callback's link, and this link.
abbrev pub IsEmitted : List ℕ → Emitted → Type 0
IsEmitted xs (done t log) =
    (new : List ℕ) × IsSignal t (new ++ xs) × Visits t.connected (new ++ xs) log
IsEmitted xs (threw t log) =
    (new : List ℕ) × (later : List ℕ) × (sooner : List ℕ) × (new ++ xs ≡ later ++ sooner)
    × IsSignal t (new ++ xs)
    × Visits t.connected sooner log
IsEmitted xs endless = Unit

IsEmitted-append : (new xs : List ℕ) (r : Emitted) → IsEmitted (new ++ xs) r → IsEmitted xs r
IsEmitted-append new xs (done t log) (more, v, w) =
    let e = append_assoc more new xs in
    (
      more ++ new,
      subst (λ l. IsSignal t l) (sym e) v,
      subst (λ l. Visits t.connected l log) (sym e) w,
    )
IsEmitted-append new xs (threw t log) (more, later, sooner, d, v, w) =
    let e = append_assoc more new xs in
    (more ++ new, later, sooner, e ∙ d, subst (λ l. IsSignal t l) (sym e) v, w)
IsEmitted-append new xs endless u = tt

module _ (call : ℕ → Signal → List Op × Bool) where
  -- The state after the call of one link, and where the walk goes on.
  record Step (s : Signal) (p : ℕ) (xs : List ℕ) (log : List Call) : Type 0 where
    ops : List Op
    thrown : Bool
    made : call_link call s p ≡ (run_ops ops s, thrown)
    few : (f : ℕ) × (ops ≡ (call f s).0)
    advance : Advance s p xs log ops

  call-Step :
      (s : Signal) (p : ℕ) (later sooner : List ℕ) (log : List Call)
      → IsSignal s (later ++ (p ∷ sooner))
      → Visits s.connected sooner log
      → Step s p (later ++ (p ∷ sooner)) log
  unfolding call_link
  call-Step s p later sooner log h v =
      let (f, e) = HasFunctions-middle s.function later p sooner h.functions in
      let (ops, thrown) = call f s in
      record {
        ops = ops;
        thrown = thrown;
        made = rw (e, call_link) refl;
        few = (f, refl);
        advance = run_ops-Advance ops s p later sooner log h v;
      }

  emit_from-called :
      (n : ℕ) (s t : Signal) (p : ℕ) (log : List Call) (thrown : Bool)
      → p ≢ 0
      → s.connected p ≡ true
      → call_link call s p ≡ (t, thrown)
      → emit_from call (suc n) s p log ≡ (
          if thrown
          then threw t (called p true ∷ log)
          else emit_from call n t (t.active_next p) (called p true ∷ log))
  unfolding emit_from
  emit_from-called n s t p log thrown z on e =
      let b : (p == 0) ≡ false = ground (arith, z) in rw (b, e, on) refl

  walk-IsEmitted :
      (n : ℕ) (s : Signal) (p : ℕ) (xs : List ℕ) (log : List Call)
      → IsSignal s xs
      → Next s.connected xs log p
      → IsEmitted xs (emit_from call n s p log)
  unfolding emit_from
  walk-IsEmitted zero s p xs log h k = tt
  walk-IsEmitted (suc n) s p xs log h (over z v) =
      let b : (p == 0) ≡ true = ground (arith, z) in rw (b) ([], h, v)
  walk-IsEmitted (suc n) s p xs log h (stands later sooner z e on v) =
      let st = call-Step s p later sooner log (subst (λ l. IsSignal s l) e h) v in
      let t = run_ops st.ops s in
      let g = st.advance.grown in
      let rest =
        walk-IsEmitted n t (t.active_next p) (g.new ++ (later ++ (p ∷ sooner)))
          (called p true ∷ log) g.valid st.advance.next in
      subst (λ l. IsEmitted l (emit_from call (suc n) s p log)) (sym e)
        (subst (λ r. IsEmitted (later ++ (p ∷ sooner)) r)
          (sym (emit_from-called n s t p log st.thrown z on st.made)) (ended st rest))
    where
      ended :
          (st : Step s p (later ++ (p ∷ sooner)) log)
          → IsEmitted (st.advance.grown.new ++ (later ++ (p ∷ sooner))) (
              emit_from call n
                (run_ops st.ops s)
                ((run_ops st.ops s).active_next p)
                (called p true ∷ log))
          → IsEmitted (later ++ (p ∷ sooner)) (
              if st.thrown
              then threw (run_ops st.ops s) (called p true ∷ log)
              else emit_from call n
                  (run_ops st.ops s)
                  ((run_ops st.ops s).active_next p)
                  (called p true ∷ log))
      ended st rest = elim (Bool-cases st.thrown) [
        | inl stop ↦ rw (stop) (
          st.advance.grown.new, st.advance.later, st.advance.sooner, st.advance.split,
          st.advance.grown.valid, st.advance.visited,
        )
        | inr go ↦ rw (go) (IsEmitted-append st.advance.grown.new (later ++ (p ∷ sooner)) _ rest)
      ]

  -- A call of a signal whose callbacks connect and disconnect at will: when it is done, every link
  -- that is connected then has been called exactly once, in the order in which the links were
  -- registered, new ones included, and no link was called that was not connected at that moment.
  -- When a callback throws, this holds of the links up to the one that threw.
  pub emit-IsEmitted :
      (n : ℕ) (s : Signal) (xs : List ℕ) → IsSignal s xs → IsEmitted xs (emit call n s)
  unfolding emit
  emit-IsEmitted n s xs h =
      walk-IsEmitted n s s.active xs [] h (first-Next s.connected s.links xs h.chain)

  walk_ends :
      ((f : ℕ) (s : Signal) → connects (call f s).0 ≡ 0)
      → (n : ℕ) (s : Signal) (p : ℕ) (xs : List ℕ) (log : List Call) → IsSignal s xs
      → Next s.connected xs log p
      → size xs < n + length log
      → emit_from call n s p log ≢ endless
  unfolding emit_from
  walk_ends quiet zero s p xs log h (over z v) l =
      λ e. absurd (omega (arith, Visits-size s.connected xs log v))
  walk_ends quiet zero s p xs log h (stands later sooner z w on v) l = λ e. absurd (
      omega
        (arith, Visits-size s.connected sooner log v, ap size w, size-append later (p ∷ sooner)))
  walk_ends quiet (suc n) s p xs log h (over z v) l =
      let b : (p == 0) ≡ true = ground (arith, z) in rw (b) (λ e. cc)
  walk_ends quiet (suc n) s p xs log h (stands later sooner z w on v) l =
      let st = call-Step s p later sooner log (subst (λ l. IsSignal s l) w h) v in
      let t = run_ops st.ops s in
      let none_new : connects st.ops ≡ 0 = ap connects st.few.1 ∙ quiet st.few.0 s in
      let g = st.advance.grown in
      let rest =
        walk_ends quiet n t (t.active_next p) (g.new ++ (later ++ (p ∷ sooner)))
          (called p true ∷ log) g.valid st.advance.next
          (omega (arith, g.few, size-append g.new (later ++ (p ∷ sooner)), ap size w)) in
      subst (λ r. r ≢ endless) (sym (emit_from-called n s t p log st.thrown z on st.made))
        (elim (Bool-cases st.thrown) [ inl stop ↦ rw (stop) (λ e. cc) | inr go ↦ rw (go) rest ])

  -- A call of a signal ends, if its callbacks do not connect further ones: one round more than there
  -- are links is enough.
  pub emit_ends :
      ((f : ℕ) (s : Signal) → connects (call f s).0 ≡ 0)
      → (n : ℕ) (s : Signal) (xs : List ℕ) → IsSignal s xs
      → size xs < n
      → emit call n s ≢ endless
  unfolding emit
  emit_ends quiet n s xs h l =
      walk_ends quiet n s s.active xs [] h (first-Next s.connected s.links xs h.chain)
        (omega (arith, l))
