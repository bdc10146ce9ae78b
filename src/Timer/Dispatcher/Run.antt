-- ===== src/Timer/Dispatcher/Run.antt =====
-- tscb/timer.h: `run_single` and `run`, with the user's functions as a parameter.
use libtscb.Base.{
  ℕ, zero, suc, ◌+◌, ◌<◌, ◌≤◌, ◌≡◌, inl, inr, some, ◌==◌, ltb, arith, refl, Bool-cases, Bool, true,
  false, not, ◌∙◌, update, if◌then◌else◌,
}
use libtscb.Timer.Dispatcher.{
  Dispatcher, release_hold_count, Outcome, idle, ran, thrown, Ending, returned, raised, one_more,
  call_link, run_single, run,
}
use libtscb.Timer.Dispatcher.Valid.{IsValid}
use libtscb.Timer.Dispatcher.Next.{IsWaiting, first_le_waiting}
use libtscb.Timer.Dispatcher.Change.{OthersSame}
use libtscb.Timer.Dispatcher.First.{
  busy, ready, p_waits, ready_lem, first_function, released-IsValid,
}

-- What a call of a timer's function may do: any operations, with the invariant kept.
abbrev pub KeepsValid : (ℕ → ℕ → Dispatcher → Dispatcher × Bool) → Type 0
KeepsValid call =
    (calls : ℕ → ℕ) (f now : ℕ) (d : Dispatcher) → IsValid calls d → IsValid calls (call f now d).0

-- Fewer calls of each link's function are in progress than its `hold_count_` has room for.
abbrev pub AreFew : (ℕ → ℕ) → Type 0
AreFew calls = (p : ℕ) → calls p < 18446744073709551614

module _ (call : ℕ → ℕ → Dispatcher → Dispatcher × Bool) where
  -- The function of the timer that is due first is called, `e` is what it leaves, and `throws` says
  -- how it ends.
  pub record IsFired (calls : ℕ → ℕ) (d : Dispatcher) (now : ℕ) (e : Dispatcher) (throws : Bool)
      : Type 0 where
    pub waits : IsWaiting d (d.slots 0)
    pub due : d.when (d.slots 0) ≤ now
    pub first : (x : ℕ) → IsWaiting d x → d.when (d.slots 0) ≤ d.when x
    pub before : Dispatcher
    pub others : OthersSame d (d.slots 0) before
    pub rests : ¬ IsWaiting before (d.slots 0)
    pub once : before.master (d.slots 0) ≡ not (d.one_shot (d.slots 0))
    pub function : ℕ
    pub own : d.function (d.slots 0) ≡ some function
    pub called : call function now before ≡ (e, throws)

  -- The call returns, and the link is released.
  pub record Returns (calls : ℕ → ℕ) (d : Dispatcher) (now : ℕ) (r : Dispatcher) : Type 0 where
    pub after : Dispatcher
    pub fired : IsFired calls d now after false
    pub result : r ≡ release_hold_count after (d.slots 0)
    pub valid : IsValid calls r

  -- The call throws, and the link is held for good: one more call counts as in progress.
  pub record Throws (calls : ℕ → ℕ) (d : Dispatcher) (now : ℕ) (r : Dispatcher) : Type 0 where
    pub fired : IsFired calls d now r true
    pub valid : IsValid (update calls (d.slots 0) (calls (d.slots 0) + 1)) r

  abbrev pub IsRun : (ℕ → ℕ) → Dispatcher → ℕ → Outcome → Type 0
  IsRun calls d now idle = (x : ℕ) → IsWaiting d x → now < d.when x
  IsRun calls d now (ran r) = Returns calls d now r
  IsRun calls d now (thrown r) = Throws calls d now r

  called-IsRun :
      (keeps : KeepsValid call) (calls : ℕ → ℕ) (d : Dispatcher) (now : ℕ) (v : IsValid calls d)
      (pos : 0 < d.active_limit) (few : AreFew calls) (f : ℕ) (e : Dispatcher) (throws : Bool)
      → IsFired calls d now e throws
      → IsValid (busy calls d v pos (few (d.slots 0))) e
      → IsRun calls d now (if throws then thrown e else ran (release_hold_count e (d.slots 0)))
  called-IsRun keeps calls d now v pos few f e true h u = record { fired = h; valid = u }
  called-IsRun keeps calls d now v pos few f e false h u = record {
    after = e;
    fired = h;
    result = refl;
    valid = released-IsValid calls d v pos (few (d.slots 0)) e u;
  }

  -- `run_single` on a valid dispatcher never calls an empty function. It does nothing only if no
  -- waiting timer is due; otherwise it calls the function of a timer that is due no later than any
  -- other, suspended by then and disconnected if it is a one-shot timer, with all other timers as
  -- they were. If the function keeps the invariant, it holds after `run_single` too. If the function
  -- throws, so does `run_single`, and the link is never released: the invariant holds with that call
  -- counted as one in progress. Fewer than 2 ^ 64 - 2 calls of each function are in progress.
  pub run_single_lem :
      KeepsValid call
      → (calls : ℕ → ℕ) (d : Dispatcher) (now : ℕ) → IsValid calls d
      → AreFew calls
      → IsRun calls d now (run_single call d now)
  unfolding run_single
  run_single_lem keeps calls d now v few = elim (Bool-cases (d.active_limit == 0)) [
    | inl none_active ↦ rw none_active (λ x w. absurd (ground arith))
    | inr active ↦
        let pos : 0 < d.active_limit = ground arith in
        let room = few (d.slots 0) in
        elim (Bool-cases (ltb now (d.when (d.slots 0)))) [
          | inl early ↦ rw (active, early) (λ x w. ground (arith, first_le_waiting d x v w))
          | inr due ↦
              let (f, own) = first_function calls d v pos room in
              let (u, others, rests, once, fn) = ready_lem calls d v pos room in
              let here = ready calls d v pos room in
              rw (active, due, fn ∙ own, call_link)
                (called-IsRun keeps calls d now v pos few f (call f now here).0 (call f now here).1
                  (record {
                    waits = p_waits calls d v pos room;
                    due = ground arith;
                    first = λ x w. first_le_waiting d x v w;
                    before = here;
                    others = others;
                    rests = rests;
                    once = once;
                    function = f;
                    own = own;
                    called = refl;
                  })
                  (keeps (busy calls d v pos room) f now here u))
        ]
  ]

  -- No waiting timer is due.
  abbrev pub NothingDue : Dispatcher → ℕ → Type 0
  NothingDue d now = (x : ℕ) → IsWaiting d x → now < d.when x

  -- `n` timers are called one after the other, each of them as `run_single` calls one.
  abbrev pub Fires : (ℕ → ℕ) → ℕ → ℕ → Dispatcher → Dispatcher → Type 0
  Fires calls now zero d r = d ≡ r
  Fires calls now (suc n) d r = (e : Dispatcher) × Returns calls d now e × Fires calls now n e r

  -- What `run` comes to.
  abbrev pub IsDone : (ℕ → ℕ) → ℕ → ℕ → Dispatcher → Ending → Type 0
  IsDone calls now limit d (returned n r) =
      Fires calls now n d r × (n ≤ limit) × IsValid calls r × (n < limit → NothingDue r now)
  IsDone calls now limit d (raised r) =
      (n : ℕ) × (e : Dispatcher) × Fires calls now n d e × (n < limit) × Throws calls e now r

  IsDone-suc :
      (calls : ℕ → ℕ) (now limit : ℕ) (d e : Dispatcher) (o : Ending)
      → Returns calls d now e
      → IsDone calls now limit e o
      → IsDone calls now (suc limit) d (one_more o)
  IsDone-suc calls now limit d e (returned n r) f h =
      ((e, f, h.0), omega (arith, h.1), h.2, λ l. h.3 (omega (arith, l)))
  IsDone-suc calls now limit d e (raised r) f (n, c, g, l, t) =
      (suc n, c, (e, f, g), omega (arith, l), t)

  run-step :
      (keeps : KeepsValid call) (calls : ℕ → ℕ) (d : Dispatcher) (now limit : ℕ) (o : Outcome)
      → run_single call d now ≡ o
      → IsRun calls d now o
      → IsValid calls d
      → ((r : Dispatcher) → IsValid calls r → IsDone calls now limit r (run call r now limit))
      → IsDone calls now (suc limit) d (run call d now (suc limit))
  unfolding run
  run-step keeps calls d now limit idle e h v rest =
      rw (e, run, IsDone) (refl, omega arith, v, λ l. h)
  run-step keeps calls d now limit (ran r) e h v rest =
      rw (e, run) (IsDone-suc calls now limit d r (run call r now limit) h (rest r h.valid))
  run-step keeps calls d now limit (thrown r) e h v rest =
      rw (e, run, IsDone) (0, d, refl, omega arith, h)

  -- `run` on a valid dispatcher calls timers one after the other, each of them as `run_single` does.
  -- When it returns, the result is the number of these calls, at most `limit`; if it is less, no timer
  -- that waits then is due, and the invariant holds. It throws only if a function does, which is then
  -- the last one called, after fewer than `limit` that returned. Fewer than 2 ^ 64 - 2 calls of each
  -- function are in progress.
  pub run_lem :
      KeepsValid call
      → (calls : ℕ → ℕ) (d : Dispatcher) (now limit : ℕ) → IsValid calls d
      → AreFew calls
      → IsDone calls now limit d (run call d now limit)
  unfolding run
  run_lem keeps calls d now zero v few = (refl, omega arith, v, λ l. absurd (omega (arith, l)))
  run_lem keeps calls d now (suc limit) v few =
      run-step keeps calls d now limit (run_single call d now) refl
        (run_single_lem keeps calls d now v few) v (λ r u. run_lem keeps calls r now limit u few)
