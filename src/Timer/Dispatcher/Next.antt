-- ===== src/Timer/Dispatcher/Next.antt =====
-- tscb/timer.h: `next_timer`.
use libtscb.Base.{ℕ, ◌<◌, ◌≤◌, ◌≡◌, ◌≢◌, inl, inr, true, false, ltb, arith, Bool-cases}
use libtscb.Timer.Queue.Order.{IsActive, first_le}
use libtscb.Timer.Dispatcher.{Dispatcher, next_timer}
use libtscb.Timer.Dispatcher.Valid.{IsRegistered, IsValid}

-- `p` is registered and waits for its due time.
abbrev pub IsWaiting : Dispatcher → ℕ → Type 0
IsWaiting d p = (p ≢ 0) × IsRegistered d p × IsActive d.queue p

pub first_le_waiting :
    {calls : ℕ → ℕ} (d : Dispatcher) (x : ℕ)
    → IsValid calls d
    → IsWaiting d x
    → d.when (d.slots 0) ≤ d.when x
first_le_waiting d x v h = ground (arith, first_le d.when d.queue (d.index x) v.ordered)

pub first-IsWaiting :
    {calls : ℕ → ℕ} (d : Dispatcher)
    → IsValid calls d
    → 0 < d.active_limit
    → IsWaiting d (d.slots 0)
first-IsWaiting d v h = ground (arith, v.shaped.back 0, v.shaped.limit)

-- `next_timer` says `false` exactly when no timer waits; otherwise it gives the due time of a
-- timer that waits, and no waiting timer is due earlier.
pub next_timer_lem :
    {calls : ℕ → ℕ} (d : Dispatcher)
    → IsValid calls d
    → ((next_timer d).0 ≡ false → (x : ℕ) → ¬ IsWaiting d x)
      × ((next_timer d).0 ≡ true
          → ((p : ℕ) × IsWaiting d p × ((next_timer d).1 ≡ d.when p))
            × ((x : ℕ) → IsWaiting d x → (next_timer d).1 ≤ d.when x))
unfolding next_timer
next_timer_lem d v = (
  λ e x w. ground arith,
  λ e. (
    (d.slots 0, first-IsWaiting d v (ground arith), ground arith),
    λ x w. ground (arith, first_le_waiting d x v w),
  ),
)

-- Two dispatchers with the same waiting timers report the same time, unless one of them has a
-- timer in front that the other does not know.
pub next_timer_agree :
    {calls : ℕ → ℕ} (d r : Dispatcher)
    → IsValid calls d
    → IsValid calls r
    → ((x : ℕ) → IsWaiting d x → IsWaiting r x × (r.when x ≡ d.when x))
    → (0 < r.active_limit → IsWaiting d (r.slots 0))
    → next_timer r ≡ next_timer d
unfolding next_timer
next_timer_agree d r v u to from = elim (Bool-cases (ltb 0 d.active_limit)) [
  | inl some ↦
      let first = first-IsWaiting d v (ground arith) in
      let (there, times) = to (d.slots 0) first in
      let back = from (omega arith) in
      let le = first_le_waiting d (r.slots 0) v back in
      let ge = first_le_waiting r (d.slots 0) u there in
      let times' = (to (r.slots 0) back).1 in ground arith
  | inr none ↦ ground (arith, λ (h : 0 < r.active_limit). from h)
]
