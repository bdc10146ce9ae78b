-- ===== src/Timer/Dispatcher/Registered.antt =====
-- tscb/timer.h: what a new timer is, and when the dispatcher is told of it.
use libtscb.Base.{
  ℕ, ◌+◌, ◌<◌, ◌≡◌, ◌≢◌, ◌⊎◌, inl, inr, Bool, true, false, ◌==◌, arith, refl, ◌∙◌, Bool-cases,
}
use libtscb.Timer.Dispatcher.{
  Dispatcher, next_timer, timer, one_shot_timer, suspended_timer, one_shot_suspended_timer,
}
use libtscb.Timer.Dispatcher.Valid.{IsRegistered, IsValid}
use libtscb.Timer.Dispatcher.Next.{IsWaiting, next_timer_agree, first-IsWaiting}
use libtscb.Timer.Dispatcher.Register.{made, register-IsValid, made-new, made-others, made-wakeups}

-- `r` is `d` with one more timer `p`, due at `w` unless it is suspended.
pub record IsMade (calls : ℕ → ℕ) (d r : Dispatcher) (w : ℕ) (asleep : Bool) : Type 0 where
  pub valid : IsValid calls r
  pub connected : IsRegistered r d.next × (r.master d.next ≡ true)
  pub due : r.when d.next ≡ w
  pub waits : asleep ≡ false → IsWaiting r d.next
  pub rests : asleep ≡ true → ¬ IsWaiting r d.next
  pub others :
      (x : ℕ)
      → x ≢ d.next
      → (IsWaiting d x → IsWaiting r x × (r.when x ≡ d.when x)) × (IsWaiting r x → IsWaiting d x)
  pub notified : (r.wakeups ≡ d.wakeups + 1) ⊎ (next_timer r ≡ next_timer d)

module _ (calls : ℕ → ℕ) (d : Dispatcher) (v : IsValid calls d) (f w : ℕ) (once : Bool) where
  made-IsWaiting :
      (asleep : Bool) (x : ℕ)
      → x ≢ d.next
      → let r = made calls d v f w once asleep in
        (IsWaiting d x → IsWaiting r x × (r.when x ≡ d.when x)) × (IsWaiting r x → IsWaiting d x)
  made-IsWaiting asleep x e = (
    λ h.
        let (same, there, before, on, off) = made-others calls d v f w once asleep x h.0 e in
        ((h.0, there h.1, on h.1 h.2), same),
    λ h.
        let (same, there, before, on, off) = made-others calls d v f w once asleep x h.0 e in
        (h.0, before h.1, off (before h.1) h.2),
  )

  next-not-IsWaiting : ¬ IsWaiting d d.next
  next-not-IsWaiting h = ground (arith, v.fresh d.next)

  made-next :
      (asleep : Bool)
      → let r = made calls d v f w once asleep in
        (0 < r.active_limit → r.slots 0 ≢ d.next) → next_timer r ≡ next_timer d
  made-next asleep front =
      let r = made calls d v f w once asleep in
      let u = register-IsValid calls d v f w once asleep in
      next_timer_agree d r v u
        (λ x h. (made-IsWaiting asleep x (λ e. next-not-IsWaiting (rw e at h))).0 h)
        (λ pos. (made-IsWaiting asleep (r.slots 0) (front pos)).1 (first-IsWaiting r u pos))

  made-waits :
      (asleep : Bool)
      → let r = made calls d v f w once asleep in
        (asleep ≡ false → IsWaiting r d.next) × (asleep ≡ true → ¬ IsWaiting r d.next)
  made-waits asleep =
      let u = register-IsValid calls d v f w once asleep in
      let (there, due, master, flag) = made-new calls d v f w once asleep in
      let nonnull : d.next ≢ 0 = omega (arith, v.started) in
      let (on, off) = u.flags d.next nonnull there in
      (λ e. (nonnull, there, on (flag ∙ e)), λ e h. cc (off h.2, flag, e))

  made-notified :
      (asleep : Bool)
      → let r = made calls d v f w once asleep in
        (r.wakeups ≡ d.wakeups + 1) ⊎ (next_timer r ≡ next_timer d)
  made-notified true =
      let r = made calls d v f w once true in
      let u = register-IsValid calls d v f w once true in
      inr (made-next true (λ pos e. (made-waits true).1 refl (rw e at (first-IsWaiting r u pos))))
  made-notified false =
      let r = made calls d v f w once false in
      let u = register-IsValid calls d v f w once false in
      elim (Bool-cases (r.index d.next == 0)) [
        | inl first ↦ inl (rw (made-wakeups calls d v f w once).0 (rw first))
        | inr later ↦
            inr (made-next false (λ pos e. ground (arith, u.shaped.back 0, u.shaped.limit)))
      ]

  made-IsMade : (asleep : Bool) → IsMade calls d (made calls d v f w once asleep) w asleep
  made-IsMade asleep = record {
    valid = register-IsValid calls d v f w once asleep;
    connected = let n = made-new calls d v f w once asleep in (n.0, n.2);
    due = (made-new calls d v f w once asleep).1;
    waits = (made-waits asleep).0;
    rests = (made-waits asleep).1;
    others = made-IsWaiting asleep;
    notified = made-notified asleep;
  }

-- Each of the four calls that make a timer keeps the invariant, registers the new link, due at
-- the given time, and leaves every other timer as it was. The two suspended ones do not wait; the
-- others wait, and the dispatcher is told of them unless `next_timer` reports what it did before.
pub timer-IsMade :
    {calls : ℕ → ℕ} (d : Dispatcher) (f w : ℕ)
    → IsValid calls d
    → IsMade calls d (timer d f w) w false
      × IsMade calls d (one_shot_timer d f w) w false
      × IsMade calls d (suspended_timer d f) 0 true
      × IsMade calls d (one_shot_suspended_timer d f) 0 true
unfolding timer one_shot_timer suspended_timer one_shot_suspended_timer
timer-IsMade {calls} d f w v = (
  made-IsMade calls d v f w false false,
  made-IsMade calls d v f w true false,
  made-IsMade calls d v f 0 false true,
  made-IsMade calls d v f 0 true true,
)
