-- ===== src/Timer/Dispatcher/Register.antt =====
-- tscb/timer.h: `register_timer` and the four calls that make a timer.
use libtscb.Base.{ℕ, ◌+◌, ◌<◌, ◌≡◌, ◌≢◌, Bool, true, false, ◌==◌, if◌then◌else◌, arith, refl}
use libtscb.Timer.Table.{parent}
use libtscb.Timer.Queue.{make_active}
use libtscb.Timer.Queue.Order.{IsShaped, IsOrdered, IsActive, Activated, IsHeapAround-of_IsOrdered}
use libtscb.Timer.Queue.Active.{make_active_lem}
use libtscb.Timer.Dispatcher.{Dispatcher, new_link, push_link, register_timer}
use libtscb.Timer.Dispatcher.Valid.{IsRegistered, IsValid}
use libtscb.Timer.Dispatcher.Moves.{IsValidBut, Activated-IsValid}

module _ (calls : ℕ → ℕ) (d : Dispatcher) (v : IsValid calls d) (f w : ℕ) (once : Bool) where
  slot-ne-next : (j : ℕ) → j < d.size → d.slots j ≢ d.next
  slot-ne-next j l e = ground (arith, v.shaped.back j, v.fresh (d.slots j))

  abbrev pushed : Bool → Dispatcher
  pushed asleep = push_link (new_link d f w once) d.next asleep

  module _ (asleep : Bool) where
    pushed-IsShaped : IsShaped (d.size + 1) (pushed asleep).queue
    unfolding new_link push_link
    pushed-IsShaped = record {
      limit = omega (arith, v.shaped.limit);
      back = λ j l. ground (arith, v.shaped.back j, slot-ne-next j, v.started);
    }

    pushed-IsOrdered : IsOrdered (pushed asleep).when (pushed asleep).queue
    unfolding new_link push_link
    pushed-IsOrdered c p l =
        ground (arith, v.ordered c, v.shaped.limit, slot-ne-next c, slot-ne-next (parent c))

    pushed-there : (x : ℕ) → x ≢ d.next → x ≢ 0 → IsRegistered d x → IsRegistered (pushed asleep) x
    unfolding new_link push_link
    pushed-there x e z h = ground arith

    pushed-before : (x : ℕ) → x ≢ d.next → x ≢ 0 → IsRegistered (pushed asleep) x → IsRegistered d x
    unfolding new_link push_link
    pushed-before x e z h = ground arith

    pushed-new : IsRegistered (pushed asleep) d.next
    unfolding new_link push_link
    pushed-new = ground arith

  -- A suspended timer is registered, and is not active.
  pushed-IsValid : IsValid calls (pushed true)
  unfolding new_link push_link
  pushed-IsValid = record {
    shaped = pushed-IsShaped true;
    ordered = pushed-IsOrdered true;
    started = omega arith;
    fresh = λ p z h. ground (arith, v.fresh p);
    connected = λ p z. ground (arith, v.connected p);
    flags = λ p z h. ground (arith, v.flags p, v.shaped.limit);
    held = λ p z l. ground (arith, v.held p, v.unborn p);
    functions = λ p z l. ground (arith, v.functions p);
    unborn = λ p l. v.unborn p (omega arith);
  }

  pushed-IsValidBut : IsValidBut calls (pushed false) d.next
  unfolding new_link push_link
  pushed-IsValidBut = record {
    shaped = pushed-IsShaped false;
    around = IsHeapAround-of_IsOrdered _ _ _ (pushed-IsOrdered false);
    started = omega arith;
    fresh = λ p z h. ground (arith, v.fresh p);
    connected = λ p z. ground (arith, v.connected p);
    flags = λ p z e h. ground (arith, v.flags p, v.shaped.limit);
    held = λ p z l. ground (arith, v.held p, v.unborn p);
    functions = λ p z l. ground (arith, v.functions p);
    unborn = λ p l. v.unborn p (omega arith);
  }

  abbrev pub made : Bool → Dispatcher
  made asleep = register_timer (new_link d f w once) d.next asleep

  pushed-slot : (pushed false).slots d.size ≡ d.next
  unfolding new_link push_link
  pushed-slot = ground arith

  pushed-Activated :
      let e = pushed false in
      let q = make_active e.when e.queue d.size in
      Activated (d.size + 1) e.queue d.next q × IsOrdered e.when q
  pushed-Activated =
      let e = pushed false in
      rw pushed-slot at (
        make_active_lem e.when (d.size + 1) e.queue d.size (pushed-IsShaped false)
          (IsHeapAround-of_IsOrdered _ _ _ (pushed-IsOrdered false)) (omega arith))

  pushed-facts :
      ((pushed false).suspended d.next ≡ false)
      × ((pushed false).size ≡ d.size + 1)
      × ((pushed false).when d.next ≡ w)
      × ((pushed false).master d.next ≡ true)
  unfolding new_link push_link
  pushed-facts = (ground arith, refl, ground arith, ground arith)

  pub register-IsValid : (asleep : Bool) → IsValid calls (made asleep)
  unfolding register_timer push_link new_link
  register-IsValid true = pushed-IsValid
  register-IsValid false =
      let e = pushed false in
      let q = make_active e.when e.queue d.size in
      Activated-IsValid e d.next pushed-IsValidBut e.suspended (λ x c. refl) q
        (if q.index d.next == 0 then e.wakeups + 1 else e.wakeups) pushed-Activated.1
        (ground (arith, v.started)) pushed-facts.0 pushed-Activated.0

  pub made-new :
      (asleep : Bool)
      → IsRegistered (made asleep) d.next
        × ((made asleep).when d.next ≡ w)
        × ((made asleep).master d.next ≡ true)
        × ((made asleep).suspended d.next ≡ asleep)
  unfolding register_timer push_link new_link
  made-new true = (pushed-new true, ground arith, ground arith, ground arith)
  made-new false = (
    pushed-Activated.0.links.there d.next (ground (arith, v.started)) (pushed-new false),
    ground arith,
    ground arith,
    ground arith,
  )

  pub made-others :
      (asleep : Bool) (x : ℕ)
      → x ≢ 0
      → x ≢ d.next
      → ((made asleep).when x ≡ d.when x)
        × (IsRegistered d x → IsRegistered (made asleep) x)
        × (IsRegistered (made asleep) x → IsRegistered d x)
        × (IsRegistered d x → IsActive d.queue x → IsActive (made asleep).queue x)
        × (IsRegistered d x → IsActive (made asleep).queue x → IsActive d.queue x)
  unfolding register_timer push_link new_link
  made-others true x z e = (
    ground arith,
    pushed-there true x e z,
    pushed-before true x e z,
    λ h m. ground arith,
    λ h m. ground arith,
  )
  made-others false x z e =
      let act = pushed-Activated.0 in
      (
        ground arith,
        λ h. act.links.there x z (pushed-there false x e z h),
        λ h. pushed-before false x e z (act.links.before x z h),
        λ h m. (act.others x z e (pushed-there false x e z h)).1 (ground arith),
        λ h m. ground (arith, (act.others x z e (pushed-there false x e z h)).0 m),
      )

  pub made-wakeups :
      ((made false).wakeups ≡ (if (made false).index d.next == 0 then d.wakeups + 1 else d.wakeups))
      × ((made true).wakeups ≡ d.wakeups)
  unfolding register_timer push_link new_link
  made-wakeups = (refl, refl)
