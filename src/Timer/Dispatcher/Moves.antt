-- ===== src/Timer/Dispatcher/Moves.antt =====
-- The dispatcher's invariant when one link moves in or out of the heap.
use libtscb.Base.{ℕ, ◌<◌, ◌≤◌, ◌≡◌, ◌≢◌, Bool, true, false, none, ◌+◌, if◌then◌else◌, arith}
use libtscb.Timer.Queue.{Queue}
use libtscb.Timer.Queue.Order.{
  IsShaped, IsOrdered, IsActive, IsHeapAround, Activated, Deactivated, IsHeapAround-of_IsOrdered,
}
use libtscb.Timer.Dispatcher.{Dispatcher}
use libtscb.Timer.Dispatcher.Valid.{IsRegistered, IsValid}

-- The invariant, but for the due time of `p` and its flag `suspended_`.
pub record IsValidBut (calls : ℕ → ℕ) (d : Dispatcher) (p : ℕ) : Type 0 where
  pub shaped : IsShaped d.size d.queue
  pub around : IsHeapAround d.when d.queue (d.index p)
  pub started : 0 < d.next
  pub fresh : (x : ℕ) → x ≢ 0 → IsRegistered d x → x < d.next
  pub connected :
      (x : ℕ)
      → x ≢ 0
      → (d.master x ≡ true → IsRegistered d x) × (IsRegistered d x → d.master x ≡ true)
  pub flags :
      (x : ℕ)
      → x ≢ 0
      → x ≢ p
      → IsRegistered d x
      → (d.suspended x ≡ false → IsActive d.queue x) × (IsActive d.queue x → d.suspended x ≡ false)
  pub held : (x : ℕ) → x ≢ 0 → x < d.next → d.hold_count x ≡ calls x + (if d.master x then 1 else 0)
  pub functions :
      (x : ℕ)
      → x ≢ 0
      → x < d.next
      → (d.hold_count x ≡ 0 → d.function x ≡ none) × (d.function x ≡ none → d.hold_count x ≡ 0)
  pub unborn : (x : ℕ) → d.next ≤ x → calls x ≡ 0

pub IsValidBut-of_IsValid :
    {calls : ℕ → ℕ} {d : Dispatcher} (p : ℕ) → IsValid calls d → IsValidBut calls d p
IsValidBut-of_IsValid {d} p v = record {
  shaped = v.shaped;
  around = IsHeapAround-of_IsOrdered d.when d.queue (d.index p) v.ordered;
  started = v.started;
  fresh = v.fresh;
  connected = v.connected;
  flags = λ x z e. v.flags x z;
  held = v.held;
  functions = v.functions;
  unborn = v.unborn;
}

module _ {calls : ℕ → ℕ} (d : Dispatcher) (p : ℕ) (v : IsValidBut calls d p) (s : ℕ → Bool)
    (same : (x : ℕ) → x ≢ p → s x ≡ d.suspended x) (q : Queue) (wakeups : ℕ)
    (ordered : IsOrdered d.when q) where
  abbrev moved : Dispatcher
  moved = record d { queue = q; suspended = s; wakeups = wakeups }

  pub Activated-IsValid : p ≢ 0 → s p ≡ false → Activated d.size d.queue p q → IsValid calls moved
  Activated-IsValid nonnull awake a = record {
    shaped = a.shaped;
    ordered = ordered;
    started = v.started;
    fresh = λ x z h. v.fresh x z (a.links.before x z h);
    connected = λ x z. (
      λ m. a.links.there x z ((v.connected x z).0 m),
      λ h. (v.connected x z).1 (a.links.before x z h),
    );
    flags = λ x z h. (
      λ e. ground (arith, same x, v.flags x, a.others x, a.links.before x, a.member),
      λ e. ground (arith, same x, v.flags x, a.others x, a.links.before x),
    );
    held = v.held;
    functions = v.functions;
    unborn = v.unborn;
  }

  pub Deactivated-IsValid : s p ≡ true → Deactivated d.size d.queue p q → IsValid calls moved
  Deactivated-IsValid asleep a = record {
    shaped = a.shaped;
    ordered = ordered;
    started = v.started;
    fresh = λ x z h. v.fresh x z (a.links.before x z h);
    connected = λ x z. (
      λ m. a.links.there x z ((v.connected x z).0 m),
      λ h. (v.connected x z).1 (a.links.before x z h),
    );
    flags = λ x z h. (
      λ e. ground (arith, same x, v.flags x, a.others x, a.links.before x),
      λ e. ground (arith, same x, v.flags x, a.others x, a.links.before x, a.out),
    );
    held = v.held;
    functions = v.functions;
    unborn = v.unborn;
  }
