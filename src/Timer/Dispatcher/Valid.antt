-- ===== src/Timer/Dispatcher/Valid.antt =====
-- The invariant of the timer dispatcher.
use libtscb.Base.{ℕ, ◌+◌, ◌<◌, ◌≤◌, ◌≡◌, ◌≢◌, true, false, none, if◌then◌else◌, arith, refl}
use libtscb.Timer.Table.Order.{Has}
use libtscb.Timer.Queue.Order.{IsShaped, IsOrdered, IsActive}
use libtscb.Timer.Dispatcher.{Dispatcher, empty}

-- The link `p` stands in `timers_`.
abbrev pub IsRegistered : Dispatcher → ℕ → Type 0
IsRegistered d p = Has d.queue.table d.size p

-- `calls p` counts the calls of the function of link `p` that are in progress.
pub record IsValid (calls : ℕ → ℕ) (d : Dispatcher) : Type 0 where
  pub shaped : IsShaped d.size d.queue
  pub ordered : IsOrdered d.when d.queue
  pub started : 0 < d.next
  pub fresh : (p : ℕ) → p ≢ 0 → IsRegistered d p → p < d.next
  pub connected :
      (p : ℕ)
      → p ≢ 0
      → (d.master p ≡ true → IsRegistered d p) × (IsRegistered d p → d.master p ≡ true)
  pub flags :
      (p : ℕ)
      → p ≢ 0
      → IsRegistered d p
      → (d.suspended p ≡ false → IsActive d.queue p) × (IsActive d.queue p → d.suspended p ≡ false)
  pub held : (p : ℕ) → p ≢ 0 → p < d.next → d.hold_count p ≡ calls p + (if d.master p then 1 else 0)
  pub functions :
      (p : ℕ)
      → p ≢ 0
      → p < d.next
      → (d.hold_count p ≡ 0 → d.function p ≡ none) × (d.function p ≡ none → d.hold_count p ≡ 0)
  pub unborn : (p : ℕ) → d.next ≤ p → calls p ≡ 0

pub empty-IsValid : IsValid (λ _. 0) empty
empty-IsValid = record {
  shaped = record { limit = omega arith; back = λ j l. absurd (omega arith) };
  ordered = λ c p l. absurd (omega arith);
  started = omega arith;
  fresh = λ p z h. absurd (omega arith);
  connected = λ p z. (λ e. cc, λ h. absurd (omega arith));
  flags = λ p z h. absurd (omega arith);
  held = λ p z l. absurd (omega arith);
  functions = λ p z l. absurd (omega arith);
  unborn = λ p l. refl;
}
