-- ===== src/Timer/Dispatcher/Destroy.antt =====
-- tscb/timer.h: the destructor's loop over `detach_registered`.
use libtscb.Base.{ℕ, zero, suc, ◌<◌, ◌≡◌, ◌≢◌, false, none, arith, refl}
use native.Mathlib.Decide.{ℕ_discrete}
use libtscb.Timer.Table.Order.{IsBack}
use libtscb.Timer.Dispatcher.{Dispatcher, detach_registered, destroy}
use libtscb.Timer.Dispatcher.Valid.{IsRegistered, IsValid}

-- Each of the `n` slots holds a link that knows its position.
abbrev IsLinked : ℕ → Dispatcher → Type 0
IsLinked n d = (d.size ≡ n) × ((j : ℕ) → j < n → IsBack d.table j)

detach-IsLinked : (n : ℕ) (d : Dispatcher) → IsLinked (suc n) d → IsLinked n (detach_registered d)
unfolding detach_registered
detach-IsLinked n d h = (ground arith, λ j l. ground (arith, h.1 j))

-- Detached links stay so.
abbrev IsDetached : Dispatcher → ℕ → Type 0
IsDetached d p = (d.master p ≡ false) × (d.function p ≡ none)

detach-IsDetached :
    (d : Dispatcher) (p : ℕ) → p ≢ 0 → IsDetached d p → IsDetached (detach_registered d) p
unfolding detach_registered
detach-IsDetached d p z h = ground arith

detach-IsRegistered :
    (n : ℕ) (d : Dispatcher) (p : ℕ)
    → p ≢ 0
    → IsLinked (suc n) d
    → IsRegistered d p
    → (d.index p ≡ n → IsDetached (detach_registered d) p)
      × (d.index p ≢ n → IsRegistered (detach_registered d) p)
unfolding detach_registered
detach-IsRegistered n d p z h r = (λ e. ground arith, λ e. ground arith)

destroy-IsDetached :
    (n : ℕ) (d : Dispatcher) (p : ℕ) → p ≢ 0 → IsDetached d p → IsDetached (destroy n d) p
unfolding destroy
destroy-IsDetached zero d p z h = h
destroy-IsDetached (suc n) d p z h =
    destroy-IsDetached n (detach_registered d) p z (detach-IsDetached d p z h)

destroy-linked :
    (n : ℕ) (d : Dispatcher) (p : ℕ)
    → p ≢ 0
    → IsLinked n d
    → IsRegistered d p
    → IsDetached (destroy n d) p
unfolding destroy
destroy-linked zero d p z h r = absurd (ground arith)
destroy-linked (suc n) d p z h r =
    let (last, other) = detach-IsRegistered n d p z h r in
    elim (ℕ_discrete (d.index p) n) [
      | yes e ↦ destroy-IsDetached n (detach_registered d) p z (last e)
      | no e ↦ destroy-linked n (detach_registered d) p z (detach-IsLinked n d h) (other e)
    ]

-- The destructor disconnects every timer that is registered and releases its callback.
pub destroy_lem :
    {calls : ℕ → ℕ} (d : Dispatcher) (p : ℕ)
    → IsValid calls d
    → p ≢ 0
    → IsRegistered d p
    → ((destroy d.size d).master p ≡ false) × ((destroy d.size d).function p ≡ none)
destroy_lem d p v z r = destroy-linked d.size d p z (refl, v.shaped.back) r
