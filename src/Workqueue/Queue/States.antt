-- ===== src/Workqueue/Queue/States.antt =====
-- tscb/workqueue.cc: the states of a link and the moves between them.
use libtscb.Base.{ℕ, ◌≡◌, Option, none, some, update, refl, ◌⊎◌, inl, inr}
use libtscb.Workqueue.Queue.{
  Workqueue, LinkState, inactive, async_trigger_critical, async_triggered, active, disconnecting,
}

-- The moves of the state diagram, with the two that the dispatcher and a trigger without service
-- make besides.
pub data Moves : LinkState → LinkState → Type 0 where
  stay : (s : LinkState) → Moves s s
  trigger_normal : Moves inactive active
  trigger_async : Moves inactive async_trigger_critical
  trigger_done : Moves async_trigger_critical async_triggered
  trigger_back : Moves async_trigger_critical inactive
  transfer : Moves async_triggered active
  serve : Moves active inactive
  close_inactive : Moves inactive disconnecting
  close_active : Moves active disconnecting
  close_triggered : Moves async_triggered disconnecting

-- Every link of `v` is where it was in `w`, or one move further.
abbrev pub IsNext : Workqueue → Workqueue → Type 0
IsNext w v = (x : ℕ) → Moves (w.state x) (v.state x)

-- Only one link changes its state.
abbrev SetsState : Workqueue → ℕ → LinkState → Workqueue → Type 0
SetsState w p t v = (x : ℕ) → v.state x ≡ update w.state p t x

-- A result that is there is one move further.
abbrev pub IsNext? : Workqueue → Option Workqueue → Type 0
IsNext? w none = Unit
IsNext? w (some v) = IsNext w v

abbrev pub IsNextPair? : Workqueue → Option (Workqueue × ℕ) → Type 0
IsNextPair? w none = Unit
IsNextPair? w (some (v, _)) = IsNext w v

pub LinkState-cases :
    (s : LinkState)
    → (s ≡ inactive)
      ⊎ (s ≡ async_trigger_critical)
      ⊎ (s ≡ async_triggered)
      ⊎ (s ≡ active)
      ⊎ (s ≡ disconnecting)
LinkState-cases inactive = inl refl
LinkState-cases async_trigger_critical = inr (inl refl)
LinkState-cases async_triggered = inr (inr (inl refl))
LinkState-cases active = inr (inr (inr (inl refl)))
LinkState-cases disconnecting = inr (inr (inr (inr refl)))

-- A link that is disconnecting stays so under each of these calls, and is never triggered again.
pub disconnecting_stays : {t : LinkState} → Moves disconnecting t → t ≡ disconnecting
disconnecting_stays (stay _) = refl
