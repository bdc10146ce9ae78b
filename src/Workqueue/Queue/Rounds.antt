-- ===== src/Workqueue/Queue/Rounds.antt =====
-- tscb/workqueue.cc: the calls that `dispatch` makes, with the procedures as a parameter.
use libtscb.Base.{ℕ, zero, suc, ◌+◌, ◌≡◌, ◌≢◌, Bool, true, false, List, [], ◌∷◌}
use libtscb.Workqueue.Queue.{
  Workqueue, move_to_inactive, trigger, Ending, finished, threw, endless, invoke,
}

module _ (call : ℕ → Workqueue → Workqueue × Bool) where
  -- The first active link becomes inactive, then its own function is called on the queue, leaves `v`
  -- and throws or not.
  abbrev pub Serves : Workqueue → Workqueue → Bool → Type 0
  Serves w v thrown =
      (w.active_list.first ≢ 0)
      × (invoke call (w.function w.active_list.first) (move_to_inactive w w.active_list.first)
          ≡ (v, thrown))

  -- `n` links are served one after the other.
  abbrev pub Rounds : ℕ → Workqueue → Workqueue → Type 0
  Rounds zero w v = w ≡ v
  Rounds (suc n) w v = (u : Workqueue) × Serves w u false × Rounds n u v

  abbrev IsDrained : ℕ → Workqueue → ℕ → Ending → Type 0
  IsDrained n w count (finished m v) =
      (k : ℕ) × (m ≡ count + k) × Rounds k w v × (v.active_list.first ≡ 0)
  IsDrained n w count (threw v) = (k : ℕ) × (u : Workqueue) × Rounds k w u × Serves u v true
  IsDrained n w count endless = (u : Workqueue) × Rounds n w u

  -- What the call of a queued procedure makes of `u` and the number of calls so far: the oldest one is
  -- called, and if more are queued, `pending_` is set for them.
  abbrev pub Works : Workqueue → ℕ → ℕ → Workqueue → List ℕ → Type 0
  Works u k m v [] = (m ≡ k) × (v ≡ u)
  Works u k m v (f ∷ []) = (m ≡ k + 1) × (call f (record u { work = [] }) ≡ (v, false))
  Works u k m v (f ∷ g ∷ gs) =
      (m ≡ k + 1)
      × (x : Workqueue) × (call f (record u { work = g ∷ gs }) ≡ (x, false))
      × (v ≡ trigger x)
      × (v.pending ≡ true)

  -- How a dispatch ends that starts with the lists of `s`.
  abbrev pub IsServed : ℕ → Workqueue → Ending → Type 0
  IsServed n s (finished m v) =
      (k : ℕ) × (u : Workqueue) × Rounds k s u × (u.active_list.first ≡ 0) × Works u k m v u.work
  IsServed n s (threw v) = v.pending ≡ true
  IsServed n s endless = (u : Workqueue) × Rounds n s u
