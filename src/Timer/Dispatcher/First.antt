-- ===== src/Timer/Dispatcher/First.antt =====
-- tscb/timer.h: what `run_single` does around the call of the user's function.
use libtscb.Base.{
  ℕ, ◌+◌, ◌<◌, ◌≡◌, inl, inr, true, some, arith, refl, if◌then◌else◌, update, Bool-cases,
  Option-cases, not, ◌∙◌,
}
use libtscb.Timer.Dispatcher.{
  Dispatcher, size_suc, size_pred, acquire_hold_count, release_hold_count, disconnect, take_first,
}
use libtscb.Timer.Dispatcher.Valid.{IsRegistered, IsValid}
use libtscb.Timer.Dispatcher.Next.{IsWaiting, first-IsWaiting}
use libtscb.Timer.Dispatcher.Change.{
  OthersSame, rested-IsValid, rested-others, rested-out, OthersSame-trans,
}
use libtscb.Timer.Dispatcher.Disconnect.{disconnect_lem}

-- The timer in front, while it waits to be called.
module _ (calls : ℕ → ℕ) (d : Dispatcher) (v : IsValid calls d) (some_active : 0 < d.active_limit)
    (few : calls (d.slots 0) < 18446744073709551614) where
  abbrev pub p : ℕ
  p = d.slots 0

  -- One more call of the first timer is in progress.
  abbrev pub busy : ℕ → ℕ
  busy = update calls p (calls p + 1)

  pub p_waits : IsWaiting d p
  p_waits = first-IsWaiting d v some_active

  p_connected : d.master p ≡ true
  p_connected = (v.connected p p_waits.0).1 p_waits.1

  taken-IsValid : IsValid busy (take_first d)
  unfolding take_first acquire_hold_count size_suc
  taken-IsValid =
      let r = rested-IsValid d p v p_waits.0 p_connected in
      let fresh = v.fresh p p_waits.0 p_waits.1 in
      record {
        shaped = r.shaped;
        ordered = r.ordered;
        started = r.started;
        fresh = r.fresh;
        connected = r.connected;
        flags = r.flags;
        held = λ x z l. ground (arith, few, r.held x, r.held p, p_connected, fresh, p_waits.0);
        functions = λ x z l.
            ground (arith, few, r.functions x, r.held x, r.functions p, r.held p, p_connected);
        unborn = λ x l. ground (arith, r.unborn x);
      }

  taken-others : OthersSame d p (take_first d)
  unfolding take_first acquire_hold_count
  taken-others = rested-others d p v p_waits.0 p_connected

  taken-out : IsRegistered (take_first d) p × ¬ IsWaiting (take_first d) p
  unfolding take_first acquire_hold_count
  taken-out = rested-out d p v p_waits.0 p_connected

  taken-master : (take_first d).master p ≡ true
  unfolding take_first acquire_hold_count
  taken-master = p_connected

  taken-function : (take_first d).function p ≡ d.function p
  unfolding take_first acquire_hold_count
  taken-function = refl

  -- The dispatcher when the user's function is called.
  abbrev pub ready : Dispatcher
  ready = if d.one_shot p then disconnect (take_first d) p else take_first d

  pub ready_lem :
      IsValid busy ready
      × OthersSame d p ready
      × (¬ IsWaiting ready p)
      × (ready.master p ≡ not (d.one_shot p))
      × (ready.function p ≡ d.function p)
  ready_lem = elim (Bool-cases (d.one_shot p)) [
    | inl once ↦
        let (u, m, out, none_left, kept, others) =
          disconnect_lem (take_first d) p taken-IsValid p_waits.0 taken-master in
        rw once (
          u,
          OthersSame-trans d (take_first d) (disconnect (take_first d) p) p taken-others others,
          λ h. out h.1,
          m,
          kept (ground arith) ∙ taken-function,
        )
    | inr many ↦ rw many (taken-IsValid, taken-others, taken-out.1, taken-master, taken-function)
  ]

  -- The function of a timer that is called is there.
  pub first_function : (f : ℕ) × (d.function p ≡ some f)
  first_function =
      let known = v.fresh p p_waits.0 p_waits.1 in
      let hold = v.held p p_waits.0 known in
      let (empty_if, zero_if) = v.functions p p_waits.0 known in
      elim (Option-cases (d.function p)) [
        | inl none_left ↦ absurd (ground (arith, zero_if none_left, p_connected))
        | inr there ↦ there
      ]

  pub released-IsValid : (c : Dispatcher) → IsValid busy c → IsValid calls (release_hold_count c p)
  unfolding release_hold_count size_pred
  released-IsValid c u =
      let known : p < c.next = ground (arith, u.unborn p) in
      record {
        shaped = u.shaped;
        ordered = u.ordered;
        started = u.started;
        fresh = u.fresh;
        connected = u.connected;
        flags = u.flags;
        held = λ x z l. ground (arith, u.held x, u.held p);
        functions = λ x z l. ground (arith, u.functions x, u.held x, u.held p, u.functions p);
        unborn = λ x l. ground (arith, u.unborn x);
      }
