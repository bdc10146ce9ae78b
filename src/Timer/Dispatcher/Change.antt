-- ===== src/Timer/Dispatcher/Change.antt =====
-- tscb/timer.h: `set` and `suspend` of a link.
use libtscb.Base.{
  ℕ, ◌+◌, ◌<◌, ◌≤◌, ◌≡◌, ◌≢◌, ◌⊎◌, inl, inr, true, false, ◌&&◌, ◌==◌, ltb, arith, refl, ◌∙◌,
  if◌then◌else◌, Bool-cases, update,
}
use libtscb.Timer.Table.{parent}
use libtscb.Timer.Queue.{make_active, make_inactive}
use libtscb.Timer.Queue.Active.{make_active_lem}
use libtscb.Timer.Queue.Inactive.{make_inactive_lem}
use libtscb.Timer.Queue.Order.{IsOrdered, Activated, Deactivated}
use libtscb.Timer.Dispatcher.{Dispatcher, set, suspend, next_timer}
use libtscb.Timer.Dispatcher.Valid.{IsRegistered, IsValid}
use libtscb.Timer.Dispatcher.Moves.{
  IsValidBut, IsValidBut-of_IsValid, Activated-IsValid, Deactivated-IsValid,
}
use libtscb.Timer.Dispatcher.Next.{IsWaiting, first_le_waiting, first-IsWaiting}

-- `r` differs from `d` in the timer `p` alone.
abbrev pub OthersSame : Dispatcher → ℕ → Dispatcher → Type 0
OthersSame d p r =
    (x : ℕ)
    → x ≢ p
    → (IsWaiting d x → IsWaiting r x × (r.when x ≡ d.when x))
      × (IsWaiting r x → IsWaiting d x)
      × (r.master x ≡ d.master x)

module _ {calls : ℕ → ℕ} (d : Dispatcher) (p : ℕ) (v : IsValid calls d) (nonnull : p ≢ 0)
    (connected : d.master p ≡ true) where
  pub there : IsRegistered d p
  there = (v.connected p nonnull).0 connected

  module _ (w : ℕ) where
    abbrev times : ℕ → ℕ
    times = update d.when p w

    abbrev timed : Dispatcher
    timed = record d { when = times }

    timed-IsValidBut : IsValidBut calls timed p
    timed-IsValidBut = record {
      shaped = v.shaped;
      around = record {
        edges = λ c l m e e'.
            ground (arith, v.ordered c, v.shaped.limit, v.shaped.back c, v.shaped.back (parent c));
        bridge = λ c l m e z. ground (
          arith,
          there,
          v.ordered c,
          v.ordered (parent c),
          v.shaped.limit,
          v.shaped.back c,
          v.shaped.back (parent (parent c)),
        );
      };
      started = v.started;
      fresh = v.fresh;
      connected = v.connected;
      flags = λ x z e. v.flags x z;
      held = v.held;
      functions = v.functions;
      unborn = v.unborn;
    }

    set-Activated :
        let q = make_active times d.queue (d.index p) in
        Activated d.size d.queue p q × IsOrdered times q
    set-Activated =
        rw there.1 at (
          make_active_lem times d.size d.queue (d.index p) v.shaped timed-IsValidBut.around there.0)

    set-IsValid : IsValid calls (set d p w)
    unfolding set
    set-IsValid =
        let q = make_active times d.queue (d.index p) in
        rw connected (
          Activated-IsValid timed p timed-IsValidBut (update d.suspended p false)
            (λ x e. ground arith) q
            (if (q.slots 0 == p) && ltb (d.hold_count p) 2 then d.wakeups + 1 else d.wakeups)
            set-Activated.1 nonnull (ground arith) set-Activated.0)

    set-others : OthersSame d p (set d p w)
    unfolding set
    set-others x e =
        let act = set-Activated.0 in
        rw connected (
          λ h. ((h.0, act.links.there x h.0 h.1, (act.others x h.0 e h.1).1 h.2), ground arith),
          λ h. let l = act.links.before x h.0 h.1 in (h.0, l, (act.others x h.0 e l).0 h.2),
          refl,
        )

    set-new : IsWaiting (set d p w) p × ((set d p w).when p ≡ w)
    unfolding set
    set-new =
        let act = set-Activated.0 in
        rw connected ((nonnull, act.links.there p nonnull there, act.member.0), ground arith)

    set-wakeups : (set d p w).slots 0 ≡ p → d.hold_count p < 2 → (set d p w).wakeups ≡ d.wakeups + 1
    unfolding set
    set-wakeups = rw connected (λ e l. ground arith)

    set-notified :
        d.hold_count p < 2
        → ((set d p w).wakeups ≡ d.wakeups + 1)
          ⊎ (((next_timer d).0 ≡ true) × ((next_timer d).1 ≤ (next_timer (set d p w)).1))
    unfolding next_timer
    set-notified l = elim (Bool-cases ((set d p w).slots 0 == p)) [
      | inl first ↦ inl (set-wakeups (ground arith) l)
      | inr other ↦
          let r = set d p w in
          let first = first-IsWaiting r set-IsValid (ground (arith, set-new)) in
          let (to, from, _) = set-others (r.slots 0) (ground arith) in
          let was = from first in
          let same = (to was).1 in
          let least = first_le_waiting d (r.slots 0) v was in inr (ground arith, ground arith)
    ]

  pub suspend-Deactivated :
      let q = make_inactive d.when d.queue (d.index p) in
      Deactivated d.size d.queue p q × IsOrdered d.when q
  suspend-Deactivated =
      let (out, order, _) =
        make_inactive_lem d.when d.size d.queue (d.index p) v.shaped
          (IsValidBut-of_IsValid p v).around there.0 in
      (rw there.1 at out, order)

  -- The dispatcher with the timer `p` out of the heap.
  abbrev rested : Dispatcher
  rested = record d {
    queue = make_inactive d.when d.queue (d.index p);
    suspended = update d.suspended p true;
  }

  pub rested-IsValid : IsValid calls rested
  rested-IsValid =
      Deactivated-IsValid d p (IsValidBut-of_IsValid p v) (update d.suspended p true)
        (λ x e. ground arith) (make_inactive d.when d.queue (d.index p)) d.wakeups
        suspend-Deactivated.1 (ground arith) suspend-Deactivated.0

  pub rested-others : OthersSame d p rested
  rested-others x e =
      let out = suspend-Deactivated.0 in
      (
        λ h. ((h.0, out.links.there x h.0 h.1, (out.others x h.0 e h.1).1 h.2), refl),
        λ h. let l = out.links.before x h.0 h.1 in (h.0, l, (out.others x h.0 e l).0 h.2),
        refl,
      )

  pub rested-out : IsRegistered rested p × ¬ IsWaiting rested p
  rested-out =
      let out = suspend-Deactivated.0 in
      (out.links.there p nonnull there, λ h. absurd (omega (arith, out.out, h.2)))

-- `set` on a connected timer keeps the invariant; the timer then waits for the new due time, and
-- no other timer changes. Unless a call of its function is in progress, the dispatcher is told of
-- the change, or the time that `next_timer` reported before is not later than what it reports now.
pub set_lem :
    {calls : ℕ → ℕ} (d : Dispatcher) (p w : ℕ)
    → IsValid calls d
    → p ≢ 0
    → d.master p ≡ true
    → let r = set d p w in
      IsValid calls r
      × IsWaiting r p
      × (r.when p ≡ w)
      × OthersSame d p r
      × (d.hold_count p < 2
          → (r.wakeups ≡ d.wakeups + 1)
            ⊎ (((next_timer d).0 ≡ true) × ((next_timer d).1 ≤ (next_timer r).1)))
set_lem d p w v z c = (
  set-IsValid d p v z c w,
  (set-new d p v z c w).0,
  (set-new d p v z c w).1,
  set-others d p v z c w,
  set-notified d p v z c w,
)

-- `suspend` on a connected timer keeps the invariant; the timer stays connected and does not wait,
-- and no other timer changes.
pub suspend_lem :
    {calls : ℕ → ℕ} (d : Dispatcher) (p : ℕ)
    → IsValid calls d
    → p ≢ 0
    → d.master p ≡ true
    → let r = suspend d p in
      IsValid calls r × IsRegistered r p × (¬ IsWaiting r p) × OthersSame d p r
unfolding suspend
suspend_lem d p v z c = elim (Bool-cases (d.suspended p)) [
  | inl already ↦
      rw (c, already)
        (
          v,
          there d p v z c,
          λ h. cc (already, (v.flags p z h.1).1 h.2),
          λ x e. (λ h. (h, refl), λ h. h, refl),
        )
  | inr awake ↦
      rw (c, awake)
        (
          rested-IsValid d p v z c,
          (rested-out d p v z c).0,
          (rested-out d p v z c).1,
          rested-others d p v z c,
        )
]

-- On a link that is not connected, both do nothing.
pub change-disconnected :
    (d : Dispatcher) (p w : ℕ) → d.master p ≡ false → (set d p w ≡ d) × (suspend d p ≡ d)
unfolding set suspend
change-disconnected d p w e = (rw e, rw e)

pub OthersSame-trans :
    (d e r : Dispatcher) (p : ℕ) → OthersSame d p e → OthersSame e p r → OthersSame d p r
OthersSame-trans d e r p f g x ne =
    let (to, from, m) = f x ne in
    let (to', from', m') = g x ne in
    (
      λ h. let (h', w) = to h in let (h'', w') = to' h' in (h'', w' ∙ w),
      λ h. from (from' h),
      m' ∙ m,
    )
