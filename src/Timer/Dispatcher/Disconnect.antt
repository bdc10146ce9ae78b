-- ===== src/Timer/Dispatcher/Disconnect.antt =====
-- tscb/timer.h: `disconnect` of a link.
use libtscb.Base.{ℕ, ◌<◌, ◌≡◌, ◌≢◌, true, false, none, arith, refl, Bool-cases, inl, inr}
use libtscb.Timer.Queue.{Queue, make_inactive, unlink}
use libtscb.Timer.Queue.Unlink.{unlink_lem, Removed-after}
use libtscb.Timer.Queue.Order.{IsOrdered, Removed, IsHeapAround-of_IsOrdered}
use libtscb.Timer.Dispatcher.{Dispatcher, size_pred, release_hold_count, disconnect}
use libtscb.Timer.Dispatcher.Valid.{IsRegistered, IsValid}
use libtscb.Timer.Dispatcher.Change.{OthersSame, there, suspend-Deactivated}

module _ {calls : ℕ → ℕ} (d : Dispatcher) (p : ℕ) (v : IsValid calls d) (nonnull : p ≢ 0)
    (connected : d.master p ≡ true) where
  abbrev left : Queue
  left = let q = make_inactive d.when d.queue (d.index p) in unlink d.when q d.size (q.index p)

  left_lem : Removed d.size d.queue p left × IsOrdered d.when left
  left_lem =
      let (out, order) = suspend-Deactivated d p v nonnull connected in
      let q = make_inactive d.when d.queue (d.index p) in
      let (inside, spot) = out.links.there p nonnull (there d p v nonnull connected) in
      let (gone, heap) =
        unlink_lem d.when d.size q (q.index p) out.shaped
          (IsHeapAround-of_IsOrdered d.when q (q.index p) order) inside in
      (Removed-after out (rw spot at gone), heap)

  disconnect-IsValid : IsValid calls (disconnect d p)
  unfolding disconnect release_hold_count size_pred
  disconnect-IsValid =
      let (gone, heap) = left_lem in
      rw connected (record {
        shaped = gone.shaped;
        ordered = heap;
        started = v.started;
        fresh = λ x z h. v.fresh x z (gone.before x z h).0;
        connected = λ x z. (
          λ m. ground (arith, v.connected x, gone.there x),
          λ h. ground (arith, v.connected x, gone.before x z h),
        );
        flags = λ x z h.
            let (was, other) = gone.before x z h in
            let (on, off) = v.flags x z was in
            (λ e. (gone.others x z other was).1 (on e), λ e. off ((gone.others x z other was).0 e));
        held = λ x z l. ground (arith, v.held x, v.held p);
        functions = λ x z l. ground (arith, v.functions x, v.functions p, v.held p);
        unborn = v.unborn;
      })

  disconnect-others : OthersSame d p (disconnect d p)
  unfolding disconnect release_hold_count
  disconnect-others x e =
      let (gone, heap) = left_lem in
      rw connected (
        λ h. ((h.0, gone.there x h.0 e h.1, (gone.others x h.0 e h.1).1 h.2), refl),
        λ h. let (l, _) = gone.before x h.0 h.1 in (h.0, l, (gone.others x h.0 e l).0 h.2),
        ground arith,
      )

  disconnect-gone :
      let r = disconnect d p in
      (r.master p ≡ false)
      × (¬ IsRegistered r p)
      × (r.hold_count p ≡ calls p)
      × (calls p ≡ 0 → r.function p ≡ none)
      × (0 < calls p → r.function p ≡ d.function p)
  unfolding disconnect release_hold_count size_pred
  disconnect-gone =
      let (gone, heap) = left_lem in
      let fresh = v.fresh p nonnull (there d p v nonnull connected) in
      rw connected (
        ground arith,
        λ h. (gone.before p nonnull h).1 refl,
        ground (arith, v.held p),
        λ e. ground (arith, v.held p),
        λ l. ground (arith, v.held p),
      )

-- `disconnect` on a connected timer keeps the invariant: the link leaves `timers_`, is no longer
-- connected, and no other timer changes. The callback is released at once if no call of it is in
-- progress, and is kept as long as one is.
pub disconnect_lem :
    {calls : ℕ → ℕ} (d : Dispatcher) (p : ℕ)
    → IsValid calls d
    → p ≢ 0
    → d.master p ≡ true
    → let r = disconnect d p in
      IsValid calls r
      × (r.master p ≡ false)
      × (¬ IsRegistered r p)
      × (calls p ≡ 0 → r.function p ≡ none)
      × (0 < calls p → r.function p ≡ d.function p)
      × OthersSame d p r
disconnect_lem d p v z c =
    let (m, out, hold, none_left, kept) = disconnect-gone d p v z c in
    (disconnect-IsValid d p v z c, m, out, none_left, kept, disconnect-others d p v z c)

disconnect-master : (d : Dispatcher) (p : ℕ) → (disconnect d p).master p ≡ false
unfolding disconnect release_hold_count
disconnect-master d p = elim (Bool-cases (d.master p)) [
  | inl connected ↦ rw connected (ground arith)
  | inr gone ↦ rw gone gone
]

disconnect_idle : (d : Dispatcher) (p : ℕ) → d.master p ≡ false → disconnect d p ≡ d
unfolding disconnect
disconnect_idle d p e = rw e

-- A second `disconnect` of the same link changes nothing.
pub disconnect-disconnect :
    (d : Dispatcher) (p : ℕ) → disconnect (disconnect d p) p ≡ disconnect d p
disconnect-disconnect d p = disconnect_idle (disconnect d p) p (disconnect-master d p)
