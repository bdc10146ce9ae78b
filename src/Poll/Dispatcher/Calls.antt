-- ===== src/Poll/Dispatcher/Calls.antt =====
-- tscb/ioready-poll.cc: `watch`, `disconnect` and `modify` on each branch.
use libtscb.Base.{ℕ, ◌+◌, ◌<◌, inl, inr, Bool, true, false, Bool-cases, List}
use libtscb.Handlers.Chain.{Events}
use libtscb.Poll.Dispatcher.{Dispatcher, watch, disconnect, modify, roomy, outcome, unlock}
use libtscb.Poll.Dispatcher.Grows.{Grows, Grows-refl}
use libtscb.Poll.Dispatcher.Valid.{IsDispatcher}
use libtscb.Poll.Dispatcher.Stands.{
  Stands, unlock-Stands, wakeups-Stands, Grows-Stands, wakeups-Grows,
}
use libtscb.Poll.Dispatcher.Changed.{modified_of, left_of, modified-Grows, left-Grows}
use libtscb.Poll.Dispatcher.Joined.{watch-Joins}

pub modify-Stands :
    (d : Dispatcher) (p : ℕ) (mask : Events) (sync : Bool)
    → Stands d
    → Stands (modify d p mask sync)
unfolding modify
modify-Stands d p mask sync h = elim (Bool-cases (d.connected p)) [
  | inr off ↦ rw (off) h
  | inl on ↦
      let g = modified-Grows d h.links h.waiting p mask on h.holds in
      rw (on) (
        unlock-Stands sync (modified_of d p mask)
          (Grows-Stands d h.links (modified_of d p mask) true 0 g))
]

pub disconnect-Stands :
    (d : Dispatcher) (p : ℕ) (sync : Bool) → Stands d → Stands (disconnect d p sync)
unfolding disconnect
disconnect-Stands d p sync h = elim (Bool-cases (d.connected p)) [
  | inr off ↦ rw (off) h
  | inl on ↦ rw (on) (
      unlock-Stands sync (left_of d p) (
        Grows-Stands d h.links (left_of d p) false 0 (left-Grows d h.links h.waiting p on h.holds)))
]

pub watch-Stands :
    (d : Dispatcher) (f fd : ℕ) (mask : Events) (sync : Bool)
    → fd < 9223372036854775808
    → d.table.next_link < 18446744073709551615
    → Stands d
    → Stands (outcome (watch roomy d f fd mask sync))
watch-Stands d f fd mask sync l b h =
    let j = watch-Joins d h.links h.waiting f fd mask sync l b h.holds in
    rw (j.made) (
      wakeups-Stands (unlock sync j.after) (d.wakeups + 1)
        (unlock-Stands sync j.after (Grows-Stands d h.links j.after false 1 j.grows)))

pub modify-Grows :
    (d : Dispatcher) (xs : ℕ → List ℕ) (ds : List ℕ) (p : ℕ) (mask : Events)
    → IsDispatcher d xs ds
    → Grows d xs (modify d p mask false) true 0
unfolding modify
modify-Grows d xs ds p mask h = elim (Bool-cases (d.connected p)) [
  | inr off ↦ rw (off) (Grows-refl d xs ds true h)
  | inl on ↦ rw (on) (modified-Grows d xs ds p mask on h)
]

pub disconnect-Grows :
    (d : Dispatcher) (xs : ℕ → List ℕ) (ds : List ℕ) (p : ℕ)
    → IsDispatcher d xs ds
    → Grows d xs (disconnect d p false) false 0
unfolding disconnect
disconnect-Grows d xs ds p h = elim (Bool-cases (d.connected p)) [
  | inr off ↦ rw (off) (Grows-refl d xs ds false h)
  | inl on ↦ rw (on) (left-Grows d xs ds p on h)
]

pub watch-Grows :
    (d : Dispatcher) (xs : ℕ → List ℕ) (ds : List ℕ) (f fd : ℕ) (mask : Events)
    → fd < 9223372036854775808
    → d.table.next_link < 18446744073709551615
    → IsDispatcher d xs ds
    → Grows d xs (outcome (watch roomy d f fd mask false)) false 1
watch-Grows d xs ds f fd mask l b h =
    let j = watch-Joins d xs ds f fd mask false l b h in
    rw (j.made) (wakeups-Grows d xs j.after false 1 (d.wakeups + 1) j.grows)
