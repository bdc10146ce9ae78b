-- ===== src/Timer/Queue/Unlink.antt =====
-- tscb/timer.h: `unlink`.
use libtscb.Base.{ℕ, ◌-◌, ◌<◌, ◌≤◌, ◌≡◌, inl, inr, arith, ltb, Bool-cases, true, false}
use libtscb.Timer.Queue.{Queue, make_inactive, unlink}
use libtscb.Timer.Queue.Inactive.{make_inactive_lem}
use libtscb.Timer.Queue.Order.{IsShaped, IsHeapAround, IsOrdered, Deactivated, Removed}

-- Behind the heap, the last slot takes the place of slot `i`.
module _ (when : ℕ → ℕ) (size : ℕ) (q : Queue) (s : IsShaped size q) (i : ℕ)
    (behind : q.active_limit ≤ i) (lt : i < size) where
  behind-Removed : Removed size q (q.slots i) (unlink when q size i)
  unfolding unlink
  behind-Removed = record {
    shaped = record {
      limit = ground (arith, s.limit);
      back = λ j l. ground (arith, s.back j, s.back i, s.back (size - 1));
    };
    there = λ x z d l. ground (arith, s.back i, s.back (size - 1));
    before = λ x z l. ground (arith, s.back i, s.back (size - 1));
    others = λ x z d l. (
      λ act. ground (arith, s.back i, s.back (size - 1)),
      λ act. ground (arith, s.back i, s.back (size - 1)),
    );
  }

  behind-IsOrdered : IsOrdered when q → IsOrdered when (unlink when q size i)
  unfolding unlink
  behind-IsOrdered h = λ c p l. ground (arith, h c)

pub Removed-after :
    {size p : ℕ} {q m r : Queue} → Deactivated size q p m → Removed size m p r → Removed size q p r
Removed-after d a = record {
  shaped = a.shaped;
  there = λ x z e l. a.there x z e (d.links.there x z l);
  before = λ x z l. let (was, e) = a.before x z l in (d.links.before x z was, e);
  others = λ x z e l.
      let first = d.others x z e l in
      let second = a.others x z e (d.links.there x z l) in
      (λ m. first.0 (second.0 m), λ m. second.1 (first.1 m));
}

ltb_irrefl : (n : ℕ) → ltb n n ≡ false
ltb_irrefl n = ground arith

-- A link of the heap is first made inactive.
unlink-make_inactive :
    (when : ℕ → ℕ) (size : ℕ) (q : Queue) (i : ℕ)
    → ltb i q.active_limit ≡ true
    → let m = make_inactive when q i in unlink when q size i ≡ unlink when m size m.active_limit
unfolding unlink
unlink-make_inactive when size q i e = rw (e, ltb_irrefl (make_inactive when q i).active_limit)

-- Wherever the link stands, `unlink` removes it and no other.
pub unlink_lem :
    (when : ℕ → ℕ) (size : ℕ) (q : Queue) (i : ℕ)
    → IsShaped size q
    → IsHeapAround when q i
    → i < size
    → let r = unlink when q size i in Removed size q (q.slots i) r × IsOrdered when r
unlink_lem when size q i s h lt = elim (Bool-cases (ltb i q.active_limit)) [
  | inl inside ↦
      let (out, ordered, limits) = make_inactive_lem when size q i s h lt in
      let (count, spot) = limits (ground arith) in
      let m = make_inactive when q i in
      let le : m.active_limit < size = omega (arith, s.limit) in
      rw (unlink-make_inactive when size q i inside) (
        Removed-after out
            (rw spot at (behind-Removed when size m out.shaped m.active_limit (omega arith) le)),
        behind-IsOrdered when size m out.shaped m.active_limit (omega arith) le ordered,
      )
  | inr out ↦ (
    behind-Removed when size q s i (ground arith) lt,
    behind-IsOrdered when size q s i (ground arith) lt (λ c p l. ground (arith, h.edges c)),
  )
]
