-- ===== src/Timer/Queue/Active.antt =====
-- tscb/timer.h: `make_active`.
use libtscb.Base.{
  ℕ, ◌+◌, ◌<◌, ◌≤◌, ◌≡◌, ◌≢◌, inl, inr, arith, ◌==◌, ltb, Bool-cases, refl, ◌∙◌, update,
  if◌then◌else◌,
}
use libtscb.Timer.Table.{Table, parent, stop_active, swap_slots}
use libtscb.Timer.Table.Order.{IsBack, Has, Hole, Kept}
use libtscb.Timer.Table.Up.{sift_up_lem, stop_active-stops, stop_active-rises}
use libtscb.Timer.Queue.{Queue, make_inactive, append_active, make_active}
use libtscb.Timer.Queue.Inactive.{make_inactive_lem}
use libtscb.Timer.Queue.Order.{
  IsShaped, IsHeapAround, IsOrdered, IsActive, SameLinks, Deactivated, Activated,
}

module _ (when : ℕ → ℕ) (size : ℕ) (q : Queue) (s : IsShaped size q) (h : IsOrdered when q)
    (room : q.active_limit < size) where
  abbrev a : ℕ
  a = q.active_limit

  -- The vector while its slot `a` is held outside.
  abbrev taken : Table
  taken = record (q.table) { slots = update q.slots a 0 }

  taken-Hole : Hole when (a + 1) size (a + 1) taken (q.slots a) a
  taken-Hole = record {
    element = ground (arith, s.back a);
    inside = omega arith;
    within = omega arith;
    hollow = ground arith;
    back = λ j l d. ground (arith, s.back j, s.back a);
    edges = λ c p l d d'. ground (arith, h c);
    bridge = λ c p l e z. absurd (omega arith);
    kids = λ c p l e. absurd (omega arith);
  }

  module _ (r : Table) (kept : Kept (a + 1) size taken (q.slots a) r)
      (back' : (j : ℕ) → j < size → IsBack r j) where
    abbrev grown : Queue
    grown = record { table = r; active_limit = a + 1 }

    grown-above : (j : ℕ) → a + 1 ≤ j → r.slots j ≡ q.slots j
    grown-above j l = ground (arith, kept.above j)

    grown-there : (p : ℕ) → p ≢ 0 → Has q.table size p → Has r size p
    grown-there p z l = ground (arith, kept.there p, kept.placed)

    grown-before : (p : ℕ) → p ≢ 0 → Has r size p → Has q.table size p
    grown-before p z l = ground (arith, kept.before p, s.back a)

    grown-Activated : Activated size q (q.slots a) grown
    grown-Activated = record {
      shaped = record { limit = omega arith; back = back' };
      links = record { there = grown-there; before = grown-before };
      others = λ x z d l. (
        λ act. ground (arith, grown-above (q.index x), back' (q.index x)),
        λ act. ground (arith, grown-there x z l, grown-above (r.index x), s.back (r.index x)),
      );
      member = kept.placed;
    }

  append_active_lem :
      let r = append_active when q in
      Activated size q (q.slots a) r × IsOrdered when r × (r.active_limit ≡ a + 1)
  unfolding append_active
  append_active_lem =
      let (back', kept, heap) =
        sift_up_lem when (a + 1) size (a + 1) stop_active stop_active-stops stop_active-rises
          (a + 1) taken (q.slots a) a (omega arith) taken-Hole in
      (grown-Activated _ kept back', λ c p l. heap.edges c p l (ground arith), refl)

-- A slot behind the heap changes places with the first of them.
module _ (when : ℕ → ℕ) (size : ℕ) (q : Queue) (s : IsShaped size q) (i : ℕ)
    (behind : q.active_limit ≤ i) (lt : i < size) where
  abbrev fronted : Queue
  fronted = record q {
    table = if i == q.active_limit then q.table else swap_slots q.table i q.active_limit;
  }

  fronted-IsShaped : IsShaped size fronted
  unfolding swap_slots
  fronted-IsShaped = record {
    limit = s.limit;
    back = λ j l. ground (arith, s.back j, s.back i, s.back q.active_limit);
  }

  fronted-SameLinks : SameLinks size q fronted
  unfolding swap_slots
  fronted-SameLinks = record {
    there = λ p z l. ground (arith, s.back i, s.back q.active_limit);
    before = λ p z l. ground (arith, s.back i, s.back q.active_limit);
  }

  fronted-IsActive :
      (x : ℕ) → (IsActive fronted x → IsActive q x) × (IsActive q x → IsActive fronted x)
  unfolding swap_slots
  fronted-IsActive x = (
    λ l. ground (arith, s.back i, s.back q.active_limit),
    λ l. ground (arith, s.back i, s.back q.active_limit),
  )

  fronted-slots :
      (fronted.slots q.active_limit ≡ q.slots i)
      × ((j : ℕ) → j < q.active_limit → fronted.slots j ≡ q.slots j)
  unfolding swap_slots
  fronted-slots = (ground arith, λ j l. ground arith)

  front_lem :
      IsOrdered when q
      → let r = append_active when fronted in
        Activated size q (q.slots i) r × IsOrdered when r × (r.active_limit ≡ q.active_limit + 1)
  front_lem h =
      let below = fronted-slots.1 in
      let (act, order, count) =
        append_active_lem when size fronted fronted-IsShaped
          (λ c p l. ground (arith, h c, below c, below (parent c))) (omega arith) in
      let links = fronted-SameLinks in
      let r = append_active when fronted in
      (
        record {
          shaped = act.shaped;
          links = record {
            there = λ p z l. act.links.there p z (links.there p z l);
            before = λ p z l. links.before p z (act.links.before p z l);
          };
          others = λ x z d l.
              let now = act.others x z (λ e. d (e ∙ fronted-slots.0)) (links.there x z l) in
              let was = fronted-IsActive x in (λ m. was.0 (now.0 m), λ m. now.1 (was.1 m));
          member = rw fronted-slots.0 at act.member;
        },
        order,
        count,
      )

Activated-after :
    {size p : ℕ} {q m r : Queue}
    → Deactivated size q p m
    → Activated size m p r
    → Activated size q p r
Activated-after d a = record {
  shaped = a.shaped;
  links = record {
    there = λ x z l. a.links.there x z (d.links.there x z l);
    before = λ x z l. d.links.before x z (a.links.before x z l);
  };
  others = λ x z e l.
      let first = d.others x z e l in
      let second = a.others x z e (d.links.there x z l) in
      (λ m. first.0 (second.0 m), λ m. second.1 (first.1 m));
  member = a.member;
}

-- A link that is active goes back to the heap at its new due time, one that is not joins it.
pub make_active_lem :
    (when : ℕ → ℕ) (size : ℕ) (q : Queue) (i : ℕ)
    → IsShaped size q
    → IsHeapAround when q i
    → i < size
    → let r = make_active when q i in Activated size q (q.slots i) r × IsOrdered when r
unfolding make_active
make_active_lem when size q i s h lt = elim (Bool-cases (ltb i q.active_limit)) [
  | inl inside ↦ rw inside (
      let (out, ordered, limits) = make_inactive_lem when size q i s h lt in
      let (count, spot) = limits (ground arith) in
      let m = make_inactive when q i in
      let (act, order, _) =
        front_lem when size m out.shaped m.active_limit (omega arith) (omega (arith, s.limit))
          ordered in
      (Activated-after out (rw spot at act), order))
  | inr behind ↦ rw behind (
      let (act, order, _) =
        front_lem when size q s i (ground arith) lt (λ c p l. ground (arith, h.edges c)) in
      (act, order))
]
