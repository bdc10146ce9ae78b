-- ===== src/Pointer/Tests.antt =====
-- tscb/detail/intrusive-ptr.h: two pointers to an object, and the theorem there.
use libtscb.Base.{ℕ, ◌≡◌, ◌≢◌, ◌<◌, inr, true, false, arith, refl}
use libtscb.Sums.{sum_of}
use libtscb.Pointer.{
  Refs, add_ref, release, construct, copy_construct, swap, reset, destroy, copy_assign,
}
use libtscb.Pointer.Counted.{IsCounted, Keeps}
use libtscb.Pointer.Run.{Run, nothing, then_step, constructs, copies, destroys, references_counted}

abbrev none_yet : Refs
none_yet = record { repr = λ i. 0; count = λ p. 0; deleted = λ p. false }

abbrev none_held : ℕ → ℕ
none_held p = 0

none_yet-IsCounted : IsCounted 3 none_yet none_held
unfolding sum_of
none_yet-IsCounted = record {
  counted = λ p z. ground (arith);
  lives = λ p z e. refl;
  small = λ p z. omega arith;
}

-- Pointer 1 is made for object 5, pointer 2 is a copy, and both end.
abbrev made : Refs
made = construct none_yet 1 5 true

abbrev copied : Refs
copied = copy_construct made 2 1

abbrev left : Refs
left = destroy copied 1

abbrev gone : Refs
gone = destroy left 2

ends : (left.deleted 5 ≡ false) × (left.count 5 ≡ 1) × (gone.deleted 5 ≡ true) × (gone.count 5 ≡ 0)
unfolding construct copy_construct destroy reset add_ref release
ends = (refl, refl, refl, refl)

-- `a = a` on the only pointer to an object.
assigned : (copy_assign made 0 1 1).deleted 5 ≡ false
unfolding construct copy_construct copy_assign destroy reset add_ref release swap
assigned = refl

-- `reset` to the object that the only pointer to it refers to already.
reset_itself : ((reset made 1 5 true).deleted 5 ≡ true) × ((reset made 1 5 true).repr 1 ≡ 5)
unfolding construct reset add_ref release
reset_itself = (refl, refl)

course : Run 3 none_yet none_held gone none_held
unfolding construct add_ref
course =
    then_step
      (then_step
        (then_step (then_step nothing (constructs 1 5 (omega arith) refl (inr (refl, omega arith))))
          (copies 2 1 (omega arith) (omega arith) refl (inr (omega arith))))
        (destroys 1 (omega arith)))
      (destroys 2 (omega arith))

references_counted_example :
    Keeps 3 none_yet gone none_held
    × ((i : ℕ) → i < 3 → gone.repr i ≢ 0 → gone.deleted (gone.repr i) ≡ false)
references_counted_example = references_counted none_yet-IsCounted course
