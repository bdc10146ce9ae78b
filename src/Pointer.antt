-- ===== src/Pointer.antt =====
-- tscb/detail/intrusive-ptr.h and tscb/connection.h: counted pointers to links. A pointer variable
-- and an object are named by numbers, and 0 is the null pointer.
pub mod Counted
pub mod Run
mod Tests
use libtscb.Base.{
  ℕ, ◌+◌, ◌-◌, ◌<◌, ◌≤◌, ◌≡◌, ◌≢◌, ◌⊎◌, ◌==◌, Bool, true, false, ◌&&◌, not, if◌then◌else◌, update,
}
use libtscb.Lock.Deferred.{fetch_sub, fetch_add}

-- `repr_` of each pointer variable, `refcount_` of each object, and whether `delete` was called.
pub record Refs : Type 0 where
  pub repr : ℕ → ℕ
  pub count : ℕ → ℕ
  pub deleted : ℕ → Bool

unfoldable pub add_ref : Refs → ℕ → Refs
add_ref h p = record h { count = update h.count p (fetch_add (h.count p)) }

unfoldable pub release : Refs → ℕ → Refs
release h p = record h {
  count = update h.count p (fetch_sub (h.count p));
  deleted = if h.count p == 1 then update h.deleted p true else h.deleted;
}

abbrev set_repr : Refs → ℕ → ℕ → Refs
set_repr h i p = record h { repr = update h.repr i p }

-- The constructors: from a pointer, with or without a new reference, from another counted pointer,
-- and by a move.
unfoldable pub construct : Refs → ℕ → ℕ → Bool → Refs
construct h i p take = if not (p == 0) && take then add_ref (set_repr h i p) p else set_repr h i p

unfoldable pub copy_construct : Refs → ℕ → ℕ → Refs
copy_construct h i j = construct h i (h.repr j) true

unfoldable pub swap : Refs → ℕ → ℕ → Refs
swap h i j = record h { repr = update (update h.repr j (h.repr i)) i (h.repr j) }

unfoldable pub move_construct : Refs → ℕ → ℕ → Refs
move_construct h i j = swap (set_repr h i 0) i j

unfoldable pub reset : Refs → ℕ → ℕ → Bool → Refs
reset h i p take =
    let dropped = if h.repr i == 0 then h else release h (h.repr i) in
    let g = set_repr dropped i p in if not (p == 0) && take then add_ref g p else g

unfoldable pub destroy : Refs → ℕ → Refs
destroy h i = reset h i 0 true

-- `tmp(other); swap(tmp);` and the end of `tmp`, which is a variable `t` of its own.
unfoldable pub copy_assign : Refs → ℕ → ℕ → ℕ → Refs
copy_assign h t i j = destroy (swap (copy_construct h t j) i t) t

unfoldable pub move_assign : Refs → ℕ → ℕ → Refs
move_assign h i j = swap h i j

-- The pointer and what it pointed to.
unfoldable pub detach : Refs → ℕ → Refs × ℕ
detach h i = (set_repr h i 0, h.repr i)
