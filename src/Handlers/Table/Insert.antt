-- ===== src/Handlers/Table/Insert.antt =====
-- tscb/detail/fd-handler-table.cc: `insert`, with the growth of the table and failing allocations.
use mathlib.Core.Path.{subst}
use libtscb.Base.{ℕ, ◌≡◌, Bool, true, false, update, List, ◌∷◌, refl, ap, ◌∙◌}
use libtscb.Handlers.Chain.{Events, insert_link}
use libtscb.Handlers.Chain.Masks.{mask_of, actives_of}
use libtscb.Handlers.Table.{Table, Memory, Inserted, inserted, no_memory, join_chain, insert}
use libtscb.Handlers.Table.Valid.{IsTable}
use libtscb.Handlers.Table.Effect.{IsChanged}
use libtscb.Handlers.Table.Change.{IsNew, join_chain-IsChanged}
use libtscb.Handlers.Table.Grow.{IsGrown, has_room, got, short, get_create_chain-Got}

-- The fields that `insert` leaves alone.
pub record IsKept (t u : Table) : Type 0 where
  pub fd : u.fd ≡ t.fd
  pub event_mask : u.event_mask ≡ t.event_mask
  pub next_link : u.next_link ≡ t.next_link
  pub function : u.function ≡ t.function
  pub inactive : u.inactive ≡ t.inactive
  pub inactive_next : u.inactive_next ≡ t.inactive_next

-- What `insert` of link `p` comes to, where `enough` says whether there is room.
pub data Inserts (t : Table) (alive : ℕ → Bool) (xs : ℕ → List ℕ) (p : ℕ) (enough : Bool)
    (r : Inserted) : Type 0 where
  joins :
      (u : Table) (before after : Events)
      → enough ≡ true
      → r ≡ inserted u before after
      → IsKept t u
      → IsChanged t alive xs
          (t.fd p)
          u
          (update alive p true)
          (update xs (t.fd p) (p ∷ xs (t.fd p)))
          before
          after
      → Inserts t alive xs p enough r
  refuses :
      (u : Table)
      → enough ≡ false
      → r ≡ no_memory u
      → IsGrown t alive xs u
      → Inserts t alive xs p enough r

IsNew-grown :
    (t : Table) (alive : ℕ → Bool) (xs : ℕ → List ℕ) (u : Table) (p : ℕ)
    → IsGrown t alive xs u
    → IsNew t alive xs p
    → IsNew u alive xs p
IsNew-grown t alive xs u p g w = record {
  some_link = w.some_link;
  below = rw (g.next_link) w.below;
  free = w.free;
  function = (w.function.0, ap (λ f. f p) g.function ∙ w.function.1);
}

join_chain-IsKept :
    (t u : Table) (alive : ℕ → Bool) (xs : ℕ → List ℕ) (p : ℕ)
    → IsGrown t alive xs u
    → IsKept t (join_chain u p).0
unfolding join_chain insert_link
join_chain-IsKept t u alive xs p g = record {
  fd = g.fd;
  event_mask = g.event_mask;
  next_link = g.next_link;
  function = g.function;
  inactive = g.inactive;
  inactive_next = g.inactive_next;
}

IsChanged-grown :
    (t u : Table) (alive alive' : ℕ → Bool) (xs xs' : ℕ → List ℕ) (i : ℕ) (v : Table)
    (before after : Events)
    → u.event_mask ≡ t.event_mask
    → IsChanged u alive xs i v alive' xs' before after
    → IsChanged t alive xs i v alive' xs' before after
IsChanged-grown t u alive alive' xs xs' i v before after e c = record {
  valid = c.valid;
  other_masks = λ j d. c.other_masks j d ∙ ap (λ m. mask_of m (actives_of alive (xs j))) e;
  other_counts = c.other_counts;
  old_mask = c.old_mask ∙ ap (λ m. mask_of m (actives_of alive (xs i))) e;
  new_mask = c.new_mask;
}

-- `insert` of a new link. It fails exactly if the descriptor is negative, or a larger table or a chain
-- is needed and there is no memory for it: then each chain, link and mask is as it was, and at most
-- the table has more room. Otherwise the link is the last of its descriptor's chain and active, every
-- other descriptor's chain and mask is as it was, also where the table was extended, and the masks
-- that are reported are the unions of the active links' masks before and after.
pub insert-Inserts :
    (m : Memory) (t : Table) (alive : ℕ → Bool) (xs : ℕ → List ℕ) (p : ℕ)
    → IsTable t alive xs
    → IsNew t alive xs p
    → Inserts t alive xs p (has_room m t (t.fd p)) (insert m t p)
unfolding insert
insert-Inserts m t alive xs p h w = elim (get_create_chain-Got m t alive xs (t.fd p) h) [
  | short u e g n ↦ refuses u n (rw (e, insert) refl) g
  | got u e g made y ↦
      let at : u.fd p ≡ t.fd p = ap (λ f. f p) g.fd in
      let c =
        join_chain-IsChanged u alive xs g.valid p (IsNew-grown t alive xs u p g w)
          (ap u.cookies.made at ∙ made) in
      let r = join_chain u p in
      joins r.0 r.1 r.2 y (rw (e, insert) refl) (join_chain-IsKept t u alive xs p g) (
        IsChanged-grown t u alive (update alive p true) xs (update xs (t.fd p) (p ∷ xs (t.fd p)))
          (t.fd p) r.0 r.1 r.2 g.event_mask
          (subst
            (λ i. IsChanged u alive xs i r.0 (update alive p true) (update xs i (p ∷ xs i)) r.1 r.2)
            at c))
]
