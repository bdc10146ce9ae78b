-- ===== src/Handlers/Table/Tests.antt =====
-- tscb/detail/fd-handler-table.cc: `insert` beyond the table's end, and `synchronize` with a link
-- that was removed.
use libtscb.Base.{
  ℕ, ◌==◌, ◌≡◌, inl, inr, Bool, true, false, Bool-cases, some, if◌then◌else◌, List, [], ◌∷◌, arith,
  refl,
}
use mathlib.Core.Path.{subst}
use libtscb.Chain.Change.{IsChain}
use libtscb.Chain.Members.{IsIn}
use libtscb.Handlers.Chain.{Events}
use libtscb.Handlers.Table.{Table, Memory, empty, chain_at, make_link, insert, synchronize, release}
use libtscb.Handlers.Table.Valid.{IsTable}
use libtscb.Handlers.Table.Effect.{HasRemoved}
use libtscb.Handlers.Table.Grow.{has_room}
use libtscb.Handlers.Table.New.{empty-IsTable, make_link-IsTable, make_link-IsNew}
use libtscb.Handlers.Table.Insert.{Inserts, insert-Inserts}
use libtscb.Handlers.Table.Synchronize.{IsSynchronized, synchronize-IsSynchronized}

abbrev reads : Events
reads = record { input = true; output = false; error = false; hangup = false }

abbrev room : Memory
room = record { table_fits = true; chain_fits = true }

-- Link 1, for descriptor 5, of a table with two entries.
abbrev small : Table
small = make_link (empty 2) 7 5 reads

abbrev none_alive : ℕ → Bool
none_alive p = false

abbrev no_links : ℕ → List ℕ
no_links i = []

insert-Inserts_example :
    Inserts small none_alive no_links 1 (has_room room small (small.fd 1)) (insert room small 1)
insert-Inserts_example =
    insert-Inserts room small none_alive no_links 1
      (make_link-IsTable (empty 2) none_alive no_links 7 5 reads (empty-IsTable 2))
      (make_link-IsNew (empty 2) none_alive no_links 7 5 reads (empty-IsTable 2))

-- Links 1 and 2 of descriptor 3, of which 1 is removed.
abbrev partly : Table
partly = record (empty 8) {
  cookies = record { cookie = 0; need_sync = true; made = λ i. i == 3; of_chain = λ i. 0 };
  active_of = λ i. if i == 3 then 2 else 0;
  first_of = λ i. if i == 3 then 1 else 0;
  last_of = λ i. if i == 3 then 2 else 0;
  active_next = λ p. if p == 1 then 2 else 0;
  prev = λ p. if p == 2 then 1 else 0;
  next = λ p. if p == 1 then 2 else 0;
  fd = λ p. 3;
  event_mask = λ p. reads;
  function = λ p. some p;
  refs = λ p. 2;
  inactive = 1;
  next_link = 3;
}

abbrev second_alive : ℕ → Bool
second_alive p = p == 2

abbrev both_links : ℕ → List ℕ
both_links i = if i == 3 then 2 ∷ 1 ∷ [] else []

partly-IsTable : IsTable partly second_alive both_links
partly-IsTable = record {
  chains = λ i m.
      subst (λ j. IsChain (chain_at partly j).links second_alive (both_links j)) (three i m)
        (record {
          back = (refl, omega arith, (omega arith, tt), (refl, omega arith, tt, refl));
          full = (refl, (refl, refl));
          actives = (refl, (refl, refl));
        });
  absent = λ i m. rw (m) refl;
  within = λ i m. ground (arith, m);
  places = λ i p k. elim (Bool-cases (i == 3)) [
    | inl e ↦ three i e
    | inr e ↦ absurd (subst (λ b. IsIn p (if b then 2 ∷ 1 ∷ [] else [])) e k)
  ];
  members = λ p on. inl (ground (arith, on));
  functions = λ i. elim (Bool-cases (i == 3)) [
    | inl e ↦ rw (e) ((2, refl), ((1, refl), tt))
    | inr e ↦ rw (e) tt
  ];
  below = λ i. elim (Bool-cases (i == 3)) [
    | inl e ↦ rw (e) (omega arith, (omega arith, tt))
    | inr e ↦ rw (e) tt
  ];
  positive = omega arith;
}
  where
    three : (i : ℕ) → (i == 3) ≡ true → 3 ≡ i
    three i m = ground (arith, m)

partly-HasRemoved : HasRemoved partly second_alive both_links (1 ∷ [])
partly-HasRemoved = record {
  listed = (refl, omega arith, refl);
  pending = (inr (inl refl), refl, tt, tt);
  covered = λ i. elim (Bool-cases (i == 3)) [
    | inl e ↦ rw (e) (inl refl, (inr (inl refl), tt))
    | inr e ↦ rw (e) tt
  ];
}

synchronize-IsSynchronized_example :
    IsSynchronized partly second_alive both_links
      (1 ∷ [])
      (release (synchronize partly).0.next_link (synchronize partly).0 (synchronize partly).1)
synchronize-IsSynchronized_example =
    synchronize-IsSynchronized partly second_alive both_links (1 ∷ []) partly-IsTable
      partly-HasRemoved
