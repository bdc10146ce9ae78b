-- ===== src/Handlers/Table/Grow.antt =====
-- tscb/detail/fd-handler-table.cc: `get_create_chain` and `extend_table`, and `insert` with them.
use mathlib.Core.Path.{subst}
use native.Mathlib.Decide.{ℕ_discrete}
use libtscb.Base.{
  ℕ, ◌+◌, ◌<◌, ◌≤◌, ◌≡◌, inl, inr, leb, Bool, true, false, ◌&&◌, ◌||◌, not, Bool-cases,
  if◌then◌else◌, List, arith, refl, sym, ap, ◌∙◌,
}
use libtscb.Chain.Change.{IsChain}
use libtscb.Chain.Frame.{IsChain-same}
use libtscb.Handlers.Cookie.{create_chain}
use libtscb.Handlers.Table.{
  Table, chain_at, Memory, Created, created, bad_alloc, extend_table, new_chain, add_chain,
  get_create_chain,
}
use libtscb.Handlers.Table.Valid.{IsTable}

-- A table that may have more room than before, and the same chains.
pub record IsGrown (t : Table) (alive : ℕ → Bool) (xs : ℕ → List ℕ) (u : Table) : Type 0 where
  pub valid : IsTable u alive xs
  pub fd : u.fd ≡ t.fd
  pub event_mask : u.event_mask ≡ t.event_mask
  pub next_link : u.next_link ≡ t.next_link
  pub function : u.function ≡ t.function
  pub inactive : u.inactive ≡ t.inactive
  pub inactive_next : u.inactive_next ≡ t.inactive_next
  pub still_made : (i : ℕ) → t.cookies.made i ≡ true → u.cookies.made i ≡ true

IsGrown-refl :
    (t : Table) (alive : ℕ → Bool) (xs : ℕ → List ℕ) → IsTable t alive xs → IsGrown t alive xs t
IsGrown-refl t alive xs h = record {
  valid = h;
  fd = refl;
  event_mask = refl;
  next_link = refl;
  function = refl;
  inactive = refl;
  inactive_next = refl;
  still_made = λ i m. m;
}

extend-IsGrown :
    (t : Table) (alive : ℕ → Bool) (xs : ℕ → List ℕ) (n : ℕ)
    → IsTable t alive xs
    → t.capacity ≤ n
    → IsGrown t alive xs (extend_table t n) × (n ≤ (extend_table t n).capacity)
unfolding extend_table
extend-IsGrown t alive xs n h l = (
  record {
    valid = record {
      chains = λ j m. h.chains j (ground (arith, m));
      absent = λ j m. elim (Bool-cases (t.cookies.made j)) [
        | inl on ↦ absurd (ground (arith, on, m, h.within j on))
        | inr off ↦ h.absent j off
      ];
      within = λ j m. ground (arith, m);
      places = h.places;
      members = h.members;
      functions = h.functions;
      below = h.below;
      positive = h.positive;
    };
    fd = refl;
    event_mask = refl;
    next_link = refl;
    function = refl;
    inactive = refl;
    inactive_next = refl;
    still_made = λ j m. ground (arith, m, h.within j m);
  },
  ground arith,
)

new_chain-IsGrown :
    (t : Table) (alive : ℕ → Bool) (xs : ℕ → List ℕ) (i : ℕ)
    → IsTable t alive xs
    → i < t.capacity
    → t.cookies.made i ≡ false
    → IsGrown t alive xs (new_chain t i) × ((new_chain t i).cookies.made i ≡ true)
unfolding new_chain create_chain
new_chain-IsGrown t alive xs i h l off = (
  record {
    valid = record {
      chains = λ j m. elim (ℕ_discrete i j) [
        | yes e ↦
            subst (λ l. IsChain (chain_at (new_chain t i) j).links alive l)
              (sym (ap xs (sym e) ∙ h.absent i off))
              (record {
                back = ground (arith, e);
                full = ground (arith, e);
                actives = ground (arith, e);
              })
        | no d ↦
            IsChain-same (chain_at t j).links (chain_at (new_chain t i) j).links alive alive (xs j)
              (ground (arith, d)) (ground (arith, d)) (ground (arith, d))
              (λ x k. (record { active_next = refl; prev = refl; next = refl }, refl))
              (h.chains j (ground (arith, m, off, d)))
      ];
      absent = λ j m. h.absent j (ground (arith, m, off));
      within = λ j m. ground (arith, m, off, h.within j);
      places = h.places;
      members = h.members;
      functions = h.functions;
      below = h.below;
      positive = h.positive;
    };
    fd = refl;
    event_mask = refl;
    next_link = refl;
    function = refl;
    inactive = refl;
    inactive_next = refl;
    still_made = λ j m. ground (arith, m);
  },
  ground (arith, off),
)

IsGrown-trans :
    (t : Table) (alive : ℕ → Bool) (xs : ℕ → List ℕ) (u v : Table)
    → IsGrown t alive xs u
    → IsGrown u alive xs v
    → IsGrown t alive xs v
IsGrown-trans t alive xs u v a b = record {
  valid = b.valid;
  fd = b.fd ∙ a.fd;
  event_mask = b.event_mask ∙ a.event_mask;
  next_link = b.next_link ∙ a.next_link;
  function = b.function ∙ a.function;
  inactive = b.inactive ∙ a.inactive;
  inactive_next = b.inactive_next ∙ a.inactive_next;
  still_made = λ i m. b.still_made i (a.still_made i m);
}

-- What a call for the chain of entry `i` comes to: the chain is there, or memory is short and all
-- chains are as they were. `enough` says which.
pub data Got (t : Table) (alive : ℕ → Bool) (xs : ℕ → List ℕ) (i : ℕ) (enough : Bool) (r : Created)
    : Type 0 where
  got :
      (u : Table)
      → r ≡ created u
      → IsGrown t alive xs u
      → u.cookies.made i ≡ true
      → enough ≡ true
      → Got t alive xs i enough r
  short :
      (u : Table)
      → r ≡ bad_alloc u
      → IsGrown t alive xs u
      → enough ≡ false
      → Got t alive xs i enough r

add_chain-Got :
    (m : Memory) (t : Table) (alive : ℕ → Bool) (xs : ℕ → List ℕ) (i : ℕ)
    → IsTable t alive xs
    → i < t.capacity
    → Got t alive xs i (t.cookies.made i || m.chain_fits) (add_chain m t i)
unfolding add_chain
add_chain-Got m t alive xs i h l = elim (Bool-cases (t.cookies.made i)) [
  | inl on ↦ got t (rw (on) refl) (IsGrown-refl t alive xs h) on (rw (on) refl)
  | inr off ↦ elim (Bool-cases m.chain_fits) [
    | inl fits ↦
        let (g, made) = new_chain-IsGrown t alive xs i h l off in
        got (new_chain t i) (rw (off, fits) refl) g made (rw (off, fits) refl)
    | inr none_left ↦
        short t (rw (off, none_left) refl) (IsGrown-refl t alive xs h) (rw (off, none_left) refl)
  ]
]

-- Whether `get_create_chain` can succeed: the descriptor is not negative, and what has to be
-- allocated fits.
abbrev pub has_room : Memory → Table → ℕ → Bool
has_room m t i =
    not (leb 9223372036854775808 i)
    && ((not (leb t.capacity i) || m.table_fits) && (t.cookies.made i || m.chain_fits))

Got-enough :
    (t u : Table) (alive : ℕ → Bool) (xs : ℕ → List ℕ) (i : ℕ) (a b : Bool) (r : Created)
    → a ≡ b
    → IsGrown t alive xs u
    → Got u alive xs i a r
    → Got t alive xs i b r
Got-enough t u alive xs i a b r e g (got v w k made y) =
    got v w (IsGrown-trans t alive xs u v g k) made (sym e ∙ y)
Got-enough t u alive xs i a b r e g (short v w k n) =
    short v w (IsGrown-trans t alive xs u v g k) (sym e ∙ n)

extend-made :
    (m : Memory) (t : Table) (alive : ℕ → Bool) (xs : ℕ → List ℕ) (i : ℕ)
    → IsTable t alive xs
    → t.capacity ≤ i
    → ((extend_table t (i + 1)).cookies.made i || m.chain_fits) ≡ (t.cookies.made i || m.chain_fits)
unfolding extend_table
extend-made m t alive xs i h l = ground (arith, h.within i)

above-Got :
    (m : Memory) (t : Table) (alive : ℕ → Bool) (xs : ℕ → List ℕ) (i : ℕ) (fits : Bool)
    → IsTable t alive xs
    → t.capacity ≤ i
    → Got t alive xs i
        (fits && (t.cookies.made i || m.chain_fits))
        (if fits then add_chain m (extend_table t (i + 1)) i else bad_alloc t)
above-Got m t alive xs i true h l =
    let (g, k) = extend-IsGrown t alive xs (i + 1) h (omega (arith, l)) in
    Got-enough t (extend_table t (i + 1)) alive xs i _ _ _ (extend-made m t alive xs i h l) g
      (add_chain-Got m (extend_table t (i + 1)) alive xs i g.valid (omega (arith, k)))
above-Got m t alive xs i false h l = short t refl (IsGrown-refl t alive xs h) refl

pub get_create_chain-Got :
    (m : Memory) (t : Table) (alive : ℕ → Bool) (xs : ℕ → List ℕ) (i : ℕ)
    → IsTable t alive xs
    → Got t alive xs i (has_room m t i) (get_create_chain m t i)
unfolding get_create_chain
get_create_chain-Got m t alive xs i h = elim (Bool-cases (leb 9223372036854775808 i)) [
  | inl negative ↦ short t (rw (negative) refl) (IsGrown-refl t alive xs h) (rw (negative) refl)
  | inr natural ↦ elim (Bool-cases (leb t.capacity i)) [
    | inl above ↦
        rw (natural, above) (above-Got m t alive xs i m.table_fits h (ground (arith, above)))
    | inr inside ↦ rw (natural, inside) (add_chain-Got m t alive xs i h (ground (arith, inside)))
  ]
]
