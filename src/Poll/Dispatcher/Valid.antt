-- ===== src/Poll/Dispatcher/Valid.antt =====
-- tscb/ioready-poll.cc: the invariant of a dispatcher, and its counts of links.
use mathlib.Core.Path.{subst, fun_ext}
use libtscb.Base.{
  ℕ, suc, ◌+◌, ◌<◌, ◌≡◌, inl, inr, Bool, true, false, Bool-cases, update, List, ◌∷◌, arith, sym, ap,
  ◌∙◌,
}
use libtscb.Chain.Active.{IsFreeOf, size}
use libtscb.Chain.Change.{back-middle, IsChain}
use libtscb.Chain.Distinct.{back-size}
use libtscb.Chain.Members.{Around, around, IsIn-Around}
use libtscb.Chain.Waiting.{kept, kept_dies, kept-update, size-kept}
use libtscb.Handlers.Table.{Table, chain_at}
use libtscb.Handlers.Table.Valid.{IsTable, alive-made}
use libtscb.Handlers.Table.Effect.{mask_at, count_at, HasRemoved}
use libtscb.Poll.{PollTable}
use libtscb.Poll.Table.{Watched, Holds}
use libtscb.Poll.Dispatcher.{Dispatcher}

-- What the links ask of `poll`: each descriptor counts for its active links, with their masks.
abbrev pub watched_of : Table → (ℕ → Bool) → (ℕ → List ℕ) → Watched
watched_of t alive xs = record { count = count_at alive xs; mask = mask_at t alive xs }

-- The chains are `xs`, and `ds` are the links that were removed and are not released yet.
pub record IsDispatcher (d : Dispatcher) (xs : ℕ → List ℕ) (ds : List ℕ) : Type 0 where
  pub valid : IsTable d.table d.connected xs
  pub removed : HasRemoved d.table d.connected xs ds
  pub polled : Holds d.polltab (watched_of d.table d.connected xs)

pub Holds-same :
    (t : PollTable) (v w : Watched)
    → ((i : ℕ) → w.count i ≡ v.count i)
    → ((i : ℕ) → w.mask i ≡ v.mask i)
    → Holds t v
    → Holds t w
Holds-same t v w c m h =
    let a : w.count ≡ v.count = fun_ext c in
    let b : w.mask ≡ v.mask = fun_ext m in
    subst (λ n. Holds t (record { count = n; mask = w.mask })) (sym a)
      (subst (λ n. Holds t (record { count = v.count; mask = n })) (sym b) h)

-- A descriptor counts one more for a link that joins, and one less for a link that leaves.
pub joined-count :
    (alive : ℕ → Bool) (xs : ℕ → List ℕ) (i p : ℕ)
    → IsFreeOf p (xs i)
    → count_at (update alive p true) (update xs i (p ∷ xs i)) i ≡ count_at alive xs i + 1
joined-count alive xs i p f =
    let here : update xs i (p ∷ xs i) i ≡ p ∷ xs i = ground arith in
    let on : update alive p true p ≡ true = ground arith in
    ap (λ l. size (kept (update alive p true) l)) here
    ∙ rw (on) (omega (arith, ap size (kept-update alive p true (xs i) f)))

split_count :
    (t : Table) (alive : ℕ → Bool) (xs : ℕ → List ℕ) (p : ℕ)
    → IsTable t alive xs
    → alive p ≡ true
    → Around p (xs (t.fd p))
    → count_at alive xs (t.fd p) ≡ suc (count_at (update alive p false) xs (t.fd p))
split_count t alive xs p h on (around later sooner e) =
    let c =
      subst (λ l. IsChain (chain_at t (t.fd p)).links alive l) e
        (h.chains (t.fd p) (alive-made t alive xs h p on)) in
    let (z, f, g, k) = back-middle t.prev (t.last_of (t.fd p)) p later sooner c.back in
    rw (e) (kept_dies alive p later sooner on f g)

pub left-count :
    (t : Table) (alive : ℕ → Bool) (xs : ℕ → List ℕ) (p : ℕ)
    → IsTable t alive xs
    → alive p ≡ true
    → count_at alive xs (t.fd p) ≡ suc (count_at (update alive p false) xs (t.fd p))
left-count t alive xs p h on =
    split_count t alive xs p h on (IsIn-Around p (xs (t.fd p)) (h.members p on))

pub count-few :
    (t : Table) (alive : ℕ → Bool) (xs : ℕ → List ℕ) (i : ℕ)
    → IsTable t alive xs
    → count_at alive xs i < t.next_link
count-few t alive xs i h = elim (Bool-cases (t.cookies.made i)) [
  | inl m ↦ omega (
    arith,
    size-kept alive (xs i),
    back-size t.prev (t.last_of i) t.next_link (xs i) h.positive (h.chains i m).back (h.below i),
  )
  | inr off ↦ rw (h.absent i off) h.positive
]
