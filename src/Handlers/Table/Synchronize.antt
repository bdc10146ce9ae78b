-- ===== src/Handlers/Table/Synchronize.antt =====
-- tscb/detail/fd-handler-table.cc: `synchronize`, and the release of the removed links.
use mathlib.Core.Path.{subst}
use libtscb.Base.{ℕ, ◌<◌, ◌≡◌, inl, inr, Bool, Option, List, [], ◌∷◌, arith, refl, sym, ap, ◌∙◌}
use libtscb.Chain.Active.{IsFreeOf, size}
use libtscb.Chain.Distinct.{IsDistinct, distinct-size}
use libtscb.Chain.Members.{IsIn, IsBelow, HasFunctions}
use libtscb.Chain.Waiting.{kept, IsDeferred, HasNone, kept-IsCovered, kept-HasFunctions}
use libtscb.Handlers.Cookie.{sync_cookies}
use libtscb.Handlers.Table.{Table, unlink_all, synchronize, release}
use libtscb.Handlers.Table.Valid.{IsTable}
use libtscb.Handlers.Table.Effect.{IsPendingAt, HasRemoved, extra-IsTable}
use libtscb.Handlers.Table.Removed.{pending-IsFreeOf}
use libtscb.Handlers.Table.UnlinkAll.{unlink_all-IsUnlinked}
use libtscb.Handlers.Table.Release.{release-IsReleased}

IsPendingAt-IsDistinct :
    (alive : ℕ → Bool) (fd : ℕ → ℕ) (xs : ℕ → List ℕ) (ds : List ℕ)
    → IsPendingAt alive fd xs ds
    → IsDistinct ds
IsPendingAt-IsDistinct alive fd xs [] h = tt
IsPendingAt-IsDistinct alive fd xs (d ∷ ds) h = (h.2, IsPendingAt-IsDistinct alive fd xs ds h.3)

below-IsIn : (n p : ℕ) (xs : List ℕ) → IsIn p xs → IsBelow n xs → p < n
below-IsIn n p [] k b = absurd k
below-IsIn n p (x ∷ xs) (inl e) b = omega (arith, e, b.0)
below-IsIn n p (x ∷ xs) (inr k) b = below-IsIn n p xs k b.1

IsPendingAt-IsBelow :
    (t : Table) (alive : ℕ → Bool) (xs : ℕ → List ℕ) (ds : List ℕ)
    → IsTable t alive xs
    → IsPendingAt alive t.fd xs ds
    → IsBelow t.next_link ds
IsPendingAt-IsBelow t alive xs [] h d = tt
IsPendingAt-IsBelow t alive xs (d ∷ ds) h p = (
  below-IsIn t.next_link d (xs (t.fd d)) p.0 (h.below (t.fd d)),
  IsPendingAt-IsBelow t alive xs ds h p.3,
)

deferred-IsFreeOf : (next : ℕ → ℕ) (p : ℕ) (ds : List ℕ) → IsDeferred next p ds → IsFreeOf 0 ds
deferred-IsFreeOf next p [] w = tt
deferred-IsFreeOf next p (d ∷ ds) w = (w.1, deferred-IsFreeOf next (next d) ds w.2)

function-IsTable :
    (t : Table) (alive : ℕ → Bool) (xs : ℕ → List ℕ) (f : ℕ → Option ℕ) (r : ℕ → ℕ)
    → ((i : ℕ) → HasFunctions f (xs i))
    → IsTable t alive xs
    → IsTable (record t { function = f; refs = r }) alive xs
function-IsTable t alive xs f r k h = record {
  chains = h.chains;
  absent = h.absent;
  within = h.within;
  places = h.places;
  members = h.members;
  functions = k;
  below = h.below;
  positive = h.positive;
}

pub record IsSynchronized (t : Table) (alive : ℕ → Bool) (xs : ℕ → List ℕ) (ds : List ℕ) (u : Table)
    : Type 0 where
  pub valid : IsTable u alive (λ i. kept alive (xs i))
  pub removed : HasRemoved u alive (λ i. kept alive (xs i)) []
  pub released : HasNone u.function ds
  pub others : (q : ℕ) → IsFreeOf q ds → u.function q ≡ t.function q
  pub fd : u.fd ≡ t.fd
  pub event_mask : u.event_mask ≡ t.event_mask
  pub next_link : u.next_link ≡ t.next_link
  pub old : u.old ≡ []

-- `synchronize` and the release of what it hands out: each chain keeps exactly its active links, in
-- their order, with their masks and functions; the removed links are in no list any more and have lost
-- their functions, and no replaced table is left.
pub synchronize-IsSynchronized :
    (t : Table) (alive : ℕ → Bool) (xs : ℕ → List ℕ) (ds : List ℕ)
    → IsTable t alive xs
    → HasRemoved t alive xs ds
    → let (u, p) = synchronize t in IsSynchronized t alive xs ds (release u.next_link u p)
unfolding synchronize sync_cookies
synchronize-IsSynchronized t alive xs ds h k =
    let distinct = IsPendingAt-IsDistinct alive t.fd xs ds k.pending in
    let short : size ds < t.next_link = omega (
      arith,
      h.positive,
      distinct-size t.next_link (0 ∷ ds)
          (deferred-IsFreeOf t.inactive_next t.inactive ds k.listed, distinct)
          (h.positive, IsPendingAt-IsBelow t alive xs ds h k.pending),
    ) in
    let cleared = record t { old = [] } in
    let v = unlink_all t.next_link cleared t.inactive in
    let w =
      unlink_all-IsUnlinked t.next_link cleared alive xs t.inactive ds short
        (extra-IsTable t alive xs t.cookies t.refs t.inactive_next t.inactive [] (λ i. refl) h)
        k.listed k.pending k.covered in
    let u = record v { cookies = sync_cookies v.cookies; inactive = 0 } in
    let r =
      release-IsReleased u.next_link u v.inactive ds (omega (arith, w.next_link, short))
        (subst (λ n. IsDeferred n v.inactive ds) (sym w.inactive_next)
          (subst (λ p. IsDeferred t.inactive_next p ds) (sym w.inactive) k.listed))
        distinct in
    let z = release u.next_link u v.inactive in
    let valid =
      function-IsTable u alive (λ i. kept alive (xs i)) z.function z.refs
        (λ i.
          kept-HasFunctions alive t.function z.function (xs i)
            (λ q on.
              r.others q (pending-IsFreeOf alive t.fd xs q ds on k.pending)
              ∙ ap (λ f. f q) w.function)
            (h.functions i))
        (extra-IsTable v alive (λ i. kept alive (xs i)) (sync_cookies v.cookies) v.refs
          v.inactive_next 0 v.old (λ i. refl) w.valid) in
    record {
      valid = subst (λ q. IsTable q alive (λ i. kept alive (xs i))) (sym r.same) valid;
      removed =
          subst (λ q. HasRemoved q alive (λ i. kept alive (xs i)) []) (sym r.same)
            (record { listed = refl; pending = tt; covered = λ i. kept-IsCovered alive (xs i) });
      released = r.dropped;
      others = λ q f. r.others q f ∙ ap (λ g. g q) w.function;
      fd = ap (λ (q : Table). q.fd) r.same ∙ w.fd;
      event_mask = ap (λ (q : Table). q.event_mask) r.same ∙ w.event_mask;
      next_link = ap (λ (q : Table). q.next_link) r.same ∙ w.next_link;
      old = ap (λ (q : Table). q.old) r.same ∙ w.old;
    }
