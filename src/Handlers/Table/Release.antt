-- ===== src/Handlers/Table/Release.antt =====
-- tscb/detail/fd-handler-table.cc: `delayed_handler_release::clear`.
use libtscb.Base.{
  ℕ, zero, suc, ◌<◌, ◌≡◌, ◌==◌, false, none, update, List, [], ◌∷◌, arith, refl, ◌∙◌,
}
use libtscb.Lock.Deferred.{fetch_sub}
use libtscb.Chain.Active.{IsFreeOf, size}
use libtscb.Chain.Distinct.{IsDistinct}
use libtscb.Chain.Waiting.{IsDeferred, HasNone}
use libtscb.Handlers.Table.{Table, release}

-- What the release of `ds` does to a table.
pub record IsReleased (t u : Table) (ds : List ℕ) : Type 0 where
  pub same : u ≡ record t { function = u.function; refs = u.refs }
  pub dropped : HasNone u.function ds
  pub others : (q : ℕ) → IsFreeOf q ds → u.function q ≡ t.function q

pub release-IsReleased :
    (n : ℕ) (t : Table) (p : ℕ) (ds : List ℕ)
    → size ds < n
    → IsDeferred t.inactive_next p ds
    → IsDistinct ds
    → IsReleased t (release n t p) ds
unfolding release
release-IsReleased zero t p ds l w k = absurd (omega arith)
release-IsReleased (suc n) t p [] l w k =
    rw (w) (record { same = refl; dropped = tt; others = λ q f. refl })
release-IsReleased (suc n) t p (d ∷ ds) l w k =
    let b : (d == 0) ≡ false = ground (arith, w.1) in
    let u = record t {
      function = update t.function d none;
      refs = update t.refs d (fetch_sub (t.refs d));
    } in
    let h = release-IsReleased n u (t.inactive_next d) ds (omega arith) w.2 k.1 in
    rw (w.0, b)
      (record {
        same = h.same;
        dropped = (h.others d k.0 ∙ ground arith, h.dropped);
        others = λ q f. h.others q f.1 ∙ ground (arith, f.0);
      })
