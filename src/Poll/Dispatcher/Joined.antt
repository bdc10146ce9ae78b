-- ===== src/Poll/Dispatcher/Joined.antt =====
-- tscb/ioready-poll.cc: `watch` when there is memory.
use mathlib.Core.Path.{subst}
use libtscb.Base.{
  ℕ, ◌+◌, ◌<◌, ◌≡◌, ◌≢◌, Bool, true, false, update, List, [], ◌∷◌, arith, refl, sym, ap, ◌∙◌,
}
use libtscb.Chain.Frame.{IsFreeOf-ne}
use libtscb.Chain.Members.{IsDying-born}
use libtscb.Handlers.Chain.{Events}
use libtscb.Handlers.Table.{Table, make_link}
use libtscb.Handlers.Table.Effect.{IsChanged}
use libtscb.Handlers.Table.Grow.{has_room}
use libtscb.Handlers.Table.Insert.{IsKept, joins, refuses, insert-Inserts}
use libtscb.Handlers.Table.Removed.{joined-HasRemoved}
use libtscb.Poll.{enter, commit, allocate_polltab_entry}
use libtscb.Poll.Table.{Holds, entered}
use libtscb.Poll.Changes.{enter-Holds}
use libtscb.Poll.Dispatcher.{Dispatcher, watch, roomy, outcome, unlock}
use libtscb.Poll.Dispatcher.Grows.{Grows}
use libtscb.Handlers.Table.New.{
  make_link-IsTable, make_link-HasRemoved, make_link-mask, make_link-IsNew,
}
use libtscb.Poll.Dispatcher.Valid.{watched_of, IsDispatcher, joined-count, count-few}
use libtscb.Poll.Dispatcher.Changed.{changed-Holds, update-here, update-there}

-- The dispatcher once `insert` has joined the link.
abbrev joined_of : Dispatcher → ℕ → Table → Events → Dispatcher
joined_of d fd u after =
    let (entries, index) = allocate_polltab_entry d.polltab fd in
    record d {
      table = u;
      connected = update d.connected d.table.next_link true;
      polltab = commit entries index after;
    }

joined-Grows :
    (d : Dispatcher) (xs : ℕ → List ℕ) (ds : List ℕ) (f fd : ℕ) (mask : Events) (u : Table)
    (before after : Events)
    → IsDispatcher d xs ds
    → d.table.next_link < 18446744073709551615
    → let t = make_link d.table f fd mask in
      let p = d.table.next_link in
      let xs' = update xs (t.fd p) (p ∷ xs (t.fd p)) in
      IsKept t u
      → IsChanged t d.connected xs (t.fd p) u (update d.connected p true) xs' before after
      → Grows d xs (joined_of d fd u after) false 1
unfolding enter make_link
joined-Grows d xs ds f fd mask u before after h b k c =
    let t = make_link d.table f fd mask in
    let p = d.table.next_link in
    let i = t.fd p in
    let alive' = update d.connected p true in
    let xs' = update xs i (p ∷ xs i) in
    let v = h.valid in
    let w = watched_of d.table d.connected xs in
    let new = make_link-IsNew d.table d.connected xs f fd mask v in
    let few = count-few d.table d.connected xs fd v in
    let entered_here = enter-Holds d.polltab w h.polled fd after (omega (arith, few, b)) in
    let made_same = λ (j : ℕ). make_link-mask d.table d.connected xs f fd mask j v in
    let at : i ≡ fd = ground arith in
    let polled_at =
      subst (λ j. Holds (enter d.polltab fd after) (entered w j after)) (sym at) entered_here in
    record {
      links = xs';
      waiting = ds;
      holds = record {
        valid = c.valid;
        removed =
            joined-HasRemoved t u d.connected xs i p ds k.fd k.inactive k.inactive_next new.free
              (make_link-HasRemoved d.table d.connected xs ds f fd mask v h.removed);
        polled =
            changed-Holds (entered w i after) (watched_of u alive' xs') (enter d.polltab fd after) i
              polled_at
              (joined-count d.connected xs i p (new.free i)
                ∙ sym (update-here w.count i (w.count i + 1)))
              (sym c.new_mask ∙ sym (update-here w.mask i after))
              (λ j n. c.other_counts j n ∙ sym (update-there w.count i j (w.count i + 1) n))
              (λ j n. c.other_masks j n ∙ made_same j ∙ sym (update-there w.mask i j after n));
      };
      new = update (λ j. []) i (p ∷ []);
      grown = λ j. ground arith;
      few = λ j. ground arith;
      room = omega (arith, k.next_link);
      dying = λ j. IsDying-born d.connected p (xs j) (new.free j);
      masks = λ e j x m.
          let other : x ≢ p = IsFreeOf-ne p x (xs j) m (new.free j) in
          ap (λ g. g x) k.event_mask ∙ ground (arith, other);
    }

made-has_room :
    (t : Table) (f fd : ℕ) (mask : Events)
    → fd < 9223372036854775808
    → has_room roomy (make_link t f fd mask) ((make_link t f fd mask).fd t.next_link) ≡ true
unfolding make_link
made-has_room t f fd mask l = ground (arith, l)

-- A `watch` that finds memory.
pub record Joins (d : Dispatcher) (xs : ℕ → List ℕ) (f fd : ℕ) (mask : Events) (sync : Bool)
    : Type 0 where
  pub after : Dispatcher
  pub grows : Grows d xs after false 1
  pub made :
      outcome (watch roomy d f fd mask sync)
      ≡ record (unlock sync after) { wakeups = d.wakeups + 1 }

pub watch-Joins :
    (d : Dispatcher) (xs : ℕ → List ℕ) (ds : List ℕ) (f fd : ℕ) (mask : Events) (sync : Bool)
    → fd < 9223372036854775808
    → d.table.next_link < 18446744073709551615
    → IsDispatcher d xs ds
    → Joins d xs f fd mask sync
unfolding watch
watch-Joins d xs ds f fd mask sync l b h =
    let t = make_link d.table f fd mask in
    let p = d.table.next_link in
    let room : has_room roomy t (t.fd p) ≡ true = made-has_room d.table f fd mask l in
    elim (insert-Inserts roomy t d.connected xs p
      (make_link-IsTable d.table d.connected xs f fd mask h.valid)
      (make_link-IsNew d.table d.connected xs f fd mask h.valid)) [
        | refuses u n e g ↦ absurd (ground (arith, room, n))
        | joins u before after y e k c ↦ record {
          after = joined_of d fd u after;
          grows = joined-Grows d xs ds f fd mask u before after h b k c;
          made = rw (watch, e) refl;
        }
      ]
