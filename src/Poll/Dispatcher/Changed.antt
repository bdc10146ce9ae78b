-- ===== src/Poll/Dispatcher/Changed.antt =====
-- tscb/ioready-poll.cc: `modify` and `disconnect` of a link that is connected.
use native.Mathlib.Decide.{ℕ_discrete}
use libtscb.Base.{
  ℕ, ◌+◌, ◌-◌, ◌<◌, ◌≡◌, ◌≢◌, true, false, update, List, [], ◌∷◌, arith, refl, sym, ap, ◌∙◌,
}
use libtscb.Chain.Change.{null-IsFreeOf}
use libtscb.Chain.Frame.{IsFreeOf-ne}
use libtscb.Chain.Members.{IsDying-refl, IsDying-update}
use libtscb.Handlers.Chain.{Events, remove_link}
use libtscb.Handlers.Table.{Table, make_link, inserted, insert}
use libtscb.Handlers.Table
use libtscb.Handlers.Table.Valid.{alive-made}
use libtscb.Handlers.Table.Change.{modify-IsChanged, remove-IsChanged}
use libtscb.Handlers.Table.Removed.{same-HasRemoved, remove-HasRemoved}
use libtscb.Poll.{PollTable, leave, update_polltab_entry}
use libtscb.Poll.Table.{Watched, Holds, modified, left, update-Holds}
use libtscb.Poll.Changes.{leave-Holds}
use libtscb.Poll.Dispatcher.{Dispatcher}
use libtscb.Poll.Dispatcher.Grows.{Grows}
use libtscb.Poll.Dispatcher.Valid.{watched_of, IsDispatcher, Holds-same, left-count}

-- The counts and masks after a change of descriptor `i`, and what the table of descriptors holds.
pub changed-Holds :
    (v w : Watched) (t : PollTable) (i : ℕ)
    → Holds t v
    → (w.count i ≡ v.count i)
    → (w.mask i ≡ v.mask i)
    → ((j : ℕ) → j ≢ i → w.count j ≡ v.count j)
    → ((j : ℕ) → j ≢ i → w.mask j ≡ v.mask j)
    → Holds t w
changed-Holds v w t i h c m cs ms =
    Holds-same t v w
      (λ j. elim (ℕ_discrete j i) [ yes e ↦ ap w.count e ∙ c ∙ ap v.count (sym e) | no d ↦ cs j d ])
      (λ j. elim (ℕ_discrete j i) [ yes e ↦ ap w.mask e ∙ m ∙ ap v.mask (sym e) | no d ↦ ms j d ]) h

pub update-here : {A : Type 0} (f : ℕ → A) (i : ℕ) (a : A) → update f i a i ≡ a
update-here f i a = ground arith

pub update-there : {A : Type 0} (f : ℕ → A) (i j : ℕ) (a : A) → j ≢ i → update f i a j ≡ f j
update-there f i j a d = ground (arith, d)

-- The dispatcher after the change of a mask, and after a link has left.
abbrev pub modified_of : Dispatcher → ℕ → Events → Dispatcher
modified_of d p mask =
    let (t, before, after) = Table.modify d.table p mask in
    record d {
      table = t;
      polltab = update_polltab_entry d.polltab (t.fd p) after;
      wakeups = d.wakeups + 1;
    }

abbrev pub left_of : Dispatcher → ℕ → Dispatcher
left_of d p =
    let (t, before, after) = Table.remove d.table p in
    record d {
      table = t;
      connected = update d.connected p false;
      polltab = leave d.polltab (t.fd p) after;
      wakeups = d.wakeups + 1;
    }

pub modified-Grows :
    (d : Dispatcher) (xs : ℕ → List ℕ) (ds : List ℕ) (p : ℕ) (mask : Events)
    → d.connected p ≡ true
    → IsDispatcher d xs ds
    → Grows d xs (modified_of d p mask) true 0
unfolding Table.modify
modified-Grows d xs ds p mask on h =
    let i = d.table.fd p in
    let w = watched_of d.table d.connected xs in
    let (t, before, after) = Table.modify d.table p mask in
    let c = modify-IsChanged d.table d.connected xs h.valid p mask on in
    let some_link : 0 < w.count i = omega (arith, left-count d.table d.connected xs p h.valid on) in
    let tab = update_polltab_entry d.polltab i after in
    record {
      links = xs;
      waiting = ds;
      holds = record {
        valid = c.valid;
        removed = same-HasRemoved d.table t d.connected xs ds refl refl refl h.removed;
        polled =
            changed-Holds (modified w i after) (watched_of t d.connected xs) tab i
              (update-Holds d.polltab w h.polled i after some_link) refl
              (sym c.new_mask ∙ sym (update-here w.mask i after)) (λ j n. refl)
              (λ j n. c.other_masks j n ∙ sym (update-there w.mask i j after n));
      };
      new = λ j. [];
      grown = λ j. refl;
      few = λ j. omega arith;
      room = omega arith;
      dying = λ j. IsDying-refl d.connected (xs j);
      masks = λ e. absurd (ground (arith, e));
    }

pub left-IsDispatcher :
    (d : Dispatcher) (xs : ℕ → List ℕ) (ds : List ℕ) (p : ℕ)
    → d.connected p ≡ true
    → IsDispatcher d xs ds
    → IsDispatcher (left_of d p) xs (p ∷ ds)
unfolding Table.remove remove_link
left-IsDispatcher d xs ds p on h =
    let i = d.table.fd p in
    let w = watched_of d.table d.connected xs in
    let (t, before, after) = Table.remove d.table p in
    let c = remove-IsChanged d.table d.connected xs h.valid p on in
    let fewer = left-count d.table d.connected xs p h.valid on in
    let here = h.valid.members p on in
    let nonzero : p ≢ 0 = IsFreeOf-ne 0 p (xs i) here (
      null-IsFreeOf d.table.prev (d.table.last_of i) (xs i)
        (h.valid.chains i (alive-made d.table d.connected xs h.valid p on)).back) in
    let alive' = update d.connected p false in
    let tab = leave d.polltab i after in
    record {
      valid = c.valid;
      removed = remove-HasRemoved d.table d.connected xs p ds nonzero here on h.removed;
      polled =
          changed-Holds (left w i after) (watched_of t alive' xs) tab i
            (leave-Holds d.polltab w h.polled i after (omega (arith, fewer)))
            (omega (arith, fewer, update-here w.count i (w.count i - 1)))
            (sym c.new_mask ∙ sym (update-here w.mask i after))
            (λ j n. c.other_counts j n ∙ sym (update-there w.count i j (w.count i - 1) n))
            (λ j n. c.other_masks j n ∙ sym (update-there w.mask i j after n));
    }

pub left-Grows :
    (d : Dispatcher) (xs : ℕ → List ℕ) (ds : List ℕ) (p : ℕ)
    → d.connected p ≡ true
    → IsDispatcher d xs ds
    → Grows d xs (left_of d p) false 0
unfolding Table.remove remove_link
left-Grows d xs ds p on h = record {
  links = xs;
  waiting = p ∷ ds;
  holds = left-IsDispatcher d xs ds p on h;
  new = λ j. [];
  grown = λ j. refl;
  few = λ j. omega arith;
  room = omega arith;
  dying = λ j. IsDying-update d.connected p (xs j);
  masks = λ e j x k. refl;
}
