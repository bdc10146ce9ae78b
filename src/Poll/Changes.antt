-- ===== src/Poll/Changes.antt =====
-- tscb/ioready-poll.cc: sequences of `watch`, `modify` and `disconnect`, as far as the table of
-- descriptors goes.
use mathlib.Core.Path.{subst}
use native.Mathlib.Decide.{ℕ_discrete, dec_lt}
use libtscb.Base.{ℕ, ◌+◌, ◌<◌, ◌≤◌, ◌≡◌, true, false, ltb, List, [], ◌∷◌, update, arith, refl, sym}
use libtscb.Handlers.Chain.{Events}
use libtscb.Poll.{
  PollTable, resize_index, allocate_polltab_entry, update_polltab_entry, free_polltab_entry, enter,
  leave, Change, watching, modifying, leaving, run_change, run_changes,
}
use libtscb.Poll.Table.{
  Watched, Holds, entered, modified, left, update-Holds, resize-Holds, enter_new, enter_again,
  free_kept, free_last,
}

enter-resize :
    (t : PollTable) (fd : ℕ) (mask : Events)
    → t.index_size ≤ fd
    → enter t fd mask ≡ enter (resize_index t (fd + 1)) fd mask
unfolding enter allocate_polltab_entry resize_index
enter-resize t fd mask l =
    let above : ltb fd t.index_size ≡ false = ground (arith, l) in
    let below : ltb fd (fd + 1) ≡ true = ground arith in rw (above, below) refl

enter_inside :
    (t : PollTable) (w : Watched)
    → Holds t w
    → (fd : ℕ) (mask : Events) → fd < t.index_size
    → w.count fd < 18446744073709551615
    → Holds (enter t fd mask) (entered w fd mask)
enter_inside t w h fd mask l b = elim (ℕ_discrete (w.count fd) 0) [
  | yes z ↦ enter_new t w h fd mask l z
  | no z ↦ enter_again t w h fd mask l (omega arith) b
]

pub enter-Holds :
    (t : PollTable) (w : Watched)
    → Holds t w
    → (fd : ℕ) (mask : Events) → w.count fd < 18446744073709551615
    → Holds (enter t fd mask) (entered w fd mask)
unfolding resize_index
enter-Holds t w h fd mask b = elim (dec_lt fd t.index_size) [
  | yes l ↦ enter_inside t w h fd mask l b
  | no l ↦
      let above : t.index_size ≤ fd = omega (arith, l) in
      let g = resize_index t (fd + 1) in
      subst (λ u. Holds u (entered w fd mask)) (sym (enter-resize t fd mask above))
        (enter_inside g w (resize-Holds t w h (fd + 1) (omega arith)) fd mask (omega arith) b)
]

pub leave-Holds :
    (t : PollTable) (w : Watched)
    → Holds t w
    → (fd : ℕ) (mask : Events) → 0 < w.count fd
    → Holds (leave t fd mask) (left w fd mask)
unfolding leave
leave-Holds t w h fd mask l =
    let u = update_polltab_entry t fd mask in
    let i = update-Holds t w h fd mask l in
    elim (ℕ_discrete (w.count fd) 1) [
      | yes z ↦
          subst
            (λ n.
              Holds (free_polltab_entry u fd)
                (record { count = update w.count fd n; mask = update w.mask fd mask }))
            (omega arith) (free_last u (modified w fd mask) i fd z)
      | no z ↦ free_kept u (modified w fd mask) i fd (omega arith)
    ]

-- What the changes make of the descriptors that are watched.
abbrev pub changed : Change → Watched → Watched
changed (watching fd mask) w = entered w fd mask
changed (modifying fd mask) w = modified w fd mask
changed (leaving fd mask) w = left w fd mask

abbrev pub changed_all : List Change → Watched → Watched
changed_all [] w = w
changed_all (c ∷ cs) w = changed_all cs (changed c w)

-- A descriptor that is watched less than 2 ^ 64 - 1 times may be watched once more; one that is
-- watched may be modified or left.
abbrev pub IsAllowed : Change → Watched → Type 0
IsAllowed (watching fd mask) w = w.count fd < 18446744073709551615
IsAllowed (modifying fd mask) w = 0 < w.count fd
IsAllowed (leaving fd mask) w = 0 < w.count fd

abbrev pub AreAllowed : List Change → Watched → Type 0
AreAllowed [] w = Unit
AreAllowed (c ∷ cs) w = IsAllowed c w × AreAllowed cs (changed c w)

run_change-Holds :
    (c : Change) (t : PollTable) (w : Watched)
    → Holds t w
    → IsAllowed c w
    → Holds (run_change c t) (changed c w)
unfolding run_change
run_change-Holds (watching fd mask) t w h a = enter-Holds t w h fd mask a
run_change-Holds (modifying fd mask) t w h a = update-Holds t w h fd mask a
run_change-Holds (leaving fd mask) t w h a = leave-Holds t w h fd mask a

-- Descriptors are watched, their masks are modified and they are left, in any order, where only
-- watched ones are modified and left and none is watched 2 ^ 64 times at once: the table that is given
-- to `poll` has exactly one entry for each descriptor that is still watched, with the events of its
-- last mask, and no other entry.
pub run_changes-Holds :
    (cs : List Change) (t : PollTable) (w : Watched)
    → Holds t w
    → AreAllowed cs w
    → Holds (run_changes cs t) (changed_all cs w)
unfolding run_changes
run_changes-Holds [] t w h a = h
run_changes-Holds (c ∷ cs) t w h (a, b) =
    run_changes-Holds cs (run_change c t) (changed c w) (run_change-Holds c t w h a) b
