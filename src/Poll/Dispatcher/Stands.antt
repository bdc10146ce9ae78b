-- ===== src/Poll/Dispatcher/Stands.antt =====
-- tscb/ioready-poll.cc: the end of a write guard, and `synchronize`.
use libtscb.Base.{
  ℕ, ◌≡◌, inl, inr, Bool, true, false, Bool-cases, if◌then◌else◌, List, [], ◌∷◌, refl, ap, ◌∙◌,
}
use libtscb.Chain.Active.{size}
use libtscb.Chain.Waiting.{kept, kept_covered, kept-IsCovered}
use libtscb.Handlers.Chain.Masks.{mask_of, onto, actives_of}
use libtscb.Handlers.Table.Synchronize.{synchronize-IsSynchronized}
use libtscb.Poll.Table.{modified}
use libtscb.Poll.Dispatcher.{Dispatcher, synchronize, unlock}
use libtscb.Poll.Dispatcher.Grows.{Grows}
use libtscb.Poll.Dispatcher.Valid.{watched_of, IsDispatcher, Holds-same}

-- The dispatcher's chains and removed links.
pub record Stands (d : Dispatcher) : Type 0 where
  pub links : ℕ → List ℕ
  pub waiting : List ℕ
  pub holds : IsDispatcher d links waiting

onto-kept :
    (alive : ℕ → Bool) (xs acc : List ℕ) → onto alive (kept alive xs) acc ≡ onto alive xs acc
onto-kept alive [] acc = refl
onto-kept alive (x ∷ xs) acc = elim (Bool-cases (alive x)) [
  | inl on ↦ rw (on) (
      ap (λ b. onto alive (kept alive xs) (if b then x ∷ acc else acc)) on
      ∙ onto-kept alive xs (x ∷ acc))
  | inr off ↦ rw (off) (onto-kept alive xs acc)
]

synchronize-IsDispatcher :
    (d : Dispatcher) (xs : ℕ → List ℕ) (ds : List ℕ)
    → IsDispatcher d xs ds
    → IsDispatcher (synchronize d) (λ i. kept d.connected (xs i)) []
unfolding synchronize
synchronize-IsDispatcher d xs ds h =
    let s = synchronize-IsSynchronized d.table d.connected xs ds h.valid h.removed in
    record {
      valid = s.valid;
      removed = s.removed;
      polled =
          Holds-same d.polltab (watched_of d.table d.connected xs)
            (watched_of (synchronize d).table d.connected (λ i. kept d.connected (xs i)))
            (λ i. ap size (
              kept_covered d.connected (kept d.connected (xs i))
                (kept-IsCovered d.connected (xs i))))
            (λ i.
              ap (λ m. mask_of m (actives_of d.connected (kept d.connected (xs i)))) s.event_mask
              ∙ ap (mask_of d.table.event_mask) (onto-kept d.connected (xs i) []))
            h.polled;
    }

pub unlock-Stands : (sync : Bool) (d : Dispatcher) → Stands d → Stands (unlock sync d)
unlock-Stands true d h = record {
  links = λ i. kept d.connected (h.links i);
  waiting = [];
  holds = synchronize-IsDispatcher d h.links h.waiting h.holds;
}
unlock-Stands false d h = h

pub wakeups-Stands : (d : Dispatcher) (n : ℕ) → Stands d → Stands (record d { wakeups = n })
wakeups-Stands d n h = record {
  links = h.links;
  waiting = h.waiting;
  holds = record { valid = h.holds.valid; removed = h.holds.removed; polled = h.holds.polled };
}

pub Grows-Stands :
    (d : Dispatcher) (xs : ℕ → List ℕ) (e : Dispatcher) (modified : Bool) (k : ℕ)
    → Grows d xs e modified k
    → Stands e
Grows-Stands d xs e modified k g = record { links = g.links; waiting = g.waiting; holds = g.holds }

pub wakeups-Grows :
    (d : Dispatcher) (xs : ℕ → List ℕ) (e : Dispatcher) (modified : Bool) (k n : ℕ)
    → Grows d xs e modified k
    → Grows d xs (record e { wakeups = n }) modified k
wakeups-Grows d xs e modified k n g = record {
  links = g.links;
  waiting = g.waiting;
  holds = record { valid = g.holds.valid; removed = g.holds.removed; polled = g.holds.polled };
  new = g.new;
  grown = g.grown;
  few = g.few;
  room = g.room;
  dying = g.dying;
  masks = g.masks;
}
