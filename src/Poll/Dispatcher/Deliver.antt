-- ===== src/Poll/Dispatcher/Deliver.antt =====
-- tscb/ioready-poll.cc: `dispatch`, with `poll`, the lock's answers and the callbacks as parameters.
use mathlib.Core.Path.{subst}
use libtscb.Base.{
  ℕ, ◌+◌, ◌≤◌, ◌≡◌, ◌≢◌, Bool, true, false, Option, none, some, List, [], ◌∷◌, arith, refl, sym,
}
use libtscb.Handlers.Chain.{Events}
use libtscb.Handlers.Table.{Round, Notified, done, threw, endless}
use libtscb.Poll.Handle.{notify_all}
use libtscb.Poll.Dispatcher.{Dispatcher, Call, notify, deliver}
use libtscb.Poll.Dispatcher.Inside.{watches}
use libtscb.Poll.Dispatcher.Stands.{Stands}
use libtscb.Poll.Dispatcher.Visit.{AreTame}
use libtscb.Poll.Dispatcher.Walk.{Ends}
use libtscb.Poll.Dispatcher.Notify.{
  Notifies, notify-Notifies, notify-Ends, StandsAfter, Notifies-StandsAfter,
}

-- The notifications of the descriptors in turn, up to the first whose callback throws. Each is what
-- `notify-Notifies` says, at a dispatcher whose tables are together.
pub data Delivers (cookie : ℕ) (exact : Bool)
    : Dispatcher → List (ℕ × Events) → Option Dispatcher → Bool → Type 0 where
  finished : {d : Dispatcher} → Stands d → Delivers cookie exact d [] (some d) false
  going_on :
      {d e : Dispatcher} {fd : ℕ} {events : Events} {rest : List (ℕ × Events)}
      {r : Option Dispatcher} {thrown : Bool} (h : Stands d) (log : List Round)
      → Notifies d (h.links fd) fd events cookie exact (done e log)
      → Delivers cookie exact e rest r thrown
      → Delivers cookie exact d ((fd, events) ∷ rest) r thrown
  stopping :
      {d e : Dispatcher} {fd : ℕ} {events : Events} {rest : List (ℕ × Events)} (h : Stands d)
      (log : List Round)
      → Notifies d (h.links fd) fd events cookie exact (threw e log)
      → Stands e
      → Delivers cookie exact d ((fd, events) ∷ rest) (some e) true
  looping :
      {d : Dispatcher} {fd : ℕ} {events : Events} {rest : List (ℕ × Events)} (h : Stands d)
      → Notifies d (h.links fd) fd events cookie exact endless
      → Delivers cookie exact d ((fd, events) ∷ rest) none true

abbrev pub StandsAt : Option Dispatcher → Type 0
StandsAt none = Unit
StandsAt (some d) = Stands d

pub Delivers-StandsAt :
    (cookie : ℕ) (exact : Bool) (d : Dispatcher) (xs : List (ℕ × Events)) (r : Option Dispatcher)
    (thrown : Bool)
    → Delivers cookie exact d xs r thrown
    → StandsAt r
Delivers-StandsAt cookie exact d [] (some e) false (finished h) = h
Delivers-StandsAt cookie exact d [] none thrown k = elim k [ ]
Delivers-StandsAt cookie exact d [] (some e) true k = elim k [ ]
Delivers-StandsAt cookie exact d (x ∷ rest) r thrown (going_on h log k m) =
    Delivers-StandsAt cookie exact _ rest r thrown m
Delivers-StandsAt cookie exact d (x ∷ rest) (some e) true (stopping h log k w) = w
Delivers-StandsAt cookie exact d (x ∷ rest) none true (looping h k) = tt

module _ (act : ℕ → Events → Dispatcher → List Call × Bool) (exact : Bool)
    (tame : AreTame act exact) (n cookie : ℕ) where
  -- What comes after a notification that came to `q`.
  abbrev pub following : List (ℕ × Events) → ℕ → Notified Dispatcher → Option Dispatcher × ℕ × Bool
  following rest count (done e log) = notify_all (deliver act n cookie) rest (count + 1) (some e)
  following rest count (threw e log) = (some e, count, true)
  following rest count endless = (none, count, true)

  pub notify_all-following :
      (fd : ℕ) (events : Events) (rest : List (ℕ × Events)) (count : ℕ) (d : Dispatcher)
      (q : Notified Dispatcher)
      → notify act n d fd events cookie ≡ q
      → notify_all (deliver act n cookie) ((fd, events) ∷ rest) count (some d)
        ≡ following rest count q
  unfolding deliver
  notify_all-following fd events rest count d (done e log) w = rw (w, deliver) refl
  notify_all-following fd events rest count d (threw e log) w = rw (w, deliver) refl
  notify_all-following fd events rest count d endless w = rw (w, deliver) refl

  pub deliver_all-Delivers :
      (xs : List (ℕ × Events)) (count : ℕ) (d : Dispatcher)
      → Stands d
      → let r = notify_all (deliver act n cookie) xs count (some d) in
        Delivers cookie exact d xs r.0 r.2
  deliver_all-Delivers [] count d h = finished h
  deliver_all-Delivers ((fd, events) ∷ rest) count d h =
      let q = notify act n d fd events cookie in
      let k = notify-Notifies act exact tame d h.links h.waiting h.holds fd events cookie n in
      subst (λ r. Delivers cookie exact d ((fd, events) ∷ rest) r.0 r.2)
        (sym (notify_all-following fd events rest count d q refl))
        (go q k (Notifies-StandsAfter d (h.links fd) fd events cookie exact q h k)
          (λ e. deliver_all-Delivers rest (count + 1) e))
    where
      go :
          (q : Notified Dispatcher)
          → Notifies d (h.links fd) fd events cookie exact q
          → StandsAfter q
          → ((e : Dispatcher)
              → Stands e
              → let r = notify_all (deliver act n cookie) rest (count + 1) (some e) in
                Delivers cookie exact e rest r.0 r.2)
          → let r = following rest count q in Delivers cookie exact d ((fd, events) ∷ rest) r.0 r.2
      go (done e log) k w ih = going_on h log k (ih e w)
      go (threw e log) k w ih = stopping h log k w
      go endless k w ih = looping h k

  pub deliver_all_ends :
      ((f : ℕ) (e : Events) (d : Dispatcher) → watches (act f e d).0 ≡ 0)
      → (xs : List (ℕ × Events)) (count : ℕ) (d : Dispatcher) → Stands d
      → d.table.next_link ≤ n
      → (notify_all (deliver act n cookie) xs count (some d)).0 ≢ none
  deliver_all_ends quiet [] count d h l = λ e. cc
  deliver_all_ends quiet ((fd, events) ∷ rest) count d h l =
      let q = notify act n d fd events cookie in
      let k = notify-Notifies act exact tame d h.links h.waiting h.holds fd events cookie n in
      subst (λ r. r.0 ≢ none) (sym (notify_all-following fd events rest count d q refl))
        (go q (Notifies-StandsAfter d (h.links fd) fd events cookie exact q h k)
          (notify-Ends act exact tame d h.links h.waiting h.holds fd events cookie quiet n l)
          (λ e w m. deliver_all_ends quiet rest (count + 1) e w (omega (arith, l, m))))
    where
      go :
          (q : Notified Dispatcher)
          → StandsAfter q
          → Ends d.table.next_link q
          → ((e : Dispatcher)
              → Stands e
              → e.table.next_link ≤ d.table.next_link
              → (notify_all (deliver act n cookie) rest (count + 1) (some e)).0 ≢ none)
          → (following rest count q).0 ≢ none
      go (done e log) w m ih = ih e w m
      go (threw e log) w m ih = λ e. cc
      go endless w m ih = absurd m
