-- ===== src/Handlers/Chain/Masks.antt =====
-- tscb/detail/fd-handler-table.cc: the walks over the active links, and the union of event masks.
use mathlib.Core.Path.{subst}
use libtscb.Base.{
  ℕ, zero, suc, ◌+◌, ◌<◌, ◌≤◌, ◌≡◌, ◌≢◌, ◌||◌, Bool, true, false, Bool-cases, if◌then◌else◌, update,
  List, [], ◌∷◌, ◌++◌, arith, refl, inl, inr, sym, ap, ◌∙◌,
}
use libtscb.Chain.{ActiveList}
use libtscb.Handlers.Chain.{
  Events, events_none, events_or, events_and, events_any, HandlerChain, collect_mask,
  compute_event_mask, notify_from,
}
use libtscb.Chain.Active.{IsFreeOf, size, IsBack, IsActive}

or_assoc : (a b c : Bool) → ((a || b) || c) ≡ (a || (b || c))
or_assoc true b c = refl
or_assoc false b c = refl

or_comm : (a b : Bool) → (a || b) ≡ (b || a)
or_comm true true = refl
or_comm true false = refl
or_comm false true = refl
or_comm false false = refl

pub events_or_assoc : (a b c : Events) → events_or (events_or a b) c ≡ events_or a (events_or b c)
unfolding events_or
events_or_assoc a b c = cc (
  or_assoc a.input b.input c.input,
  or_assoc a.output b.output c.output,
  or_assoc a.error b.error c.error,
  or_assoc a.hangup b.hangup c.hangup,
)

pub events_or_comm : (a b : Events) → events_or a b ≡ events_or b a
unfolding events_or
events_or_comm a b = cc (
  or_comm a.input b.input,
  or_comm a.output b.output,
  or_comm a.error b.error,
  or_comm a.hangup b.hangup,
)

-- The active links, in the order in which they were registered, before those of `acc`.
abbrev pub onto : (ℕ → Bool) → List ℕ → List ℕ → List ℕ
onto alive [] acc = acc
onto alive (x ∷ xs) acc = onto alive xs (if alive x then x ∷ acc else acc)

-- The walk along `next` from `p` visits the links of the list.
abbrev pub IsWalk : (ℕ → ℕ) → ℕ → List ℕ → Type 0
IsWalk next p [] = p ≡ 0
IsWalk next p (x ∷ xs) = (p ≡ x) × (x ≢ 0) × IsWalk next (next x) xs

pub onto-IsWalk :
    (alive : ℕ → Bool) (prev : ℕ → ℕ) (s : ActiveList) (a p : ℕ) (xs acc : List ℕ)
    → IsBack prev p xs
    → IsActive alive s a xs
    → IsWalk s.active_next a acc
    → IsWalk s.active_next s.active (onto alive xs acc)
onto-IsWalk alive prev s a p [] acc b h w = subst (λ t. IsWalk s.active_next t acc) (sym h) w
onto-IsWalk alive prev s a p (x ∷ xs) acc b h w = elim (Bool-cases (alive x)) [
  | inl on ↦
      subst (λ t. IsWalk s.active_next s.active (onto alive xs (if t then x ∷ acc else acc)))
        (sym on)
        (onto-IsWalk alive prev s x (prev x) xs (x ∷ acc) b.3
          (subst (λ t. IsActive alive s (if t then x else a) xs) on h.1)
          (refl, b.1, subst (λ t. IsWalk s.active_next t acc) (sym h.0) w))
  | inr off ↦
      subst (λ t. IsWalk s.active_next s.active (onto alive xs (if t then x ∷ acc else acc)))
        (sym off)
        (onto-IsWalk alive prev s a (prev x) xs acc b.3
          (subst (λ t. IsActive alive s (if t then x else a) xs) off h.1) w)
]

-- The active links of a full list that stands last first.
abbrev pub actives_of : (ℕ → Bool) → List ℕ → List ℕ
actives_of alive xs = onto alive xs []

pub actives_of-IsWalk :
    (alive : ℕ → Bool) (prev : ℕ → ℕ) (s : ActiveList) (p : ℕ) (xs : List ℕ)
    → IsBack prev p xs
    → IsActive alive s 0 xs
    → IsWalk s.active_next s.active (actives_of alive xs)
actives_of-IsWalk alive prev s p xs b h = onto-IsWalk alive prev s 0 p xs [] b h refl

pub size-onto : (alive : ℕ → Bool) (xs acc : List ℕ) → size (onto alive xs acc) ≤ size xs + size acc
size-onto alive [] acc = omega arith
size-onto alive (x ∷ xs) acc = ground (arith, size-onto alive xs acc, size-onto alive xs (x ∷ acc))

pub size-actives_of : (alive : ℕ → Bool) (xs : List ℕ) → size (actives_of alive xs) ≤ size xs
size-actives_of alive xs = omega (arith, size-onto alive xs [])

-- The union of the masks.
unfoldable pub mask_of : (ℕ → Events) → List ℕ → Events
mask_of masks [] = events_none
mask_of masks (x ∷ xs) = events_or (masks x) (mask_of masks xs)

or_none : (a : Bool) → (a || false) ≡ a
or_none true = refl
or_none false = refl

pub events_or_none : (a : Events) → events_or a events_none ≡ a
unfolding events_or
events_or_none a = cc (or_none a.input, or_none a.output, or_none a.error, or_none a.hangup)

collect_mask_lem :
    (n : ℕ) (masks : ℕ → Events) (next : ℕ → ℕ) (p : ℕ) (mask : Events) (xs : List ℕ)
    → size xs < n
    → IsWalk next p xs
    → collect_mask n masks next p mask ≡ events_or mask (mask_of masks xs)
unfolding collect_mask mask_of
collect_mask_lem zero masks next p mask xs l w = absurd (omega arith)
collect_mask_lem (suc n) masks next p mask [] l w = rw (w) (sym (events_or_none mask))
collect_mask_lem (suc n) masks next p mask (x ∷ xs) l w =
    let rest =
      collect_mask_lem n masks next (next x) (events_or mask (masks x)) xs (omega arith) w.2 in
    rw (w.0) (ground (arith, w.1, rest, events_or_assoc mask (masks x) (mask_of masks xs)))

pub compute_event_mask_lem :
    (n : ℕ) (alive : ℕ → Bool) (c : HandlerChain) (p : ℕ) (xs : List ℕ)
    → size xs < n
    → IsBack c.prev p xs
    → IsActive alive c.actives 0 xs
    → compute_event_mask n c ≡ mask_of c.event_mask (actives_of alive xs)
unfolding compute_event_mask mask_of events_or
compute_event_mask_lem n alive c p xs l b h =
    collect_mask_lem n c.event_mask c.active_next c.active events_none (actives_of alive xs)
      (omega (arith, size-actives_of alive xs)) (actives_of-IsWalk alive c.prev c.actives p xs b h)

-- The links that `events` concern, each with what it is called with.
abbrev pub hits_of : (ℕ → Events) → Events → List ℕ → List (ℕ × Events)
hits_of masks events [] = []
hits_of masks events (x ∷ xs) =
    let hit = events_and events (masks x) in
    let rest = hits_of masks events xs in if events_any hit then (x, hit) ∷ rest else rest

pub notify_walk :
    (n : ℕ) (c : HandlerChain) (events : Events) (p : ℕ) (xs : List ℕ)
    → size xs < n
    → IsWalk c.active_next p xs
    → notify_from n c events p ≡ hits_of c.event_mask events xs
unfolding notify_from
notify_walk zero c events p xs l w = absurd (omega arith)
notify_walk (suc n) c events p [] l w = rw (w) refl
notify_walk (suc n) c events p (x ∷ xs) l w =
    let rest = notify_walk n c events (c.active_next x) xs (omega arith) w.2 in
    rw (w.0) (ground (arith, w.1, rest))

-- `notify` on a chain whose links stay as they are calls each active link that the events concern,
-- in the order of registration, with those of the events that it asked for, and no other link.
pub notify_from_lem :
    (n : ℕ) (alive : ℕ → Bool) (c : HandlerChain) (events : Events) (p : ℕ) (xs : List ℕ)
    → size xs < n
    → IsBack c.prev p xs
    → IsActive alive c.actives 0 xs
    → notify_from n c events c.active ≡ hits_of c.event_mask events (actives_of alive xs)
notify_from_lem n alive c events p xs l b h =
    notify_walk n c events c.active (actives_of alive xs) (omega (arith, size-actives_of alive xs))
      (actives_of-IsWalk alive c.prev c.actives p xs b h)

onto-update :
    (alive : ℕ → Bool) (q : ℕ) (v : Bool) (xs acc : List ℕ)
    → IsFreeOf q xs
    → onto (update alive q v) xs acc ≡ onto alive xs acc
onto-update alive q v [] acc f = refl
onto-update alive q v (x ∷ xs) acc f =
    let same : update alive q v x ≡ alive x = ground (arith, f.0) in
    let rest = onto-update alive q v xs (if alive x then x ∷ acc else acc) f.1 in
    ap (λ t. onto (update alive q v) xs (if t then x ∷ acc else acc)) same ∙ rest

mask_of-onto :
    (masks : ℕ → Events) (alive : ℕ → Bool) (xs acc : List ℕ)
    → mask_of masks (onto alive xs acc)
      ≡ events_or (mask_of masks (actives_of alive xs)) (mask_of masks acc)
unfolding mask_of
mask_of-onto masks alive [] acc =
    sym (events_or_comm events_none (mask_of masks acc) ∙ events_or_none (mask_of masks acc))
mask_of-onto masks alive (x ∷ xs) acc = elim (Bool-cases (alive x)) [
  | inl on ↦ rw (on) (
      cc (
        mask_of-onto masks alive xs (x ∷ acc),
        mask_of-onto masks alive xs (x ∷ []),
        events_or_none (masks x),
        events_or_assoc (mask_of masks (actives_of alive xs)) (masks x) (mask_of masks acc),
      ))
  | inr off ↦ rw (off) (mask_of-onto masks alive xs acc)
]

-- A link that joins adds its mask.
pub mask_of-insert :
    (masks : ℕ → Events) (alive : ℕ → Bool) (p : ℕ) (xs : List ℕ)
    → IsFreeOf p xs
    → mask_of masks (actives_of (update alive p true) (p ∷ xs))
      ≡ events_or (mask_of masks (actives_of alive xs)) (masks p)
unfolding mask_of
mask_of-insert masks alive p xs f =
    let here : update alive p true p ≡ true = ground arith in
    rw (here) (
      cc (
        mask_of-onto masks (update alive p true) xs (p ∷ []),
        onto-update alive p true xs [] f,
        events_or_none (masks p),
      ))

-- A link that leaves takes its mask away, apart from what others ask for.
pub mask_of-remove :
    (masks : ℕ → Events) (alive : ℕ → Bool) (p : ℕ) (xs ys acc : List ℕ)
    → alive p ≡ true
    → IsFreeOf p xs
    → IsFreeOf p ys
    → mask_of masks (onto alive (xs ++ (p ∷ ys)) acc)
      ≡ events_or (mask_of masks (onto (update alive p false) (xs ++ (p ∷ ys)) acc)) (masks p)
unfolding mask_of
mask_of-remove masks alive p [] ys acc a f g =
    let gone : update alive p false p ≡ false = ground arith in
    let others = mask_of masks (actives_of alive ys) in
    subst
      (λ t.
        mask_of masks (onto alive ys (if alive p then p ∷ acc else acc))
        ≡ events_or (mask_of masks (onto (update alive p false) ys (if t then p ∷ acc else acc)))
            (masks p))
      (sym gone)
      (rw (a) (
        cc (
          mask_of-onto masks alive ys (p ∷ acc),
          onto-update alive p false ys acc g,
          mask_of-onto masks alive ys acc,
          events_or_comm (masks p) (mask_of masks acc),
          events_or_assoc others (mask_of masks acc) (masks p),
        )))
mask_of-remove masks alive p (x ∷ xs) ys acc a f g =
    let same : update alive p false x ≡ alive x = ground (arith, f.0) in
    subst
      (λ t.
        mask_of masks (onto alive (xs ++ (p ∷ ys)) (if alive x then x ∷ acc else acc))
        ≡ events_or
            (mask_of masks
              (onto (update alive p false) (xs ++ (p ∷ ys)) (if t then x ∷ acc else acc)))
            (masks p))
      (sym same) (mask_of-remove masks alive p xs ys (if alive x then x ∷ acc else acc) a f.1 g)
