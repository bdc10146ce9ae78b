-- ===== src/Handlers/Table/Effect.antt =====
-- tscb/detail/fd-handler-table.cc: what a change of one descriptor's chain leaves as it was.
use libtscb.Base.{
  ℕ, ◌≡◌, ◌≢◌, inl, inr, Bool, false, Bool-cases, if◌then◌else◌, update, List, [], ◌∷◌, arith, refl,
  sym, ap, ◌∙◌,
}
use libtscb.Chain.Active.{IsFreeOf, size}
use libtscb.Chain.Members.{IsIn}
use libtscb.Chain.Waiting.{kept, IsCovered, IsDeferred}
use libtscb.Handlers.Chain.{Events, HandlerChain}
use libtscb.Handlers.Chain.Masks.{mask_of, onto, actives_of}
use libtscb.Handlers.Cookie.{Cookies}
use libtscb.Handlers.Table.{Table, put_chain}
use libtscb.Handlers.Table.Valid.{IsTable, IsReplaced, put-IsTable}

-- The union of the masks of a descriptor's active links, and how many there are.
abbrev pub mask_at : Table → (ℕ → Bool) → (ℕ → List ℕ) → ℕ → Events
mask_at t alive xs i = mask_of t.event_mask (actives_of alive (xs i))

abbrev pub count_at : (ℕ → Bool) → (ℕ → List ℕ) → ℕ → ℕ
count_at alive xs i = size (kept alive (xs i))

pub onto-same :
    (alive alive' : ℕ → Bool) (xs acc : List ℕ)
    → ((x : ℕ) → IsIn x xs → alive' x ≡ alive x)
    → onto alive' xs acc ≡ onto alive xs acc
onto-same alive alive' [] acc e = refl
onto-same alive alive' (x ∷ xs) acc e =
    ap (λ b. onto alive' xs (if b then x ∷ acc else acc)) (e x (inl refl))
    ∙ onto-same alive alive' xs (if alive x then x ∷ acc else acc) (λ y k. e y (inr k))

pub mask_of-same :
    (alive : ℕ → Bool) (masks masks' : ℕ → Events) (xs acc : List ℕ)
    → ((x : ℕ) → IsIn x xs → masks' x ≡ masks x)
    → mask_of masks' acc ≡ mask_of masks acc
    → mask_of masks' (onto alive xs acc) ≡ mask_of masks (onto alive xs acc)
unfolding mask_of
mask_of-same alive masks masks' [] acc e h = h
mask_of-same alive masks masks' (x ∷ xs) acc e h = elim (Bool-cases (alive x)) [
  | inl on ↦
      rw (on)
        (mask_of-same alive masks masks' xs (x ∷ acc) (λ y k. e y (inr k)) (cc (e x (inl refl), h)))
  | inr off ↦ rw (off) (mask_of-same alive masks masks' xs acc (λ y k. e y (inr k)) h)
]

pub kept-same :
    (alive alive' : ℕ → Bool) (xs : List ℕ)
    → ((x : ℕ) → IsIn x xs → alive' x ≡ alive x)
    → kept alive' xs ≡ kept alive xs
kept-same alive alive' [] e = refl
kept-same alive alive' (x ∷ xs) e =
    ap (λ b. if b then x ∷ kept alive' xs else kept alive' xs) (e x (inl refl))
    ∙ ap (λ l. if alive x then x ∷ l else l) (kept-same alive alive' xs (λ y k. e y (inr k)))

-- The removed links are `ds`, all different.
abbrev pub IsPendingAt : (ℕ → Bool) → (ℕ → ℕ) → (ℕ → List ℕ) → List ℕ → Type 0
IsPendingAt alive fd xs [] = Unit
IsPendingAt alive fd xs (d ∷ ds) =
    IsIn d (xs (fd d)) × (alive d ≡ false) × IsFreeOf d ds × IsPendingAt alive fd xs ds

pub record HasRemoved (t : Table) (alive : ℕ → Bool) (xs : ℕ → List ℕ) (ds : List ℕ) : Type 0 where
  pub listed : IsDeferred t.inactive_next t.inactive ds
  pub pending : IsPendingAt alive t.fd xs ds
  pub covered : (i : ℕ) → IsCovered alive ds (xs i)

-- A change of the chain of descriptor `i`, and the masks that it reports.
pub record IsChanged (t : Table) (alive : ℕ → Bool) (xs : ℕ → List ℕ) (i : ℕ) (u : Table)
    (alive' : ℕ → Bool) (xs' : ℕ → List ℕ) (before after : Events) : Type 0 where
  pub valid : IsTable u alive' xs'
  pub other_masks : (j : ℕ) → j ≢ i → mask_at u alive' xs' j ≡ mask_at t alive xs j
  pub other_counts : (j : ℕ) → j ≢ i → count_at alive' xs' j ≡ count_at alive xs j
  pub old_mask : before ≡ mask_at t alive xs i
  pub new_mask : after ≡ mask_at u alive' xs' i

pub put-IsChanged :
    (t : Table) (alive : ℕ → Bool) (xs : ℕ → List ℕ) (i : ℕ) (c : HandlerChain) (alive' : ℕ → Bool)
    (ys : List ℕ) (before after : Events)
    → IsTable t alive xs
    → IsReplaced t alive i c alive' ys
    → before ≡ mask_at t alive xs i
    → after ≡ mask_of c.event_mask (actives_of alive' ys)
    → IsChanged t alive xs i (put_chain t i c) alive' (update xs i ys) before after
unfolding mask_of
put-IsChanged t alive xs i c alive' ys before after h r o n =
    let there : (j : ℕ) → j ≢ i → update xs i ys j ≡ xs j = λ j d. ground (arith, d) in
    let here : update xs i ys i ≡ ys = ground arith in
    let same = λ (j : ℕ) (d : j ≢ i) (x : ℕ) (k : IsIn x (xs j)).
      r.others x (λ e. d (sym (h.places j x k) ∙ e)) in
    record {
      valid = put-IsTable t alive xs h i c alive' ys r;
      other_masks = λ j d.
          ap (λ l. mask_of c.event_mask (actives_of alive' l)) (there j d)
          ∙ ap (mask_of c.event_mask) (onto-same alive alive' (xs j) [] (λ x k. (same j d x k).1))
          ∙ mask_of-same alive t.event_mask c.event_mask (xs j) [] (λ x k. (same j d x k).2) refl;
      other_counts = λ j d.
          ap (λ l. size (kept alive' l)) (there j d)
          ∙ ap size (kept-same alive alive' (xs j) (λ x k. (same j d x k).1));
      old_mask = o;
      new_mask = n ∙ ap (λ l. mask_of c.event_mask (actives_of alive' l)) (sym here);
    }

-- The fields that the invariant does not speak of, and `cookies` apart from `made`.
abbrev pub with_extra : Table → Cookies → (ℕ → ℕ) → (ℕ → ℕ) → ℕ → List ℕ → Table
with_extra t c r n p o = record t {
  cookies = c;
  refs = r;
  inactive_next = n;
  inactive = p;
  old = o;
}

pub extra-IsTable :
    (t : Table) (alive : ℕ → Bool) (xs : ℕ → List ℕ) (c : Cookies) (r n : ℕ → ℕ) (p : ℕ)
    (o : List ℕ)
    → ((i : ℕ) → c.made i ≡ t.cookies.made i)
    → IsTable t alive xs
    → IsTable (with_extra t c r n p o) alive xs
extra-IsTable t alive xs c r n p o e h = record {
  chains = λ i m. h.chains i (sym (e i) ∙ m);
  absent = λ i m. h.absent i (sym (e i) ∙ m);
  within = λ i m. h.within i (sym (e i) ∙ m);
  places = h.places;
  members = h.members;
  functions = h.functions;
  below = h.below;
  positive = h.positive;
}

pub extra-IsChanged :
    (t : Table) (alive : ℕ → Bool) (xs : ℕ → List ℕ) (i : ℕ) (u : Table) (alive' : ℕ → Bool)
    (xs' : ℕ → List ℕ) (before after : Events) (c : Cookies) (r n : ℕ → ℕ) (p : ℕ) (o : List ℕ)
    → ((j : ℕ) → c.made j ≡ u.cookies.made j)
    → IsChanged t alive xs i u alive' xs' before after
    → IsChanged t alive xs i (with_extra u c r n p o) alive' xs' before after
extra-IsChanged t alive xs i u alive' xs' before after c r n p o e h = record {
  valid = extra-IsTable u alive' xs' c r n p o e h.valid;
  other_masks = h.other_masks;
  other_counts = h.other_counts;
  old_mask = h.old_mask;
  new_mask = h.new_mask;
}
