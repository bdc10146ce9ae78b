-- ===== src/Chain/Walk.antt =====
-- Walks along the active list of a chain that changes on the way.
use mathlib.Core.Path.{subst}
use mathlib.Core.List.{append_assoc, append-nil}
use libtscb.Base.{
  ℕ, suc, ◌≤◌, arith, ◌≡◌, ◌≢◌, Bool, true, false, if◌then◌else◌, List, [], ◌∷◌, ◌++◌, refl, sym,
  ap, ◌∙◌,
}
use libtscb.Chain.{ActiveList, LinkChain}
use libtscb.Chain.Active.{size, IsBack, IsActive}
use libtscb.Chain.Change.{IsChain, back-middle}

-- A call of a link's function, and whether the link was alive when it was made.
pub data Call : Type 0 where
  called : ℕ → Bool → Call

-- The log holds each link that is alive, once, in the order of the links, and maybe some that
-- are not alive any more, but were when they were called. Both lists stand last first.
pub data Visits (alive : ℕ → Bool) : List ℕ → List Call → Type 0 where
  none_left : Visits alive [] []
  visit :
      {x : ℕ} {xs : List ℕ} {log : List Call}
      → Visits alive xs log
      → Visits alive (x ∷ xs) (called x true ∷ log)
  skip :
      {x : ℕ} {xs : List ℕ} {log : List Call}
      → alive x ≡ false
      → Visits alive xs log
      → Visits alive (x ∷ xs) log

-- No link of the list comes to life.
abbrev pub IsDying : (ℕ → Bool) → (ℕ → Bool) → List ℕ → Type 0
IsDying alive alive' [] = Unit
IsDying alive alive' (x ∷ xs) = (alive x ≡ false → alive' x ≡ false) × IsDying alive alive' xs

abbrev pub IsDead : (ℕ → Bool) → List ℕ → Type 0
IsDead alive [] = Unit
IsDead alive (x ∷ xs) = (alive x ≡ false) × IsDead alive xs

pub Visits-IsDying :
    (alive alive' : ℕ → Bool) (xs : List ℕ) (log : List Call)
    → Visits alive xs log
    → IsDying alive alive' xs
    → Visits alive' xs log
Visits-IsDying alive alive' [] log none_left d = none_left
Visits-IsDying alive alive' (x ∷ xs) (c ∷ log) (visit v) d =
    visit (Visits-IsDying alive alive' xs log v d.1)
Visits-IsDying alive alive' (x ∷ xs) log (skip e v) d =
    skip (d.0 e) (Visits-IsDying alive alive' xs log v d.1)

pub dead-Visits :
    (alive : ℕ → Bool) (xs ys : List ℕ) (log : List Call)
    → IsDead alive xs
    → Visits alive ys log
    → Visits alive (xs ++ ys) log
dead-Visits alive [] ys log d v = v
dead-Visits alive (x ∷ xs) ys log d v = skip d.0 (dead-Visits alive xs ys log d.1 v)

pub silent-IsDead : (alive : ℕ → Bool) (xs : List ℕ) → Visits alive xs [] → IsDead alive xs
silent-IsDead alive [] v = tt
silent-IsDead alive (x ∷ xs) (skip e v) = (e, silent-IsDead alive xs v)

-- Where `active` points: to `a` when all links are dead, or else to the first that is alive.
pub data Starts (alive : ℕ → Bool) (s : ActiveList) (a : ℕ) (xs : List ℕ) : Type 0 where
  nothing : s.active ≡ a → IsDead alive xs → Starts alive s a xs
  found :
      (q : ℕ) (later sooner : List ℕ)
      → s.active ≡ q
      → alive q ≡ true
      → IsDead alive sooner
      → xs ≡ later ++ (q ∷ sooner)
      → Starts alive s a xs

cons-Starts :
    (alive : ℕ → Bool) (s : ActiveList) (a x : ℕ) (xs : List ℕ) (b : Bool)
    → alive x ≡ b
    → Starts alive s (if b then x else a) xs
    → Starts alive s a (x ∷ xs)
cons-Starts alive s a x xs true e (nothing h d) = found x [] xs h e d refl
cons-Starts alive s a x xs false e (nothing h d) = nothing h (e, d)
cons-Starts alive s a x xs b e (found q later sooner h on d w) =
    found q (x ∷ later) sooner h on d (ap (λ t. x ∷ t) w)

pub IsActive-Starts :
    (alive : ℕ → Bool) (s : ActiveList) (a : ℕ) (xs : List ℕ)
    → IsActive alive s a xs
    → Starts alive s a xs
IsActive-Starts alive s a [] h = nothing h tt
IsActive-Starts alive s a (x ∷ xs) h =
    cons-Starts alive s a x xs (alive x) refl
      (IsActive-Starts alive s (if alive x then x else a) xs h.1)

-- The links after `p`, as the list that starts at `active_next` of `p`.
pub rest-IsActive :
    (alive : ℕ → Bool) (s : ActiveList) (a p : ℕ) (xs ys : List ℕ)
    → IsActive alive s a (xs ++ (p ∷ ys))
    → IsActive alive (record s { active = s.active_next p }) a xs
rest-IsActive alive s a p [] ys h = h.0
rest-IsActive alive s a p (x ∷ xs) ys h =
    (h.0, rest-IsActive alive s (if alive x then x else a) p xs ys h.1)

-- Where a walk goes on: it is over, or stands at a link that is alive and in the list, and the log
-- holds those that are alive before it.
pub data Next (alive : ℕ → Bool) (xs : List ℕ) (log : List Call) (q : ℕ) : Type 0 where
  over : q ≡ 0 → Visits alive xs log → Next alive xs log q
  stands :
      (later sooner : List ℕ)
      → q ≢ 0
      → xs ≡ later ++ (q ∷ sooner)
      → alive q ≡ true
      → Visits alive sooner log
      → Next alive xs log q

module _ (alive : ℕ → Bool) (log : List Call) where
  Starts-Next :
      (prev : ℕ → ℕ) (q : ℕ) (s : ActiveList) (xs ys : List ℕ)
      → IsBack prev q (xs ++ ys)
      → Visits alive ys log
      → Starts alive s 0 xs
      → Next alive (xs ++ ys) log s.active
  Starts-Next prev q s xs ys b v (nothing e d) = over e (dead-Visits alive xs ys log d v)
  Starts-Next prev q s xs ys b v (found p later sooner e on d w) =
      let split : xs ++ ys ≡ later ++ (p ∷ (sooner ++ ys)) =
        ap (λ t. t ++ ys) w ∙ append_assoc later (p ∷ sooner) ys in
      let (z, f, g, k) =
        back-middle prev q p later (sooner ++ ys) (subst (λ t. IsBack prev q t) split b) in
      subst (λ t. Next alive (xs ++ ys) log t) (sym e)
        (stands later (sooner ++ ys) z split on (dead-Visits alive sooner ys log d v))

  pub link-Next :
      (c : LinkChain) (p : ℕ) (xs ys : List ℕ)
      → IsChain c alive (xs ++ (p ∷ ys))
      → Visits alive (p ∷ ys) log
      → Next alive (xs ++ (p ∷ ys)) log (c.active_next p)
  link-Next c p xs ys h v =
      let s = record (c.actives) { active = c.active_next p } in
      Starts-Next c.prev c.last s xs (p ∷ ys) h.back v
        (IsActive-Starts alive s 0 xs (rest-IsActive alive c.actives 0 p xs ys h.actives))

pub first-Next :
    (alive : ℕ → Bool) (c : LinkChain) (xs : List ℕ)
    → IsChain c alive xs
    → Next alive xs [] c.active
first-Next alive c xs h =
    subst (λ t. Next alive t [] c.active) (append-nil xs)
      (Starts-Next alive [] c.prev c.last c.actives xs []
        (subst (λ t. IsBack c.prev c.last t) (sym (append-nil xs)) h.back) none_left
        (IsActive-Starts alive c.actives 0 xs h.actives))

abbrev pub length : List Call → ℕ
length [] = 0
length (c ∷ cs) = suc (length cs)

pub Visits-size :
    (alive : ℕ → Bool) (xs : List ℕ) (log : List Call) → Visits alive xs log → length log ≤ size xs
Visits-size alive [] log none_left = omega arith
Visits-size alive (x ∷ xs) (c ∷ log) (visit v) = omega (arith, Visits-size alive xs log v)
Visits-size alive (x ∷ xs) log (skip e v) = omega (arith, Visits-size alive xs log v)
