-- ===== src/Pointer/Run.antt =====
-- tscb/detail/intrusive-ptr.h: reference counts over sequences of pointer operations.
use libtscb.Base.{ℕ, ◌+◌, ◌-◌, ◌<◌, ◌≡◌, ◌≢◌, ◌⊎◌, inl, inr, true, false, update, arith, refl, sym}
use native.Mathlib.Decide.{ℕ_discrete}
use libtscb.Pointer.{
  Refs, construct, copy_construct, swap, move_construct, reset, destroy, copy_assign, move_assign,
  detach,
}
use libtscb.Pointer.Counted.{
  IsCounted, Keeps, Keeps-trans, Sharable, alive, construct-Keeps, adopt-Keeps, detach-Keeps,
  swap-Keeps, reset-Keeps, reset_adopt-Keeps, reset_own-Keeps,
}

-- Null, or an object whose count has room for one reference more.
abbrev HasRoom : Refs → ℕ → Type 0
HasRoom h p = (p ≡ 0) ⊎ (h.count p < 18446744073709551615)

-- The operations on the pointers below `n`, and the references that are held without a pointer.
pub data Step (n : ℕ) (h : Refs) (held : ℕ → ℕ) : Refs → (ℕ → ℕ) → Type 0 where
  constructs :
      (i p : ℕ) → i < n → h.repr i ≡ 0 → Sharable h p → Step n h held (construct h i p true) held
  adopts :
      (i p : ℕ)
      → i < n
      → h.repr i ≡ 0
      → 0 < held p
      → Step n h held (construct h i p false) (update held p (held p - 1))
  copies :
      (i j : ℕ)
      → i < n
      → j < n
      → h.repr i ≡ 0
      → HasRoom h (h.repr j)
      → Step n h held (copy_construct h i j) held
  moves :
      (i j : ℕ) → i < n → j < n → i ≢ j → h.repr i ≡ 0 → Step n h held (move_construct h i j) held
  assigns :
      (t i j : ℕ)
      → t < n
      → i < n
      → j < n
      → t ≢ i
      → t ≢ j
      → h.repr t ≡ 0
      → HasRoom h (h.repr j)
      → Step n h held (copy_assign h t i j) held
  move_assigns : (i j : ℕ) → i < n → j < n → i ≢ j → Step n h held (move_assign h i j) held
  resets : (i p : ℕ) → i < n → p ≢ h.repr i → Sharable h p → Step n h held (reset h i p true) held
  resets_own :
      (i : ℕ) → i < n → 1 < h.count (h.repr i) → Step n h held (reset h i (h.repr i) true) held
  resets_adopting :
      (i p : ℕ)
      → i < n
      → 0 < held p
      → Step n h held (reset h i p false) (update held p (held p - 1))
  destroys : (i : ℕ) → i < n → Step n h held (destroy h i) held
  detaches :
      (i : ℕ)
      → i < n
      → Step n h held ((detach h i).0) (update held (h.repr i) (held (h.repr i) + 1))

pub data Run (n : ℕ) (h : Refs) (held : ℕ → ℕ) : Refs → (ℕ → ℕ) → Type 0 where
  nothing : Run n h held h held
  then_step : {f g : Refs} {k l : ℕ → ℕ} → Run n h held f k → Step n f k g l → Run n h held g l

module _ (n : ℕ) (h : Refs) (held : ℕ → ℕ) (c : IsCounted n h held) where
  shared : (j : ℕ) → j < n → HasRoom h (h.repr j) → Sharable h (h.repr j)
  shared j l (inl z) = inl z
  shared j l (inr w) = elim (ℕ_discrete (h.repr j) 0) [
    | yes z ↦ inl z
    | no z ↦ inr ((alive n h held c j l z).0, w)
  ]

  copy_construct-Keeps :
      (i j : ℕ)
      → i < n
      → j < n
      → h.repr i ≡ 0
      → HasRoom h (h.repr j)
      → Keeps n h (copy_construct h i j) held
  unfolding copy_construct
  copy_construct-Keeps i j l k e w = construct-Keeps n h held c i (h.repr j) l e (shared j k w)

  move_construct-Keeps :
      (i j : ℕ) → i < n → j < n → i ≢ j → h.repr i ≡ 0 → Keeps n h (move_construct h i j) held
  unfolding move_construct construct
  move_construct-Keeps i j l k d e =
      let u = construct-Keeps n h held c i 0 l e (inl refl) in
      let f = construct h i 0 true in
      Keeps-trans n h f (swap f i j) held held u (swap-Keeps n f held u.valid i j l k d)

  destroy-Keeps : (i : ℕ) → i < n → Keeps n h (destroy h i) held
  unfolding destroy
  destroy-Keeps i l = reset-Keeps n h held c i 0 l (inl refl) (inl refl)

  move_assign-Keeps : (i j : ℕ) → i < n → j < n → i ≢ j → Keeps n h (move_assign h i j) held
  unfolding move_assign
  move_assign-Keeps i j l k d = swap-Keeps n h held c i j l k d

copy_assign-Keeps :
    (n : ℕ) (h : Refs) (held : ℕ → ℕ)
    → IsCounted n h held
    → (t i j : ℕ) → t < n
    → i < n
    → j < n
    → t ≢ i
    → t ≢ j
    → h.repr t ≡ 0
    → HasRoom h (h.repr j)
    → Keeps n h (copy_assign h t i j) held
unfolding copy_assign
copy_assign-Keeps n h held c t i j a b d x y e w =
    let u = copy_construct-Keeps n h held c t j a d e w in
    let f = copy_construct h t j in
    let v = swap-Keeps n f held u.valid i t b a (λ z. x (sym z)) in
    let g = swap f i t in
    Keeps-trans n h f _ held held u
      (Keeps-trans n f g _ held held v (destroy-Keeps n g held v.valid t a))

Step-Keeps :
    {n : ℕ} {h g : Refs} {held k : ℕ → ℕ} → IsCounted n h held → Step n h held g k → Keeps n h g k
Step-Keeps c (constructs i p l e s) = construct-Keeps _ _ _ c i p l e s
Step-Keeps c (adopts i p l e s) = adopt-Keeps _ _ _ c i p l e s
Step-Keeps c (copies i j l k e w) = copy_construct-Keeps _ _ _ c i j l k e w
Step-Keeps c (moves i j l k d e) = move_construct-Keeps _ _ _ c i j l k d e
Step-Keeps c (assigns t i j a b d x y e w) = copy_assign-Keeps _ _ _ c t i j a b d x y e w
Step-Keeps c (move_assigns i j l k d) = move_assign-Keeps _ _ _ c i j l k d
Step-Keeps c (resets i p l d s) = reset-Keeps _ _ _ c i p l (inr d) s
Step-Keeps c (resets_own i l w) = reset_own-Keeps _ _ _ c i l w
Step-Keeps c (resets_adopting i p l w) = reset_adopt-Keeps _ _ _ c i p l w
Step-Keeps c (destroys i l) = destroy-Keeps _ _ _ c i l
Step-Keeps c (detaches i l) = detach-Keeps _ _ _ c i l

Run-Keeps :
    {n : ℕ} {h : Refs} {held : ℕ → ℕ} {g : Refs} {k : ℕ → ℕ}
    → IsCounted n h held
    → Run n h held g k
    → Keeps n h g k
Run-Keeps c nothing = record {
  valid = c;
  collected = λ p z l e. absurd (omega arith);
  stays = λ p d. d;
}
Run-Keeps c (then_step r s) =
    let u = Run-Keeps c r in Keeps-trans _ _ _ _ _ _ u (Step-Keeps u.valid s)

-- Pointers to objects are constructed, copied, moved, assigned, reset, detached and destroyed, in any
-- order, with new references or with ones that are held without a pointer: each object's count is the
-- number of its pointers together with the references held otherwise, an object that loses its last
-- reference is deleted, and no pointer refers to a deleted object. This goes for sequences in which no
-- count reaches 2 ^ 64, new references are made to objects that are not deleted, constructors and
-- copies write to null pointers, a pointer is not moved or swapped with itself, and none is reset with
-- a new reference to the object whose only reference it holds.
pub references_counted :
    {n : ℕ} {h g : Refs} {held k : ℕ → ℕ}
    → IsCounted n h held
    → Run n h held g k
    → Keeps n h g k × ((i : ℕ) → i < n → g.repr i ≢ 0 → g.deleted (g.repr i) ≡ false)
references_counted c r = let u = Run-Keeps c r in (u, λ i l z. (alive _ _ _ u.valid i l z).0)
