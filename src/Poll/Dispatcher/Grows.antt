-- ===== src/Poll/Dispatcher/Grows.antt =====
-- tscb/ioready-poll.cc: what changes made while a thread reads leave of the chains.
use mathlib.Core.List.{append_assoc}
use libtscb.Base.{
  ℕ, ◌+◌, ◌≤◌, ◌≡◌, Bool, false, ◌||◌, inr, List, [], ◌∷◌, ◌++◌, arith, refl, sym, ap, ◌∙◌,
}
use mathlib.Core.Path.{subst}
use libtscb.Chain.Active.{size}
use libtscb.Chain.Walk.{IsDying}
use libtscb.Chain.Members.{IsIn, IsDying-refl, IsDying-trans, IsDying-suffix, size-append}
use libtscb.Poll.Dispatcher.{Dispatcher}
use libtscb.Poll.Dispatcher.Valid.{IsDispatcher}

-- The dispatcher `e` has the links `xs` of `d` and at most `k` new ones; a link that was disconnected
-- is so still, no link's mask has changed unless `modified` is true, and at most `k` links were made.
pub record Grows (d : Dispatcher) (xs : ℕ → List ℕ) (e : Dispatcher) (modified : Bool) (k : ℕ)
    : Type 0 where
  pub links : ℕ → List ℕ
  pub waiting : List ℕ
  pub holds : IsDispatcher e links waiting
  pub new : ℕ → List ℕ
  pub grown : (i : ℕ) → links i ≡ new i ++ xs i
  pub few : (i : ℕ) → size (new i) ≤ k
  pub room : e.table.next_link ≤ d.table.next_link + k
  pub dying : (i : ℕ) → IsDying d.connected e.connected (xs i)
  pub masks :
      modified ≡ false → (i x : ℕ) → IsIn x (xs i) → e.table.event_mask x ≡ d.table.event_mask x

pub Grows-refl :
    (d : Dispatcher) (xs : ℕ → List ℕ) (ds : List ℕ) (modified : Bool)
    → IsDispatcher d xs ds
    → Grows d xs d modified 0
Grows-refl d xs ds modified h = record {
  links = xs;
  waiting = ds;
  holds = h;
  new = λ i. [];
  grown = λ i. refl;
  few = λ i. omega arith;
  room = omega arith;
  dying = λ i. IsDying-refl d.connected (xs i);
  masks = λ u i x k. refl;
}

pub IsIn-append : (x : ℕ) (xs ys : List ℕ) → IsIn x ys → IsIn x (xs ++ ys)
IsIn-append x [] ys k = k
IsIn-append x (z ∷ xs) ys k = inr (IsIn-append x xs ys k)

pub Grows-trans :
    (d : Dispatcher) (xs : ℕ → List ℕ) (e f : Dispatcher) (a b : Bool) (k l : ℕ)
    → (g : Grows d xs e a k) → Grows e g.links f b l
    → Grows d xs f (a || b) (k + l)
Grows-trans d xs e f a b k l g h = record {
  links = h.links;
  waiting = h.waiting;
  holds = h.holds;
  new = λ i. h.new i ++ g.new i;
  grown = λ i.
      h.grown i
      ∙ ap (λ t. h.new i ++ t) (g.grown i)
      ∙ sym (append_assoc (h.new i) (g.new i) (xs i));
  room = omega (arith, g.room, h.room);
  few = λ i. omega (arith, size-append (h.new i) (g.new i), g.few i, h.few i);
  dying = λ i. IsDying-trans d.connected e.connected f.connected (xs i) (g.dying i) (
      IsDying-suffix e.connected f.connected (g.new i) (xs i)
        (subst (λ t. IsDying e.connected f.connected t) (g.grown i) (h.dying i)));
  masks = λ u i x m.
      h.masks (ground (arith, u)) i x
        (subst (λ t. IsIn x t) (sym (g.grown i)) (IsIn-append x (g.new i) (xs i) m))
      ∙ g.masks (ground (arith, u)) i x m;
}
