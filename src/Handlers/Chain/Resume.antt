-- ===== src/Handlers/Chain/Resume.antt =====
-- tscb/detail/fd-handler-table.cc: a walk of `notify` that stands at a link, removed or not.
use mathlib.Core.Path.{subst}
use libtscb.Base.{
  ℕ, ◌<◌, ◌≡◌, Bool, Bool-cases, if◌then◌else◌, List, [], ◌∷◌, ◌++◌, arith, refl, inl, inr, sym,
}
use libtscb.Chain.{ActiveList}
use libtscb.Handlers.Chain.{Events, HandlerChain, notify_from}
use libtscb.Chain.Active.{size, IsBack, IsActive}
use libtscb.Handlers.Chain.Masks.{onto, actives_of, size-actives_of, IsWalk, notify_walk, hits_of}
use libtscb.Chain.Change.{IsChain}

resume-IsWalk :
    (alive : ℕ → Bool) (prev : ℕ → ℕ) (s : ActiveList) (a p q : ℕ) (xs ys acc : List ℕ)
    → IsBack prev q (xs ++ (p ∷ ys))
    → IsActive alive s a (xs ++ (p ∷ ys))
    → IsWalk s.active_next a acc
    → IsWalk s.active_next (s.active_next p) (onto alive xs acc)
resume-IsWalk alive prev s a p q [] ys acc b h w =
    subst (λ t. IsWalk s.active_next t acc) (sym h.0) w
resume-IsWalk alive prev s a p q (x ∷ xs) ys acc b h w = elim (Bool-cases (alive x)) [
  | inl on ↦
      subst
        (λ t. IsWalk s.active_next (s.active_next p) (onto alive xs (if t then x ∷ acc else acc)))
        (sym on)
        (resume-IsWalk alive prev s x p (prev x) xs ys (x ∷ acc) b.3
          (subst (λ t. IsActive alive s (if t then x else a) (xs ++ (p ∷ ys))) on h.1)
          (refl, b.1, subst (λ t. IsWalk s.active_next t acc) (sym h.0) w))
  | inr off ↦
      subst
        (λ t. IsWalk s.active_next (s.active_next p) (onto alive xs (if t then x ∷ acc else acc)))
        (sym off)
        (resume-IsWalk alive prev s a p (prev x) xs ys acc b.3
          (subst (λ t. IsActive alive s (if t then x else a) (xs ++ (p ∷ ys))) off h.1) w)
]

-- Wherever `notify` stands in the full list, at a link that is active or at one that was removed
-- while its function ran, it goes on with exactly the links after it that are active by then.
pub notify_resumes :
    (n : ℕ) (alive : ℕ → Bool) (c : HandlerChain) (events : Events) (p : ℕ) (xs ys : List ℕ)
    → IsChain c.links alive (xs ++ (p ∷ ys))
    → size xs < n
    → notify_from n c events (c.active_next p) ≡ hits_of c.event_mask events (actives_of alive xs)
notify_resumes n alive c events p xs ys h l =
    notify_walk n c events (c.active_next p) (actives_of alive xs)
      (omega (arith, size-actives_of alive xs))
      (resume-IsWalk alive c.prev c.actives 0 p c.last xs ys [] h.back h.actives refl)
