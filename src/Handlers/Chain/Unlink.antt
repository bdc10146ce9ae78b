-- ===== src/Handlers/Chain/Unlink.antt =====
-- tscb/detail/fd-handler-table.cc: `synchronize` on a removed link.
use libtscb.Base.{ℕ, ◌≡◌, Bool, false, List, ◌∷◌, ◌++◌, refl}
use libtscb.Chain.{unlink_link}
use libtscb.Chain.Change.{IsChain}
use libtscb.Chain.Unlink.{unlink_link_lem}
use libtscb.Handlers.Chain.{HandlerChain, unlink_removed}

-- `synchronize` on a link that was removed before: the link leaves the full list, all other links
-- keep their order in both directions, and the active list stays as it was.
pub unlink_removed_lem :
    (c : HandlerChain) (alive : ℕ → Bool) (p : ℕ) (xs ys : List ℕ)
    → IsChain c.links alive (xs ++ (p ∷ ys))
    → alive p ≡ false
    → IsChain (unlink_removed c p).links alive (xs ++ ys)
      × ((unlink_removed c p).actives ≡ c.actives)
unfolding unlink_removed unlink_link
unlink_removed_lem c alive p xs ys h off = (unlink_link_lem c.links alive p xs ys h off, refl)
