-- ===== src/Handlers/Chain/Change.antt =====
-- tscb/detail/fd-handler-table.cc: `insert`, `remove`, `modify` and `synchronize` on one chain.
use libtscb.Base.{ℕ, ◌<◌, ◌≡◌, ◌≢◌, Bool, true, false, update, List, [], ◌∷◌, ◌++◌, sym, ap, ◌∙◌}
use libtscb.Chain.{deactivate_link}
use libtscb.Chain.Active.{IsFreeOf, size}
use libtscb.Chain.Change.{IsChain, append_link_lem, deactivate_link_lem, back-middle}
use libtscb.Handlers.Chain.{Events, events_or, HandlerChain, insert_link, remove_link, modify_link}
use libtscb.Handlers.Chain.Masks.{
  mask_of, actives_of, compute_event_mask_lem, mask_of-insert, mask_of-remove,
}

-- What a call that changes a chain does to it, and the masks that it reports.
pub record IsChanged (c : HandlerChain) (alive : ℕ → Bool) (xs : List ℕ) (alive' : ℕ → Bool)
    (xs' : List ℕ) (r : HandlerChain × Events × Events) : Type 0 where
  pub chain : IsChain (r.0).links alive' xs'
  pub old_mask : r.1 ≡ mask_of c.event_mask (actives_of alive xs)
  pub new_mask : r.2 ≡ mask_of (r.0).event_mask (actives_of alive' xs')

-- `insert` of a new link: it becomes the last one and is active, all other links stay as they were,
-- and the two masks that it reports are the unions of the masks of the active links before and after.
pub insert_link_lem :
    (n : ℕ) (alive : ℕ → Bool) (c : HandlerChain) (p : ℕ) (xs : List ℕ)
    → IsChain c.links alive xs
    → p ≢ 0
    → IsFreeOf p xs
    → size xs < n
    → IsChanged c alive xs (update alive p true) (p ∷ xs) (insert_link n c p)
unfolding insert_link
insert_link_lem n alive c p xs h z f l = record {
  chain = append_link_lem n alive c.links p xs h z f l;
  old_mask = compute_event_mask_lem n alive c c.last xs l h.back h.actives;
  new_mask =
      ap (λ t. events_or t (c.event_mask p))
        (compute_event_mask_lem n alive c c.last xs l h.back h.actives)
      ∙ sym (mask_of-insert c.event_mask alive p xs f);
}

-- `modify` changes the mask of one link, and reports the unions before and after.
pub modify_link_lem :
    (n : ℕ) (alive : ℕ → Bool) (c : HandlerChain) (p : ℕ) (mask : Events) (xs : List ℕ)
    → IsChain c.links alive xs
    → size xs < n
    → IsChanged c alive xs alive xs (modify_link n c p mask)
unfolding modify_link
modify_link_lem n alive c p mask xs h l = record {
  chain = record { back = h.back; full = h.full; actives = h.actives };
  old_mask = compute_event_mask_lem n alive c c.last xs l h.back h.actives;
  new_mask =
      compute_event_mask_lem n alive (record c { event_mask = update c.event_mask p mask }) c.last
        xs l h.back h.actives;
}

-- `remove` of an active link: it stays in the full list but is no longer active, the other links
-- stay as they were, and the masks that it reports are the unions of the masks of the active links
-- before and after.
pub remove_link_lem :
    (n : ℕ) (alive : ℕ → Bool) (c : HandlerChain) (p : ℕ) (xs ys : List ℕ)
    → IsChain c.links alive (xs ++ (p ∷ ys))
    → alive p ≡ true
    → size (xs ++ (p ∷ ys)) < n
    → IsChanged c alive (xs ++ (p ∷ ys)) (update alive p false) (xs ++ (p ∷ ys)) (remove_link n c p)
unfolding remove_link
remove_link_lem n alive c p xs ys h on l =
    let (z, f, g, k) = back-middle c.prev c.last p xs ys h.back in
    let kept = deactivate_link_lem n alive c.links p xs ys h on l in
    let now =
      compute_event_mask_lem n (update alive p false)
        (record c { links = deactivate_link n c.links p }) (deactivate_link n c.links p).last
        (xs ++ (p ∷ ys)) l kept.back kept.actives in
    record {
      chain = kept;
      old_mask =
          ap (λ m. events_or m (c.event_mask p)) now
          ∙ sym (mask_of-remove c.event_mask alive p xs ys [] on f g);
      new_mask = now;
    }
