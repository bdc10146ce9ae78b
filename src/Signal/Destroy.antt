-- ===== src/Signal/Destroy.antt =====
-- tscb/signal.h: the destructor.
use libtscb.Base.{
  ℕ, zero, suc, ◌+◌, ◌<◌, ◌≡◌, ◌==◌, ◌||◌, inl, inr, Bool, true, false, Bool-cases, List, [], ◌∷◌,
  arith, ap, ◌∙◌,
}
use libtscb.Chain.Active.{size}
use libtscb.Chain.Walk.{Next, over, stands, first-Next, silent-IsDead}
use libtscb.Chain.Members.{dead-off, IsIn-Around}
use libtscb.Chain.Waiting.{kept}
use libtscb.Signal.{Signal, disconnect, synchronize, leave, enter, disconnect_links, destroy}
use libtscb.Signal.Valid.{IsSignal, disconnect-IsSignal}
use libtscb.Signal.Change.{Stands, removed-HasDeferred}
use libtscb.Signal.Synchronize.{HasDeferred, synchronize_lem}

synchronize-Stands : (s : Signal) → Stands s → Stands (synchronize s)
synchronize-Stands s h =
    let r = synchronize_lem s h.links h.waiting h.valid h.deferred in
    record {
      links = kept s.connected h.links;
      waiting = [];
      valid = r.valid;
      deferred = r.deferred;
    }

enter-Stands : (rounds : ℕ) (s : Signal) → Stands s → Stands (enter rounds s)
unfolding enter
enter-Stands zero s h = h
enter-Stands (suc rounds) s h = enter-Stands rounds (synchronize s) (synchronize-Stands s h)

-- No link is connected any more.
pub record IsVacant (s : Signal) : Type 0 where
  pub stands : Stands s
  pub disconnected : (p : ℕ) → s.connected p ≡ false

-- Each round adds a link to those that wait for destruction, of which there are no more than links.
disconnect_links-IsVacant :
    (n : ℕ) (s : Signal) (xs ds : List ℕ)
    → IsSignal s xs
    → HasDeferred s xs ds
    → size xs < n + size ds
    → IsVacant (disconnect_links n s).0
unfolding disconnect_links
disconnect_links-IsVacant zero s xs ds h k l = absurd (omega (arith, l, k.count))
disconnect_links-IsVacant (suc n) s xs ds h k l =
    go (first-Next s.connected s.links xs h.chain)
      (λ t es i m. disconnect_links-IsVacant n t xs es i m)
  where
    go :
        Next s.connected xs [] s.active
        → ((t : Signal) (es : List ℕ)
            → IsSignal t xs
            → HasDeferred t xs es
            → size xs < n + size es
            → IsVacant (disconnect_links n t).0)
        → IsVacant (disconnect_links (suc n) s).0
    go (over z v) ih =
        let b : (s.active == 0) ≡ true = ground (arith, z) in
        let dead = silent-IsDead s.connected xs v in
        rw (b) (record {
          stands = record { links = xs; waiting = ds; valid = h; deferred = k };
          disconnected = λ p. elim (Bool-cases (s.connected p)) [
            | inl on ↦ dead-off s.connected p xs (h.members p on) dead
            | inr off ↦ off
          ];
        })
    go (stands later sooner z e on v) ih =
        let p = s.active in
        let b : (p == 0) ≡ false = ground (arith, z) in
        rw (b) (
          ih (disconnect s p false) (p ∷ ds) (disconnect-IsSignal s p xs h)
            (removed-HasDeferred s p xs ds h k on (IsIn-Around p xs (h.members p on)))
            (omega (arith, l)))

leave-IsVacant : (sync : Bool) (s : Signal) → IsVacant s → IsVacant (leave sync s)
leave-IsVacant true s h =
    let w = h.stands in
    let r = synchronize_lem s w.links w.waiting w.valid w.deferred in
    record {
      stands = synchronize-Stands s w;
      disconnected = λ p. ap (λ f. f p) r.connected ∙ h.disconnected p;
    }
leave-IsVacant false s h = h

-- The destructor, whatever the lock answers, leaves no link connected, and the chain with the links
-- that wait for destruction in order.
pub destroy_disconnects :
    (rounds : ℕ) (sync : Bool) (s : Signal) → Stands s → IsVacant (destroy rounds sync s)
unfolding destroy
destroy_disconnects rounds sync s h =
    let e = enter rounds s in
    let w = enter-Stands rounds s h in
    let (t, any_cancelled) = disconnect_links e.next_link e in
    leave-IsVacant (sync || any_cancelled) t (
      disconnect_links-IsVacant e.next_link e w.links w.waiting w.valid w.deferred
        (omega (arith, w.valid.sized)))
