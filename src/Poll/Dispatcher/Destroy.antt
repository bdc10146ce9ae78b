-- ===== src/Poll/Dispatcher/Destroy.antt =====
-- tscb/ioready-poll.cc and tscb/detail/fd-handler-table.cc: the destructor, and `disconnect_all`.
use mathlib.Core.Path.{subst}
use native.Mathlib.Decide.{ℕ_discrete, dec_lt}
use libtscb.Base.{
  ℕ, zero, suc, ◌+◌, ◌<◌, ◌≤◌, ◌≡◌, ◌==◌, ◌||◌, inl, inr, Bool, true, false, Bool-cases, update,
  List, [], ◌∷◌, arith, refl, sym, ap, ◌∙◌,
}
use libtscb.Chain.Active.{size}
use libtscb.Chain.Walk.{IsDead, IsDying, Next, over, stands, first-Next, silent-IsDead}
use libtscb.Chain.Members.{dead-off, IsIn, IsDying-refl, IsDying-trans, IsDying-update}
use libtscb.Chain.Waiting.{kept, size-kept}
use libtscb.Handlers.Table.{chain_at, get_chain}
use libtscb.Handlers.Table.Valid.{sized}
use libtscb.Handlers.Table.Effect.{count_at}
use libtscb.Poll.Dispatcher.{
  Dispatcher, disconnect, synchronize, unlock, enter, disconnect_chain, disconnect_entry,
  disconnect_entries, disconnect_all, destroy,
}
use libtscb.Poll.Dispatcher.Changed.{left_of, left-IsDispatcher}
use libtscb.Poll.Dispatcher.Dispatch.{enter-Stands}
use libtscb.Poll.Dispatcher.Grows.{IsIn-append}
use libtscb.Poll.Dispatcher.Stands.{Stands, unlock-Stands}
use libtscb.Poll.Dispatcher.Tour.{split-made}
use libtscb.Poll.Dispatcher.Valid.{IsDispatcher, left-count}

IsDead-dying : (a b : ℕ → Bool) (xs : List ℕ) → IsDying a b xs → IsDead a xs → IsDead b xs
IsDead-dying a b [] d h = tt
IsDead-dying a b (x ∷ xs) d h = (d.0 h.0, IsDead-dying a b xs d.1 h.1)

dead-kept : (alive : ℕ → Bool) (xs : List ℕ) → IsDead alive xs → kept alive xs ≡ []
dead-kept alive [] h = refl
dead-kept alive (x ∷ xs) h = rw (h.0) (dead-kept alive xs h.1)

-- The links are the same, and those of `dead` descriptors are disconnected.
record Emptied (d : Dispatcher) (xs : ℕ → List ℕ) (e : Dispatcher) (dead : ℕ → Type 0)
    : Type 1 where
  waiting : List ℕ
  holds : IsDispatcher e xs waiting
  dying : (j : ℕ) → IsDying d.connected e.connected (xs j)
  gone : (j : ℕ) → dead j → IsDead e.connected (xs j)

-- An entry without a chain.
no_chain :
    (d : Dispatcher) (xs : ℕ → List ℕ) (ds : List ℕ) (i : ℕ)
    → IsDispatcher d xs ds
    → get_chain d.table i ≡ false
    → xs i ≡ []
no_chain d xs ds i h off = elim (Bool-cases (d.table.cookies.made i)) [
  | inl on ↦ absurd (ground (arith, on, off, h.valid.within i on))
  | inr absent ↦ h.valid.absent i absent
]

disconnect-left :
    (d : Dispatcher) (p : ℕ) → d.connected p ≡ true → disconnect d p false ≡ left_of d p
unfolding disconnect
disconnect-left d p on = rw (on) refl

disconnect_chain-Emptied :
    (n : ℕ) (d : Dispatcher) (xs : ℕ → List ℕ) (ds : List ℕ) (i : ℕ)
    → IsDispatcher d xs ds
    → d.table.cookies.made i ≡ true
    → count_at d.connected xs i < n
    → Emptied d xs (disconnect_chain n d i).0 (λ j. j ≡ i)
unfolding disconnect_chain
disconnect_chain-Emptied zero d xs ds i h m l = absurd (omega arith)
disconnect_chain-Emptied (suc n) d xs ds i h m l =
    go (first-Next d.connected (chain_at d.table i).links (xs i) (h.valid.chains i m))
      (λ e es k made less. disconnect_chain-Emptied n e xs es i k made less)
  where
    go :
        Next d.connected (xs i) [] (d.table.active_of i)
        → ((e : Dispatcher) (es : List ℕ)
            → IsDispatcher e xs es
            → e.table.cookies.made i ≡ true
            → count_at e.connected xs i < n
            → Emptied e xs (disconnect_chain n e i).0 (λ j. j ≡ i))
        → Emptied d xs (disconnect_chain (suc n) d i).0 (λ j. j ≡ i)
    go (over z v) ih =
        let b : (d.table.active_of i == 0) ≡ true = ground (arith, z) in
        rw (b) (record {
          waiting = ds;
          holds = h;
          dying = λ j. IsDying-refl d.connected (xs j);
          gone = λ j e.
              subst (λ k. IsDead d.connected (xs k)) (sym e) (silent-IsDead d.connected (xs i) v);
        })
    go (stands later sooner z e on v) ih =
        let p = d.table.active_of i in
        let t = left_of d p in
        let b : (p == 0) ≡ false = ground (arith, z) in
        let here : d.table.fd p ≡ i =
          h.valid.places i p
            (subst (λ l. IsIn p l) (sym e) (IsIn-append p later (p ∷ sooner) (inl refl))) in
        let k = left-IsDispatcher d xs ds p on h in
        let fewer =
          subst (λ j. count_at d.connected xs j ≡ suc (count_at (update d.connected p false) xs j))
            here (left-count d.table d.connected xs p h.valid on) in
        let r =
          ih t (p ∷ ds) k (split-made t.table t.connected xs i p later sooner k.valid e)
            (omega (arith, fewer, l)) in
        rw (b) (
          subst (λ q. Emptied d xs (disconnect_chain n q i).0 (λ j. j ≡ i))
            (sym (disconnect-left d p on))
            (record {
              waiting = r.waiting;
              holds = r.holds;
              dying = λ j.
                  IsDying-trans d.connected t.connected _ (xs j)
                    (IsDying-update d.connected p (xs j)) (r.dying j);
              gone = r.gone;
            }))

disconnect_entry-Emptied :
    (d : Dispatcher) (xs : ℕ → List ℕ) (ds : List ℕ) (i : ℕ)
    → IsDispatcher d xs ds
    → Emptied d xs (disconnect_entry d i).0 (λ j. j ≡ i)
unfolding disconnect_entry
disconnect_entry-Emptied d xs ds i h = elim (Bool-cases (get_chain d.table i)) [
  | inl on ↦
      let m : d.table.cookies.made i ≡ true = ground (arith, on) in
      rw (on) (
        disconnect_chain-Emptied d.table.next_link d xs ds i h m
          (omega (arith, size-kept d.connected (xs i), sized d.table d.connected xs h.valid i m)))
  | inr off ↦ rw (off) (record {
    waiting = ds;
    holds = h;
    dying = λ j. IsDying-refl d.connected (xs j);
    gone = λ j e. subst (λ l. IsDead d.connected l) (sym (ap xs e ∙ no_chain d xs ds i h off)) tt;
  })
]

disconnect_entries-Emptied :
    (k i : ℕ) (d : Dispatcher) (xs : ℕ → List ℕ) (ds : List ℕ)
    → IsDispatcher d xs ds
    → Emptied d xs (disconnect_entries k i d).0 (λ j. (i ≤ j) × (j < i + k))
unfolding disconnect_entries
disconnect_entries-Emptied zero i d xs ds h = record {
  waiting = ds;
  holds = h;
  dying = λ j. IsDying-refl d.connected (xs j);
  gone = λ j l. absurd (omega (arith, l.0, l.1));
}
disconnect_entries-Emptied (suc k) i d xs ds h =
    let one = disconnect_entry-Emptied d xs ds i h in
    let e = (disconnect_entry d i).0 in
    let r = disconnect_entries-Emptied k (i + 1) e xs one.waiting one.holds in
    record {
      waiting = r.waiting;
      holds = r.holds;
      dying = λ j. IsDying-trans d.connected e.connected _ (xs j) (one.dying j) (r.dying j);
      gone = λ j l. elim (ℕ_discrete j i) [
        | yes same ↦ IsDead-dying e.connected _ (xs j) (r.dying j) (one.gone j same)
        | no other ↦ r.gone j (omega (arith, l.0, other), omega (arith, l.1))
      ];
    }

-- No link is connected any more, and `poll` is asked for nothing.
pub record IsVacant (d : Dispatcher) : Type 0 where
  pub stands : Stands d
  pub disconnected : (p : ℕ) → d.connected p ≡ false
  pub nothing : d.polltab.size ≡ 0

disconnect_all-IsVacant : (d : Dispatcher) → Stands d → IsVacant (disconnect_all d).0
unfolding disconnect_all
disconnect_all-IsVacant d h =
    let xs = h.links in
    let r = disconnect_entries-Emptied d.table.capacity 0 d xs h.waiting h.holds in
    let e = (disconnect_all d).0 in
    let dead : (j : ℕ) → IsDead e.connected (xs j) = λ j. elim (dec_lt j d.table.capacity) [
      | yes l ↦ r.gone j (omega arith, omega (arith, l))
      | no l ↦
          let off : get_chain d.table j ≡ false = ground (arith, l) in
          subst (λ l. IsDead e.connected l) (sym (no_chain d xs h.waiting j h.holds off)) tt
    ] in
    let none_on : (p : ℕ) → e.connected p ≡ false = λ p. elim (Bool-cases (e.connected p)) [
      | inl on ↦
          dead-off e.connected p (xs (e.table.fd p)) (r.holds.valid.members p on)
            (dead (e.table.fd p))
      | inr off ↦ off
    ] in
    record {
      stands = record { links = xs; waiting = r.waiting; holds = r.holds };
      disconnected = none_on;
      nothing = elim (ℕ_discrete e.polltab.size 0) [
        | yes z ↦ z
        | no z ↦
            let fd = e.polltab.fds 0 in
            absurd (
              omega (
                arith,
                r.holds.polled.watched 0 (omega (arith, z)),
                ap size (dead-kept e.connected (xs fd) (dead fd)),
              ))
      ];
    }

unlock-IsVacant : (sync : Bool) (d : Dispatcher) → IsVacant d → IsVacant (unlock sync d)
unfolding synchronize
unlock-IsVacant true d h = record {
  stands = unlock-Stands true d h.stands;
  disconnected = h.disconnected;
  nothing = h.nothing;
}
unlock-IsVacant false d h = h

-- The destructor, whatever the lock answers, leaves no link connected and no entry for `poll`, and the
-- dispatcher's tables still hold together.
pub destroy-IsVacant :
    (rounds : ℕ) (sync : Bool) (d : Dispatcher) → Stands d → IsVacant (destroy rounds sync d)
unfolding destroy
destroy-IsVacant rounds sync d h =
    let e = enter rounds d in
    let (f, any_disconnected) = disconnect_all e in
    unlock-IsVacant (sync || any_disconnected) f
      (disconnect_all-IsVacant e (enter-Stands rounds d h))
