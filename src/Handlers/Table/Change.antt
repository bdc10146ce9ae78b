-- ===== src/Handlers/Table/Change.antt =====
-- tscb/detail/fd-handler-table.cc: `insert` once the chain is there, `remove` and `modify`.
use mathlib.Core.Path.{subst, fun_ext}
use native.Mathlib.Decide.{ℕ_discrete}
use libtscb.Base.{
  ℕ, ◌<◌, ◌≡◌, ◌≢◌, inl, inr, ◌==◌, Bool, true, false, some, if◌then◌else◌, update, List, ◌∷◌,
  arith, refl, sym, ap, ◌∙◌,
}
use libtscb.Lock.Deferred.{fetch_add}
use libtscb.Chain.Active.{IsFreeOf, size}
use libtscb.Chain.Change.{IsChain}
use libtscb.Chain.Frame.{append-SameAt, deactivate-SameAt}
use libtscb.Chain.Members.{IsIn, Around, around, IsIn-Around}
use libtscb.Handlers.Chain.{Events, insert_link, remove_link, modify_link}
use libtscb.Handlers.Chain.Change.{insert_link_lem, remove_link_lem, modify_link_lem}
use libtscb.Handlers.Chain.Masks.{mask_of, actives_of}
use libtscb.Handlers.Cookie.{Cookies, retire}
use libtscb.Handlers.Table.{Table, chain_at, put_chain, join_chain, remove, modify}
use libtscb.Handlers.Table.Valid.{IsTable, IsReplaced, sized, other-IsFreeOf, alive-made}
use libtscb.Handlers.Table.Effect.{IsChanged, put-IsChanged, extra-IsChanged}

-- A link that was made and has not joined yet.
pub record IsNew (t : Table) (alive : ℕ → Bool) (xs : ℕ → List ℕ) (p : ℕ) : Type 0 where
  pub some_link : p ≢ 0
  pub below : p < t.next_link
  pub free : (i : ℕ) → IsFreeOf p (xs i)
  pub function : (f : ℕ) × (t.function p ≡ some f)

module _ (t : Table) (alive : ℕ → Bool) (xs : ℕ → List ℕ) (h : IsTable t alive xs) where
  inserted-IsReplaced :
      (p : ℕ)
      → IsNew t alive xs p
      → t.cookies.made (t.fd p) ≡ true
      → let i = t.fd p in
        IsReplaced t alive i
          (insert_link t.next_link (chain_at t i) p).0
          (update alive p true)
          (p ∷ xs i)
  unfolding insert_link
  inserted-IsReplaced p w m =
      let i = t.fd p in
      let short = sized t alive xs h i m in
      record {
        made = m;
        chain =
            (insert_link_lem t.next_link alive (chain_at t i) p (xs i) (h.chains i m) w.some_link
              (w.free i) short).chain;
        others = λ x d.
            let other : x ≢ p = λ e. d (ap t.fd e) in
            (
              append-SameAt t.next_link alive (chain_at t i).links p (xs i) (h.chains i m)
                  (w.free i) short x other (other-IsFreeOf t alive xs h i x d),
              ground (arith, other),
              refl,
            );
        places = λ q k. elim k [ inl e ↦ ap t.fd (sym e) | inr k' ↦ h.places i q k' ];
        members = λ q e on. elim (ℕ_discrete p q) [
          | yes same ↦ inl same
          | no other ↦ inr (subst (λ k. IsIn q (xs k)) e (h.members q (ground (arith, on, other))))
        ];
        functions = (w.function, h.functions i);
        below = (w.below, h.below i);
      }

  -- The link joins its descriptor's chain.
  pub join_chain-IsChanged :
      (p : ℕ)
      → IsNew t alive xs p
      → t.cookies.made (t.fd p) ≡ true
      → let i = t.fd p in
        let r = join_chain t p in
        IsChanged t alive xs i r.0 (update alive p true) (update xs i (p ∷ xs i)) r.1 r.2
  unfolding join_chain insert_link
  join_chain-IsChanged p w m =
      let i = t.fd p in
      let (c, before, after) = insert_link t.next_link (chain_at t i) p in
      let masks =
        insert_link_lem t.next_link alive (chain_at t i) p (xs i) (h.chains i m) w.some_link
          (w.free i) (sized t alive xs h i m) in
      let alive' = update alive p true in
      extra-IsChanged t alive xs i (put_chain t i c) alive' (update xs i (p ∷ xs i)) before after
        t.cookies (update t.refs p (fetch_add (t.refs p))) t.inactive_next t.inactive t.old
        (λ j. refl)
        (put-IsChanged t alive xs i c alive' (p ∷ xs i) before after h (inserted-IsReplaced p w m)
          masks.old_mask masks.new_mask)

  update-same : (i : ℕ) → update xs i (xs i) ≡ xs
  update-same i = fun_ext (λ j. ground arith)

  modified-IsReplaced :
      (p : ℕ) (mask : Events)
      → alive p ≡ true
      → let i = t.fd p in
        IsReplaced t alive i (modify_link t.next_link (chain_at t i) p mask).0 alive (xs i)
  unfolding modify_link
  modified-IsReplaced p mask on =
      let i = t.fd p in
      let m = alive-made t alive xs h p on in
      record {
        made = m;
        chain =
            (modify_link_lem t.next_link alive (chain_at t i) p mask (xs i) (h.chains i m)
              (sized t alive xs h i m)).chain;
        others = λ x d.
            let other : x ≢ p = λ e. d (ap t.fd e) in
            (record { active_next = refl; prev = refl; next = refl }, refl, ground (arith, other));
        places = h.places i;
        members = λ q e on'. subst (λ k. IsIn q (xs k)) e (h.members q on');
        functions = h.functions i;
        below = h.below i;
      }

  -- The mask of one link changes.
  pub modify-IsChanged :
      (p : ℕ) (mask : Events)
      → alive p ≡ true
      → let r = modify t p mask in IsChanged t alive xs (t.fd p) r.0 alive xs r.1 r.2
  unfolding modify modify_link
  modify-IsChanged p mask on =
      let i = t.fd p in
      let m = alive-made t alive xs h p on in
      let (c, before, after) = modify_link t.next_link (chain_at t i) p mask in
      let masks =
        modify_link_lem t.next_link alive (chain_at t i) p mask (xs i) (h.chains i m)
          (sized t alive xs h i m) in
      subst (λ l. IsChanged t alive xs i (put_chain t i c) alive l before after) (update-same i)
        (put-IsChanged t alive xs i c alive (xs i) before after h (modified-IsReplaced p mask on)
          masks.old_mask masks.new_mask)

  removed-IsReplaced :
      (p : ℕ)
      → alive p ≡ true
      → Around p (xs (t.fd p))
      → let i = t.fd p in
        IsReplaced t alive i
          (remove_link t.next_link (chain_at t i) p).0
          (update alive p false)
          (xs i)
  unfolding remove_link
  removed-IsReplaced p on (around later sooner e) =
      let i = t.fd p in
      let m = alive-made t alive xs h p on in
      let c = (chain_at t i).links in
      let now = subst (λ l. IsChain c alive l) e (h.chains i m) in
      let short = subst (λ l. size l < t.next_link) e (sized t alive xs h i m) in
      record {
        made = m;
        chain =
            subst
              (λ l.
                IsChain (remove_link t.next_link (chain_at t i) p).0.links (update alive p false) l)
              (sym e)
              (remove_link_lem t.next_link alive (chain_at t i) p later sooner now on short).chain;
        others = λ x d.
            let other : x ≢ p = λ e. d (ap t.fd e) in
            (
              deactivate-SameAt t.next_link alive c p later sooner now on short x
                  (subst (λ l. IsFreeOf x l) e (other-IsFreeOf t alive xs h i x d)),
              ground (arith, other),
              refl,
            );
        places = h.places i;
        members = λ q w on'. subst (λ k. IsIn q (xs k)) w (h.members q (ground (arith, on')));
        functions = h.functions i;
        below = h.below i;
      }

  retire-made : (c : Cookies) (b : Bool) (i j : ℕ) → (if b then retire c i else c).made j ≡ c.made j
  unfolding retire
  retire-made c b i j = ground arith

  removed-IsChanged :
      (p : ℕ)
      → alive p ≡ true
      → Around p (xs (t.fd p))
      → let r = remove t p in IsChanged t alive xs (t.fd p) r.0 (update alive p false) xs r.1 r.2
  unfolding remove remove_link
  removed-IsChanged p on (around later sooner e) =
      let i = t.fd p in
      let m = alive-made t alive xs h p on in
      let (c, before, after) = remove_link t.next_link (chain_at t i) p in
      let alive' = update alive p false in
      let last = if c.active == 0 then retire t.cookies i else t.cookies in
      let masks =
        remove_link_lem t.next_link alive (chain_at t i) p later sooner
          (subst (λ l. IsChain (chain_at t i).links alive l) e (h.chains i m)) on
          (subst (λ l. size l < t.next_link) e (sized t alive xs h i m)) in
      extra-IsChanged t alive xs i (put_chain t i c) alive' xs before after last t.refs
        (update t.inactive_next p t.inactive) p t.old (retire-made t.cookies (c.active == 0) i)
        (subst (λ l. IsChanged t alive xs i (put_chain t i c) alive' l before after) (update-same i)
          (put-IsChanged t alive xs i c alive' (xs i) before after h
            (removed-IsReplaced p on (around later sooner e))
            (masks.old_mask ∙ ap (λ l. mask_of t.event_mask (actives_of alive l)) (sym e))
            (masks.new_mask ∙ ap (λ l. mask_of t.event_mask (actives_of alive' l)) (sym e))))

  -- A link that is alive leaves its active list.
  pub remove-IsChanged :
      (p : ℕ)
      → alive p ≡ true
      → let r = remove t p in IsChanged t alive xs (t.fd p) r.0 (update alive p false) xs r.1 r.2
  remove-IsChanged p on = removed-IsChanged p on (IsIn-Around p (xs (t.fd p)) (h.members p on))
