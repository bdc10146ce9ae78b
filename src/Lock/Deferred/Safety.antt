-- ===== src/Lock/Deferred/Safety.antt =====
-- The states that threads can reach with a deferred lock.
use libtscb.Base.{
  ℕ, ◌*◌, ◌<◌, ◌≤◌, ◌≡◌, ◌≢◌, ◌⊎◌, inl, inr, Bool, true, false, if◌then◌else◌, arith, refl,
  Bool-cases, ap,
}
use native.Mathlib.Decide.{ℕ_discrete}
use libtscb.Lock.Deferred.{
  Memory, Thread, Pc, loading, acquiring, lock_slow, slow_loading, slow_acquiring, slow_won,
  unlock_leave, write_start, sync_leave, idle, syncing, writing, unlock_slow, unlock_check, System,
  init, turn, Reach, start, later,
}
use libtscb.Sums.{sum_of, sum_of-two, sum_of_zero, le-sum_of, sum_of_pos}
use libtscb.Lock.Deferred.Invariant.{Inv, held_of, owner_of, heads_of, owns, heads, Move-Inv}

-- All the read locks that the threads may take fit into `readers_`.
abbrev pub IsSmall : ℕ → ℕ → Type 0
IsSmall n depth = n * depth < 18446744073709551614

init-Inv : (n depth : ℕ) → Inv n depth init.memory init.thread
init-Inv n depth = record {
  count = omega (arith, sum_of_zero held_of n init.thread (λ i. refl));
  owners = sum_of_zero owner_of n init.thread (λ i. refl);
  synced = λ i l e. cc;
  headed = λ q r. cc;
  places = λ i. omega arith;
}

pub Reach-Inv :
    {n depth : ℕ} {s : System} → IsSmall n depth → Reach n depth s → Inv n depth s.memory s.thread
Reach-Inv {n} {depth} small start = init-Inv n depth
Reach-Inv small (later r (turn i l mv)) = Move-Inv (Reach-Inv small r) i l small mv

Owns_of_apart : {p : Pc} → (p ≡ syncing) ⊎ (p ≡ writing) → owns p ≡ 1
Owns_of_apart (inl e) = rw (e) refl
Owns_of_apart (inr e) = rw (e) refl

one_owner :
    {n depth : ℕ} {m : Memory} {th : ℕ → Thread}
    → Inv n depth m th
    → (i j : ℕ) → i < n
    → j < n
    → i ≢ j
    → owns (th i).pc ≡ 1
    → owns (th j).pc ≡ 1
    → ⊥
one_owner {n} {m} {th} inv i j l k d e f = elim (Bool-cases m.locked) [
  | inl on ↦ omega (arith, sum_of-two owner_of n th i j l k d, owned on)
  | inr off ↦ omega (arith, sum_of-two owner_of n th i j l k d, owned off)
]
  where
    owned : {b : Bool} → m.locked ≡ b → sum_of owner_of n th ≡ (if b then 1 else 0)
    owned e = rw (← e) inv.owners

rested_lem :
    {n depth : ℕ} {m : Memory} {th : ℕ → Thread}
    → Inv n depth m th
    → ((i : ℕ) → th i ≡ record { pc = idle; held = 0 })
    → (m.readers ≡ 1) × (m.locked ≡ false) × (m.queued ≡ false)
rested_lem {n} {m} {th} inv rest =
    ground (arith, inv.count, inv.owners, inv.headed, none_held, none_owns, none_heads)
  where
    none_held : sum_of held_of n th ≡ 0
    none_held = sum_of_zero held_of n th (λ i. ap held_of (rest i))

    none_owns : sum_of owner_of n th ≡ 0
    none_owns = sum_of_zero owner_of n th (λ i. ap owner_of (rest i))

    none_heads : sum_of heads_of n th ≡ 0
    none_heads = sum_of_zero heads_of n th (λ i. ap heads_of (rest i))

heads_le : (p : Pc) → heads p ≤ 1
heads_le unlock_slow = omega arith
heads_le unlock_check = omega arith
heads_le syncing = omega arith
heads_le idle = omega arith
heads_le loading = omega arith
heads_le (acquiring e) = omega arith
heads_le lock_slow = omega arith
heads_le slow_loading = omega arith
heads_le (slow_acquiring e) = omega arith
heads_le slow_won = omega arith
heads_le unlock_leave = omega arith
heads_le write_start = omega arith
heads_le writing = omega arith
heads_le sync_leave = omega arith

init_of_fields :
    {m : Memory} → (m.readers ≡ 1) × (m.locked ≡ false) × (m.queued ≡ false) → m ≡ init.memory
init_of_fields (a, b, c) = cc

-- While a thread synchronizes, no thread has a read lock, and no other thread synchronizes or
-- writes, in every state that the threads can reach, for as many threads and read locks as a
-- `size_t` can count.
pub sync_exclusive :
    {n depth : ℕ} {s : System}
    → IsSmall n depth
    → Reach n depth s
    → (i j : ℕ) → i < n
    → j < n
    → (s.thread i).pc ≡ syncing
    → ((s.thread j).held ≡ 0)
      × ((i ≡ j) ⊎ (((s.thread j).pc ≢ syncing) × ((s.thread j).pc ≢ writing)))
sync_exclusive {n} {s = s} small r i j l k e =
    let inv = Reach-Inv small r in
    (
      ground (arith, inv.count, inv.synced i l e, le-sum_of held_of n s.thread j k),
      elim (ℕ_discrete i j) [
        | yes same ↦ inl same
        | no other ↦
            let clash = one_owner inv i j l k other (Owns_of_apart (inl e)) in
            inr (λ f. clash (Owns_of_apart (inl f)), λ f. clash (Owns_of_apart (inr f)))
      ],
    )

-- Two threads never write at the same time, in every state that the threads can reach.
pub writers_exclusive :
    {n depth : ℕ} {s : System}
    → IsSmall n depth
    → Reach n depth s
    → (i j : ℕ) → i < n
    → j < n
    → (s.thread i).pc ≡ writing
    → (s.thread j).pc ≡ writing
    → i ≡ j
writers_exclusive small r i j l k e f = elim (ℕ_discrete i j) [
  | yes same ↦ same
  | no other ↦
      let clash = one_owner (Reach-Inv small r) i j l k other (Owns_of_apart (inr e)) in
      absurd (clash (Owns_of_apart (inr f)))
]

-- A synchronization that a writer has asked for is not forgotten: as long as one is queued, some
-- thread has a read lock, or is in `read_unlock_slow` up to its load of `readers_`, or synchronizes.
pub no_lost_sync :
    {n depth : ℕ} {s : System}
    → IsSmall n depth
    → Reach n depth s
    → s.memory.queued ≡ true
    → (i : ℕ) × (i < n) × ((0 < (s.thread i).held) ⊎ (heads (s.thread i).pc ≡ 1))
no_lost_sync {n} {s = s} small r q = elim (ℕ_discrete s.memory.readers 0) [
  | yes z ↦
      let (i, l, h) = sum_of_pos heads_of n s.thread ((Reach-Inv small r).headed q z) in
      (i, l, inr (omega (arith, h, heads_le (s.thread i).pc)))
  | no more ↦
      let (i, l, h) = sum_of_pos held_of n s.thread (ground (arith, (Reach-Inv small r).count)) in
      (i, l, inl h)
]

-- Once every thread that used the lock is outside its calls and has no read lock, the lock is as it
-- was when it was made: unlocked, with nothing queued, and with the count that lets readers in.
pub rest-init :
    {n depth : ℕ} {s : System}
    → IsSmall n depth
    → Reach n depth s
    → ((i : ℕ) → s.thread i ≡ record { pc = idle; held = 0 })
    → s.memory ≡ init.memory
rest-init small r rest = init_of_fields (rested_lem (Reach-Inv small r) rest)
