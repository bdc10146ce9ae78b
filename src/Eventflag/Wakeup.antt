-- ===== src/Eventflag/Wakeup.antt =====
-- tscb/detail/eventflag.cc: threads that wait for the flag, and the bytes in the pipe.
use native.Mathlib.Decide.{ℕ_discrete}
use libtscb.Base.{
  ℕ, zero, suc, ◌+◌, ◌<◌, ◌≤◌, ◌≡◌, ◌≢◌, ◌⊎◌, inl, inr, ◌==◌, if◌then◌else◌, arith, refl, ap,
}
use libtscb.Eventflag.{
  Flag, Place, set_check, set_slow, set_write, polling, clear_read, State, initial, turn, Course,
  start, later,
}
use libtscb.Eventflag.Invariant.{
  Inv, Fits, writes, reads, raises, waits, polls, polls-waits, Access-Inv,
}
use libtscb.Sums.{sum_of, le-sum_of, sum_of_pos, sum_of_zero}

initial-Inv : (n : ℕ) → Inv n initial.flag initial.place
initial-Inv n = record {
  range = omega arith;
  bytes = omega (
    arith,
    sum_of_zero writes n initial.place (λ i. refl),
    sum_of_zero reads n initial.place (λ i. refl),
  );
  waiting = omega (arith, sum_of_zero waits n initial.place (λ i. refl));
  raised = λ e l. omega (arith, e);
  fits = λ i. tt;
}

Course-Inv : {n : ℕ} {s : State} → n < 18446744073709551615 → Course n s → Inv n s.flag s.place
Course-Inv small start = initial-Inv _
Course-Inv small (later c (turn i lt a)) = Access-Inv (Course-Inv small c) i lt small a

-- Only thread 0 reads.
reads-le :
    (n : ℕ) (m : Flag) (place : ℕ → Place)
    → ((i : ℕ) → Fits i m (place i))
    → sum_of reads n place ≤ (if n == 0 then 0 else 1)
unfolding sum_of
reads-le zero m place h = omega arith
reads-le (suc n) m place h = ground (arith, h n, reads-le n m place h)

-- A byte is in the pipe, or a thread is about to write one: it stands before its `write`, or it has
-- set the flag to 1 and finds a waiting thread, or has found one and turns the 1 into 2.
abbrev pub Writing : ℕ → State → Type 0
Writing n s = (k : ℕ) × (k < n) × (s.place k ≡ set_write)

abbrev pub Raising : ℕ → State → Type 0
Raising n s =
    (k : ℕ) × (k < n)
    × (s.flag.flagged ≡ 1)
    × (s.flag.waiting ≢ 0)
    × ((s.place k ≡ set_check) ⊎ (s.place k ≡ set_slow))

abbrev pub IsComing : ℕ → State → Type 0
IsComing n s = (0 < s.flag.bytes) ⊎ (Writing n s ⊎ Raising n s)

writes-pos : (p : Place) → 0 < writes p → p ≡ set_write
writes-pos p l = ground (arith, l)

raises-pos : (p : Place) → 0 < raises p → (p ≡ set_check) ⊎ (p ≡ set_slow)
raises-pos p l = ground (arith, l)

module _ {n : ℕ} {s : State} (inv : Inv n s.flag s.place) where
  written : 0 < s.flag.bytes + sum_of writes n s.place → (0 < s.flag.bytes) ⊎ Writing n s
  written l = elim (ℕ_discrete s.flag.bytes 0) [
    | yes z ↦
        let (k, lt, pos) = sum_of_pos writes n s.place (omega (arith, l, z)) in
        inr (k, lt, writes-pos (s.place k) pos)
    | no z ↦ inl (omega (arith, z))
  ]

  woken : (i : ℕ) → i < n → s.place i ≡ polling → s.flag.flagged ≢ 0 → IsComing n s
  woken i lt e z =
      let here : polls (s.place i) ≡ 1 = ap polls e in
      let polled : 0 < sum_of polls n s.place =
        omega (arith, here, le-sum_of polls n s.place i lt) in
      elim (ℕ_discrete s.flag.flagged 1) [
        | yes one ↦
            let (k, kt, pos) = sum_of_pos raises n s.place (inv.raised one polled) in
            let counted : s.flag.waiting ≢ 0 =
              omega (arith, inv.waiting, polled, polls-waits n s.place) in
            inr (inr (k, kt, one, counted, raises-pos (s.place k) pos))
        | no other ↦ elim (written (ground (arith, inv.bytes, inv.range))) [
          | inl b ↦ inl b
          | inr w ↦ inr (inl w)
        ]
      ]

  refilled : (i : ℕ) → i < n → s.place i ≡ clear_read → (0 < s.flag.bytes) ⊎ Writing n s
  refilled i lt e =
      let here : reads (s.place i) ≡ 1 = ap reads e in
      written (ground (arith, here, inv.bytes, le-sum_of reads n s.place i lt))

-- Less than 2 ^ 64 - 1 threads set the flag and wait for it, and thread 0 clears it as well, in any
-- interleaving. No wakeup is lost: when a thread polls the pipe and the flag is set, a byte is there
-- or a thread is about to write one. The clearing thread does not wait in vain either: when it reads
-- the pipe, a byte is there or a thread stands before its `write`. The pipe never holds more than
-- two bytes.
pub Course-IsComing :
    {n : ℕ} {s : State}
    → n < 18446744073709551615
    → Course n s
    → ((i : ℕ) → i < n → s.place i ≡ polling → s.flag.flagged ≢ 0 → IsComing n s)
      × ((i : ℕ) → i < n → s.place i ≡ clear_read → (0 < s.flag.bytes) ⊎ Writing n s)
      × (s.flag.bytes ≤ 2)
Course-IsComing {n} {s} small c =
    let inv = Course-Inv small c in
    (woken inv, refilled inv, ground (arith, inv.bytes, reads-le n s.flag s.place inv.fits))
