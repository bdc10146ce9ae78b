-- ===== src/Eventflag/Invariant.antt =====
-- The invariant of the event flag, and the steps of the threads.
use native.Mathlib.Decide.{ℕ_discrete}
use libtscb.Base.{ℕ, zero, suc, ◌+◌, ◌<◌, ◌≤◌, ◌≡◌, ◌≢◌, ◌==◌, if◌then◌else◌, update, arith, sym}
use libtscb.Eventflag.{
  Flag, Place, set_check, set_slow, set_write, wait_check, polling, wait_stop, clear_cas,
  clear_load, clear_read, Access, set_begin, set_already, set_clear, raise, raise_late, check_none,
  check_some, mark, mark_late, wait_already, wait_clear, check_set, check_unset, wake, clear_begin,
  clear_already, clear_set, clear_lose, clear_win_one, clear_win_slow, read_byte,
}
use libtscb.Sums.{sum_of, sum_of-update, le-sum_of, sum_of-le}

-- The thread is about to write a byte, or to read one.
abbrev pub writes : Place → ℕ
writes set_write = 1
writes _ = 0

abbrev pub reads : Place → ℕ
reads clear_read = 1
reads _ = 0

-- It has raised the flag, and will see whether to write.
abbrev pub raises : Place → ℕ
raises set_check = 1
raises set_slow = 1
raises _ = 0

-- It counts in `waiting_`.
abbrev pub waits : Place → ℕ
waits wait_check = 1
waits polling = 1
waits wait_stop = 1
waits _ = 0

abbrev pub polls : Place → ℕ
polls polling = 1
polls _ = 0

-- The flag, while a thread is at a place: it stays set during `clear`, which only thread 0 calls.
abbrev pub Fits : ℕ → Flag → Place → Type 0
Fits i m clear_load = i ≡ 0
Fits i m (clear_cas e) = (i ≡ 0) × (m.flagged ≢ 0) × (e ≢ 0)
Fits i m clear_read = i ≡ 0
Fits i m _ = Unit

pub record Inv (n : ℕ) (m : Flag) (place : ℕ → Place) : Type 0 where
  pub range : m.flagged ≤ 2
  pub bytes :
      m.bytes + sum_of writes n place ≡ (if m.flagged == 2 then 1 else 0) + sum_of reads n place
  pub waiting : m.waiting ≡ sum_of waits n place
  pub raised : m.flagged ≡ 1 → 0 < sum_of polls n place → 0 < sum_of raises n place
  pub fits : (i : ℕ) → Fits i m (place i)

-- What a move may rely on, read off its premise.
abbrev Guard : {i : ℕ} {m m' : Flag} {p p' : Place} → Access i m p m' p' → Type 0
Guard {m} (set_already _) = m.flagged ≢ 0
Guard {m} (set_clear _) = m.flagged ≡ 0
Guard {m} (raise _) = m.flagged ≡ 0
Guard {m} (raise_late _) = m.flagged ≢ 0
Guard {m} (check_none _) = m.waiting ≡ 0
Guard {m} (check_some _) = m.waiting ≢ 0
Guard {m} (mark _) = m.flagged ≡ 1
Guard {m} (mark_late _) = m.flagged ≢ 1
Guard {m} (wait_already _) = m.flagged ≢ 0
Guard {m} (wait_clear _) = m.flagged ≡ 0
Guard {m} (check_set _) = m.flagged ≢ 0
Guard {m} (check_unset _) = m.flagged ≡ 0
Guard {m} (wake _) = m.bytes ≢ 0
Guard {i} (clear_begin _) = i ≡ 0
Guard {m} (clear_already _) = m.flagged ≡ 0
Guard {m} (clear_set _) = m.flagged ≢ 0
Guard {m} (clear_lose {e} _) = m.flagged ≢ e
Guard {m} (clear_win_one _) = m.flagged ≡ 1
Guard {m} (clear_win_slow {e} _ _) = (e ≢ 1) × (m.flagged ≡ e)
Guard {m} (read_byte _) = m.bytes ≢ 0
Guard _ = Unit

guard : {i : ℕ} {m m' : Flag} {p p' : Place} (a : Access i m p m' p') → Guard a
guard (set_already g) = g
guard (set_clear g) = g
guard (raise g) = g
guard (raise_late g) = g
guard (check_none g) = g
guard (check_some g) = g
guard (mark g) = g
guard (mark_late g) = g
guard (wait_already g) = g
guard (wait_clear g) = g
guard (check_set g) = g
guard (check_unset g) = g
guard (wake g) = g
guard (clear_begin g) = g
guard (clear_already g) = g
guard (clear_set g) = g
guard (clear_lose g) = g
guard (clear_win_one g) = g
guard (clear_win_slow g k) = (g, k)
guard (read_byte g) = g
guard _ = tt

-- Each thread that polls counts in `waiting_`.
pub polls-waits : (n : ℕ) (place : ℕ → Place) → sum_of polls n place ≤ sum_of waits n place
unfolding sum_of
polls-waits zero place = omega arith
polls-waits (suc n) place = ground (arith, polls-waits n place)

waits-le : (p : Place) → waits p ≤ 1
waits-le p = ground arith

module _ {n : ℕ} {m : Flag} {place : ℕ → Place} (inv : Inv n m place) (i : ℕ) (lt : i < n)
    (small : n < 18446744073709551615) where
  -- Thread `i` goes from `p` to `p'`.
  record Mover (p p' : Place) : Type 0 where
    fits : Fits i m p
    write_sum : sum_of writes n (update place i p') + writes p ≡ sum_of writes n place + writes p'
    read_sum : sum_of reads n (update place i p') + reads p ≡ sum_of reads n place + reads p'
    raise_sum : sum_of raises n (update place i p') + raises p ≡ sum_of raises n place + raises p'
    wait_sum : sum_of waits n (update place i p') + waits p ≡ sum_of waits n place + waits p'
    poll_sum : sum_of polls n (update place i p') + polls p ≡ sum_of polls n place + polls p'
    wait_le : waits p ≤ sum_of waits n place
    read_le : reads p ≤ sum_of reads n place
    bound : sum_of waits n place ≤ n

  mover : (p' : Place) → Mover (place i) p'
  mover p' = record {
    fits = inv.fits i;
    write_sum = sum_of-update writes n place i p' lt;
    read_sum = sum_of-update reads n place i p' lt;
    raise_sum = sum_of-update raises n place i p' lt;
    wait_sum = sum_of-update waits n place i p' lt;
    poll_sum = sum_of-update polls n place i p' lt;
    wait_le = le-sum_of waits n place i lt;
    read_le = le-sum_of reads n place i lt;
    bound = omega (arith, sum_of-le waits 1 n place (λ j. waits-le (place j)));
  }

  Access-range : {p p' : Place} {m' : Flag} → Access i m p m' p' → Mover p p' → m'.flagged ≤ 2
  Access-range set_begin f = inv.range
  Access-range a f = ground (arith, guard a, inv.range)

  Access-bytes :
      {p p' : Place} {m' : Flag}
      → Access i m p m' p'
      → Mover p p'
      → m'.bytes + sum_of writes n (update place i p')
        ≡ (if m'.flagged == 2 then 1 else 0) + sum_of reads n (update place i p')
  Access-bytes set_begin f = ground (arith, inv.bytes)
  Access-bytes a f = ground (arith, guard a, inv.bytes, inv.range, f.fits)

  Access-waiting :
      {p p' : Place} {m' : Flag}
      → Access i m p m' p'
      → Mover p p'
      → m'.waiting ≡ sum_of waits n (update place i p')
  Access-waiting set_begin f = ground (arith, inv.waiting)
  Access-waiting a f = ground (arith, guard a, inv.waiting)

  Access-raised :
      {p p' : Place} {m' : Flag}
      → Access i m p m' p'
      → Mover p p'
      → m'.flagged ≡ 1
      → 0 < sum_of polls n (update place i p')
      → 0 < sum_of raises n (update place i p')
  Access-raised set_begin f e l = ground (arith, inv.raised)
  Access-raised a f e l = ground (arith, guard a, inv.raised, inv.waiting, polls-waits n place)

  Access-Fits_self : {p p' : Place} {m' : Flag} → Access i m p m' p' → Mover p p' → Fits i m' p'
  Access-Fits_self set_begin f = tt
  Access-Fits_self a f = ground (arith, guard a, f.fits)

  -- Only thread 0 sets the flag to 0.
  Access-Fits_other :
      {p p' : Place} {m' : Flag} (j : ℕ)
      → j ≢ i
      → Access i m p m' p'
      → Mover p p'
      → (q : Place) → Fits j m q
      → Fits j m' q
  Access-Fits_other j d set_begin f q h = h
  Access-Fits_other j d a f q h = ground (arith, guard a, f.fits)

  pub Access-Inv :
      {p' : Place} {m' : Flag} → Access i m (place i) m' p' → Inv n m' (update place i p')
  Access-Inv {p'} {m'} a =
      let f = mover p' in
      record {
        range = Access-range a f;
        bytes = Access-bytes a f;
        waiting = Access-waiting a f;
        raised = Access-raised a f;
        fits = λ j. elim (ℕ_discrete i j) [
          | yes same ↦ ground (arith, Access-Fits_self a f)
          | no other ↦
              ground (arith, Access-Fits_other j (λ e. other (sym e)) a f (place j) (inv.fits j))
        ];
      }
