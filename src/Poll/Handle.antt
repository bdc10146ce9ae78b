-- ===== src/Poll/Handle.antt =====
-- tscb/ioready-poll.cc: `handle_events` and `dispatch`, with `poll` and the handlers as parameters.
use native.Mathlib.Decide.{ℕ_discrete, dec_lt}
use libtscb.Base.{
  ℕ, zero, suc, ◌+◌, ◌*◌, ◌/◌, ◌%◌, ◌<◌, ◌≤◌, ◌≡◌, Bool, true, false, Bool-cases, ltb, Option, some,
  if◌then◌else◌, List, [], ◌∷◌, arith, refl, sym, ap, ◌∙◌, inl, inr,
}
use libtscb.Handlers.Chain.{Events}
use libtscb.Poll.{
  PollEvents, PollTable, poll_any, translate_os_to_tscb, handle_from, handle_events, Timeout,
  bounded, round_up, Answer, failed, reported, handle_answer, dispatch, dispatch_pending,
}

-- The entries with events, in order, from `n` on with `k` to go.
abbrev pub ready : (ℕ → ℕ) → (ℕ → PollEvents) → ℕ → ℕ → List (ℕ × Events)
ready fds revents zero n = []
ready fds revents (suc k) n =
    let rest = ready fds revents k (n + 1) in
    if poll_any (revents n) then (fds n, translate_os_to_tscb (revents n)) ∷ rest else rest

abbrev pub length : List (ℕ × Events) → ℕ
length [] = 0
length (x ∷ xs) = suc (length xs)

abbrev pub take : ℕ → List (ℕ × Events) → List (ℕ × Events)
take zero xs = []
take (suc n) [] = []
take (suc n) (x ∷ xs) = x ∷ take n xs

take-all : (n : ℕ) (xs : List (ℕ × Events)) → length xs ≤ n → take n xs ≡ xs
take-all zero [] l = refl
take-all zero (x ∷ xs) l = absurd (omega (arith, l))
take-all (suc n) [] l = refl
take-all (suc n) (x ∷ xs) l = ap (λ ys. x ∷ ys) (take-all n xs (omega (arith, l)))

take-min :
    (n : ℕ) (xs : List (ℕ × Events))
    → take (if ltb (length xs) n then length xs else n) xs ≡ take n xs
take-min n xs = elim (dec_lt (length xs) n) [
  | yes l ↦
      let b : ltb (length xs) n ≡ true = ground (arith, l) in
      rw (b) (take-all (length xs) xs (omega arith) ∙ sym (take-all n xs (omega (arith, l))))
  | no l ↦ let b : ltb (length xs) n ≡ false = ground (arith, l) in rw (b) refl
]

take-none : (n : ℕ) (xs : List (ℕ × Events)) → length xs ≡ 0 → take n xs ≡ []
take-none zero xs e = refl
take-none (suc n) [] e = refl
take-none (suc n) (x ∷ xs) e = absurd (omega (arith, e))

module _ {S : Type 0} (notify : ℕ → Events → S → S × Bool) where
  -- Each of the descriptors is notified, in order, up to the first whose handler throws.
  abbrev pub notify_all : List (ℕ × Events) → ℕ → S → S × ℕ × Bool
  notify_all [] count s = (s, count, false)
  notify_all ((fd, ev) ∷ xs) count s =
      let (t, thrown) = notify fd ev s in
      let rest = notify_all xs (count + 1) t in if thrown then (t, count, true) else rest

  handle_from-notify :
      (fds : ℕ → ℕ) (revents : ℕ → PollEvents) (k n m count : ℕ) (s : S)
      → handle_from notify fds revents k n (m + count) count s
        ≡ notify_all (take m (ready fds revents k n)) count s
  unfolding handle_from
  handle_from-notify fds revents zero n zero count s = refl
  handle_from-notify fds revents zero n (suc m) count s = refl
  handle_from-notify fds revents (suc k) n zero count s =
      let full : ltb count (zero + count) ≡ false = ground arith in rw (full) refl
  handle_from-notify fds revents (suc k) n (suc m) count s =
      let room : ltb count (suc m + count) ≡ true = ground arith in
      let (t, thrown) = notify (fds n) (translate_os_to_tscb (revents n)) s in
      let same : suc m + count ≡ m + (count + 1) = omega arith in
      let called =
        ap (λ l. handle_from notify fds revents k (n + 1) l (count + 1) t) same
        ∙ handle_from-notify fds revents k (n + 1) m (count + 1) t in
      let passed = handle_from-notify fds revents k (n + 1) (suc m) count s in
      elim (Bool-cases (poll_any (revents n))) [
        | inl some_event ↦
            rw (room, some_event) (ap (λ r. if thrown then (t, count, true) else r) called)
        | inr no_event ↦ rw (room, no_event) passed
      ]

module _ (poll : (ℕ → ℕ) → (ℕ → PollEvents) → ℕ → Timeout → Answer) {S : Type 0}
    (notify : ℕ → Events → S → S × Bool) where
  -- What `poll` promises: the number of entries whose `revents` are not 0.
  abbrev pub Counts : (ℕ → ℕ) → ℕ → Answer → Type 0
  Counts fds size failed = Unit
  Counts fds size (reported count revents) = count ≡ length (ready fds revents size 0)

  abbrev pub notified : ℕ → (ℕ → ℕ) → ℕ → Answer → S → S × ℕ × Bool
  notified limit fds size failed s = (s, 0, false)
  notified limit fds size (reported count revents) s =
      notify_all notify (take limit (ready fds revents size 0)) 0 s

  handle_answer-notified :
      (t : PollTable) (limit : ℕ) (a : Answer) (s : S)
      → Counts t.fds t.size a
      → handle_answer poll notify t limit a s ≡ notified limit t.fds t.size a s
  unfolding handle_answer handle_events
  handle_answer-notified t limit failed s c = refl
  handle_answer-notified t limit (reported count revents) s c =
      let xs = ready t.fds revents t.size 0 in
      let handled : (m : ℕ)
          → handle_events notify t.fds revents t.size m s ≡ notify_all notify (take m xs) 0 s =
        λ m.
          let e : m ≡ m + 0 = omega arith in
          ap (λ l. handle_from notify t.fds revents t.size 0 l 0 s) e
          ∙ handle_from-notify notify t.fds revents t.size 0 m 0 s in
      elim (ℕ_discrete count 0) [
        | yes z ↦
            let b : ltb 0 count ≡ false = ground (arith, z) in
            rw (b) (sym (ap (λ ys. notify_all notify ys 0 s) (take-none limit xs (sym c ∙ z))))
        | no z ↦
            let b : ltb 0 count ≡ true = ground (arith, z) in
            rw (b) (
              handled (if ltb count limit then count else limit)
              ∙ ap (λ ys. notify_all notify ys 0 s)
                  (ap (λ (n : ℕ). take (if ltb n limit then n else limit) xs) c
                    ∙ take-min limit xs))
      ]

  -- Whatever `poll` answers, as long as it counts the entries with events right: `dispatch` asks it
  -- with no wait if the wakeup flag is set, and else with the timeout, `dispatch_pending` never waits,
  -- and both notify the descriptors of the entries with events, with what those stand for, in the
  -- order of the table, each once, up to `limit` of them or the first whose handler throws, and none
  -- if `poll` fails.
  pub dispatch-notified :
      (t : PollTable) (timeout : Option ℕ) (flagged : Bool) (limit : ℕ) (s : S)
      → ((wait : Timeout) → Counts t.fds t.size (poll t.fds t.events t.size wait))
      → let wait = if flagged then bounded 0 else round_up timeout in
        (dispatch poll notify t timeout flagged limit s
          ≡ notified limit t.fds t.size (poll t.fds t.events t.size wait) s)
        × (dispatch_pending poll notify t limit s
            ≡ notified limit t.fds t.size (poll t.fds t.events t.size (bounded 0)) s)
  unfolding dispatch dispatch_pending
  dispatch-notified t timeout flagged limit s c =
      (handle_answer-notified t limit _ s (c _), handle_answer-notified t limit _ s (c _))

-- A timeout of less than 2 ^ 31 milliseconds is rounded up to a whole number of milliseconds.
pub round_up_lem :
    (ns : ℕ)
    → ns ≤ 2147483647000000
    → (ms : ℕ) × (round_up (some ns) ≡ bounded ms)
      × (ns ≤ ms * 1000000)
      × (ms * 1000000 < ns + 1000000)
unfolding round_up
round_up_lem ns l =
    let ms = (ns + 999999) / 1000000 in
    let low : ms < 2147483648 = omega arith in
    let small : ms % 4294967296 ≡ ms = omega (arith, low) in
    let b : ltb ms 2147483648 ≡ true = ground (arith, low) in
    (ms, rw (small, b) refl, omega arith, omega arith)
