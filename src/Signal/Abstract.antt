-- ===== src/Signal/Abstract.antt =====
-- tscb/signal.h: `connect` and `disconnect` during a call of the signal, against an abstract registry.
use mathlib.Core.Path.{subst}
use libtscb.Base.{
  ℕ, ◌+◌, ◌≡◌, inl, inr, Bool, true, false, Bool-cases, Option, some, if◌then◌else◌, update, List,
  [], ◌∷◌, arith, sym, ◌∙◌,
}
use libtscb.Chain.Members.{IsIn-Around}
use libtscb.Signal.{
  Signal, connect, push_back, disconnect, remove, Op, connecting, disconnecting, run_op, run_ops,
}
use libtscb.Signal.Change.{connect-HasDeferred, removed-HasDeferred}
use libtscb.Signal.Synchronize.{HasDeferred}
use libtscb.Signal.Valid.{IsSignal, connect-IsSignal, disconnect-IsSignal}

-- All links since the last synchronization, the newest first, which of them are connected, with which
-- functions, the ones to destroy, the newest first, and the address for the next link.
pub record Registry : Type 0 where
  pub links : List ℕ
  pub alive : ℕ → Bool
  pub function : ℕ → Option ℕ
  pub waiting : List ℕ
  pub next : ℕ

-- What the calls promise: a new link joins at the end, and a connected link that is disconnected stays
-- where it is and waits for destruction.
abbrev pub promise : Op → Registry → Registry
promise (connecting f) a = record {
  links = a.next ∷ a.links;
  alive = update a.alive a.next true;
  function = update a.function a.next (some f);
  waiting = a.waiting;
  next = a.next + 1;
}
promise (disconnecting p) a =
    let gone = record a { alive = update a.alive p false; waiting = p ∷ a.waiting } in
    if a.alive p then gone else a

abbrev pub promise_all : List Op → Registry → Registry
promise_all [] a = a
promise_all (o ∷ os) a = promise_all os (promise o a)

pub record Implements (s : Signal) (a : Registry) : Type 0 where
  pub valid : IsSignal s a.links
  pub deferred : HasDeferred s a.links a.waiting
  pub alive : (p : ℕ) → s.connected p ≡ a.alive p
  pub function : (p : ℕ) → s.function p ≡ a.function p
  pub next : s.next_link ≡ a.next

connect-Implements :
    (s : Signal) (a : Registry) (f : ℕ)
    → Implements s a
    → Implements (connect s f false) (promise (connecting f) a)
unfolding connect push_back
connect-Implements s a f h = record {
  valid =
      subst (λ q. IsSignal (connect s f false) (q ∷ a.links)) h.next
        (connect-IsSignal s f a.links h.valid);
  deferred =
      subst (λ q. HasDeferred (connect s f false) (q ∷ a.links) a.waiting) h.next
        (connect-HasDeferred s f a.links a.waiting h.valid h.deferred);
  alive = λ p. ground (arith, h.alive p, h.next);
  function = λ p. ground (arith, h.function p, h.next);
  next = omega (arith, h.next);
}

disconnect-Implements :
    (s : Signal) (a : Registry) (p : ℕ)
    → Implements s a
    → Implements (disconnect s p false) (promise (disconnecting p) a)
unfolding disconnect remove
disconnect-Implements s a p h = elim (Bool-cases (s.connected p)) [
  | inr off ↦ let dead : a.alive p ≡ false = sym (h.alive p) ∙ off in rw (off, dead) h
  | inl on ↦
      let up : a.alive p ≡ true = sym (h.alive p) ∙ on in
      let valid = disconnect-IsSignal s p a.links h.valid in
      let deferred =
        removed-HasDeferred s p a.links a.waiting h.valid h.deferred on
          (IsIn-Around p a.links (h.valid.members p on)) in
      rw (up) (record {
        valid = valid;
        deferred = deferred;
        alive = λ q. rw (on) (ground (arith, h.alive q));
        function = λ q. rw (on) (h.function q);
        next = rw (on) h.next;
      })
]

-- Whatever links connect and disconnect while a call of the signal is in progress, in any order: the
-- chain holds all links that joined since the last synchronization, disconnected ones included, in the
-- order of joining, each with the function it was connected with; the active links are those that are
-- connected; and each link that was disconnected waits for destruction, once, in that order.
pub run_ops-Implements :
    (os : List Op) (s : Signal) (a : Registry)
    → Implements s a
    → Implements (run_ops os s) (promise_all os a)
unfolding run_ops run_op
run_ops-Implements [] s a h = h
run_ops-Implements (connecting f ∷ os) s a h =
    run_ops-Implements os (connect s f false) (promise (connecting f) a)
      (connect-Implements s a f h)
run_ops-Implements (disconnecting p ∷ os) s a h =
    run_ops-Implements os (disconnect s p false) (promise (disconnecting p) a)
      (disconnect-Implements s a p h)
