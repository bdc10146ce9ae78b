-- ===== src/Signal.antt =====
-- tscb/signal.h: `signal` and its links. A link is named by its address, and 0 is the null pointer.
-- What the lock answers (`write_lock_async`, `read_lock`, `read_unlock`) is an argument.
pub mod Valid
pub mod Advance
pub mod Emit
pub mod Synchronize
pub mod Change
pub mod Abstract
pub mod Destroy
mod Tests
use libtscb.Base.{
  ◌||◌, ℕ, zero, suc, ◌+◌, ◌==◌, Bool, true, false, Option, none, some, List, [], ◌∷◌,
  if◌then◌else◌, update,
}
use libtscb.Lock.Deferred.{fetch_sub}
use libtscb.Chain.{LinkChain, append_link, deactivate_link, unlink_link}
use libtscb.Chain.Walk.{Call, called}

-- The fields of `signal`, and those of its links by address. `connected` says whether `chain_` is
-- set, `function` holds a number for each callback, and `next_link` is the address that the
-- allocator gives to the next link. No chain has as many links as `next_link`, which is the fuel of
-- the loops.
pub record Signal : Type 0 where
  pub links : LinkChain
  pub open links use *
  pub deferred_destroy : ℕ
  pub deferred_destroy_next : ℕ → ℕ
  pub connected : ℕ → Bool
  pub function : ℕ → Option ℕ
  pub refs : ℕ → ℕ
  pub next_link : ℕ

abbrev pub empty : Signal
empty = record {
  links = record {
    actives = record { active_next = λ _. 0; active = 0 };
    prev = λ _. 0;
    next = λ _. 0;
    first = 0;
    last = 0;
  };
  deferred_destroy = 0;
  deferred_destroy_next = λ _. 0;
  connected = λ _. false;
  function = λ _. none;
  refs = λ _. 0;
  next_link = 1;
}

-- The first loop of `synchronize_top`.
unfoldable pub repair : ℕ → (ℕ → ℕ) → LinkChain → ℕ → LinkChain
repair zero deferred_next c p = c
repair (suc n) deferred_next c p =
    let rest = repair n deferred_next (unlink_link c p) (deferred_next p) in
    if p == 0 then c else rest

-- The signal, and the list to destroy.
unfoldable pub synchronize_top : Signal → Signal × ℕ
synchronize_top s = (
  record s {
    links = repair s.next_link s.deferred_destroy_next s.links s.deferred_destroy;
    deferred_destroy = 0;
  },
  s.deferred_destroy,
)

unfoldable pub drop_function : Signal → ℕ → Signal
drop_function s p = record s {
  function = update s.function p none;
  refs = update s.refs p (fetch_sub (s.refs p));
}

unfoldable pub synchronize_bottom : ℕ → Signal → ℕ → Signal
synchronize_bottom zero s p = s
synchronize_bottom (suc n) s p =
    let rest = synchronize_bottom n (drop_function s p) (s.deferred_destroy_next p) in
    if p == 0 then s else rest

unfoldable pub synchronize : Signal → Signal
synchronize s = let (t, p) = synchronize_top s in synchronize_bottom s.next_link t p

-- What stands at the end of `push_back` and of `remove`.
abbrev leave : Bool → Signal → Signal
leave sync s = if sync then synchronize s else s

unfoldable pub push_back : Signal → ℕ → Bool → Signal
push_back s p sync = leave sync (record s {
  links = append_link s.next_link s.links p;
  connected = update s.connected p true;
  refs = update s.refs p (s.refs p + 1);
})

-- The new link is held by the caller's connection too.
unfoldable pub connect : Signal → ℕ → Bool → Signal
connect s f sync =
    push_back
      (record s {
        connected = update s.connected s.next_link true;
        function = update s.function s.next_link (some f);
        refs = update s.refs s.next_link 1;
        next_link = s.next_link + 1;
      })
      s.next_link sync

unfoldable pub remove : Signal → ℕ → Bool → Signal
remove s p sync =
    let gone = record s {
      links = deactivate_link s.next_link s.links p;
      deferred_destroy = p;
      deferred_destroy_next = update s.deferred_destroy_next p s.deferred_destroy;
      connected = update s.connected p false;
    } in
    leave sync (if s.connected p then gone else s)

unfoldable pub disconnect : Signal → ℕ → Bool → Signal
disconnect s p sync = if s.connected p then remove s p sync else s

-- What a callback does to the signal that calls it. The caller has a read lock, so that
-- `write_lock_async` answers false.
pub data Op : Type 0 where
  connecting disconnecting : ℕ → Op

unfoldable pub run_op : Op → Signal → Signal
run_op (connecting f) s = connect s f false
run_op (disconnecting p) s = disconnect s p false

unfoldable pub run_ops : List Op → Signal → Signal
run_ops [] s = s
run_ops (o ∷ os) s = run_ops os (run_op o s)

-- How a call of the signal ends, with the calls made, the last one first: it is done, a callback
-- threw, or it goes on for more rounds than the model allows.
pub data Emitted : Type 0 where
  done : Signal → List Call → Emitted
  threw : Signal → List Call → Emitted
  endless : Emitted

-- `call f s` is what callback `f` does, and whether it throws. An empty function throws.
module _ (call : ℕ → Signal → List Op × Bool) where
  unfoldable pub call_link : Signal → ℕ → Signal × Bool
  call_link s p = elim (s.function p) [
    | none ↦ (s, true)
    | some f ↦ let (ops, thrown) = call f s in (run_ops ops s, thrown)
  ]

  -- The loop of `operator()`.
  unfoldable pub emit_from : ℕ → Signal → ℕ → List Call → Emitted
  emit_from zero s p log = endless
  emit_from (suc n) s p log =
      let (t, thrown) = call_link s p in
      let log' = called p (s.connected p) ∷ log in
      let rest = emit_from n t (t.active_next p) log' in
      let more = if thrown then threw t log' else rest in if p == 0 then done s log else more

  unfoldable pub emit : ℕ → Signal → Emitted
  emit n s = emit_from n s s.active []

-- `read_guard`: it synchronizes as often as `read_lock` asks for it, and on the way out, exceptions
-- included, if `read_unlock` does.
unfoldable pub enter : ℕ → Signal → Signal
enter zero s = s
enter (suc rounds) s = enter rounds (synchronize s)

unfoldable pub depart : Bool → Emitted → Emitted
depart sync (done s log) = done (leave sync s) log
depart sync (threw s log) = threw (leave sync s) log
depart sync endless = endless

unfoldable pub call_signal : (ℕ → Signal → List Op × Bool) → ℕ → Bool → ℕ → Signal → Emitted
call_signal call rounds sync n s = depart sync (emit call n (enter rounds s))

-- The loop of the destructor, and whether it disconnected anything.
unfoldable pub disconnect_links : ℕ → Signal → Signal × Bool
disconnect_links zero s = (s, false)
disconnect_links (suc n) s =
    let p = s.active in
    let (t, any) = disconnect_links n (disconnect s p false) in
    if p == 0 then (s, false) else (t, true)

-- The destructor, where `sync` is what `read_unlock` answers. If it does not ask for it, the
-- destructor waits for the lock and synchronizes, once it has disconnected something.
unfoldable pub destroy : ℕ → Bool → Signal → Signal
destroy rounds sync s =
    let e = enter rounds s in
    let (t, any_cancelled) = disconnect_links e.next_link e in leave (sync || any_cancelled) t
