-- ===== src/Chain.antt =====
-- The chain of links with a full list and an active list, which tscb/detail/fd-handler-table.cc,
-- tscb/signal.h and tscb/childproc-monitor.cc share: the loops and the steps that they all take. A
-- link is named by its address, and 0 is the null pointer.
pub mod Active
pub mod Change
pub mod Unlink
pub mod Walk
pub mod Members
pub mod Waiting
pub mod Distinct
pub mod Frame
use libtscb.Base.{ℕ, zero, suc, ◌==◌, if◌then◌else◌, update}

-- What `notify` walks: `active_next_` of each link, and `active_` of the chain.
pub record ActiveList : Type 0 where
  pub active_next : ℕ → ℕ
  pub active : ℕ

-- The link fields `active_next_`, `prev_` and `next_`, and the chain's `active_`, `first_`, `last_`.
pub record LinkChain : Type 0 where
  pub actives : ActiveList
  pub open actives use *
  pub prev : ℕ → ℕ
  pub next : ℕ → ℕ
  pub first : ℕ
  pub last : ℕ

-- The loop of `insert` (with `old` null) and of `remove`, from `tmp` on along `prev_`: whatever
-- points to `old` from there is set to `new`.
unfoldable pub redirect : ℕ → (ℕ → ℕ) → ℕ → ℕ → ActiveList → ℕ → ActiveList
redirect zero prev old new s tmp = s
redirect (suc n) prev old new s tmp =
    let set = record s { active_next = update s.active_next tmp new } in
    let rest = redirect n prev old new set (prev tmp) in
    let head = if s.active == old then record s { active = new } else s in
    if tmp == 0 then head else if s.active_next tmp == old then rest else s

-- A new link joins at the end, in chains of less than `n` links.
unfoldable pub append_link : ℕ → LinkChain → ℕ → LinkChain
append_link n c p =
    let prev' = update c.prev p c.last in
    let ready = record (c.actives) { active_next = update c.active_next p 0 } in
    let next' = update c.next p 0 in
    record {
      actives = redirect n prev' 0 p ready c.last;
      prev = prev';
      next = if c.last == 0 then next' else update next' c.last p;
      first = if c.last == 0 then p else c.first;
      last = p;
    }

-- A link leaves the active list and stays in the full list.
unfoldable pub deactivate_link : ℕ → LinkChain → ℕ → LinkChain
deactivate_link n c p = record c {
  actives = redirect n c.prev p (c.active_next p) c.actives (c.prev p);
}

-- A link leaves the full list.
unfoldable pub unlink_link : LinkChain → ℕ → LinkChain
unlink_link c p = record c {
  next = if c.prev p == 0 then c.next else update c.next (c.prev p) (c.next p);
  prev = if c.next p == 0 then c.prev else update c.prev (c.next p) (c.prev p);
  first = if c.prev p == 0 then c.next p else c.first;
  last = if c.next p == 0 then c.prev p else c.last;
}
