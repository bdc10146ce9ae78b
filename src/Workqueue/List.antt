-- ===== src/Workqueue/List.antt =====
-- tscb/workqueue.cc: the doubly linked lists `active_` and `inactive_`. A link is named by its
-- address, and 0 is the null pointer.
pub mod Linked
pub mod Erase
pub mod Insert
use libtscb.Base.{ℕ, zero, suc, ◌==◌, if◌then◌else◌, update, List, [], ◌∷◌}

-- `anchor_` of the link at each address
pub record Nodes : Type 0 where
  pub prev : ℕ → ℕ
  pub next : ℕ → ℕ

-- `list_type`
pub record Ends : Type 0 where
  pub first : ℕ
  pub last : ℕ

-- The store with one of its lists.
pub record Chain : Type 0 where
  pub nodes : Nodes
  pub open nodes use *
  pub ends : Ends
  pub open ends use *

unfoldable pub list_erase : Chain → ℕ → Chain
list_erase c p =
    let before = c.prev p in
    let after = c.next p in
    record {
      nodes = record {
        prev = if after == 0 then c.prev else update c.prev after before;
        next = if before == 0 then c.next else update c.next before after;
      };
      ends = record {
        first = if before == 0 then after else c.first;
        last = if after == 0 then before else c.last;
      };
    }

unfoldable pub list_insert : Chain → ℕ → ℕ → Chain
list_insert c pos p =
    let after = pos in
    let before = if pos == 0 then c.first else c.prev pos in
    let prev' = update c.prev p before in
    let next' = update c.next p after in
    record {
      nodes = record {
        prev = if after == 0 then prev' else update prev' after p;
        next = if before == 0 then next' else update next' before p;
      };
      ends = record {
        first = if before == 0 then p else c.first;
        last = if after == 0 then p else c.last;
      };
    }

-- The links that a walk along `next` from `p` visits, at most `n` of them.
unfoldable pub walk : ℕ → (ℕ → ℕ) → ℕ → List ℕ
walk zero next p = []
walk (suc n) next p = let rest = p ∷ walk n next (next p) in if p == 0 then [] else rest
