-- ===== src/Handlers/Chain.antt =====
-- tscb/detail/fd-handler-table.cc: the chain of one file descriptor, with the loops of `insert`,
-- `remove` and `notify`. A link is named by its address, and 0 is the null pointer.
pub mod Masks
pub mod Change
pub mod Unlink
pub mod Resume
use libtscb.Chain.{LinkChain, append_link, deactivate_link, unlink_link}
use libtscb.Base.{ℕ, zero, suc, ◌==◌, ◌&&◌, ◌||◌, Bool, false, if◌then◌else◌, update, List, [], ◌∷◌}

-- `ioready_events`, by the four bits that the library uses
pub record Events : Type 0 where
  pub input : Bool
  pub output : Bool
  pub error : Bool
  pub hangup : Bool

abbrev pub events_none : Events
events_none = record { input = false; output = false; error = false; hangup = false }

unfoldable pub events_or : Events → Events → Events
events_or a b = record {
  input = a.input || b.input;
  output = a.output || b.output;
  error = a.error || b.error;
  hangup = a.hangup || b.hangup;
}

abbrev pub events_and : Events → Events → Events
events_and a b = record {
  input = a.input && b.input;
  output = a.output && b.output;
  error = a.error && b.error;
  hangup = a.hangup && b.hangup;
}

-- The conversion to `bool`
abbrev pub events_any : Events → Bool
events_any a = a.input || (a.output || (a.error || a.hangup))

-- The chain of a descriptor, with the event masks of its links.
pub record HandlerChain : Type 0 where
  pub links : LinkChain
  pub open links use *
  pub event_mask : ℕ → Events

-- The loop that collects the event masks, from `p` on.
unfoldable pub collect_mask : ℕ → (ℕ → Events) → (ℕ → ℕ) → ℕ → Events → Events
collect_mask zero masks active_next p mask = mask
collect_mask (suc n) masks active_next p mask =
    let rest = collect_mask n masks active_next (active_next p) (events_or mask (masks p)) in
    if p == 0 then mask else rest

unfoldable pub compute_event_mask : ℕ → HandlerChain → Events
compute_event_mask n c = collect_mask n c.event_mask c.active_next c.active events_none

-- `insert` once it has the chain, on chains of less than `n` links: the chain, `old_mask` and
-- `new_mask`.
unfoldable pub insert_link : ℕ → HandlerChain → ℕ → HandlerChain × Events × Events
insert_link n c p =
    let old_mask = compute_event_mask n c in
    (record c { links = append_link n c.links p }, old_mask, events_or old_mask (c.event_mask p))

-- `remove` up to the cookie: the chain, `old_mask` and `new_mask`.
unfoldable pub remove_link : ℕ → HandlerChain → ℕ → HandlerChain × Events × Events
remove_link n c p =
    let d = record c { links = deactivate_link n c.links p } in
    let new_mask = compute_event_mask n d in (d, events_or new_mask (c.event_mask p), new_mask)

-- `modify`: the chain, `old_mask` and `new_mask`.
unfoldable pub modify_link : ℕ → HandlerChain → ℕ → Events → HandlerChain × Events × Events
modify_link n c p mask =
    let d = record c { event_mask = update c.event_mask p mask } in
    (d, compute_event_mask n c, compute_event_mask n d)

-- `synchronize` takes a removed link out of the full list.
unfoldable pub unlink_removed : HandlerChain → ℕ → HandlerChain
unlink_removed c p = record c { links = unlink_link c.links p }

-- The links that `notify` calls, with the events it passes, when no link changes meanwhile.
unfoldable pub notify_from : ℕ → HandlerChain → Events → ℕ → List (ℕ × Events)
notify_from zero c events p = []
notify_from (suc n) c events p =
    let rest = notify_from n c events (c.active_next p) in
    let hit = events_and events (c.event_mask p) in
    if p == 0 then [] else if events_any hit then (p, hit) ∷ rest else rest
