-- ===== src/Handlers/Table.antt =====
-- tscb/detail/fd-handler-table.h and tscb/detail/fd-handler-table.cc: `fd_handler_table`, its chains
-- and links. A link is named by its address, and 0 is the null pointer; a descriptor is an `int` as
-- the `size_t` that the code makes of it.
pub mod Valid
pub mod Effect
pub mod Grow
pub mod Change
pub mod New
pub mod Insert
pub mod Removed
pub mod Unlink
pub mod UnlinkAll
pub mod Release
pub mod Synchronize
mod Tests
use libtscb.Base.{
  ℕ, zero, suc, ◌+◌, ◌*◌, ◌==◌, ltb, leb, Bool, true, false, ◌&&◌, Option, none, some, List, [],
  ◌∷◌, if◌then◌else◌, update,
}
use libtscb.Lock.Deferred.{fetch_sub, fetch_add}
use libtscb.Handlers.Chain.{
  Events, events_none, events_and, events_any, HandlerChain, compute_event_mask, insert_link,
  remove_link, modify_link, unlink_removed,
}
use libtscb.Handlers.Cookie.{Cookies, create_chain, retire, sync_cookies, is_stale}

-- The current table's capacity and those of the tables it has replaced; the cookies, with `made` for
-- the entries that are set; `active_`, `first_` and `last_` of each entry's chain; the links' fields;
-- and the list of removed links. `next_link` is the address that the allocator gives to the next link.
-- No chain has as many links as `next_link`, which is the fuel of the loops.
pub record Table : Type 0 where
  pub capacity : ℕ
  pub old : List ℕ
  pub cookies : Cookies
  pub active_of : ℕ → ℕ
  pub first_of : ℕ → ℕ
  pub last_of : ℕ → ℕ
  pub active_next : ℕ → ℕ
  pub prev : ℕ → ℕ
  pub next : ℕ → ℕ
  pub inactive_next : ℕ → ℕ
  pub fd : ℕ → ℕ
  pub event_mask : ℕ → Events
  pub function : ℕ → Option ℕ
  pub refs : ℕ → ℕ
  pub inactive : ℕ
  pub next_link : ℕ

abbrev pub empty : ℕ → Table
empty initial = record {
  capacity = initial;
  old = [];
  cookies = record { cookie = 0; need_sync = false; made = λ i. false; of_chain = λ i. 0 };
  active_of = λ i. 0;
  first_of = λ i. 0;
  last_of = λ i. 0;
  active_next = λ p. 0;
  prev = λ p. 0;
  next = λ p. 0;
  inactive_next = λ p. 0;
  fd = λ p. 0;
  event_mask = λ p. events_none;
  function = λ p. none;
  refs = λ p. 0;
  inactive = 0;
  next_link = 1;
}

-- The chain of an entry, with the fields of its links, and the table with a chain that has changed.
abbrev pub chain_at : Table → ℕ → HandlerChain
chain_at t i = record {
  links = record {
    actives = record { active_next = t.active_next; active = t.active_of i };
    prev = t.prev;
    next = t.next;
    first = t.first_of i;
    last = t.last_of i;
  };
  event_mask = t.event_mask;
}

abbrev pub put_chain : Table → ℕ → HandlerChain → Table
put_chain t i c = record t {
  active_of = update t.active_of i c.active;
  first_of = update t.first_of i c.first;
  last_of = update t.last_of i c.last;
  active_next = c.active_next;
  prev = c.prev;
  next = c.next;
  event_mask = c.event_mask;
}

-- A new link object, held by its creator.
unfoldable pub make_link : Table → ℕ → ℕ → Events → Table
make_link t f fd mask = record t {
  function = update t.function t.next_link (some f);
  fd = update t.fd t.next_link fd;
  event_mask = update t.event_mask t.next_link mask;
  refs = update t.refs t.next_link 1;
  next_link = t.next_link + 1;
}

-- Whether there is memory for a larger table, and for a chain.
pub record Memory : Type 0 where
  pub table_fits : Bool
  pub chain_fits : Bool

pub data Created : Type 0 where
  created bad_alloc : Table → Created

abbrev max : ℕ → ℕ → ℕ
max a b = if ltb a b then b else a

unfoldable pub extend_table : Table → ℕ → Table
extend_table t required = record t {
  capacity = max (t.capacity * 2) required;
  old = t.capacity ∷ t.old;
  cookies = record (t.cookies) { made = λ i. if ltb i t.capacity then t.cookies.made i else false };
}

-- `new chain()`, stored in the entry.
unfoldable pub new_chain : Table → ℕ → Table
new_chain t i = record t {
  cookies = create_chain t.cookies i;
  active_of = update t.active_of i 0;
  first_of = update t.first_of i 0;
  last_of = update t.last_of i 0;
}

unfoldable pub add_chain : Memory → Table → ℕ → Created
add_chain m t i =
    let new = if m.chain_fits then created (new_chain t i) else bad_alloc t in
    if t.cookies.made i then created t else new

unfoldable pub get_create_chain : Memory → Table → ℕ → Created
get_create_chain m t i =
    let grown = if m.table_fits then add_chain m (extend_table t (i + 1)) i else bad_alloc t in
    let found = if leb t.capacity i then grown else add_chain m t i in
    if leb 9223372036854775808 i then bad_alloc t else found

-- Whether `get_chain` finds one.
abbrev pub get_chain : Table → ℕ → Bool
get_chain t i = ltb i t.capacity && t.cookies.made i

pub data Inserted : Type 0 where
  inserted : Table → Events → Events → Inserted
  no_memory : Table → Inserted

-- `insert` once the chain is there: the table, `old_mask` and `new_mask`.
unfoldable pub join_chain : Table → ℕ → Table × Events × Events
join_chain t p =
    let (c, old_mask, new_mask) = insert_link t.next_link (chain_at t (t.fd p)) p in
    (
      record (put_chain t (t.fd p) c) { refs = update t.refs p (fetch_add (t.refs p)) },
      old_mask,
      new_mask,
    )

unfoldable pub insert : Memory → Table → ℕ → Inserted
insert m t p = elim (get_create_chain m t (t.fd p)) [
  | bad_alloc u ↦ no_memory u
  | created u ↦ let (v, old_mask, new_mask) = join_chain u p in inserted v old_mask new_mask
]

unfoldable pub remove : Table → ℕ → Table × Events × Events
remove t p =
    let (c, old_mask, new_mask) = remove_link t.next_link (chain_at t (t.fd p)) p in
    let g = put_chain t (t.fd p) c in
    let last = if c.active == 0 then retire g.cookies (t.fd p) else g.cookies in
    (
      record g {
        cookies = last;
        inactive_next = update g.inactive_next p g.inactive;
        inactive = p;
      },
      old_mask,
      new_mask,
    )

unfoldable pub modify : Table → ℕ → Events → Table × Events × Events
modify t p mask =
    let (c, old_mask, new_mask) = modify_link t.next_link (chain_at t (t.fd p)) p mask in
    (put_chain t (t.fd p) c, old_mask, new_mask)

-- The loop of `synchronize` over the removed links.
unfoldable pub unlink_all : ℕ → Table → ℕ → Table
unlink_all zero t p = t
unlink_all (suc n) t p =
    let u = put_chain t (t.fd p) (unlink_removed (chain_at t (t.fd p)) p) in
    let rest = unlink_all n u (t.inactive_next p) in if p == 0 then t else rest

-- The table, and the list to release.
unfoldable pub synchronize : Table → Table × ℕ
synchronize t =
    let u = record t { old = [] } in
    let v = unlink_all u.next_link u u.inactive in
    (record v { cookies = sync_cookies v.cookies; inactive = 0 }, v.inactive)

-- `delayed_handler_release::clear`
unfoldable pub release : ℕ → Table → ℕ → Table
release zero t p = t
release (suc n) t p =
    let u = record t {
      function = update t.function p none;
      refs = update t.refs p (fetch_sub (t.refs p));
    } in
    let rest = release n u (t.inactive_next p) in if p == 0 then t else rest

unfoldable pub compute_mask : Table → ℕ → Events
compute_mask t i =
    if get_chain t i then compute_event_mask t.next_link (chain_at t i) else events_none

-- A round of the loop of `notify`: the link, whether it was connected, and what the function was
-- called with, if it was.
pub data Round : Type 0 where
  told : ℕ → Bool → Events → Round
  passed : ℕ → Bool → Round

pub data Notified (S : Type 0) : Type 0 where
  done : S → List Round → Notified S
  threw : S → List Round → Notified S
  endless : Notified S

-- `call f events` is what a function does to a state that the table is part of, and whether it throws;
-- `is_connected` is what the virtual function of that name says of a link, for the log only.
module _ {S : Type 0} (table_of : S → Table) (is_connected : S → ℕ → Bool)
    (call : ℕ → Events → S → S × Bool) where
  unfoldable pub call_link : S → ℕ → Events → S × Bool
  call_link s p hit = elim ((table_of s).function p) [ none ↦ (s, true) | some f ↦ call f hit s ]

  unfoldable pub visit_link : S → ℕ → Events → S × Bool × Round
  visit_link s p events =
      let hit = events_and events ((table_of s).event_mask p) in
      let (t, thrown) = call_link s p hit in
      if events_any hit
      then (t, thrown, told p (is_connected s p) hit)
      else (s, false, passed p (is_connected s p))

  unfoldable pub notify_links : ℕ → S → ℕ → Events → List Round → Notified S
  notify_links zero s p events log = endless
  notify_links (suc n) s p events log =
      let (t, thrown, round) = visit_link s p events in
      let rest = notify_links n t ((table_of t).active_next p) events (round ∷ log) in
      let more = if thrown then threw t (round ∷ log) else rest in
      if p == 0 then done s log else more

  unfoldable pub notify : ℕ → S → ℕ → Events → ℕ → Notified S
  notify n s i events call_cookie =
      let t = table_of s in
      let walk = notify_links n s (t.active_of i) events [] in
      let fresh = if is_stale (t.cookies.of_chain i) call_cookie then done s [] else walk in
      if get_chain t i then fresh else done s []
