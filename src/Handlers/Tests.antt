-- ===== src/Handlers/Tests.antt =====
-- tscb/detail/fd-handler-table.cc: a chain with three links, and the theorems applied to it.
use libtscb.Base.{ℕ, ◌≡◌, Bool, true, ltb, ◌-◌, ◌%◌, ◌+◌, false, [], ◌∷◌, update, arith, refl}
use libtscb.Chain.{redirect, deactivate_link}
use libtscb.Chain.Change.{IsChain}
use libtscb.Handlers.Chain.{Events, HandlerChain, remove_link}
use libtscb.Handlers.Chain.Change.{IsChanged, remove_link_lem}
use libtscb.Handlers.Cookie.{
  Cookies, IsFresh, create_chain, retire, sync_cookies, is_stale, retire-is_stale,
  create_chain-is_stale,
}

abbrev reads : Events
reads = record { input = true; output = false; error = false; hangup = false }

abbrev writes : Events
writes = record { input = false; output = true; error = false; hangup = false }

-- Links 1, 2 and 3 in this order; 2 wants to write, the others to read.
abbrev three : HandlerChain
three = record {
  links = record {
    actives = record { active_next = update (update (λ _. 0) 1 2) 2 3; active = 1 };
    prev = update (update (λ _. 0) 2 1) 3 2;
    next = update (update (λ _. 0) 1 2) 2 3;
    first = 1;
    last = 3;
  };
  event_mask = update (λ _. reads) 2 writes;
}

abbrev all : ℕ → Bool
all _ = true

three-IsChain : IsChain three.links all (3 ∷ 2 ∷ 1 ∷ [])
three-IsChain = record {
  back = (
    refl,
    omega arith,
    (omega arith, (omega arith, tt)),
    (refl, omega arith, (omega arith, tt), (refl, omega arith, tt, refl)),
  );
  full = (refl, (refl, (refl, refl)));
  actives = (refl, (refl, (refl, refl)));
}

-- Link 2 is removed while a notification stands at it.
abbrev removed : HandlerChain
removed = (remove_link 9 three 2).0

abbrev without_two : ℕ → Bool
without_two = update all 2 false

removed-IsChain : IsChain removed.links without_two (3 ∷ 2 ∷ 1 ∷ [])
removed-IsChain =
    (remove_link_lem 9 all three 2 (3 ∷ []) (1 ∷ []) three-IsChain refl (omega arith)).chain

removed_actives : (removed.active_next 1 ≡ 3) × (removed.active_next 2 ≡ 3)
unfolding remove_link deactivate_link redirect
removed_actives = (refl, refl)

remove_link_lem_example :
    IsChanged three all (3 ∷ 2 ∷ 1 ∷ []) without_two (3 ∷ 2 ∷ 1 ∷ []) (remove_link 9 three 2)
remove_link_lem_example =
    remove_link_lem 9 all three 2 (3 ∷ []) (1 ∷ []) three-IsChain refl (omega arith)

-- The counter just before it wraps around, with chains 3 and 5.
abbrev ending : Cookies
ending = record {
  cookie = 4294967295;
  need_sync = false;
  made = update (update (λ _. false) 3 true) 5 true;
  of_chain = λ _. 4294967290;
}

ending-IsFresh : IsFresh ending
ending-IsFresh = record {
  bound = omega arith;
  bounds = λ ch. omega arith;
  lags = λ ch m. omega arith;
  synced = refl;
}

retire-is_stale_example :
    (is_stale ((retire ending 3).of_chain 3) ((ending.cookie + (4294967296 - 2)) % 4294967296)
      ≡ true)
    × (is_stale
          ((sync_cookies (retire ending 3)).of_chain 3)
          (sync_cookies (retire ending 3)).cookie
        ≡ false)
retire-is_stale_example = retire-is_stale ending 3 2 ending-IsFresh refl (omega arith)

create_chain-is_stale_example :
    is_stale ((create_chain ending 4).of_chain 4) (create_chain ending 4).cookie
    ≡ ltb 2147483648 ending.cookie
create_chain-is_stale_example = create_chain-is_stale ending 4 (omega arith) refl
