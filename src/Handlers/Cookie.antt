-- ===== src/Handlers/Cookie.antt =====
-- tscb/detail/fd-handler-table.cc: the cookies with which `notify` tells events of a descriptor that
-- was closed from those of a descriptor that was opened later under the same number.
use libtscb.Base.{
  ℕ, ◌+◌, ◌-◌, ◌/◌, ◌%◌, ◌<◌, ◌≤◌, ◌≡◌, ◌==◌, Bool, true, false, ltb, ◌&&◌, if◌then◌else◌, update,
  arith, refl,
}

-- `cookie_` and `need_cookie_sync_` of the table; whether each chain is there, and its `cookie_`.
pub record Cookies : Type 0 where
  pub cookie : ℕ
  pub need_sync : Bool
  pub made : ℕ → Bool
  pub of_chain : ℕ → ℕ

-- `get_create_chain`, on the cookies
unfoldable pub create_chain : Cookies → ℕ → Cookies
create_chain c ch =
    let created = record c { made = update c.made ch true; of_chain = update c.of_chain ch 0 } in
    if c.made ch then c else created

-- `remove` when the chain has no active link left.
unfoldable pub retire : Cookies → ℕ → Cookies
retire c ch =
    let new = (c.cookie + 1) % 4294967296 in
    record {
      cookie = new;
      need_sync = if (c.cookie / 65536) % 2 == (new / 65536) % 2 then c.need_sync else true;
      made = c.made;
      of_chain = update c.of_chain ch new;
    }

-- `synchronize`
unfoldable pub sync_cookies : Cookies → Cookies
sync_cookies c = record {
  cookie = c.cookie;
  need_sync = false;
  made = c.made;
  of_chain = λ ch. if c.need_sync && c.made ch then c.cookie else c.of_chain ch;
}

-- The test `delta > 0` of `notify`, where `delta` is the `int32_t` of the difference.
unfoldable pub is_stale : ℕ → ℕ → Bool
is_stale chain_cookie call_cookie =
    let delta = (chain_cookie + (4294967296 - call_cookie)) % 4294967296 in
    ltb 0 delta && ltb delta 2147483648

-- How far a chain's cookie is behind.
abbrev pub lag : Cookies → ℕ → ℕ
lag c ch = (c.cookie + (4294967296 - c.of_chain ch)) % 4294967296

-- No chain is behind by more than the retirements since the last multiple of 65536.
pub record IsFresh (c : Cookies) : Type 0 where
  pub bound : c.cookie < 4294967296
  pub bounds : (ch : ℕ) → c.of_chain ch < 4294967296
  pub lags : (ch : ℕ) → c.made ch ≡ true → lag c ch ≤ c.cookie % 65536
  pub synced : c.need_sync ≡ false

-- When a chain loses its last link and `synchronize` follows, fresh cookies stay fresh, also where
-- the 32-bit counter wraps around. A new chain may break this, since its cookie is 0.
retire-IsFresh :
    (c : Cookies) (ch : ℕ) → IsFresh c → c.made ch ≡ true → IsFresh (sync_cookies (retire c ch))
unfolding sync_cookies retire
retire-IsFresh c ch h m = record {
  bound = ground (arith, h.bound);
  bounds = λ q. ground (arith, h.bound, h.bounds q);
  lags = λ q k. ground (arith, h.bound, h.bounds q, h.lags q k, h.synced);
  synced = refl;
}

-- While the cookies are fresh, an event is not dropped if the cookie that comes with it is the
-- table's current one.
is_stale-current :
    (c : Cookies) (ch : ℕ)
    → IsFresh c
    → c.made ch ≡ true
    → is_stale (c.of_chain ch) c.cookie ≡ false
unfolding is_stale
is_stale-current c ch h m = ground (arith, h.bound, h.bounds ch, h.lags ch m)

sync_retire-made :
    (c : Cookies) (ch : ℕ) → c.made ch ≡ true → (sync_cookies (retire c ch)).made ch ≡ true
unfolding sync_cookies retire
sync_retire-made c ch m = m

-- When a chain loses its last link, a pending event, whose cookie was taken at most 65536
-- retirements ago, is dropped; once the cookies are synchronized too, an event with a cookie that is
-- taken then is not dropped.
pub retire-is_stale :
    (c : Cookies) (ch age : ℕ)
    → IsFresh c
    → c.made ch ≡ true
    → age ≤ 65536
    → (is_stale ((retire c ch).of_chain ch) ((c.cookie + (4294967296 - age)) % 4294967296) ≡ true)
      × (is_stale ((sync_cookies (retire c ch)).of_chain ch) (sync_cookies (retire c ch)).cookie
          ≡ false)
unfolding retire is_stale
retire-is_stale c ch age h m l = (
  ground (arith, h.bound),
  is_stale-current (sync_cookies (retire c ch)) ch (retire-IsFresh c ch h m)
      (sync_retire-made c ch m),
)

-- A new chain starts with the cookie 0: an event with the current cookie is dropped exactly when
-- that cookie is above 2 ^ 31, although no descriptor was closed meanwhile.
pub create_chain-is_stale :
    (c : Cookies) (ch : ℕ)
    → c.cookie < 4294967296
    → c.made ch ≡ false
    → is_stale ((create_chain c ch).of_chain ch) (create_chain c ch).cookie
      ≡ ltb 2147483648 c.cookie
unfolding create_chain is_stale
create_chain-is_stale c ch b m = ground (arith, b, m)
