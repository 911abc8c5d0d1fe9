-- ===== src/TtlCache.antt =====
-- `Cache` of internal/ttlcache/ttlcache.go, which holds one value and keeps the last good one across
-- a failed refresh. `Get` holds the mutex across the fetch, so that a call is one step.
pub mod Freshness
pub mod Keyed
use arbetern.Base.{ℕ, ◌+◌, ◌*◌, ◌<◌, ◌≡◌, Bool, true, false, Option, none, some, ltb, if◌then◌else◌}
use arbetern.Base.Duration.{second}

abbrev pub fail_cooldown : ℕ
fail_cooldown = 15 * second

-- What a fetch returns.
pub data Fetched (T E : Type 0) : Type 0 where
  fetched : T → Fetched T E
  failed : E → Fetched T E

-- What `Get` returns; `empty` is the zero value without an error.
pub data Answer (T E : Type 0) : Type 0 where
  value : T → Answer T E
  error : E → Answer T E
  empty : Answer T E

-- `Cache`; `data` and `ok` are one option, `lastErr` is another.
pub record Cache (T E : Type 0) : Type 0 where
  pub ttl : ℕ
  pub held : Option T
  pub expires_at : ℕ
  pub fail_until : ℕ
  pub last_err : Option E

-- One run of the fetch: what it returns, whether the caller walked away, and the time after it.
pub record Refresh (T E : Type 0) : Type 0 where
  pub outcome : Fetched T E
  pub walked_away : Bool
  pub done_at : ℕ

-- A call of `Get`: its answer, the cache after it, and whether it ran the fetch.
pub record Call (T E : Type 0) : Type 0 where
  pub answer : Answer T E
  pub cache : Cache T E
  pub ran : Bool

module _ {T E : Type 0} where
  abbrev pub or_error : Option T → Option E → Answer T E
  or_error (some v) e = value v
  or_error none (some x) = error x
  or_error none none = empty

  abbrev pub is_fresh_value : ℕ → Cache T E → Option T → Bool
  is_fresh_value now c none = false
  is_fresh_value now c (some v) = ltb now c.expires_at

  -- What the outcome of a fetch does to the cache.
  unfoldable pub refreshed : Cache T E → Bool → ℕ → Fetched T E → Call T E
  refreshed c away later (fetched v) = record {
    answer = value v;
    cache = record c { held = some v; expires_at = later + c.ttl; fail_until = 0; last_err = none };
    ran = true;
  }
  refreshed c away later (failed x) = record {
    answer = or_error c.held (some x);
    cache = if away then c else record c { fail_until = later + fail_cooldown; last_err = some x };
    ran = true;
  }

  -- `Cache.Get` at `now`.
  unfoldable pub get : ℕ → Refresh T E → Cache T E → Call T E
  get now r c =
      if is_fresh_value now c c.held
      then record { answer = or_error c.held none; cache = c; ran = false }
      else if ltb now c.fail_until
      then record { answer = or_error c.held c.last_err; cache = c; ran = false }
      else refreshed c r.walked_away r.done_at r.outcome

  -- `Cache.Invalidate`.
  unfoldable pub invalidate : Cache T E → Cache T E
  invalidate c = record c { held = none; expires_at = 0; fail_until = 0; last_err = none }
