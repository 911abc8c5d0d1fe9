-- ===== src/Tests/CacheTests.antt =====
-- Runs of the caches (internal/ttlcache).
use arbetern.Base.{ℕ, ◌≡◌, refl, false, none, some, arith, [], ◌∷◌, ◌≤◌, length, List}
use arbetern.TtlCache.{failed, fetched, value, Cache, Refresh, refreshed, get}
use arbetern.TtlCache.Freshness.{get_again}
use arbetern.TtlCache.Keyed.{
  Ties, Keyed, Step, do_look, do_settle, do_drop, look, find, put_entry, evict_locked, drop_expired,
  drop_id, drop_over, waits, settle_entry, cached, run,
}
use arbetern.TtlCache.Keyed.Bounds.{run-IsBounded}
use arbetern.TtlCache.Keyed.Sharing.{fetch_is_shared}

-- A good value that is too old, and a refresh that fails.
abbrev old : Cache ℕ ℕ
old = record { ttl = 5; held = some 7; expires_at = 3; fail_until = 0; last_err = none }

abbrev broken : Refresh ℕ ℕ
broken = record { outcome = failed 500; walked_away = false; done_at = 11 }

abbrev good : Refresh ℕ ℕ
good = record { outcome = fetched 8; walked_away = false; done_at = 20 }

-- The call after the failure answers the old value, and does not fetch.
get_again_example :
    get 12 good (get 10 broken old).cache ≡ record (get 10 broken old) { ran = false }
unfolding get refreshed
get_again_example = get_again 10 broken old 12 good refl refl (omega arith)

stale_on_error : (get 12 good (get 10 broken old).cache).answer ≡ value 7
unfolding get refreshed
stale_on_error = refl

abbrev first : Ties ℕ ℕ
first e x = false

-- A cache for one entry, and one with room for three.
abbrev small : Keyed ℕ ℕ
small = record { ttl = 10; max = 1; entries = []; next = 0 }

abbrev wide : Keyed ℕ ℕ
wide = record { ttl = 10; max = 3; entries = []; next = 0 }

-- A second key makes the first entry leave the small cache.
abbrev two_keys : List (Step ℕ ℕ)
two_keys =
    do_look first "a" 1 1 1 ∷ do_settle 0 (fetched 7) ∷ do_look first "b" 2 2 2 ∷ do_drop "b" 1 ∷ []

run-IsBounded_example : length (run two_keys small).entries ≤ (run two_keys small).max
run-IsBounded_example = run-IsBounded two_keys small refl (omega arith)

only_b :
    find "a" (run (do_look first "a" 1 1 1 ∷ do_look first "b" 2 2 2 ∷ []) small).entries ≡ none
unfolding look find put_entry evict_locked drop_expired drop_id drop_over
only_b = refl

-- Another key is fetched, and fails, while the first fetch is under way.
abbrev others : List (Step ℕ ℕ)
others =
    do_look first "b" 2 2 2
    ∷ do_settle 1 (failed 500)
    ∷ do_drop "b" 1
    ∷ do_look first "a" 4 4 4
    ∷ []

fetch_is_shared_example :
    look first "a" 5 5 5 (run others (look first "a" 1 1 1 wide).0)
    ≡ (run others (look first "a" 1 1 1 wide).0, waits 0)
unfolding look find put_entry evict_locked
fetch_is_shared_example =
    fetch_is_shared first first "a" 1 1 1 0 others 5 5 5 wide refl refl refl refl

cached_after :
    cached "a" 3 (run (do_look first "a" 1 1 1 ∷ do_settle 0 (fetched 7) ∷ []) wide) ≡ some 7
unfolding look find put_entry evict_locked settle_entry cached
cached_after = refl
