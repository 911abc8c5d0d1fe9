-- ===== src/Llm/Breaker.antt =====
-- The circuit breaker of llm/breaker.go: `allow`, `ok`, `abandon` and `fail` on one endpoint.
-- Each method runs under the breaker's mutex, so it is one step on the state. `now` is what
-- `time.Now()` returns in the call.
pub mod Laws
use arbetern.Base.{ℕ, ◌+◌, ◌*◌, Bool, true, false, ◌||◌, ltb, ◌==◌, if◌then◌else◌, List, [], ◌∷◌}
use arbetern.Base.Duration.{second, minute}

abbrev pub breaker_failure_threshold : ℕ
breaker_failure_threshold = 3

abbrev pub breaker_cooldown_min : ℕ
breaker_cooldown_min = 30 * second

abbrev pub breaker_cooldown_max : ℕ
breaker_cooldown_max = 10 * minute

-- `open_until` is 0 while the breaker is closed.
pub record Breaker : Type 0 where
  pub failures : ℕ
  pub cooldown : ℕ
  pub open_until : ℕ
  pub probing : Bool

-- The breaker that `breakerFor` makes for an endpoint it has not met.
abbrev pub fresh : Breaker
fresh = record { failures = 0; cooldown = breaker_cooldown_min; open_until = 0; probing = false }

unfoldable pub allow : ℕ → Breaker → Breaker × Bool
allow now b =
    if b.open_until == 0
    then (b, true)
    else if ltb now b.open_until || b.probing
    then (b, false)
    else (record b { probing = true }, true)

unfoldable pub succeed : Breaker → Breaker
succeed b = record b {
  failures = 0;
  probing = false;
  cooldown = breaker_cooldown_min;
  open_until = 0;
}

unfoldable pub abandon : Breaker → Breaker
abandon b = record b { probing = false }

-- The failures after one more failed call; a deadline hit counts for the whole threshold.
abbrev count_failure : Bool → ℕ → ℕ
count_failure deadline n = if deadline then breaker_failure_threshold else n + 1

-- `b.cooldown *= 2`, capped, if the call that failed was a probe.
abbrev next_cooldown : Bool → ℕ → ℕ
next_cooldown probe c =
    if probe then if ltb breaker_cooldown_max (c * 2) then breaker_cooldown_max else c * 2 else c

unfoldable pub fail : ℕ → Bool → Breaker → Breaker
fail now deadline b =
    let failures : ℕ = count_failure deadline b.failures in
    let cooldown : ℕ = next_cooldown b.probing b.cooldown in
    if ltb failures breaker_failure_threshold
    then record b { failures = failures; probing = false }
    else record {
      failures = failures;
      cooldown = cooldown;
      open_until = now + cooldown;
      probing = false;
    }

-- What callers do with a breaker: ask, and report how the call went.
pub data Event : Type 0 where
  ask : ℕ → Event
  succeeded abandoned : Event
  failed : ℕ → Bool → Event

unfoldable pub step : Event → Breaker → Breaker
unfolding allow succeed abandon fail
step (ask now) b = (allow now b).0
step succeeded b = succeed b
step abandoned b = abandon b
step (failed now deadline) b = fail now deadline b

unfoldable pub run : List Event → Breaker → Breaker
run [] b = b
run (e ∷ es) b = run es (step e b)

-- The answers to a row of `allow` calls.
unfoldable pub answers : List ℕ → Breaker → List Bool
answers [] b = []
answers (now ∷ ts) b = (allow now b).1 ∷ answers ts (allow now b).0

-- One round of an open breaker: a probe is let through at `at`, and it fails at `at + took`.
unfoldable pub failed_probe : ℕ → ℕ → Bool → Breaker → Breaker
unfolding allow fail
failed_probe at took deadline b = fail (at + took) deadline (allow at b).0
