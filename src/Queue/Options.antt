-- ===== src/Queue/Options.antt =====
-- `Options.withDefaults` and the retry backoff of internal/queue/queue.go. A duration or a count
-- that is 0 stands for one that is 0 or negative.
use arbetern.Base.{
  ℕ, zero, suc, ◌+◌, ◌-◌, ◌*◌, ◌%◌, ◌^◌, ◌≤◌, ◌<◌, ◌≡◌, refl, Bool, true, arith, ltb, ◌==◌, ◌&&◌,
  min, if◌then◌else◌,
}
use native.Mathlib.Decide.{ℕ_discrete}
use native.Mathlib.Numerals.{add-one}
use arbetern.Base.Duration.{second, minute}

abbrev pub default_visibility : ℕ
default_visibility = 5 * minute

abbrev pub default_timeout : ℕ
default_timeout = 2 * minute

abbrev pub default_max_attempts : ℕ
default_max_attempts = 3

abbrev pub retry_backoff : ℕ
retry_backoff = 30 * second

abbrev pub max_retry_backoff : ℕ
max_retry_backoff = 15 * minute

pub record Options : Type 0 where
  pub visibility : ℕ
  pub timeout : ℕ
  pub max_attempts : ℕ

abbrev or_default : ℕ → ℕ → ℕ
or_default n d = if n == 0 then d else n

unfoldable pub with_defaults : Options → Options
with_defaults o =
    let timeout : ℕ = or_default o.timeout default_timeout in
    let visibility : ℕ = or_default o.visibility default_visibility in
    record {
      visibility = if ltb visibility timeout then timeout + minute else visibility;
      timeout = timeout;
      max_attempts = or_default o.max_attempts default_max_attempts;
    }

-- Whatever a topic asks for, it gets at least one attempt, and a claim outlasts the handler's
-- timeout; what it asks for is kept where the two do not conflict.
pub with_defaults_bounds :
    (o : Options)
    → (1 ≤ (with_defaults o).max_attempts)
      × (1 ≤ (with_defaults o).timeout)
      × ((with_defaults o).timeout ≤ (with_defaults o).visibility)
      × (1 ≤ o.timeout
          → o.timeout ≤ o.visibility
          → ((with_defaults o).timeout ≡ o.timeout) × ((with_defaults o).visibility ≡ o.visibility))
unfolding with_defaults
with_defaults_bounds o = ground arith

-- `retryBackoff << (attempts - 1)` in 64 bits.
unfoldable pub shifted_backoff : ℕ → ℕ
shifted_backoff attempts = (retry_backoff * 2 ^ (attempts - 1)) % 2 ^ 64

-- `now.Add(backoff)` after the cap; a shift that reached the sign bit is a negative duration.
unfoldable pub not_before_after : ℕ → ℕ → ℕ
not_before_after now attempts =
    let v : ℕ = shifted_backoff attempts in
    if ltb v (2 ^ 63) then now + min v max_retry_backoff else now - (2 ^ 64 - v)

-- The shift after k failures is exact and keeps the sign, for each k up to a bound.
exact_up_to : ℕ → Bool
exact_up_to zero = true
exact_up_to (suc k) =
    exact_up_to k
    && (shifted_backoff (suc k) == retry_backoff * 2 ^ k && ltb (shifted_backoff (suc k)) (2 ^ 63))

exact_up_to_29 : exact_up_to 29 ≡ true
unfolding exact_up_to shifted_backoff
exact_up_to_29 = refl

exact_at :
    (bound k : ℕ)
    → k < bound
    → exact_up_to bound ≡ true
    → (shifted_backoff (suc k) ≡ retry_backoff * 2 ^ k) × (shifted_backoff (suc k) < 2 ^ 63)
unfolding exact_up_to
exact_at zero k less e = absurd (omega arith)
exact_at (suc bound) k less e = elim (ℕ_discrete k bound) [
  | yes here ↦ rw here (ground arith, ground arith)
  | no below ↦ exact_at bound k (omega arith) (ground arith)
]

-- Up to 29 attempts the task comes back 30 seconds after its first failure, twice as long after
-- each further one, and never more than 15 minutes later.
pub not_before_exact :
    (now k : ℕ)
    → k < 29
    → not_before_after now (k + 1) ≡ now + min (retry_backoff * 2 ^ k) max_retry_backoff
unfolding not_before_after
not_before_exact now k h = let t = exact_at 29 k h exact_up_to_29 in rw add-one (ground arith)

-- The shift of the 30th failed attempt overflows: the backoff is negative, so that the task is due at
-- once and in the past.
pub not_before_overflow : (now : ℕ) → 0 < now → not_before_after now 30 < now
unfolding not_before_after shifted_backoff
not_before_overflow now h = omega arith
