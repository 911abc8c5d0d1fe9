-- ===== src/Journal/Entry.antt =====
-- Entries, the recovery limits of a kind and `refuse` of internal/journal/journal.go. A count or a
-- duration that is 0 stands for one that is 0 or negative.
use arbetern.Base.{
  ℕ, ◌+◌, ◌-◌, ◌*◌, ◌≤◌, ◌<◌, ◌≡◌, ◌↔◌, Bool, false, Option, none, some, String, arith, ltb, leb,
  ◌==◌, if◌then◌else◌,
}
use arbetern.Base.Duration.{minute, hour}

abbrev pub stale_after : ℕ
stale_after = 2 * minute

abbrev pub carry_window : ℕ
carry_window = hour

abbrev pub default_max_attempts : ℕ
default_max_attempts = 2

abbrev pub default_max_age : ℕ
default_max_age = hour

abbrev pub max_per_sweep : ℕ
max_per_sweep = 8

pub record Entry : Type 0 where
  pub kind : String
  pub target : String
  pub detail : String
  pub owner : String
  pub first_seen : ℕ
  pub started_at : ℕ
  pub heartbeat : ℕ
  pub attempt : ℕ
  pub side_effects : Bool

unfoldable pub age : Entry → ℕ → ℕ
age e now = now - e.first_seen

-- `Handler` without its two functions.
pub record Limits : Type 0 where
  pub max_attempts : ℕ
  pub max_age : ℕ

unfoldable pub with_defaults : Limits → Limits
with_defaults h = record {
  max_attempts = if h.max_attempts == 0 then default_max_attempts else h.max_attempts;
  max_age = if h.max_age == 0 then default_max_age else h.max_age;
}

-- The safeguard that stops an entry from being resumed; the texts are left out.
pub data Reason : Type 0 where
  made_changes attempts_spent too_old : Reason

unfoldable pub refuse : Entry → ℕ → Limits → Option Reason
unfolding age
refuse e now h =
    if e.side_effects
    then some made_changes
    else if leb h.max_attempts e.attempt
    then some attempts_spent
    else if ltb h.max_age (age e now)
    then some too_old
    else none

-- The heartbeat has been silent long enough for the work to count as interrupted.
abbrev pub is_stale : ℕ → ℕ → Bool
is_stale now beat = leb stale_after (now - beat)

-- What has to hold for work to be resumed.
pub record MayResume (h : Limits) (now : ℕ) (e : Entry) : Type 0 where
  pub unmarked : e.side_effects ≡ false
  pub attempts_left : e.attempt < h.max_attempts
  pub young : now ≤ e.first_seen + h.max_age

-- No safeguard refuses an entry exactly when it made no change outside the process, has attempts
-- left and is not older than its kind allows.
pub refuse-none_iff :
    (e : Entry) (now : ℕ) (h : Limits) → (refuse e now h ≡ none) ↔ MayResume h now e
unfolding refuse
refuse-none_iff e now h =
    (λ r. ground arith, λ m. ground (arith, m.unmarked, m.attempts_left, m.young))
