-- ===== src/Llm/Breaker/Laws.antt =====
-- The breaker's invariant, its single probe and its growing cooldown (llm/breaker.go).
use arbetern.Base.{
  ℕ, ◌+◌, ◌*◌, ◌≤◌, ◌<◌, ◌≡◌, refl, Bool, true, false, List, [], ◌∷◌, min, arith, All,
}
use arbetern.Llm.Breaker.{
  Breaker, breaker_failure_threshold, breaker_cooldown_min, breaker_cooldown_max, allow, succeed,
  fail, Event, ask, succeeded, abandoned, failed, step, run, answers, failed_probe,
}

-- Open exactly when the failures reached the threshold; a closed breaker has no probe out.
pub record IsValid (b : Breaker) : Type 0 where
  pub at_least : breaker_cooldown_min ≤ b.cooldown
  pub at_most : b.cooldown ≤ breaker_cooldown_max
  pub closed_below : b.open_until ≡ 0 → b.failures < breaker_failure_threshold
  pub open_above : 0 < b.open_until → breaker_failure_threshold ≤ b.failures
  pub closed_no_probe : b.open_until ≡ 0 → b.probing ≡ false

step-IsValid : (e : Event) {b : Breaker} → IsValid b → IsValid (step e b)
unfolding step
step-IsValid (ask now) v = ground arith
step-IsValid succeeded v = ground arith
step-IsValid abandoned v = ground arith
step-IsValid (failed now deadline) v = ground arith

-- Whatever callers ask and report, in whatever order, the cooldown stays between 30 seconds and
-- 10 minutes, the breaker is open exactly when it counted three failures, and a closed breaker
-- has no probe out.
pub run-IsValid : (es : List Event) {b : Breaker} → IsValid b → IsValid (run es b)
unfolding run
run-IsValid [] v = v
run-IsValid (e ∷ es) v = run-IsValid es (step-IsValid e v)

allow_probing : (t : ℕ) (b : Breaker) → 0 < b.open_until → b.probing ≡ true → allow t b ≡ (b, false)
unfolding allow
allow_probing t b h p = ground arith

answers_probing :
    (ts : List ℕ) (b : Breaker)
    → 0 < b.open_until
    → b.probing ≡ true
    → All (λ a. a ≡ false) (answers ts b)
unfolding answers
answers_probing [] b h p = tt
answers_probing (t ∷ ts) b h p = rw (allow_probing t b h p) (refl, answers_probing ts b h p)

allow_due :
    (t : ℕ) (b : Breaker)
    → 0 < b.open_until
    → b.open_until ≤ t
    → b.probing ≡ false
    → allow t b ≡ (record b { probing = true }, true)
unfolding allow
allow_due t b h due idle = ground arith

-- An open breaker whose cooldown is over lets one caller through, and refuses every caller after
-- that one, however many and whenever they ask, until one of them reports back.
pub one_probe :
    (b : Breaker) (now : ℕ) (ts : List ℕ)
    → 0 < b.open_until
    → b.open_until ≤ now
    → b.probing ≡ false
    → ((allow now b).1 ≡ true) × All (λ a. a ≡ false) (answers ts (allow now b).0)
one_probe b now ts h due idle =
    rw (allow_due now b h due idle) (refl, answers_probing ts (record b { probing = true }) h refl)

-- What each call does to the endpoint: a success closes the breaker, after which any caller is let
-- through; a deadline hit opens it at once, whatever it counted before, for at least 30 seconds.
pub fail_deadline :
    (b : Breaker) (now later : ℕ)
    → IsValid b
    → later < now + breaker_cooldown_min
    → ((allow later (fail now true b)).1 ≡ false) × ((allow later (succeed b)).1 ≡ true)
unfolding allow fail succeed
fail_deadline b now later v h = ground arith

failed_probe_cooldown :
    (at took : ℕ) (deadline : Bool) (b : Breaker)
    → IsValid b
    → 0 < b.open_until
    → b.open_until ≤ at
    → b.probing ≡ false
    → failed_probe at took deadline b ≡ record {
      failures = (failed_probe at took deadline b).failures;
      cooldown = min breaker_cooldown_max (b.cooldown * 2);
      open_until = at + took + min breaker_cooldown_max (b.cooldown * 2);
      probing = false;
    }
unfolding failed_probe
failed_probe_cooldown at took deadline b v h due idle = ground arith

-- Each failed probe doubles the cooldown, up to 10 minutes, and keeps the breaker open for the
-- whole new cooldown after the failure: no caller is let through before that.
pub failed_probe_doubles :
    (at took later : ℕ) (deadline : Bool) (b : Breaker)
    → IsValid b
    → 0 < b.open_until
    → b.open_until ≤ at
    → b.probing ≡ false
    → later < at + took + min breaker_cooldown_max (b.cooldown * 2)
    → ((failed_probe at took deadline b).cooldown ≡ min breaker_cooldown_max (b.cooldown * 2))
      × ((allow later (failed_probe at took deadline b)).1 ≡ false)
unfolding allow
failed_probe_doubles at took later deadline b v h due idle early =
    let e = failed_probe_cooldown at took deadline b v h due idle in rw e (ground arith)
