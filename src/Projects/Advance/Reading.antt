-- ===== src/Projects/Advance/Reading.antt =====
-- What projects/review.go reads of the checks of a pull request: `ciState`.
use arbetern.Base.{
  ◌≡◌, refl, Bool, true, false, not, ◌&&◌, String, List, [], ◌∷◌, str_eq, any, all, arith, filter,
}
use arbetern.Projects.Review.{Ci, passed, failing, absent}
use arbetern.Projects.Rounds.{is_nil}
use arbetern.Projects.AutoMerge.{contains}

-- `github.Check`, what is read of it here.
pub record Check : Type 0 where
  pub name : String
  pub status : String
  pub conclusion : String

abbrev pub failed_conclusions : List String
failed_conclusions =
    "failure" ∷ "timed_out" ∷ "cancelled" ∷ "action_required" ∷ "startup_failure" ∷ "stale" ∷ []

abbrev pub is_completed : Check → Bool
is_completed c = str_eq c.status "completed"

abbrev pub has_failed : Check → Bool
has_failed c = is_completed c && contains failed_conclusions c.conclusion

-- The state for the checks, given whether one is pending and those that failed.
abbrev pub state_of : Bool → List Check → List Check → Ci × List Check
state_of true bad cs = (Ci.pending, bad)
state_of false (b ∷ bad) cs = (failing, b ∷ bad)
state_of false [] [] = (absent, [])
state_of false [] (c ∷ cs) = (passed, [])

-- `ciState`.
unfoldable pub ci_state : List Check → Ci × List Check
ci_state cs = state_of (any (λ c. not (is_completed c)) cs) (filter has_failed cs) cs

-- The checks of which the code says that they passed.
abbrev pub passes : Check → Bool
passes c = is_completed c && not (contains failed_conclusions c.conclusion)

abbrev pub is_passed : Ci → Bool
is_passed passed = true
is_passed _ = false

all_passed :
    (cs : List Check)
    → any (λ c. not (is_completed c)) cs ≡ false
    → filter has_failed cs ≡ []
    → all passes cs ≡ true
all_passed [] p f = refl
all_passed (c ∷ cs) p f = go (all_passed cs (ground (arith, p))) (has_failed c) refl f
  where
    kept : Bool → List Check
    kept b = elim b as (λ x. List Check) [
      | true ↦ c ∷ filter has_failed cs
      | false ↦ filter has_failed cs
    ]

    go :
        (filter has_failed cs ≡ [] → all passes cs ≡ true)
        → (b : Bool) → has_failed c ≡ b
        → kept b ≡ []
        → all passes (c ∷ cs) ≡ true
    go r true e k = absurd (ground (arith, k))
    go r false e k = let q = r k in ground (arith, p, e, q)

-- The checks count as passed only when there is one, and all are complete with no failed conclusion.
pub ci_state-passed :
    (cs : List Check)
    → is_passed (ci_state cs).0 ≡ true
    → (all passes cs ≡ true) × (is_nil cs ≡ false)
unfolding ci_state
ci_state-passed cs h =
    go (any (λ c. not (is_completed c)) cs) refl (filter has_failed cs) refl cs refl h
  where
    go :
        (b : Bool)
        → any (λ c. not (is_completed c)) cs ≡ b
        → (bad : List Check) → filter has_failed cs ≡ bad
        → (ds : List Check) → cs ≡ ds
        → is_passed (state_of b bad ds).0 ≡ true
        → (all passes cs ≡ true) × (is_nil cs ≡ false)
    go true p bad f ds e k = absurd (ground (arith, k))
    go false p (x ∷ bad) f ds e k = absurd (ground (arith, k))
    go false p [] f [] e k = absurd (ground (arith, k))
    go false p [] f (d ∷ ds) e k = (all_passed cs p f, rw e refl)
