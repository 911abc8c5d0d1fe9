-- ===== src/Projects/Ledger/Backlog.antt =====
-- What is read off a ledger of projects/ledger.go: `pick`, `backlog`, `recentOutcomes`, `openPRTasks`,
-- `mergedTickets` and `inFlight`.
use arbetern.Base.{
  ℕ, zero, suc, ◌-◌, Bool, true, false, not, ◌&&◌, ◌==◌, Option, none, some, String, List, [], ◌∷◌,
  str_eq, ltb, if◌then◌else◌,
}
use arbetern.Projects.Review.{is_terminal, pr_open, merged}
use arbetern.Projects.Ledger.{Candidate, Pr, Task, Limits, Ledger, eligible}
use arbetern.Projects.Ledger.Lifecycle.{same_status, absent}
use arbetern.Projects.Ledger.PullRequest.{named}
use arbetern.Projects.Ledger.Upkeep.{ticket_done_window}

-- The first `n` elements that pass a test: the loops that stop once they have enough.
module _ {ℓ} {A : Type ℓ} (p : A → Bool) where
  abbrev pub first_with : ℕ → List A → List A
  first_with zero xs = []
  first_with (suc n) [] = []
  first_with (suc n) (x ∷ xs) = elim (p x) [
    | true ↦ x ∷ first_with n xs
    | false ↦ first_with (suc n) xs
  ]

  abbrev pub all_with : List A → List A
  all_with [] = []
  all_with (x ∷ xs) = let rest = all_with xs in elim (p x) [ true ↦ x ∷ rest | false ↦ rest ]

-- `backlog`; without a limit for `n` = 0.
unfoldable pub backlog : String → Limits → ℕ → ℕ → Ledger → List Candidate
backlog signal m now zero l =
    if str_eq l.signal signal
    then all_with (λ (c : Candidate). eligible c.group.fingerprint m now l) l.candidates
    else []
backlog signal m now (suc n) l =
    if str_eq l.signal signal
    then first_with (λ (c : Candidate). eligible c.group.fingerprint m now l) (suc n) l.candidates
    else []

abbrev pub first_of : List Candidate → Option Candidate
first_of [] = none
first_of (c ∷ cs) = some c

-- `pick`.
unfoldable pub pick : String → Limits → ℕ → Ledger → Option Candidate
pick signal m now l = first_of (backlog signal m now 1 l)

unfoldable pub recent_outcomes : String → ℕ → Ledger → List Task
recent_outcomes exclude n l =
    first_with (λ (t : Task). not (str_eq t.id exclude) && is_terminal t.status) n l.tasks

abbrev pub backwards : List Task → List Task → List Task
backwards done [] = done
backwards done (t ∷ ts) = backwards (t ∷ done) ts

-- `openPRTasks`, oldest first: the tasks are kept newest first.
unfoldable pub open_pr_tasks : ℕ → Ledger → List Task
open_pr_tasks n l =
    first_with (λ (t : Task). same_status t.status pr_open && not (absent t.pr)) n
      (backwards [] l.tasks)

abbrev merge_time : Option Pr → ℕ
merge_time none = 0
merge_time (some p) = p.merged_at

abbrev pub is_merged_ticket : ℕ → Task → Bool
is_merged_ticket now t =
    same_status t.status merged
    && named t.ticket
    && (t.ticket_done == 0)
    && not (absent t.pr)
    && ltb (now - merge_time t.pr) ticket_done_window

unfoldable pub merged_tickets : ℕ → ℕ → Ledger → List Task
merged_tickets now n l = first_with (is_merged_ticket now) n l.tasks

unfoldable pub in_flight : String → Ledger → List Task
in_flight exclude l =
    all_with (λ (t : Task). not (str_eq t.id exclude) && same_status t.status pr_open) l.tasks
