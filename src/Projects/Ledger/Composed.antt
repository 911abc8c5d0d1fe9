-- ===== src/Projects/Ledger/Composed.antt =====
-- The operations of projects/ledger.go and projects/rounds.go that are made of others, as runs of the
-- machine of `Event`: `reconcile`, `reconcileJobs`, `sessionEnded`, `roundEnded` and `unbind`.
use arbetern.Base.{
  ℕ, all, arith, ◌*◌, ◌+◌, ◌≤◌, ◌≡◌, refl, ap, ◌∙◌, Bool, true, false, Option, String, List, [],
  ◌∷◌, ◌++◌, if◌then◌else◌,
}
use arbetern.Base.Duration.{minute}
use arbetern.Projects.Review.{Status, RoundStatus, running, dispatching, working, starting, Round}
use arbetern.Projects.Ledger.{Task, Limits, Ledger, task}
use arbetern.Projects.Ledger.Lifecycle.{fail_task}
use arbetern.Projects.Ledger.Sessions.{
  exited, moved_to, unbound, quietly, unbind, session_ended, is_unreported,
}
use arbetern.Projects.Ledger.Upkeep.{
  fail_tasks, reconciled_tasks, reconcile, reconcile_jobs, running_grace,
}
use arbetern.Projects.Ledger.Events.{Event, do_fail, do_quiet, do_follow, step, run}
use arbetern.Projects.Ledger.Replacing.{IsSound}
use arbetern.Projects.Ledger.Soundness.{run-IsSound}
use arbetern.Projects.Ledger.Balance.{IsBalanced}
use arbetern.Projects.Ledger.Fixes.{run-IsBalanced}
use arbetern.Projects.Ledger.Budget.{IsWithin}
use arbetern.Projects.Ledger.Limit.{run-IsWithin}
use arbetern.Projects.Rounds.{fail_round}
use arbetern.Projects.Rounds.Reports.{
  exit_text, exit_round, round_ended, round_of, is_unreported as round_unreported,
}
use arbetern.Projects.Rounds.Upkeep.{fail_rounds, reconcile_rounds}
use arbetern.Projects.Rounds.Machine.{RoundEvent, do_break, do_exit}

-- To fail a round, and to note the end of its session.
abbrev ends_round : RoundEvent → Bool
ends_round (do_break n from reason now) = true
ends_round (do_exit n reason turns) = true
ends_round _ = false

-- The single operations of the upkeep: to fail a task, to change what no invariant reads of a task, and
-- to end a round of its review.
abbrev pub is_upkeep : ℕ × Event → Bool
is_upkeep (now, do_fail i from reason) = true
is_upkeep (now, do_quiet change i) = true
is_upkeep (now, do_follow line i s) = ends_round s
is_upkeep _ = false

-- Some operations of the upkeep in order lead from one ledger to the other.
abbrev pub Runs : Limits → Ledger → Ledger → Type 0
Runs m l k = (es : List (ℕ × Event)) × (all is_upkeep es ≡ true) × (run m es l ≡ k)

run-append :
    (m : Limits) (es fs : List (ℕ × Event)) (l : Ledger)
    → run m (es ++ fs) l ≡ run m fs (run m es l)
unfolding run
run-append m [] fs l = refl
run-append m ((now, e) ∷ es) fs l = run-append m es fs (step m now e l)

all-append :
    (es fs : List (ℕ × Event))
    → all is_upkeep es ≡ true
    → all is_upkeep fs ≡ true
    → all is_upkeep (es ++ fs) ≡ true
all-append [] fs p q = q
all-append (e ∷ es) fs p q = let r = all-append es fs (ground (arith, p)) q in ground (arith, p, r)

stays : (m : Limits) (l : Ledger) → Runs m l l
unfolding run
stays m l = ([], refl, refl)

one :
    (m : Limits) (now : ℕ) (e : Event) (l : Ledger)
    → is_upkeep (now, e) ≡ true
    → Runs m l (step m now e l)
unfolding run
one m now e l h = ((now, e) ∷ [], ground (arith, h), refl)

joined : (m : Limits) (l k j : Ledger) → Runs m l k → Runs m k j → Runs m l j
joined m l k j (es, u, p) (fs, w, q) =
    (es ++ fs, all-append es fs u w, run-append m es fs l ∙ ap (λ x. run m fs x) p ∙ q)

failed_task-Runs :
    (m : Limits) (i : String) (from : List Status) (reason : String) (now : ℕ) (l : Ledger)
    → Runs m l (fail_task i from reason now l).0
unfolding step
failed_task-Runs m i from reason now l = one m now (do_fail i from reason) l refl

failed_round-Runs :
    (m : Limits) (i : String) (n : ℕ) (from : List RoundStatus) (reason : String) (now : ℕ)
    (l : Ledger)
    → Runs m l (fail_round i n from reason now l).0
unfolding step
failed_round-Runs m i n from reason now l =
    one m now (do_follow (λ s. s) i (do_break n from reason now)) l refl

fail_tasks-Runs :
    (m : Limits) (from : Status) (reason : Option Task → String) (now : ℕ) (is : List String)
    (l : Ledger)
    → Runs m l (fail_tasks from reason now is l)
unfolding fail_tasks
fail_tasks-Runs m from reason now [] l = stays m l
fail_tasks-Runs m from reason now (i ∷ is) l =
    let k = (fail_task i (from ∷ []) (reason (task i l.tasks)) now l).0 in
    joined m l k (fail_tasks from reason now is k)
      (failed_task-Runs m i (from ∷ []) (reason (task i l.tasks)) now l)
      (fail_tasks-Runs m from reason now is k)

fail_rounds-Runs :
    (m : Limits) (from : RoundStatus) (reason : Option Round → String) (now : ℕ)
    (rs : List (String × ℕ)) (l : Ledger)
    → Runs m l (fail_rounds from reason now rs l)
unfolding fail_rounds
fail_rounds-Runs m from reason now [] l = stays m l
fail_rounds-Runs m from reason now ((i, n) ∷ rs) l =
    let why = reason (round_of n (task i l.tasks)) in
    let k = (fail_round i n (from ∷ []) why now l).0 in
    joined m l k (fail_rounds from reason now rs k) (failed_round-Runs m i n (from ∷ []) why now l)
      (fail_rounds-Runs m from reason now rs k)

reconciled_tasks-Runs :
    (m : Limits) (timeout now : ℕ) (l : Ledger) → Runs m l (reconciled_tasks timeout now l)
reconciled_tasks-Runs m timeout now l =
    joined m l _ _
      (joined m l _ _ (fail_tasks-Runs m dispatching _ now _ l)
        (fail_tasks-Runs m running _ now _ _))
      (fail_tasks-Runs m running _ now _ _)

reconcile_rounds-Runs :
    (m : Limits) (timeout now : ℕ) (l : Ledger) → Runs m l (reconcile_rounds timeout now l).0
unfolding reconcile_rounds
reconcile_rounds-Runs m timeout now l =
    joined m l _ _
      (joined m l _ _ (fail_rounds-Runs m starting _ now _ l)
        (fail_rounds-Runs m working _ now _ _))
      (fail_rounds-Runs m working _ now _ _)

reconcile-Runs : (m : Limits) (minutes now : ℕ) (l : Ledger) → Runs m l (reconcile minutes now l).0
unfolding reconcile
reconcile-Runs m minutes now l =
    let timeout = minutes * minute + running_grace in
    joined m l (reconciled_tasks timeout now l) _ (reconciled_tasks-Runs m timeout now l)
      (reconcile_rounds-Runs m timeout now (reconciled_tasks timeout now l))

reconcile_jobs-Runs :
    (m : Limits) (present finished : String → Bool) (now : ℕ) (l : Ledger)
    → Runs m l (reconcile_jobs present finished now l).0
unfolding reconcile_jobs
reconcile_jobs-Runs m present finished now l =
    joined m l _ _ (fail_tasks-Runs m running _ now _ l) (fail_rounds-Runs m working _ now _ _)

-- The two ways that the end of a session goes.
if-Runs :
    (m : Limits) (b : Bool) (l : Ledger) (x y : Ledger × Bool)
    → Runs m l x.0
    → Runs m l y.0
    → Runs m l (if b then x else y).0
if-Runs m true l x y p q = p
if-Runs m false l x y p q = q

session_ended-Runs :
    (m : Limits) (i reason branch : String) (turns now : ℕ) (l : Ledger)
    → Runs m l (session_ended i reason branch turns now l).0
unfolding session_ended step
session_ended-Runs m i reason branch turns now l =
    let k = (quietly (exited reason turns) i now l).0 in
    let moved = (quietly (moved_to branch) i now k).0 in
    let last = (fail_task i (running ∷ []) (exit_text reason) now moved).0 in
    let first : Runs m l k = one m now (do_quiet (exited reason turns) i) l refl in
    let second : Runs m k moved = one m now (do_quiet (moved_to branch) i) k refl in
    if-Runs m (is_unreported now (task i l.tasks)) l (last, true)
      (quietly (exited reason turns) i now l)
      (joined m l k last first (
        joined m k moved last second
          (failed_task-Runs m i (running ∷ []) (exit_text reason) now moved)))
      first

round_ended-Runs :
    (m : Limits) (i : String) (n : ℕ) (reason : String) (turns now : ℕ) (l : Ledger)
    → Runs m l (round_ended i n reason turns now l).0
unfolding round_ended step
round_ended-Runs m i n reason turns now l =
    let k = (exit_round i n reason turns l).0 in
    let last = (fail_round i n (working ∷ []) (exit_text reason) now k).0 in
    let first : Runs m l k = one m now (do_follow (λ s. s) i (do_exit n reason turns)) l refl in
    if-Runs m (round_unreported now (round_of n (task i l.tasks))) l (last, true)
      (exit_round i n reason turns l)
      (joined m l k last first (failed_round-Runs m i n (working ∷ []) (exit_text reason) now k))
      first

unbind-Runs : (m : Limits) (is : List String) (now : ℕ) (l : Ledger) → Runs m l (unbind is now l).0
unfolding unbind step
unbind-Runs m [] now l = stays m l
unbind-Runs m (i ∷ is) now l =
    let k = (quietly unbound i now l).0 in
    joined m l k (unbind is now k).0 (one m now (do_quiet unbound i) l refl)
      (unbind-Runs m is now k)

-- What every run keeps.
pub record IsHealthy (b : ℕ) (m : Limits) (l : Ledger) : Type 0 where
  pub sound : IsSound b l.tasks
  pub balanced : IsBalanced l
  pub within : IsWithin m l

Runs-IsHealthy :
    (b : ℕ) (m : Limits) (l k : Ledger)
    → m.max_open_prs ≤ b
    → Runs m l k
    → IsHealthy b m l
    → IsHealthy b m k
Runs-IsHealthy b m l k lim (es, u, e) h = rw (← e) (record {
  sound = run-IsSound b m es l lim h.sound;
  balanced = run-IsBalanced m es l h.balanced;
  within = run-IsWithin m es l h.within;
})

-- A run of the upkeep that keeps the invariants.
abbrev pub IsMaintained : ℕ → Limits → Ledger → Ledger → Type 0
IsMaintained b m l k = Runs m l k × IsHealthy b m k

Runs-IsMaintained :
    (b : ℕ) (m : Limits) (l k : Ledger)
    → m.max_open_prs ≤ b
    → Runs m l k
    → IsHealthy b m l
    → IsMaintained b m l k
Runs-IsMaintained b m l k lim r h = (r, Runs-IsHealthy b m l k lim r h)

-- Each operation of the upkeep of a ledger, which fails lost, ended and expired tasks and rounds, takes
-- the ends of sessions down and lets bindings go, leaves the ledger as a run of single operations does
-- that each fail a task, change what no invariant reads of a task, or end a round of its review: none
-- takes a task, adds a round, opens or merges a pull request or gives a verdict. So it keeps the ids
-- distinct, one open task for each error group, the open tasks within the bound, the verdicts within
-- the merges and the attempts within their limit.
pub upkeep-IsHealthy :
    (b : ℕ) (m : Limits) (minutes now : ℕ) (present gone : String → Bool) (i reason branch : String)
    (n turns : ℕ) (is : List String) (l : Ledger)
    → m.max_open_prs ≤ b
    → IsHealthy b m l
    → IsMaintained b m l (reconcile minutes now l).0
      × IsMaintained b m l (reconcile_jobs present gone now l).0
      × IsMaintained b m l (session_ended i reason branch turns now l).0
      × IsMaintained b m l (round_ended i n reason turns now l).0
      × IsMaintained b m l (unbind is now l).0
upkeep-IsHealthy b m minutes now present gone i reason branch n turns is l lim h = (
  Runs-IsMaintained b m l _ lim (reconcile-Runs m minutes now l) h,
  Runs-IsMaintained b m l _ lim (reconcile_jobs-Runs m present gone now l) h,
  Runs-IsMaintained b m l _ lim (session_ended-Runs m i reason branch turns now l) h,
  Runs-IsMaintained b m l _ lim (round_ended-Runs m i n reason turns now l) h,
  Runs-IsMaintained b m l _ lim (unbind-Runs m is now l) h,
)
