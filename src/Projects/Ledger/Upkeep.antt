-- ===== src/Projects/Ledger/Upkeep.antt =====
-- The upkeep of a ledger of projects/ledger.go: `reconcile`, `reconcileJobs`, `pinRepo`, `expired` and
-- `expireTasks`. What is present and finished among the Jobs are arguments.
use arbetern.Base.{
  ℕ, ◌+◌, ◌-◌, ◌*◌, Bool, true, false, not, ◌&&◌, ◌||◌, ◌==◌, Option, none, some, String, List, [],
  ◌∷◌, str_eq, ltb, if◌then◌else◌, any,
}
use arbetern.Base.Duration.{hour, minute}
use arbetern.Projects.Review.{
  Status, is_terminal, dispatching, running, merged, working, Round, ReviewState,
}
use arbetern.Projects.Ledger.{Task, Track, Ledger, task, find_track, opening_fresh}
use arbetern.Projects.Ledger.Lifecycle.{same_status, absent, fail_task}
use arbetern.Projects.Ledger.PullRequest.{Repo, named}
use arbetern.Projects.Ledger.Sessions.{ended_at}
use arbetern.Projects.Ledger.Verdicts.{is_undecided}
use arbetern.Projects.Rounds.{report_fresh}
use arbetern.Projects.Rounds.Reports.{exit_text, is_open_round}
use arbetern.Projects.Rounds.Upkeep.{
  dispatch_lost_after, or_time, Fate, lost, ended, expired, kept, refs, fail_rounds,
  reconcile_rounds, is_nothing,
}

abbrev pub running_grace : ℕ
running_grace = 30 * minute

abbrev pub job_gone_after : ℕ
job_gone_after = 10 * minute

abbrev pub ticket_done_window : ℕ
ticket_done_window = 14 * 24 * hour

-- What the loop of `reconcile` does with a task.
unfoldable pub task_fate : ℕ → ℕ → Task → Fate
task_fate timeout now t =
    if same_status t.status dispatching
      && str_eq t.session_id ""
      && ltb dispatch_lost_after (now - t.created_at)
    then lost
    else if same_status t.status running
        && absent t.outcome
        && named t.exit_reason
        && not (opening_fresh t now)
    then ended
    else if same_status t.status running
        && absent t.outcome
        && ltb timeout (now - or_time t.dispatched_at t.created_at)
    then expired
    else kept

abbrev is_lost : Fate → Bool
is_lost lost = true
is_lost _ = false

abbrev is_ended : Fate → Bool
is_ended ended = true
is_ended _ = false

abbrev is_expired : Fate → Bool
is_expired expired = true
is_expired _ = false

-- The ids of the tasks that a test selects.
abbrev pub ids_with : (Task → Bool) → List Task → List String
ids_with p [] = []
ids_with p (t ∷ ts) = let rest = ids_with p ts in if p t then t.id ∷ rest else rest

abbrev exit_of : Option Task → String
exit_of none = ""
exit_of (some t) = t.exit_reason

-- The loops that fail the tasks they were given.
unfoldable pub fail_tasks : Status → (Option Task → String) → ℕ → List String → Ledger → Ledger
fail_tasks from reason now [] l = l
fail_tasks from reason now (i ∷ is) l =
    fail_tasks from reason now is (fail_task i (from ∷ []) (reason (task i l.tasks)) now l).0

abbrev pub none_of : List String → Bool
none_of [] = true
none_of (i ∷ is) = false

-- The tasks that `reconcile` fails, before it turns to the rounds.
abbrev pub reconciled_tasks : ℕ → ℕ → Ledger → Ledger
reconciled_tasks timeout now l =
    let gone = ids_with (λ t. is_lost (task_fate timeout now t)) l.tasks in
    let over = ids_with (λ t. is_ended (task_fate timeout now t)) l.tasks in
    let late = ids_with (λ t. is_expired (task_fate timeout now t)) l.tasks in
    fail_tasks running (λ t. "session timed out") now late
      (fail_tasks running (λ t. exit_text (exit_of t)) now over
        (fail_tasks dispatching (λ t. "dispatch outcome unknown") now gone l))

abbrev is_kept : Fate → Bool
is_kept kept = true
is_kept _ = false

-- `Ledger.reconcile`, on `SessionTimeoutMinutes`.
unfoldable pub reconcile : ℕ → ℕ → Ledger → Ledger × Bool
reconcile timeout_minutes now l =
    let timeout = timeout_minutes * minute + running_grace in
    let (k, rounds) = reconcile_rounds timeout now (reconciled_tasks timeout now l) in
    (k, any (λ t. not (is_kept (task_fate timeout now t))) l.tasks || rounds)

module _ (present finished : String → Bool) (now : ℕ) where
  -- Whether the Job of a session finished, or has been gone for a while.
  abbrev pub is_gone : String → ℕ → Bool
  is_gone session since =
      finished session || (not (present session) && ltb job_gone_after (now - since))

  abbrev pub job_lost : Task → Bool
  job_lost t =
      same_status t.status running
      && absent t.outcome
      && str_eq t.exit_reason ""
      && named t.session_id
      && not (opening_fresh t now)
      && is_gone t.session_id (or_time t.dispatched_at t.created_at)

  abbrev pub round_job_lost : Round → Bool
  round_job_lost d =
      is_open_round d
      && str_eq d.exit_reason ""
      && named d.session_id
      && not (report_fresh d now)
      && is_gone d.session_id (or_time d.dispatched_at d.created_at)

  -- `Ledger.reconcileJobs`.
  unfoldable pub reconcile_jobs : Ledger → Ledger × Bool
  reconcile_jobs l =
      let reason : String = "session ended without a report (the Job finished)" in
      let tasks = ids_with job_lost l.tasks in
      let rounds = refs round_job_lost l.tasks in
      (
        fail_rounds working (λ d. reason) now rounds (fail_tasks running (λ t. reason) now tasks l),
        not (none_of tasks && is_nothing rounds),
      )

-- `Ledger.pinRepo`, with whether it changed anything.
abbrev pub pin_guard : Task → Bool
pin_guard t = str_eq t.repo "" && not (is_terminal t.status)

abbrev pub pinned : Repo → Task → Task
pinned r t = if pin_guard t then record t { repo = r.name; base_branch = r.base_branch } else t

abbrev pub pin_all : Repo → List Task → List Task
pin_all r [] = []
pin_all r (t ∷ ts) = pinned r t ∷ pin_all r ts

unfoldable pub pin_repo : Repo → Ledger → Ledger × Bool
pin_repo r l = (record l { tasks = pin_all r l.tasks }, any pin_guard l.tasks)

-- `Ledger.expired` and `expireTasks`.
abbrev has_bound_round : Option ReviewState → Bool
has_bound_round none = false
has_bound_round (some r) = any (λ (d : Round). d.bound) r.rounds

abbrev is_judged : String → Option Track → Bool
is_judged i none = true
is_judged i (some tr) =
    not (str_eq tr.last_task i) || (tr.merged_at == 0) || not (is_undecided tr.recurrence)

unfoldable pub is_expired_task : ℕ → ℕ → Ledger → Task → Bool
is_expired_task keep now l t =
    let at = ended_at t in
    if not (is_terminal t.status) || t.bound || (at == 0) || ltb (now - at) keep
    then false
    else if has_bound_round t.review
    then false
    else if not (same_status t.status merged)
    then true
    else if named t.ticket && (t.ticket_done == 0) && ltb (now - at) ticket_done_window
    then false
    else is_judged t.id (find_track t.fingerprint l.tracks)

abbrev pub without_expired : (Task → Bool) → List Task → List Task
without_expired p [] = []
without_expired p (t ∷ ts) = let rest = without_expired p ts in if p t then rest else t ∷ rest

unfoldable pub expire_tasks : ℕ → ℕ → Ledger → Ledger
expire_tasks keep now l = record l { tasks = without_expired (is_expired_task keep now l) l.tasks }
