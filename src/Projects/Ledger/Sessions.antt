-- ===== src/Projects/Ledger/Sessions.antt =====
-- The sessions of the tasks of a ledger of projects/ledger.go: what their end, their transcripts and
-- their bindings leave of a task, and the pull requests that GitHub does not show.
use arbetern.Base.{
  ℕ, zero, suc, ◌-◌, ◌*◌, Bool, true, false, not, ◌&&◌, ◌||◌, ◌==◌, Option, none, some, String,
  List, [], ◌∷◌, str_eq, ltb, if◌then◌else◌,
}
use arbetern.Base.Duration.{minute}
use arbetern.Projects.Review.{
  stamp, is_terminal, is_active, is_active_round, pr_open, running, Round, ReviewState,
}
use arbetern.Projects.Ledger.{Pr, Task, Ledger, task, put_task, opening_fresh}
use arbetern.Projects.Ledger.Lifecycle.{same_status, absent, on_task, fail_task}
use arbetern.Projects.Ledger.PullRequest.{named, or_time}
use arbetern.Projects.Rounds.{round, put_round}
use arbetern.Projects.Rounds.Reports.{exit_text}

-- A change of one task that leaves its id, its error group and its status alone.
pub data Quiet : Type 0 where
  unreadable readable unbound : Quiet
  exited : String → ℕ → Quiet
  moved_to : String → Quiet
  learned : ℕ → ℕ → Quiet
  transcribed : ℕ → Quiet

abbrev unread_since : Option Pr → ℕ
unread_since none = 0
unread_since (some p) = p.unreadable_since

abbrev with_unread : ℕ → Option Pr → Option Pr
with_unread at none = none
with_unread at (some p) = some (record p { unreadable_since = at })

abbrev review_round : ℕ → Option ReviewState → Option Round
review_round n none = none
review_round n (some r) = round n r.rounds

-- The learnings that are counted for a session: of the task, or of one of its rounds.
abbrev learnings_of : ℕ → Task → Option ℕ
learnings_of zero t = some t.learnings
learnings_of (suc n) t = elim (review_round (suc n) t.review) [
  | none ↦ none
  | some d ↦ some d.learnings
]

abbrev with_round_learnings : ℕ → ℕ → Option ReviewState → Option ReviewState
with_round_learnings n k none = none
with_round_learnings n k (some r) = elim (round n r.rounds) [
  | none ↦ some r
  | some d ↦ some (record r { rounds = put_round (record d { learnings = k }) r.rounds })
]

abbrev with_learnings : ℕ → ℕ → Task → Task
with_learnings zero k t = record t { learnings = k }
with_learnings (suc n) k t = record t { review = with_round_learnings (suc n) k t.review }

abbrev is_fewer : ℕ → Option ℕ → Bool
is_fewer k none = false
is_fewer k (some n) = ltb n k

-- Whether the change says anything new.
abbrev pub quiet_guard : Quiet → Task → Bool
quiet_guard unreadable t =
    same_status t.status pr_open && not (absent t.pr) && (unread_since t.pr == 0)
quiet_guard readable t = not (absent t.pr) && not (unread_since t.pr == 0)
quiet_guard unbound t = t.bound
quiet_guard (exited reason turns) t =
    (str_eq t.exit_reason "" && named reason) || (not (turns == 0) && not (t.turns == turns))
quiet_guard (moved_to branch) t = named branch
quiet_guard (learned n k) t = is_fewer k (learnings_of n t)
quiet_guard (transcribed size) t = true

abbrev pub quiet_task : Quiet → ℕ → Task → Task
quiet_task unreadable now t = record t { pr = with_unread (stamp now) t.pr }
quiet_task readable now t = record t { pr = with_unread 0 t.pr }
quiet_task unbound now t = record t { bound = false }
quiet_task (exited reason turns) now t = record t {
  exit_reason = if str_eq t.exit_reason "" then reason else t.exit_reason;
  turns = if turns == 0 then t.turns else turns;
}
quiet_task (moved_to branch) now t = record t { branch = branch }
quiet_task (learned n k) now t = with_learnings n k t
quiet_task (transcribed size) now t = record t { transcript = stamp now; transcript_size = size }

abbrev pub quiet_change : Quiet → ℕ → Task → Ledger → Ledger
quiet_change q now t l = record l { tasks = put_task (quiet_task q now t) l.tasks }

abbrev pub quietly : Quiet → String → ℕ → Ledger → Ledger × Bool
quietly q i now l = on_task (quiet_guard q) (quiet_change q now) (task i l.tasks) l

-- `markUnreadable`, `clearUnreadable`, `setLearnings` and `setTranscript`.
abbrev pub mark_unreadable : String → ℕ → Ledger → Ledger × Bool
mark_unreadable i now l = quietly unreadable i now l

abbrev pub clear_unreadable : String → ℕ → Ledger → Ledger × Bool
clear_unreadable i now l = quietly readable i now l

abbrev pub set_learnings : String → ℕ → ℕ → ℕ → Ledger → Ledger × Bool
set_learnings i n k now l = quietly (learned n k) i now l

abbrev pub set_transcript : String → ℕ → ℕ → Ledger → Ledger × Bool
set_transcript i size now l = quietly (transcribed size) i now l

-- `unbind`.
unfoldable pub unbind : List String → ℕ → Ledger → Ledger × Bool
unbind [] now l = (l, false)
unbind (i ∷ is) now l =
    let (k, here) = quietly unbound i now l in
    let (last, more) = unbind is now k in (last, here || more)

-- Whether a session that ended left a task without a report.
abbrev pub is_unreported : ℕ → Option Task → Bool
is_unreported now none = false
is_unreported now (some t) =
    same_status t.status running && absent t.outcome && not (opening_fresh t now)

-- `sessionEnded`.
unfoldable pub session_ended : String → String → String → ℕ → ℕ → Ledger → Ledger × Bool
session_ended i reason branch turns now l =
    let (k, changed) = quietly (exited reason turns) i now l in
    let moved = (quietly (moved_to branch) i now k).0 in
    if is_unreported now (task i l.tasks)
    then ((fail_task i (running ∷ []) (exit_text reason) now moved).0, true)
    else (k, changed)

abbrev pub session_wrap_up : ℕ
session_wrap_up = 10 * minute

abbrev reported_time : Task → ℕ
reported_time t = elim t.outcome [ none ↦ 0 | some o ↦ o.reported_at ]

abbrev pub ended_at : Task → ℕ
ended_at t = or_time t.finished_at t.updated_at

abbrev round_finished : Task → Option Round → ℕ × Bool
round_finished t none = (ended_at t, false)
round_finished t (some d) =
    if is_terminal t.status
    then (ended_at t, false)
    else if is_active_round d.status
    then (0, true)
    else (or_time d.finished_at (ended_at t), false)

-- `sessionFinished` and `sessionDone`.
unfoldable pub session_finished : Task → ℕ → ℕ × Bool
session_finished t zero =
    if is_active t.status
    then (0, true)
    else if not (reported_time t == 0)
    then (reported_time t, false)
    else (ended_at t, false)
session_finished t (suc n) = round_finished t (review_round (suc n) t.review)

unfoldable pub session_done : Task → ℕ → String → ℕ → Bool
session_done t n reason now =
    let (finished, active) = session_finished t n in
    not active && (named reason || ltb session_wrap_up (now - finished))
