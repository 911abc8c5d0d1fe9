-- ===== src/Projects/Ledger/PullRequest.antt =====
-- The pull request of a task and the verdict on its fix in projects/ledger.go: `openPR`, `mergePR`,
-- `closePR`, the repository of a task, `recur`, `resolve` and `resolveDue`.
use arbetern.Base.{
  ℕ, ◌+◌, ◌-◌, ◌*◌, Bool, true, false, not, ◌&&◌, ◌==◌, Option, none, some, String, [], str_eq, leb,
  if◌then◌else◌,
}
use arbetern.Base.Duration.{hour}
use Prim.Native.Char.{code}
use arbetern.Projects.Review.{
  stamp, is_terminal, pr_open, running, merged, closed, Outcome, ReviewState, unset, unread, settle,
}
use arbetern.Projects.Ledger.{
  undecided, merged_pr, closed_pr, Pr, Task, Totals, Limits, Ledger, task, put_task, on_day,
  utc_day,
}
use arbetern.Projects.Ledger.Lifecycle.{
  same_status, absent, on_task, finish, cool_down, push_ring, record_session_time,
}

-- `strings.EqualFold` on the names of repositories, which are ASCII.
abbrev pub fold_code : ℕ → ℕ
fold_code n = if leb 65 n && leb n 90 then n + 32 else n

abbrev pub equal_fold : String → String → Bool
equal_fold String.[] String.[] = true
equal_fold String.[] (String.◌∷◌ c s) = false
equal_fold (String.◌∷◌ c s) String.[] = false
equal_fold (String.◌∷◌ c s) (String.◌∷◌ d t) =
    (fold_code (code c) == fold_code (code d)) && equal_fold s t

-- `Repo`, the two fields that the ledger reads.
pub record Repo : Type 0 where
  pub name : String
  pub base_branch : String

abbrev pub named : String → Bool
named s = not (str_eq s "")

-- `&ReviewState{}`.
abbrev pub no_review : ReviewState
no_review = record {
  phase = unset;
  head = "";
  head_at = 0;
  ci = unread;
  failed_checks = [];
  conflict = false;
  pending = 0;
  last_feedback_at = 0;
  waiting = "";
  checks_handled = "";
  conflict_handled = "";
  rerun_head = "";
  handled = [];
  rounds = [];
  next_round_after = 0;
  draft = false;
  ready_at = 0;
  done_head = "";
  done_at = 0;
  content = "";
  content_head = "";
  content_base = "";
  diff = "";
  lineage = [];
  retargeted_at = 0;
  done_content = "";
  auto_merge = none;
}

abbrev pub new_review : String → Bool → ReviewState
new_review question draft = settle (record no_review { waiting = question; draft = draft })

unfoldable pub with_pr : Outcome → Pr → Repo → Bool → Bool → ℕ → Task → Task
with_pr o pr chosen follow draft now t = record t {
  repo = if named chosen.name then chosen.name else t.repo;
  base_branch = if named chosen.name then chosen.base_branch else t.base_branch;
  outcome = some o;
  branch = o.branch;
  pr = some pr;
  opening = 0;
  status = pr_open;
  updated_at = stamp now;
  review = if follow then some (new_review o.question draft) else t.review;
}

abbrev pub open_guard : Repo → Task → Bool
open_guard chosen t =
    same_status t.status running
    && absent t.pr
    && absent t.outcome
    && not (named chosen.name && named t.repo && not (equal_fold t.repo chosen.name))

abbrev pub open_change : Outcome → Pr → Repo → Bool → Bool → ℕ → Task → Ledger → Ledger
open_change o pr chosen follow draft now t k =
    let n = record_session_time t now k.totals in
    record k {
      tasks = put_task (with_pr o pr chosen follow draft now t) k.tasks;
      totals = record n { prs_opened = n.prs_opened + 1 };
      daily = on_day (utc_day now) (λ d. record d { opened = d.opened + 1 }) k.daily;
    }

-- `Ledger.openPR`.
unfoldable pub open_task_pr :
    String → Outcome → Pr → Repo → Bool → Bool → ℕ → Ledger → Ledger × Bool
open_task_pr i o pr chosen follow draft now l =
    on_task (open_guard chosen) (open_change o pr chosen follow draft now) (task i l.tasks) l

-- `prSnapshot`, with 0 for a time that is not set.
pub record PrSnapshot : Type 0 where
  pub created_at : ℕ
  pub merged_at : ℕ
  pub closed_at : ℕ
  pub additions : ℕ
  pub deletions : ℕ

-- `cmp.Or` on times.
abbrev pub or_time : ℕ → ℕ → ℕ
or_time a b = if a == 0 then b else a

abbrev pr_created : Option Pr → ℕ
pr_created none = 0
pr_created (some p) = p.created_at

abbrev pub merge_of : PrSnapshot → ℕ → Option Pr → Option Pr
merge_of st now none = none
merge_of st now (some p) = some (record p {
  state = merged_pr;
  merged_at = stamp (or_time st.merged_at now);
  additions = st.additions;
  deletions = st.deletions;
})

abbrev pub close_of : PrSnapshot → ℕ → Option Pr → Option Pr
close_of st now none = none
close_of st now (some p) = some (record p {
  state = closed_pr;
  closed_at = stamp (or_time st.closed_at now);
  additions = st.additions;
  deletions = st.deletions;
})

unfoldable pub merge_totals : PrSnapshot → ℕ → Task → Totals → Totals
merge_totals st now t n =
    let created = or_time st.created_at (pr_created t.pr) in
    let merged_at = or_time st.merged_at now in
    record n {
      prs_merged = n.prs_merged + 1;
      lines_changed = n.lines_changed + st.additions + st.deletions;
      merge_times =
          if not (created == 0) && leb created merged_at
          then push_ring n.merge_times (merged_at - created)
          else n.merge_times;
    }

abbrev pub has_open_pr : Task → Bool
has_open_pr t = same_status t.status pr_open && not (absent t.pr)

abbrev pub merge_change : PrSnapshot → ℕ → Task → Ledger → Ledger
merge_change st now t k =
    finish merged now
      (λ tr. record tr {
        merged_at = stamp (or_time st.merged_at now);
        recurrence = undecided;
        last_task = t.id;
      })
      (record t { pr = merge_of st now t.pr; recurrence = undecided })
      (record k {
        totals = merge_totals st now t k.totals;
        daily = on_day (utc_day now) (λ d. record d { merged = d.merged + 1 }) k.daily;
      })

-- `Ledger.mergePR`.
unfoldable pub merge_pr : String → PrSnapshot → ℕ → Ledger → Ledger × Bool
merge_pr i st now l = on_task has_open_pr (merge_change st now) (task i l.tasks) l

abbrev pub close_change : PrSnapshot → Limits → ℕ → Task → Ledger → Ledger
close_change st m now t k =
    finish closed now (cool_down (now + m.cooldown_hours * hour))
      (record t { pr = close_of st now t.pr })
      (record k {
        totals = record (k.totals) { prs_closed = k.totals.prs_closed + 1 };
        daily = on_day (utc_day now) (λ d. record d { closed = d.closed + 1 }) k.daily;
      })

-- `Ledger.closePR`.
unfoldable pub close_pr : String → PrSnapshot → Limits → ℕ → Ledger → Ledger × Bool
close_pr i st m now l = on_task has_open_pr (close_change st m now) (task i l.tasks) l

abbrev pub ticket_guard : Task → Bool
ticket_guard t = str_eq t.ticket ""

abbrev pub ticket_change : String → String → Task → Ledger → Ledger
ticket_change key url t k = record k {
  tasks = put_task (record t { ticket = key; ticket_url = url }) k.tasks;
}

-- `Ledger.setTicket`, `setTicketDone`, `bindRepo` and `rebindRepo`.
unfoldable pub set_ticket : String → String → String → Ledger → Ledger × Bool
set_ticket i key url l = on_task ticket_guard (ticket_change key url) (task i l.tasks) l

abbrev pub ticket_done_guard : Task → Bool
ticket_done_guard t = t.ticket_done == 0

abbrev pub ticket_done_change : ℕ → Task → Ledger → Ledger
ticket_done_change now t k = record k {
  tasks = put_task (record t { ticket_done = stamp now }) k.tasks;
}

unfoldable pub set_ticket_done : String → ℕ → Ledger → Ledger × Bool
set_ticket_done i now l = on_task ticket_done_guard (ticket_done_change now) (task i l.tasks) l

abbrev pub bound_to : Repo → Task → Ledger → Ledger
bound_to r t k = record k {
  tasks = put_task (record t { repo = r.name; base_branch = r.base_branch }) k.tasks;
}

abbrev pub bind_guard : Repo → Task → Bool
bind_guard r t = str_eq t.repo "" && named r.name && not (is_terminal t.status)

unfoldable pub bind_repo : String → Repo → Ledger → Ledger × Bool
bind_repo i r l = on_task (bind_guard r) (bound_to r) (task i l.tasks) l

abbrev pub rebind_guard : String → Repo → Task → Bool
rebind_guard from r t =
    absent t.pr && not (is_terminal t.status) && equal_fold t.repo from && named r.name

unfoldable pub rebind_repo : String → String → Repo → Ledger → Ledger × Bool
rebind_repo i from r l = on_task (rebind_guard from r) (bound_to r) (task i l.tasks) l
