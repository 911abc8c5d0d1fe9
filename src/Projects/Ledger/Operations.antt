-- ===== src/Projects/Ledger/Operations.antt =====
-- Each operation on one task of the ledger of projects/ledger.go keeps `IsSound`.
use arbetern.Base.{ℕ, ◌+◌, ◌≡◌, refl, Bool, true, false, some, String, List, arith}
use arbetern.Projects.Review.{
  stamp, Status, is_terminal, dispatching, running, merged, closed, no_fix, failed, Outcome,
}
use arbetern.Projects.Ledger.{undecided, Pr, Limits, Ledger}
use arbetern.Projects.Ledger.Replacing.{
  IsSound, on_task-IsSound, same_MayReplace, finished-MayReplace, same_status-eq,
}
use arbetern.Projects.Ledger.Lifecycle.{
  start_guard, start_change, fail_guard, fail_change, no_fix_guard, no_fix_change, begin_guard,
  begin_change, clear_guard, clear_change, finished, finish, Started, with_session, mark_running,
  fail_task, report_no_fix, begin_opening, clear_opening, same_status,
}
use arbetern.Projects.Ledger.PullRequest.{
  Repo, with_pr, open_task_pr, PrSnapshot, merge_pr, close_pr, set_ticket, set_ticket_done,
  bound_to, bind_repo, open_guard, open_change, has_open_pr, merge_change, close_change, merge_of,
  close_of, ticket_guard, ticket_change, ticket_done_guard, ticket_done_change, bind_guard,
  rebind_guard, rebind_repo,
}

-- No task is started, opened or ended out of a finished status.
from_live : (s r : Status) → is_terminal r ≡ false → same_status s r ≡ true → is_terminal s ≡ false
from_live s r h e = rw (same_status-eq s r e) h

pub mark_running-IsSound :
    (b : ℕ) (i : String) (st : Started) (now : ℕ) (l : Ledger)
    → IsSound b l.tasks
    → IsSound b (mark_running i st now l).0.tasks
unfolding mark_running with_session
mark_running-IsSound b i st now l s =
    on_task-IsSound b i start_guard (start_change st now) (with_session st now) l (λ t. refl)
      (λ t g. record {
        same_id = refl;
        same_work = refl;
        stays = λ d. let e = from_live t.status dispatching refl g in absurd (ground (arith, d, e));
      })
      s

pub fail_task-IsSound :
    (b : ℕ) (i : String) (from : List Status) (reason : String) (now : ℕ) (l : Ledger)
    → IsSound b l.tasks
    → IsSound b (fail_task i from reason now l).0.tasks
unfolding fail_task finish
fail_task-IsSound b i from reason now l s =
    on_task-IsSound b i (fail_guard from) (fail_change reason now)
      (λ t. finished failed now (record t { error = reason })) l (λ t. refl)
      (λ t g. finished-MayReplace failed now t (record t { error = reason }) refl refl refl) s

pub report_no_fix-IsSound :
    (b : ℕ) (i : String) (o : Outcome) (m : Limits) (now : ℕ) (l : Ledger)
    → IsSound b l.tasks
    → IsSound b (report_no_fix i o m now l).0.tasks
unfolding report_no_fix finish
report_no_fix-IsSound b i o m now l s =
    on_task-IsSound b i (no_fix_guard now) (no_fix_change o m now)
      (λ t. finished no_fix now (record t { outcome = some o })) l (λ t. refl)
      (λ t g. finished-MayReplace no_fix now t (record t { outcome = some o }) refl refl refl) s

pub begin_opening-IsSound :
    (b : ℕ) (i : String) (g now : ℕ) (l : Ledger)
    → IsSound b l.tasks
    → IsSound b (begin_opening i g now l).0.tasks
unfolding begin_opening
begin_opening-IsSound b i g now l s =
    on_task-IsSound b i (begin_guard now) (begin_change g)
      (λ t. record t { opening = g; open_attempts = t.open_attempts + 1 }) l (λ t. refl)
      (λ t y. same_MayReplace t _ refl refl refl) s

pub clear_opening-IsSound :
    (b : ℕ) (i : String) (g : ℕ) (l : Ledger)
    → IsSound b l.tasks
    → IsSound b (clear_opening i g l).0.tasks
unfolding clear_opening
clear_opening-IsSound b i g l s =
    on_task-IsSound b i (clear_guard g) clear_change (λ t. record t { opening = 0 }) l (λ t. refl)
      (λ t y. same_MayReplace t _ refl refl refl) s

pub open_task_pr-IsSound :
    (b : ℕ) (i : String) (o : Outcome) (pr : Pr) (r : Repo) (follow draft : Bool) (now : ℕ)
    (l : Ledger)
    → IsSound b l.tasks
    → IsSound b (open_task_pr i o pr r follow draft now l).0.tasks
unfolding open_task_pr with_pr
open_task_pr-IsSound b i o pr r follow draft now l s =
    on_task-IsSound b i (open_guard r) (open_change o pr r follow draft now)
      (with_pr o pr r follow draft now) l (λ t. refl)
      (λ t g. record {
        same_id = refl;
        same_work = refl;
        stays = λ d.
            let e = from_live t.status running refl (ground (arith, g)) in
            absurd (ground (arith, d, e));
      })
      s

pub merge_pr-IsSound :
    (b : ℕ) (i : String) (st : PrSnapshot) (now : ℕ) (l : Ledger)
    → IsSound b l.tasks
    → IsSound b (merge_pr i st now l).0.tasks
unfolding merge_pr finish
merge_pr-IsSound b i st now l s =
    on_task-IsSound b i has_open_pr (merge_change st now)
      (λ t. finished merged now (record t { pr = merge_of st now t.pr; recurrence = undecided })) l
      (λ t. refl)
      (λ t g.
        finished-MayReplace merged now t
          (record t { pr = merge_of st now t.pr; recurrence = undecided }) refl refl refl)
      s

pub close_pr-IsSound :
    (b : ℕ) (i : String) (st : PrSnapshot) (m : Limits) (now : ℕ) (l : Ledger)
    → IsSound b l.tasks
    → IsSound b (close_pr i st m now l).0.tasks
unfolding close_pr finish
close_pr-IsSound b i st m now l s =
    on_task-IsSound b i has_open_pr (close_change st m now)
      (λ t. finished closed now (record t { pr = close_of st now t.pr })) l (λ t. refl)
      (λ t g.
        finished-MayReplace closed now t (record t { pr = close_of st now t.pr }) refl refl refl)
      s

pub set_ticket-IsSound :
    (b : ℕ) (i key url : String) (l : Ledger)
    → IsSound b l.tasks
    → IsSound b (set_ticket i key url l).0.tasks
unfolding set_ticket
set_ticket-IsSound b i key url l s =
    on_task-IsSound b i ticket_guard (ticket_change key url)
      (λ t. record t { ticket = key; ticket_url = url }) l (λ t. refl)
      (λ t y. same_MayReplace t _ refl refl refl) s

pub set_ticket_done-IsSound :
    (b : ℕ) (i : String) (now : ℕ) (l : Ledger)
    → IsSound b l.tasks
    → IsSound b (set_ticket_done i now l).0.tasks
unfolding set_ticket_done
set_ticket_done-IsSound b i now l s =
    on_task-IsSound b i ticket_done_guard (ticket_done_change now)
      (λ t. record t { ticket_done = stamp now }) l (λ t. refl)
      (λ t y. same_MayReplace t _ refl refl refl) s

pub bind_repo-IsSound :
    (b : ℕ) (i : String) (r : Repo) (l : Ledger)
    → IsSound b l.tasks
    → IsSound b (bind_repo i r l).0.tasks
unfolding bind_repo
bind_repo-IsSound b i r l s =
    on_task-IsSound b i (bind_guard r) (bound_to r)
      (λ t. record t { repo = r.name; base_branch = r.base_branch }) l (λ t. refl)
      (λ t y. same_MayReplace t _ refl refl refl) s

pub rebind_repo-IsSound :
    (b : ℕ) (i from : String) (r : Repo) (l : Ledger)
    → IsSound b l.tasks
    → IsSound b (rebind_repo i from r l).0.tasks
unfolding rebind_repo
rebind_repo-IsSound b i from r l s =
    on_task-IsSound b i (rebind_guard from r) (bound_to r)
      (λ t. record t { repo = r.name; base_branch = r.base_branch }) l (λ t. refl)
      (λ t y. same_MayReplace t _ refl refl refl) s
