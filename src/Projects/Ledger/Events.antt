-- ===== src/Projects/Ledger/Events.antt =====
-- The changes of a ledger of projects/ledger.go as the steps of one machine.
use arbetern.Base.{ℕ, Bool, String, List, [], ◌∷◌}
use arbetern.Projects.Review.{Status, Outcome}
use arbetern.Projects.Ledger.{Group, Pr, Task, Limits, Ledger, task}
use arbetern.Projects.Ledger.Compaction.{compact}
use arbetern.Projects.Ledger.Lifecycle.{
  add_task, Started, mark_running, fail_task, report_no_fix, begin_opening, clear_opening,
}
use arbetern.Projects.Ledger.PullRequest.{
  Repo, open_task_pr, PrSnapshot, merge_pr, close_pr, set_ticket, set_ticket_done, bind_repo,
  rebind_repo,
}
use arbetern.Projects.Ledger.Verdicts.{resolve_due, sight}
use arbetern.Projects.Ledger.Sessions.{Quiet, quietly}
use arbetern.Projects.Ledger.Upkeep.{pin_repo, expire_tasks}
use arbetern.Projects.Rounds.{
  add_round, round_running, fail_round, begin_round_report, clear_round_report, exhaust_rounds,
}
use arbetern.Projects.Rounds.Reports.{finish_round, record_round_replies, exit_round}
use arbetern.Projects.Rounds.Watching.{mark_ready, mark_done, observe}
use arbetern.Projects.Rounds.Machine.{
  RoundEvent, do_round, do_break, do_exhaust, do_finish, do_replies, do_exit, do_ready, do_done,
  do_observe,
}
use arbetern.Projects.AutoMerge.{on_merge}
use arbetern.Projects.AutoMerge.Coherence.{MergeEvent, change_of}

-- One call of an operation, with its arguments.
pub data Event : Type 0 where
  do_add : Task → Event
  do_start : String → Started → Event
  do_fail : String → List Status → String → Event
  do_report : String → Outcome → Event
  do_begin : String → ℕ → Event
  do_clear : String → ℕ → Event
  do_open : String → Outcome → Pr → Repo → Bool → Bool → Event
  do_merge : String → PrSnapshot → Event
  do_close : String → PrSnapshot → Event
  do_ticket : String → String → String → Event
  do_ticket_done : String → Event
  do_bind : String → Repo → Event
  do_rebind : String → String → Repo → Event
  do_sight : Group → ℕ → Event
  do_resolve : Event
  do_compact : Event
  do_quiet : Quiet → String → Event
  do_follow : (String → String) → String → RoundEvent → Event
  do_auto : String → MergeEvent → Event
  do_pin : Repo → Event
  do_expire : ℕ → Event

-- The operations on the rounds of a task.
abbrev pub follow : (String → String) → String → RoundEvent → Ledger → Ledger
follow line i (do_round d max_rounds now) l = (add_round i d max_rounds now l).0
follow line i (RoundEvent.do_start n st now) l = (round_running i n st now l).0
follow line i (do_break n from reason now) l = (fail_round i n from reason now l).0
follow line i (RoundEvent.do_begin n guard now) l = (begin_round_report i n guard now l).0
follow line i (RoundEvent.do_clear n guard) l = (clear_round_report i n guard l).0
follow line i do_exhaust l = (exhaust_rounds i l).0
follow line i (do_finish n res now) l = (finish_round line i n res now l).0
follow line i (do_replies n res now) l = (record_round_replies line i n res now l).0
follow line i (do_exit n reason turns) l = (exit_round i n reason turns l).0
follow line i (do_ready now) l = (mark_ready i now l).0
follow line i (do_done head content now) l = (mark_done i head content now l).0
follow line i (do_observe o now) l = (observe i o now l).0

unfoldable pub step : Limits → ℕ → Event → Ledger → Ledger
step m now (do_add t) l = (add_task t m now l).0
step m now (do_start i st) l = (mark_running i st now l).0
step m now (do_fail i from reason) l = (fail_task i from reason now l).0
step m now (do_report i o) l = (report_no_fix i o m now l).0
step m now (do_begin i g) l = (begin_opening i g now l).0
step m now (do_clear i g) l = (clear_opening i g l).0
step m now (do_open i o pr r follow draft) l = (open_task_pr i o pr r follow draft now l).0
step m now (do_merge i st) l = (merge_pr i st now l).0
step m now (do_close i st) l = (close_pr i st m now l).0
step m now (do_ticket i key url) l = (set_ticket i key url l).0
step m now (do_ticket_done i) l = (set_ticket_done i now l).0
step m now (do_bind i r) l = (bind_repo i r l).0
step m now (do_rebind i from r) l = (rebind_repo i from r l).0
step m now (do_sight g grace) l = sight g grace m l
step m now do_resolve l = resolve_due m l.tracks l
step m now do_compact l = compact m now l
step m now (do_quiet q i) l = (quietly q i now l).0
step m now (do_follow line i e) l = follow line i e l
step m now (do_auto i e) l = (on_merge (change_of e) (task i l.tasks) l).0
step m now (do_pin r) l = (pin_repo r l).0
step m now (do_expire keep) l = expire_tasks keep now l

-- Events in order, each at its time.
unfoldable pub run : Limits → List (ℕ × Event) → Ledger → Ledger
run m [] l = l
run m ((now, e) ∷ es) l = run m es (step m now e l)
