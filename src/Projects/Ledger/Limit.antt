-- ===== src/Projects/Ledger/Limit.antt =====
-- Over any changes of the ledger of projects/ledger.go, the attempts of an error group are bounded.
use arbetern.Base.{ℕ, ◌+◌, ◌*◌, refl, some, List, [], ◌∷◌, arith}
use arbetern.Base.Duration.{hour}
use arbetern.Projects.Review.{stamp, merged, closed, no_fix, failed}
use arbetern.Projects.Ledger.{undecided, Limits, Ledger, task, failed_cooldown}
use arbetern.Projects.Ledger.Lifecycle.{
  fail_guard, fail_change, no_fix_guard, no_fix_change, begin_guard, begin_change, clear_guard,
  clear_change, finished, finish, fail_task, report_no_fix, begin_opening, clear_opening,
}
use arbetern.Projects.Ledger.PullRequest.{
  with_pr, open_task_pr, or_time, merge_pr, close_pr, set_ticket, set_ticket_done, bound_to,
  bind_repo, open_guard, open_change, has_open_pr, merge_of, close_of, merge_change, close_change,
  ticket_guard, ticket_change, ticket_done_guard, ticket_done_change, bind_guard, rebind_guard,
  rebind_repo,
}
use arbetern.Projects.Ledger.Attempts.{tries-on_track}
use arbetern.Projects.Ledger.Budget.{
  IsWithin, kept-StartsNothing, ended-StartsNothing, on_task-IsWithin, finish-tries,
  mark_running-IsWithin, compact-IsWithin, add_task-IsWithin,
}
use arbetern.Projects.Ledger.Sessions.{quietly}
use arbetern.Projects.AutoMerge.{on_merge}
use arbetern.Projects.AutoMerge.Coherence.{change_of}
use arbetern.Projects.Ledger.Following.{quietly-IsQuiet, on_merge-IsQuiet, follow-IsQuiet}
use arbetern.Projects.Ledger.Stable.{quiet-IsWithin, pin_repo-IsWithin, expire_tasks-IsWithin}
use arbetern.Projects.Ledger.Events.{
  Event, do_add, do_start, do_fail, do_report, do_begin, do_clear, do_open, do_merge, do_close,
  do_ticket, do_ticket_done, do_bind, do_rebind, do_sight, do_resolve, do_compact, do_quiet,
  do_follow, do_auto, do_pin, do_expire, follow, step, run,
}
use arbetern.Projects.Ledger.Counts.{resolve_due-IsWithin, sight-IsWithin}

step-IsWithin :
    (m : Limits) (now : ℕ) (e : Event) (l : Ledger) → IsWithin m l → IsWithin m (step m now e l)
unfolding step fail_task report_no_fix begin_opening clear_opening open_task_pr merge_pr close_pr
    set_ticket set_ticket_done bind_repo rebind_repo finish finished with_pr
step-IsWithin m now (do_add t) l w = add_task-IsWithin m t now l w
step-IsWithin m now (do_start i st) l w = mark_running-IsWithin m i st now l w
step-IsWithin m now (do_fail i from why) l w =
    on_task-IsWithin m i (fail_guard from) (fail_change why now)
      (λ t. finished failed now (record t { error = why })) l (λ t. refl)
      (λ t. ended-StartsNothing t (finished failed now (record t { error = why })) refl refl)
      (λ t fp. finish-tries failed now (now + failed_cooldown) (record t { error = why }) l fp) w
step-IsWithin m now (do_report i o) l w =
    on_task-IsWithin m i (no_fix_guard now) (no_fix_change o m now)
      (λ t. finished no_fix now (record t { outcome = some o })) l (λ t. refl)
      (λ t. ended-StartsNothing t (finished no_fix now (record t { outcome = some o })) refl refl)
      (λ t fp.
        finish-tries no_fix now (now + m.cooldown_hours * hour) (record t { outcome = some o }) l
          fp)
      w
step-IsWithin m now (do_begin i g) l w =
    on_task-IsWithin m i (begin_guard now) (begin_change g)
      (λ t. record t { opening = g; open_attempts = t.open_attempts + 1 }) l (λ t. refl)
      (λ t.
        kept-StartsNothing t (record t { opening = g; open_attempts = t.open_attempts + 1 }) refl
          refl refl)
      (λ t fp. omega arith) w
step-IsWithin m now (do_clear i g) l w =
    on_task-IsWithin m i (clear_guard g) clear_change (λ t. record t { opening = 0 }) l (λ t. refl)
      (λ t. kept-StartsNothing t (record t { opening = 0 }) refl refl refl) (λ t fp. omega arith) w
step-IsWithin m now (do_open i o pr r follow draft) l w =
    on_task-IsWithin m i (open_guard r) (open_change o pr r follow draft now)
      (with_pr o pr r follow draft now) l (λ t. refl)
      (λ t. ended-StartsNothing t (with_pr o pr r follow draft now t) refl refl)
      (λ t fp. omega arith) w
step-IsWithin m now (do_merge i st) l w =
    on_task-IsWithin m i has_open_pr (merge_change st now)
      (λ t. finished merged now (record t { pr = merge_of st now t.pr; recurrence = undecided })) l
      (λ t. refl)
      (λ t.
        ended-StartsNothing t
          (finished merged now (record t { pr = merge_of st now t.pr; recurrence = undecided }))
          refl refl)
      (λ t fp.
        tries-on_track fp t.fingerprint
          (λ tr. record tr {
            last_status = some merged;
            merged_at = stamp (or_time st.merged_at now);
            recurrence = undecided;
            last_task = t.id;
          })
          l.tracks (λ tr. omega arith))
      w
step-IsWithin m now (do_close i st) l w =
    on_task-IsWithin m i has_open_pr (close_change st m now)
      (λ t. finished closed now (record t { pr = close_of st now t.pr })) l (λ t. refl)
      (λ t.
        ended-StartsNothing t (finished closed now (record t { pr = close_of st now t.pr })) refl
          refl)
      (λ t fp.
        finish-tries closed now (now + m.cooldown_hours * hour)
          (record t { pr = close_of st now t.pr }) l fp)
      w
step-IsWithin m now (do_ticket i key url) l w =
    on_task-IsWithin m i ticket_guard (ticket_change key url)
      (λ t. record t { ticket = key; ticket_url = url }) l (λ t. refl)
      (λ t. kept-StartsNothing t (record t { ticket = key; ticket_url = url }) refl refl refl)
      (λ t fp. omega arith) w
step-IsWithin m now (do_ticket_done i) l w =
    on_task-IsWithin m i ticket_done_guard (ticket_done_change now)
      (λ t. record t { ticket_done = stamp now }) l (λ t. refl)
      (λ t. kept-StartsNothing t (record t { ticket_done = stamp now }) refl refl refl)
      (λ t fp. omega arith) w
step-IsWithin m now (do_bind i r) l w =
    on_task-IsWithin m i (bind_guard r) (bound_to r)
      (λ t. record t { repo = r.name; base_branch = r.base_branch }) l (λ t. refl)
      (λ t.
        kept-StartsNothing t (record t { repo = r.name; base_branch = r.base_branch }) refl refl
          refl)
      (λ t fp. omega arith) w
step-IsWithin m now (do_rebind i from r) l w =
    on_task-IsWithin m i (rebind_guard from r) (bound_to r)
      (λ t. record t { repo = r.name; base_branch = r.base_branch }) l (λ t. refl)
      (λ t.
        kept-StartsNothing t (record t { repo = r.name; base_branch = r.base_branch }) refl refl
          refl)
      (λ t fp. omega arith) w
step-IsWithin m now (do_sight g grace) l w = sight-IsWithin m g grace l w
step-IsWithin m now do_resolve l w = resolve_due-IsWithin m m l.tracks l w
step-IsWithin m now do_compact l w = compact-IsWithin m m now l w
step-IsWithin m now (do_quiet q i) l w =
    quiet-IsWithin m l (quietly q i now l).0 (quietly-IsQuiet q i now l) w
step-IsWithin m now (do_follow line i e) l w =
    quiet-IsWithin m l (follow line i e l) (follow-IsQuiet line i e l) w
step-IsWithin m now (do_auto i e) l w =
    quiet-IsWithin m l (on_merge (change_of e) (task i l.tasks) l).0
      (on_merge-IsQuiet i (change_of e) l) w
step-IsWithin m now (do_pin r) l w = pin_repo-IsWithin m r l w
step-IsWithin m now (do_expire keep) l w = expire_tasks-IsWithin m keep now l w

-- Over any sequence of the changes of `Event`, every error group has at most `MaxAttempts` attempts
-- on record, those being dispatched included, or one where the limit is 0, if it did at the start.
pub run-IsWithin :
    (m : Limits) (es : List (ℕ × Event)) (l : Ledger) → IsWithin m l → IsWithin m (run m es l)
unfolding run
run-IsWithin m [] l w = w
run-IsWithin m ((now, e) ∷ es) l w = run-IsWithin m es (step m now e l) (step-IsWithin m now e l w)
