-- ===== src/Projects/Ledger/Fixes.antt =====
-- Over the changes of the ledger of projects/ledger.go its verdicts stay within its merges.
use arbetern.Base.{
  ℕ, ◌+◌, ◌*◌, ◌≡◌, refl, inl, inr, true, not, ◌&&◌, ◌||◌, ◌==◌, Option, none, some, String, List,
  [], ◌∷◌, arith, ltb, Bool-cases,
}
use arbetern.Base.Duration.{hour}
use arbetern.Projects.Review.{closed, failed}
use arbetern.Projects.Ledger.{
  resolved, recurred, Group, Track, Limits, Ledger, task, find_track, on_day, utc_day,
  failed_cooldown,
}
use arbetern.Projects.Ledger.Lifecycle.{
  start_guard, start_change, fail_guard, fail_change, no_fix_guard, no_fix_change, begin_guard,
  begin_change, clear_guard, clear_change, mark_running, fail_task, report_no_fix, begin_opening,
  clear_opening,
}
use arbetern.Projects.Ledger.PullRequest.{
  open_task_pr, merge_pr, close_pr, set_ticket, set_ticket_done, bound_to, bind_repo, open_guard,
  open_change, has_open_pr, close_of, merge_change, close_change, ticket_guard, ticket_change,
  ticket_done_guard, ticket_done_change, bind_guard, rebind_guard, rebind_repo,
}
use arbetern.Projects.Ledger.Verdicts.{
  is_resolved, awaits, recur_on, recur, resolve, renewed, renew_track, window_of, resolve_one,
  resolve_due, sighted, in_window, noted, latest, sight,
}
use arbetern.Projects.Ledger.Accounts.{awaiting-on_track, awaiting-decided}
use arbetern.Projects.Ledger.Upkeep.{pin_repo, expire_tasks}
use arbetern.Projects.Ledger.Sessions.{quietly}
use arbetern.Projects.AutoMerge.{on_merge}
use arbetern.Projects.AutoMerge.Coherence.{change_of}
use arbetern.Projects.Ledger.Following.{quietly-IsQuiet, on_merge-IsQuiet, follow-IsQuiet}
use arbetern.Projects.Ledger.Stable.{quiet-IsBalanced}
use arbetern.Projects.Ledger.Events.{
  Event, do_add, do_start, do_fail, do_report, do_begin, do_clear, do_open, do_merge, do_close,
  do_ticket, do_ticket_done, do_bind, do_rebind, do_sight, do_resolve, do_compact, do_quiet,
  do_follow, do_auto, do_pin, do_expire, follow, step, run,
}
use arbetern.Projects.Ledger.Balance.{
  IsBalanced, on_task-keeps, quiet, start_change-IsBalanced, finish-IsBalanced,
  merge_change-IsBalanced, no_fix_change-IsBalanced, open_change-IsBalanced, compact-IsBalanced,
  add_task-IsBalanced,
}

-- A verdict on a track that was found waiting for it.
resolve-IsBalanced :
    (fp : String) (tr : Track) (l : Ledger)
    → find_track fp l.tracks ≡ some tr
    → awaits tr ≡ true
    → IsBalanced l
    → IsBalanced (resolve fp tr l)
unfolding resolve
resolve-IsBalanced fp tr l found w b =
    let r =
      awaiting-decided fp (λ x. record x { recurrence = resolved }) tr l.tracks found w
        (λ x. ground arith) in
    omega (arith, b, r)

recur_on-IsBalanced :
    (fp : String) (o : Option Track) (l : Ledger)
    → find_track fp l.tracks ≡ o
    → IsBalanced l
    → IsBalanced (recur_on fp o l).0
unfolding recur_on
recur_on-IsBalanced fp none l found b = b
recur_on-IsBalanced fp (some tr) l found b = elim (Bool-cases (awaits tr)) [
  | inl w ↦
      let r =
        awaiting-decided fp (λ x. record x { recurrence = recurred; attempts = 0; merged_at = 0 })
          tr l.tracks found w (λ x. refl) in
      rw w (omega (arith, b, r))
  | inr n ↦ rw n b
]

renew_track-IsBalanced : (fp : String) (l : Ledger) → IsBalanced l → IsBalanced (renew_track fp l)
unfolding renew_track
renew_track-IsBalanced fp l b =
    let r = awaiting-on_track fp renewed l.tracks (λ tr h. absurd (ground (arith, h))) in
    omega (arith, b, r)

sighted-IsBalanced :
    (g : Group) (grace : ℕ) (m : Limits) (o : Option Track) (l : Ledger)
    → IsBalanced l
    → IsBalanced (sighted g grace m o l)
unfolding sighted recur
sighted-IsBalanced g grace m none l b = b
sighted-IsBalanced g grace m (some tr) l b =
    let r = recur_on-IsBalanced g.fingerprint (find_track g.fingerprint l.tracks) l refl b in
    let q = renew_track-IsBalanced g.fingerprint l b in
    elim (Bool-cases (awaits tr && ltb (tr.merged_at + grace) g.last_seen)) [
      | inl y ↦ rw y r
      | inr n ↦
          rw n
            (elim (Bool-cases (
              not (tr.merged_at == 0)
              && is_resolved tr.recurrence
              && ltb (tr.merged_at + window_of m) g.last_seen)) [ inl z ↦ rw z q | inr z ↦ rw z b ])
    ]

in_window-IsBalanced :
    (g : Group) (grace : ℕ) (m : Limits) (o : Option Track) (l : Ledger)
    → find_track g.fingerprint l.tracks ≡ o
    → IsBalanced l
    → IsBalanced (in_window g grace m o l)
in_window-IsBalanced g grace m none l found b = b
in_window-IsBalanced g grace m (some tr) l found b =
    let d = resolve g.fingerprint tr l in
    elim (Bool-cases (awaits tr && ltb (tr.merged_at + window_of m) g.first_seen)) [
      | inl y ↦
          let r = resolve-IsBalanced g.fingerprint tr l found (ground (arith, y)) b in
          rw y (elim (Bool-cases (ltb (tr.merged_at + window_of m) l.cursor)) [
            | inl z ↦ rw z (sighted-IsBalanced g grace m (find_track g.fingerprint d.tracks) d r)
            | inr z ↦ rw z b
          ])
      | inr n ↦ rw n (sighted-IsBalanced g grace m (some tr) l b)
    ]

resolve_one-IsBalanced :
    (m : Limits) (fp : String) (o : Option Track) (l : Ledger)
    → find_track fp l.tracks ≡ o
    → IsBalanced l
    → IsBalanced (resolve_one m fp o l)
unfolding resolve_one
resolve_one-IsBalanced m fp none l found b = b
resolve_one-IsBalanced m fp (some tr) l found b =
    elim (Bool-cases (not (awaits tr) || not (ltb (tr.merged_at + window_of m) l.cursor))) [
      | inl y ↦ rw y b
      | inr n ↦
          let r = resolve-IsBalanced fp tr l found (ground (arith, n)) b in
          let q = renew_track-IsBalanced fp (resolve fp tr l) r in
          rw n (elim (Bool-cases (ltb (tr.merged_at + window_of m) tr.last_seen)) [
            | inl z ↦ rw z q
            | inr z ↦ rw z r
          ])
    ]

resolve_due-IsBalanced :
    (m : Limits) (ts : List (String × Track)) (l : Ledger)
    → IsBalanced l
    → IsBalanced (resolve_due m ts l)
unfolding resolve_due
resolve_due-IsBalanced m [] l b = b
resolve_due-IsBalanced m ((fp, tr) ∷ ts) l b =
    let o = find_track fp l.tracks in
    resolve_due-IsBalanced m ts (resolve_one m fp o l) (resolve_one-IsBalanced m fp o l refl b)

sight-IsBalanced :
    (g : Group) (grace : ℕ) (m : Limits) (l : Ledger)
    → IsBalanced l
    → IsBalanced (sight g grace m l)
unfolding sight
sight-IsBalanced g grace m l b =
    let q =
      quiet g.fingerprint (λ tr. record tr { last_seen = latest tr.last_seen g.last_seen }) l
        (λ tr. refl) b in
    in_window-IsBalanced g grace m (find_track g.fingerprint (noted g l).tracks) (noted g l) refl q

step-IsBalanced :
    (m : Limits) (now : ℕ) (e : Event) (l : Ledger) → IsBalanced l → IsBalanced (step m now e l)
unfolding step mark_running fail_task report_no_fix begin_opening clear_opening open_task_pr
    merge_pr close_pr set_ticket set_ticket_done bind_repo rebind_repo pin_repo expire_tasks
step-IsBalanced m now (do_add t) l b = add_task-IsBalanced t m now l b
step-IsBalanced m now (do_start i st) l b =
    on_task-keeps IsBalanced start_guard (start_change st now) (task i l.tasks) l b
      (λ t. start_change-IsBalanced st now t l b)
step-IsBalanced m now (do_fail i from why) l b =
    on_task-keeps IsBalanced (fail_guard from) (fail_change why now) (task i l.tasks) l b (λ t.
      finish-IsBalanced failed now (now + failed_cooldown) (record t { error = why })
        (record l { totals = record (l.totals) { failed_sessions = l.totals.failed_sessions + 1 } })
        b)
step-IsBalanced m now (do_report i o) l b =
    on_task-keeps IsBalanced (no_fix_guard now) (no_fix_change o m now) (task i l.tasks) l b
      (λ t. no_fix_change-IsBalanced o m now t l b)
step-IsBalanced m now (do_begin i g) l b =
    on_task-keeps IsBalanced (begin_guard now) (begin_change g) (task i l.tasks) l b (λ t. b)
step-IsBalanced m now (do_clear i g) l b =
    on_task-keeps IsBalanced (clear_guard g) clear_change (task i l.tasks) l b (λ t. b)
step-IsBalanced m now (do_open i o pr r follow draft) l b =
    on_task-keeps IsBalanced (open_guard r) (open_change o pr r follow draft now) (task i l.tasks) l
      b (λ t. open_change-IsBalanced o pr r follow draft now t l b)
step-IsBalanced m now (do_merge i st) l b =
    on_task-keeps IsBalanced has_open_pr (merge_change st now) (task i l.tasks) l b
      (λ t. merge_change-IsBalanced st now t l b)
step-IsBalanced m now (do_close i st) l b =
    on_task-keeps IsBalanced has_open_pr (close_change st m now) (task i l.tasks) l b (λ t.
      finish-IsBalanced closed now (now + m.cooldown_hours * hour)
        (record t { pr = close_of st now t.pr })
        (record l {
          totals = record (l.totals) { prs_closed = l.totals.prs_closed + 1 };
          daily = on_day (utc_day now) (λ d. record d { closed = d.closed + 1 }) l.daily;
        })
        b)
step-IsBalanced m now (do_ticket i key url) l b =
    on_task-keeps IsBalanced ticket_guard (ticket_change key url) (task i l.tasks) l b (λ t. b)
step-IsBalanced m now (do_ticket_done i) l b =
    on_task-keeps IsBalanced ticket_done_guard (ticket_done_change now) (task i l.tasks) l b
      (λ t. b)
step-IsBalanced m now (do_bind i r) l b =
    on_task-keeps IsBalanced (bind_guard r) (bound_to r) (task i l.tasks) l b (λ t. b)
step-IsBalanced m now (do_rebind i from r) l b =
    on_task-keeps IsBalanced (rebind_guard from r) (bound_to r) (task i l.tasks) l b (λ t. b)
step-IsBalanced m now (do_sight g grace) l b = sight-IsBalanced g grace m l b
step-IsBalanced m now do_resolve l b = resolve_due-IsBalanced m l.tracks l b
step-IsBalanced m now do_compact l b = compact-IsBalanced m now l b
step-IsBalanced m now (do_quiet q i) l b =
    quiet-IsBalanced l (quietly q i now l).0 (quietly-IsQuiet q i now l) b
step-IsBalanced m now (do_follow line i e) l b =
    quiet-IsBalanced l (follow line i e l) (follow-IsQuiet line i e l) b
step-IsBalanced m now (do_auto i e) l b =
    quiet-IsBalanced l (on_merge (change_of e) (task i l.tasks) l).0
      (on_merge-IsQuiet i (change_of e) l) b
step-IsBalanced m now (do_pin r) l b = b
step-IsBalanced m now (do_expire keep) l b = b

-- Over any sequence of the changes of `Event`, the fixes counted as resolved, those counted as
-- recurred and those that still wait for a verdict are together no more than the pull requests
-- counted as merged.
pub run-IsBalanced :
    (m : Limits) (es : List (ℕ × Event)) (l : Ledger) → IsBalanced l → IsBalanced (run m es l)
unfolding run
run-IsBalanced m [] l b = b
run-IsBalanced m ((now, e) ∷ es) l b =
    run-IsBalanced m es (step m now e l) (step-IsBalanced m now e l b)
