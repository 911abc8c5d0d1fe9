-- ===== src/Projects/Ledger/Soundness.antt =====
-- Every change of the ledger of projects/ledger.go keeps `IsSound`.
use arbetern.Base.{
  ℕ, ◌+◌, ◌≤◌, ◌≡◌, refl, inl, inr, true, false, not, ◌&&◌, ◌||◌, Option, none, some, String, List,
  [], ◌∷◌, length, arith, ltb, str_eq, Bool-cases,
}
use arbetern.Projects.Review.{is_terminal, merged}
use arbetern.Projects.Ledger.{
  Recurrence, resolved, recurred, Candidate, Group, Track, Task, Limits, Ledger, task,
  has_open_task, open_count, active_count, has_capacity, eligible, find_track,
}
use arbetern.Projects.Ledger.Compaction.{compact}
use arbetern.Projects.Ledger.Distinct.{member, ids, open_fps}
use arbetern.Projects.Ledger.Replacing.{
  IsSound, put_task-IsSound, compact_tasks-IsSound, same_MayReplace,
}
use arbetern.Projects.Ledger.Lifecycle.{
  absent, find_candidate, new_task, added, add_task, same_status,
}
use arbetern.Projects.Ledger.Verdicts.{
  is_undecided, awaits, judged, recur_on, recur, resolve, renew_track, window_of, resolve_one,
  resolve_due, sighted, in_window, noted, sight,
}
use arbetern.Projects.Ledger.Operations.{
  mark_running-IsSound, fail_task-IsSound, report_no_fix-IsSound, begin_opening-IsSound,
  clear_opening-IsSound, open_task_pr-IsSound, merge_pr-IsSound, close_pr-IsSound,
  set_ticket-IsSound, set_ticket_done-IsSound, bind_repo-IsSound, rebind_repo-IsSound,
}
use arbetern.Projects.Ledger.Sessions.{quietly}
use arbetern.Projects.AutoMerge.{on_merge}
use arbetern.Projects.AutoMerge.Coherence.{change_of}
use arbetern.Projects.Ledger.Following.{quietly-IsQuiet, on_merge-IsQuiet, follow-IsQuiet}
use arbetern.Projects.Ledger.Stable.{quiet-IsSound, pin_repo-IsSound, expire_tasks-IsSound}
use arbetern.Projects.Ledger.Events.{
  Event, do_add, do_start, do_fail, do_report, do_begin, do_clear, do_open, do_merge, do_close,
  do_ticket, do_ticket_done, do_bind, do_rebind, do_sight, do_resolve, do_compact, do_quiet,
  do_follow, do_auto, do_pin, do_expire, follow, step, run,
}

member-ids : (i : String) (ts : List Task) → absent (task i ts) ≡ true → member i (ids ts) ≡ false
unfolding task
member-ids i [] h = refl
member-ids i (t ∷ ts) h = elim (Bool-cases (str_eq t.id i)) [
  | inl y ↦ absurd (ground (arith, h))
  | inr n ↦ rw n (member-ids i ts (rw n at h))
]

member-open_fps :
    (fp : String) (ts : List Task) → has_open_task fp ts ≡ false → member fp (open_fps ts) ≡ false
unfolding has_open_task
member-open_fps fp [] h = refl
member-open_fps fp (t ∷ ts) h = elim (Bool-cases (is_terminal t.status)) [
  | inl y ↦ rw y (member-open_fps fp ts (ground (arith, h)))
  | inr n ↦ rw n (ground (arith, h, member-open_fps fp ts (ground (arith, h))))
]

-- The open tasks are those that `counts` counts.
pub length-open_fps : (ts : List Task) → length (open_fps ts) ≡ open_count ts + active_count ts
unfolding open_count active_count
length-open_fps [] = omega arith
length-open_fps (t ∷ ts) = ground (arith, length-open_fps ts)

pub new_task-IsSound :
    (b : ℕ) (m : Limits) (t : Task) (c : Candidate) (now : ℕ) (l : Ledger)
    → m.max_open_prs ≤ b
    → absent (task t.id l.tasks) ≡ true
    → has_capacity m now l ≡ true
    → eligible t.fingerprint m now l ≡ true
    → IsSound b l.tasks
    → IsSound b (new_task t c now l ∷ l.tasks)
unfolding has_capacity eligible new_task
new_task-IsSound b m t c now l lim fresh room el s = record {
  distinct_ids = (member-ids t.id l.tasks fresh, s.distinct_ids);
  one_open = (member-open_fps t.fingerprint l.tasks (ground (arith, el)), s.one_open);
  few_open = ground (arith, lim, room, length-open_fps l.tasks);
}

added-IsSound :
    (b : ℕ) (m : Limits) (t : Task) (now : ℕ) (l : Ledger) (c : Option Candidate)
    → m.max_open_prs ≤ b
    → absent (task t.id l.tasks) ≡ true
    → has_capacity m now l ≡ true
    → eligible t.fingerprint m now l ≡ true
    → IsSound b l.tasks
    → IsSound b (added t m now c l).0.tasks
unfolding compact
added-IsSound b m t now l none lim fresh room el s = s
added-IsSound b m t now l (some c) lim fresh room el s =
    compact_tasks-IsSound b (new_task t c now l ∷ l.tasks)
      (new_task-IsSound b m t c now l lim fresh room el s)

add_task-IsSound :
    (b : ℕ) (m : Limits) (t : Task) (now : ℕ) (l : Ledger)
    → m.max_open_prs ≤ b
    → IsSound b l.tasks
    → IsSound b (add_task t m now l).0.tasks
unfolding add_task
add_task-IsSound b m t now l lim s =
    elim (Bool-cases (
      not (absent (task t.id l.tasks))
      || not (has_capacity m now l)
      || not (eligible t.fingerprint m now l))) [
        | inl y ↦ rw y s
        | inr n ↦ rw n (
            added-IsSound b m t now l (find_candidate t.fingerprint l.candidates) lim
              (ground (arith, n)) (ground (arith, n)) (ground (arith, n)) s)
      ]

judged-IsSound :
    (b : ℕ) (r : Recurrence) (i : String) (ts : List Task)
    → IsSound b ts
    → IsSound b (judged r (task i ts) ts)
unfolding judged
judged-IsSound b r i ts s = go (task i ts) refl
  where
    go : (o : Option Task) → task i ts ≡ o → IsSound b (judged r o ts)
    go none e = s
    go (some t) e = elim (Bool-cases (same_status t.status merged && is_undecided t.recurrence)) [
      | inl y ↦ rw y (
          put_task-IsSound b i t (record t { recurrence = r }) ts e
            (same_MayReplace t (record t { recurrence = r }) refl refl refl) s)
      | inr n ↦ rw n s
    ]

resolve-IsSound :
    (b : ℕ) (fp : String) (tr : Track) (l : Ledger)
    → IsSound b l.tasks
    → IsSound b (resolve fp tr l).tasks
unfolding resolve
resolve-IsSound b fp tr l s = judged-IsSound b resolved tr.last_task l.tasks s

recur_on-IsSound :
    (b : ℕ) (fp : String) (o : Option Track) (l : Ledger)
    → IsSound b l.tasks
    → IsSound b (recur_on fp o l).0.tasks
unfolding recur_on
recur_on-IsSound b fp none l s = s
recur_on-IsSound b fp (some tr) l s = elim (Bool-cases (awaits tr)) [
  | inl y ↦ rw y (judged-IsSound b recurred tr.last_task l.tasks s)
  | inr n ↦ rw n s
]

sighted-IsSound :
    (b : ℕ) (g : Group) (grace : ℕ) (m : Limits) (o : Option Track) (l : Ledger)
    → IsSound b l.tasks
    → IsSound b (sighted g grace m o l).tasks
unfolding sighted recur renew_track
sighted-IsSound b g grace m none l s = s
sighted-IsSound b g grace m (some tr) l s =
    let r = recur_on-IsSound b g.fingerprint (find_track g.fingerprint l.tracks) l s in
    elim (Bool-cases (awaits tr && ltb (tr.merged_at + grace) g.last_seen)) [
      | inl y ↦ rw y r
      | inr n ↦ rw n (ground (arith, s))
    ]

in_window-IsSound :
    (b : ℕ) (g : Group) (grace : ℕ) (m : Limits) (o : Option Track) (l : Ledger)
    → IsSound b l.tasks
    → IsSound b (in_window g grace m o l).tasks
in_window-IsSound b g grace m none l s = s
in_window-IsSound b g grace m (some tr) l s =
    let d = resolve g.fingerprint tr l in
    let r = resolve-IsSound b g.fingerprint tr l s in
    elim (Bool-cases (awaits tr && ltb (tr.merged_at + window_of m) g.first_seen)) [
      | inl y ↦ rw y (elim (Bool-cases (ltb (tr.merged_at + window_of m) l.cursor)) [
        | inl z ↦ rw z (sighted-IsSound b g grace m (find_track g.fingerprint d.tracks) d r)
        | inr z ↦ rw z s
      ])
      | inr n ↦ rw n (sighted-IsSound b g grace m (some tr) l s)
    ]

resolve_one-IsSound :
    (b : ℕ) (m : Limits) (fp : String) (o : Option Track) (l : Ledger)
    → IsSound b l.tasks
    → IsSound b (resolve_one m fp o l).tasks
unfolding resolve_one renew_track
resolve_one-IsSound b m fp none l s = s
resolve_one-IsSound b m fp (some tr) l s =
    let r = resolve-IsSound b fp tr l s in
    elim (Bool-cases (not (awaits tr) || not (ltb (tr.merged_at + window_of m) l.cursor))) [
      | inl y ↦ rw y s
      | inr n ↦ rw n (ground (arith, r))
    ]

resolve_due-IsSound :
    (b : ℕ) (m : Limits) (ts : List (String × Track)) (l : Ledger)
    → IsSound b l.tasks
    → IsSound b (resolve_due m ts l).tasks
unfolding resolve_due
resolve_due-IsSound b m [] l s = s
resolve_due-IsSound b m ((fp, tr) ∷ ts) l s =
    let o = find_track fp l.tracks in
    resolve_due-IsSound b m ts (resolve_one m fp o l) (resolve_one-IsSound b m fp o l s)

step-IsSound :
    (b : ℕ) (m : Limits) (now : ℕ) (e : Event) (l : Ledger)
    → m.max_open_prs ≤ b
    → IsSound b l.tasks
    → IsSound b (step m now e l).tasks
unfolding step sight compact
step-IsSound b m now (do_add t) l lim s = add_task-IsSound b m t now l lim s
step-IsSound b m now (do_start i st) l lim s = mark_running-IsSound b i st now l s
step-IsSound b m now (do_fail i from why) l lim s = fail_task-IsSound b i from why now l s
step-IsSound b m now (do_report i o) l lim s = report_no_fix-IsSound b i o m now l s
step-IsSound b m now (do_begin i g) l lim s = begin_opening-IsSound b i g now l s
step-IsSound b m now (do_clear i g) l lim s = clear_opening-IsSound b i g l s
step-IsSound b m now (do_open i o pr r follow draft) l lim s =
    open_task_pr-IsSound b i o pr r follow draft now l s
step-IsSound b m now (do_merge i st) l lim s = merge_pr-IsSound b i st now l s
step-IsSound b m now (do_close i st) l lim s = close_pr-IsSound b i st m now l s
step-IsSound b m now (do_ticket i key url) l lim s = set_ticket-IsSound b i key url l s
step-IsSound b m now (do_ticket_done i) l lim s = set_ticket_done-IsSound b i now l s
step-IsSound b m now (do_bind i r) l lim s = bind_repo-IsSound b i r l s
step-IsSound b m now (do_rebind i from r) l lim s = rebind_repo-IsSound b i from r l s
step-IsSound b m now (do_sight g grace) l lim s =
    in_window-IsSound b g grace m (find_track g.fingerprint (noted g l).tracks) (noted g l) s
step-IsSound b m now do_resolve l lim s = resolve_due-IsSound b m l.tracks l s
step-IsSound b m now do_compact l lim s = compact_tasks-IsSound b l.tasks s
step-IsSound b m now (do_quiet q i) l lim s =
    quiet-IsSound b l (quietly q i now l).0 (quietly-IsQuiet q i now l) s
step-IsSound b m now (do_follow line i e) l lim s =
    quiet-IsSound b l (follow line i e l) (follow-IsQuiet line i e l) s
step-IsSound b m now (do_auto i e) l lim s =
    quiet-IsSound b l (on_merge (change_of e) (task i l.tasks) l).0
      (on_merge-IsQuiet i (change_of e) l) s
step-IsSound b m now (do_pin r) l lim s = pin_repo-IsSound b r l s
step-IsSound b m now (do_expire keep) l lim s = expire_tasks-IsSound b keep now l s

-- Over any sequence of the changes of `Event`, no two tasks have one id, no two open tasks work on
-- one error group, and the open tasks are never more than the bound that they started within,
-- which is at least `MaxOpenPRs`.
pub run-IsSound :
    (b : ℕ) (m : Limits) (es : List (ℕ × Event)) (l : Ledger)
    → m.max_open_prs ≤ b
    → IsSound b l.tasks
    → IsSound b (run m es l).tasks
unfolding run
run-IsSound b m [] l lim s = s
run-IsSound b m ((now, e) ∷ es) l lim s =
    run-IsSound b m es (step m now e l) lim (step-IsSound b m now e l lim s)
