-- ===== src/Projects/Ledger/Balance.antt =====
-- Each operation on a task of the ledger of projects/ledger.go keeps its verdicts within its merges.
use arbetern.Base.{
  ℕ, ◌+◌, ◌*◌, ◌≤◌, ◌≡◌, refl, inl, inr, Bool, not, ◌||◌, Option, none, some, String, ◌∷◌, arith,
  Bool-cases,
}
use arbetern.Base.Duration.{hour}
use arbetern.Projects.Review.{stamp, Status, Outcome, merged, no_fix}
use arbetern.Projects.Ledger.{
  undecided, Candidate, Pr, Track, Task, Totals, Limits, Ledger, task, has_capacity, eligible,
  on_track,
}
use arbetern.Projects.Ledger.Compaction.{
  compact_tasks, compact_candidates, victims, is_spared, trim_tracks, compact,
}
use arbetern.Projects.Ledger.Lifecycle.{
  absent, on_task, start_change, no_fix_change, finish, find_candidate, drop_candidate, new_task,
  added, add_task, Started, record_session_time, cool_down,
}
use arbetern.Projects.Ledger.PullRequest.{
  Repo, PrSnapshot, or_time, open_change, merge_change, merge_totals,
}
use arbetern.Projects.Ledger.Verdicts.{awaits}
use arbetern.Projects.Ledger.Accounts.{
  awaiting, awaiting-on_track, awaiting-on_track_any, awaiting-filter,
}

-- The verdicts given and the fixes that wait for one are no more than the merges.
abbrev pub IsBalanced : Ledger → Type 0
IsBalanced l = l.totals.resolved + l.totals.recurred + awaiting l.tracks ≤ l.totals.prs_merged

pub on_task-keeps :
    (P : Ledger → Type 0) (guard : Task → Bool) (change : Task → Ledger → Ledger) (o : Option Task)
    (l : Ledger)
    → P l
    → ((t : Task) → P (change t l))
    → P (on_task guard change o l).0
on_task-keeps P guard change none l p c = p
on_task-keeps P guard change (some t) l p c = elim (Bool-cases (guard t)) [
  | inl y ↦ rw y (c t)
  | inr n ↦ rw n p
]

-- A change of a track that leaves when the fix was merged and what became of it.
pub quiet :
    (fp : String) (f : Track → Track) (l : Ledger)
    → ((tr : Track) → awaits (f tr) ≡ awaits tr)
    → IsBalanced l
    → l.totals.resolved + l.totals.recurred + awaiting (on_track fp f l.tracks)
      ≤ l.totals.prs_merged
quiet fp f l same b =
    let r = awaiting-on_track fp f l.tracks (λ tr h. rw (same tr) at h) in omega (arith, b, r)

session_totals :
    (t : Task) (now : ℕ) (n : Totals)
    → ((record_session_time t now n).resolved ≡ n.resolved)
      × ((record_session_time t now n).recurred ≡ n.recurred)
      × ((record_session_time t now n).prs_merged ≡ n.prs_merged)
unfolding record_session_time
session_totals t now n = ground arith

pub start_change-IsBalanced :
    (st : Started) (now : ℕ) (t : Task) (l : Ledger)
    → IsBalanced l
    → IsBalanced (start_change st now t l)
start_change-IsBalanced st now t l b =
    quiet t.fingerprint (λ tr. record tr { attempts = tr.attempts + 1; last_task = t.id }) l
      (λ tr. refl) b

pub finish-IsBalanced :
    (s : Status) (now until : ℕ) (t : Task) (l : Ledger)
    → IsBalanced l
    → IsBalanced (finish s now (cool_down until) t l)
unfolding finish
finish-IsBalanced s now until t l b =
    quiet t.fingerprint (λ tr. cool_down until (record tr { last_status = some s })) l (λ tr. refl)
      b

pub merge_change-IsBalanced :
    (st : PrSnapshot) (now : ℕ) (t : Task) (l : Ledger)
    → IsBalanced l
    → IsBalanced (merge_change st now t l)
unfolding finish merge_totals
merge_change-IsBalanced st now t l b =
    let r =
      awaiting-on_track_any t.fingerprint
        (λ tr. record tr {
          last_status = some merged;
          merged_at = stamp (or_time st.merged_at now);
          recurrence = undecided;
          last_task = t.id;
        })
        l.tracks in
    omega (arith, b, r)

pub no_fix_change-IsBalanced :
    (o : Outcome) (m : Limits) (now : ℕ) (t : Task) (l : Ledger)
    → IsBalanced l
    → IsBalanced (no_fix_change o m now t l)
no_fix_change-IsBalanced o m now t l b =
    let e = session_totals t now l.totals in
    let n = record_session_time t now l.totals in
    finish-IsBalanced no_fix now (now + m.cooldown_hours * hour) (record t { outcome = some o })
      (record l { totals = record n { no_fix = n.no_fix + 1 } }) (rw (e.0, e.1, e.2) b)

pub open_change-IsBalanced :
    (o : Outcome) (pr : Pr) (r : Repo) (follow draft : Bool) (now : ℕ) (t : Task) (l : Ledger)
    → IsBalanced l
    → IsBalanced (open_change o pr r follow draft now t l)
open_change-IsBalanced o pr r follow draft now t l b =
    let e = session_totals t now l.totals in rw (e.0, e.1, e.2) b

pub compact-IsBalanced :
    (m : Limits) (now : ℕ) (l : Ledger) → IsBalanced l → IsBalanced (compact m now l)
unfolding compact trim_tracks
compact-IsBalanced m now l b =
    let ts = compact_tasks l.tasks in
    let cs = compact_candidates m now l.tracks l.candidates in
    let r = awaiting-filter (is_spared (victims ts cs l.tracks)) l.tracks in omega (arith, b, r)

pub added-IsBalanced :
    (t : Task) (m : Limits) (now : ℕ) (c : Option Candidate) (l : Ledger)
    → IsBalanced l
    → IsBalanced (added t m now c l).0
added-IsBalanced t m now none l b = b
added-IsBalanced t m now (some c) l b =
    compact-IsBalanced m now
      (record l {
        candidates = drop_candidate t.fingerprint l.candidates;
        tasks = new_task t c now l ∷ l.tasks;
      })
      b

pub add_task-IsBalanced :
    (t : Task) (m : Limits) (now : ℕ) (l : Ledger)
    → IsBalanced l
    → IsBalanced (add_task t m now l).0
unfolding add_task
add_task-IsBalanced t m now l b =
    let r = added-IsBalanced t m now (find_candidate t.fingerprint l.candidates) l b in
    elim (Bool-cases (
      not (absent (task t.id l.tasks))
      || not (has_capacity m now l)
      || not (eligible t.fingerprint m now l))) [ inl y ↦ rw y b | inr n ↦ rw n r ]
