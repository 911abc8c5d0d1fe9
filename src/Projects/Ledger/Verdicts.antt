-- ===== src/Projects/Ledger/Verdicts.antt =====
-- Whether a merged fix held, in projects/ledger.go: `recur`, `resolve`, `resolveDue` and `sight`.
use arbetern.Base.{
  ℕ, ◌+◌, ◌*◌, Bool, true, false, not, ◌&&◌, ◌||◌, ◌==◌, Option, none, some, String, List, [], ◌∷◌,
  ltb, if◌then◌else◌,
}
use arbetern.Base.Duration.{hour}
use arbetern.Projects.Review.{merged}
use arbetern.Projects.Ledger.{
  Recurrence, undecided, resolved, recurred, Group, Task, Track, Limits, Ledger, task, put_task,
  find_track, on_track,
}
use arbetern.Projects.Ledger.Lifecycle.{same_status}

abbrev pub is_undecided : Recurrence → Bool
is_undecided undecided = true
is_undecided _ = false

abbrev pub is_resolved : Recurrence → Bool
is_resolved resolved = true
is_resolved _ = false

-- A merged fix that waits for its verdict.
abbrev pub awaits : Track → Bool
awaits tr = not (tr.merged_at == 0) && is_undecided tr.recurrence

-- The verdict on the task that the track names last.
unfoldable pub judged : Recurrence → Option Task → List Task → List Task
judged r none ts = ts
judged r (some t) ts =
    if same_status t.status merged && is_undecided t.recurrence
    then put_task (record t { recurrence = r }) ts
    else ts

unfoldable pub recur_on : String → Option Track → Ledger → Ledger × Bool
recur_on fp none l = (l, false)
recur_on fp (some tr) l =
    if awaits tr
    then (
      record l {
        tracks =
            on_track fp (λ x. record x { recurrence = recurred; attempts = 0; merged_at = 0 })
              l.tracks;
        totals = record (l.totals) { recurred = l.totals.recurred + 1 };
        tasks = judged recurred (task tr.last_task l.tasks) l.tasks;
      },
      true,
    )
    else (l, false)

-- `Ledger.recur`.
unfoldable pub recur : String → Ledger → Ledger × Bool
recur fp l = recur_on fp (find_track fp l.tracks) l

-- `Ledger.resolve` on the track of a fingerprint.
unfoldable pub resolve : String → Track → Ledger → Ledger
resolve fp tr l = record l {
  tracks = on_track fp (λ x. record x { recurrence = resolved }) l.tracks;
  totals = record (l.totals) { resolved = l.totals.resolved + 1 };
  tasks = judged resolved (task tr.last_task l.tasks) l.tasks;
}

-- A fix that held through its window is new work once it is seen again.
abbrev pub renewed : Track → Track
renewed tr = record tr { attempts = 0; merged_at = 0; recurrence = undecided }

unfoldable pub renew_track : String → Ledger → Ledger
renew_track fp l = record l { tracks = on_track fp renewed l.tracks }

abbrev pub window_of : Limits → ℕ
window_of m = m.recurrence_window_hours * hour

-- One turn of the loop of `resolveDue`, on the track of a fingerprint.
unfoldable pub resolve_one : Limits → String → Option Track → Ledger → Ledger
resolve_one m fp none l = l
resolve_one m fp (some tr) l =
    let done = resolve fp tr l in
    if not (awaits tr) || not (ltb (tr.merged_at + window_of m) l.cursor)
    then l
    else if ltb (tr.merged_at + window_of m) tr.last_seen
    then renew_track fp done
    else done

-- `resolveDue` over the keys of the tracks.
unfoldable pub resolve_due : Limits → List (String × Track) → Ledger → Ledger
resolve_due m [] l = l
resolve_due m ((fp, tr) ∷ ts) l = resolve_due m ts (resolve_one m fp (find_track fp l.tracks) l)

abbrev pub latest : ℕ → ℕ → ℕ
latest a b = if a == 0 || ltb a b then b else a

-- The `switch` at the end of `sight`.
unfoldable pub sighted : Group → ℕ → Limits → Option Track → Ledger → Ledger
sighted g grace m none l = l
sighted g grace m (some tr) l =
    if awaits tr && ltb (tr.merged_at + grace) g.last_seen
    then (recur g.fingerprint l).0
    else if not (tr.merged_at == 0)
        && is_resolved tr.recurrence
        && ltb (tr.merged_at + window_of m) g.last_seen
    then renew_track g.fingerprint l
    else l

abbrev pub in_window : Group → ℕ → Limits → Option Track → Ledger → Ledger
in_window g grace m none l = l
in_window g grace m (some tr) l =
    let decided = resolve g.fingerprint tr l in
    if awaits tr && ltb (tr.merged_at + window_of m) g.first_seen
    then (if ltb (tr.merged_at + window_of m) l.cursor
        then sighted g grace m (find_track g.fingerprint decided.tracks) decided
        else l)
    else sighted g grace m (some tr) l

abbrev pub noted : Group → Ledger → Ledger
noted g l = record l {
  tracks =
      on_track g.fingerprint (λ tr. record tr { last_seen = latest tr.last_seen g.last_seen })
        l.tracks;
}

-- `Ledger.sight`.
unfoldable pub sight : Group → ℕ → Limits → Ledger → Ledger
sight g grace m l = in_window g grace m (find_track g.fingerprint (noted g l).tracks) (noted g l)
