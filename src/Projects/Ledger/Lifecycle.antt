-- ===== src/Projects/Ledger/Lifecycle.antt =====
-- The life of a task in the ledger of projects/ledger.go, from `addTask` to `mergePR` and `closePR`.
-- An operation returns the ledger and whether it changed it.
use arbetern.Base.{
  ℕ, ◌+◌, ◌-◌, ◌*◌, Bool, true, false, not, ◌&&◌, ◌||◌, ◌==◌, Option, none, some, String, List, [],
  ◌∷◌, ◌++◌, str_eq, ltb, leb, if◌then◌else◌, length, any, map,
}
use arbetern.Base.Duration.{hour}
use mathlib.Core.Option
use arbetern.Projects.Review.{
  stamp, Status, is_active_round, broken, pr_open, dispatching, running, merged, closed, no_fix,
  failed, Outcome, Round, MergeState, ReviewState, drop_round_bodies,
}
use arbetern.Projects.Ledger.{
  failed_cooldown, max_open_attempts, ring_size, Candidate, Task, Track, Totals, Limits, Ledger,
  task, put_task, find_track, on_track, on_day, utc_day, has_capacity, eligible, opening_fresh,
}
use arbetern.Projects.Ledger.Compaction.{compact}

abbrev pub same_status : Status → Status → Bool
same_status dispatching dispatching = true
same_status running running = true
same_status pr_open pr_open = true
same_status merged merged = true
same_status closed closed = true
same_status no_fix no_fix = true
same_status failed failed = true
same_status _ _ = false

abbrev pub absent {ℓ} : {A : Type ℓ} → Option A → Bool
absent none = true
absent (some a) = false

-- `Ledger.task` followed by a guard and a change.
abbrev pub on_task : (Task → Bool) → (Task → Ledger → Ledger) → Option Task → Ledger → Ledger × Bool
on_task guard change none l = (l, false)
on_task guard change (some t) l = if guard t then (change t l, true) else (l, false)

-- The error of a round that ends with its pull request.
abbrev ended_text : Status → String
ended_text merged = "the pull request is merged"
ended_text closed = "the pull request is closed"
ended_text no_fix = "the pull request is no_fix"
ended_text failed = "the pull request is failed"
ended_text _ = ""

-- What `finish` does to a follow-up round and to the review.
unfoldable pub end_round : Status → ℕ → Round → Round
end_round s now d = drop_round_bodies (
    if is_active_round d.status
    then record d { status = broken; error = ended_text s; finished_at = stamp now }
    else d)

unfoldable pub end_review : Status → ℕ → ReviewState → ReviewState
end_review s now r = record r {
  rounds = map (end_round s now) r.rounds;
  auto_merge = Option.map (λ (m : MergeState). record m { note = ""; note_head = "" }) r.auto_merge;
}

unfoldable pub finished : Status → ℕ → Task → Task
finished s now t = record t {
  status = s;
  finished_at = stamp now;
  updated_at = stamp now;
  opening = 0;
  group = record (t.group) { samples = [] };
  review = Option.map (end_review s now) t.review;
}

-- `Ledger.finish`, with a change of the track that the caller makes after it.
unfoldable pub finish : Status → ℕ → (Track → Track) → Task → Ledger → Ledger
finish s now f t l = record l {
  tasks = put_task (finished s now t) l.tasks;
  tracks = on_track t.fingerprint (λ tr. f (record tr { last_status = some s })) l.tracks;
}

-- `pushRing`.
abbrev keep_last : ℕ → List ℕ → List ℕ
keep_last k [] = []
keep_last k (x ∷ xs) = let rest = keep_last k xs in if ltb k (length (x ∷ xs)) then rest else x ∷ xs

unfoldable pub push_ring : List ℕ → ℕ → List ℕ
push_ring ring v = keep_last ring_size (ring ++ (v ∷ []))

-- `Ledger.recordSessionTime`.
unfoldable pub record_session_time : Task → ℕ → Totals → Totals
record_session_time t now n =
    if not (t.dispatched_at == 0) && leb t.dispatched_at now
    then record n { session_times = push_ring n.session_times (now - t.dispatched_at) }
    else n

abbrev pub find_candidate : String → List Candidate → Option Candidate
find_candidate fp [] = none
find_candidate fp (c ∷ cs) = if str_eq c.group.fingerprint fp then some c else find_candidate fp cs

abbrev pub drop_candidate : String → List Candidate → List Candidate
drop_candidate fp [] = []
drop_candidate fp (c ∷ cs) = if str_eq c.group.fingerprint fp then cs else c ∷ drop_candidate fp cs

abbrev pub attempts_of : Option Track → ℕ
attempts_of none = 0
attempts_of (some tr) = tr.attempts

unfoldable pub new_task : Task → Candidate → ℕ → Ledger → Task
new_task t c now l = record t {
  group = if str_eq t.group.fingerprint t.fingerprint then t.group else c.group;
  attempt = attempts_of (find_track t.fingerprint l.tracks) + 1;
  status = dispatching;
  created_at = stamp now;
  updated_at = stamp now;
}

abbrev pub added : Task → Limits → ℕ → Option Candidate → Ledger → Ledger × Bool
added t m now none l = (l, false)
added t m now (some c) l = (
  compact m now (record l {
    candidates = drop_candidate t.fingerprint l.candidates;
    tasks = new_task t c now l ∷ l.tasks;
  }),
  true,
)

-- `Ledger.addTask`.
unfoldable pub add_task : Task → Limits → ℕ → Ledger → Ledger × Bool
add_task t m now l =
    let made = added t m now (find_candidate t.fingerprint l.candidates) l in
    if not (absent (task t.id l.tasks))
      || not (has_capacity m now l)
      || not (eligible t.fingerprint m now l)
    then (l, false)
    else made

-- `started`, what a dispatch returns.
pub record Started : Type 0 where
  pub session_id : String
  pub claude_session : String
  pub branch : String

unfoldable pub with_session : Started → ℕ → Task → Task
with_session st now t = record t {
  status = running;
  session_id = st.session_id;
  claude_session = st.claude_session;
  branch = if str_eq t.branch "" then st.branch else t.branch;
  dispatched_at = stamp now;
  updated_at = stamp now;
  bound = true;
}

abbrev pub start_guard : Task → Bool
start_guard t = same_status t.status dispatching

abbrev pub start_change : Started → ℕ → Task → Ledger → Ledger
start_change st now t k = record k {
  tasks = put_task (with_session st now t) k.tasks;
  totals = record (k.totals) { sessions = k.totals.sessions + 1 };
  daily = on_day (utc_day now) (λ d. record d { sessions = d.sessions + 1 }) k.daily;
  tracks =
      on_track t.fingerprint (λ tr. record tr { attempts = tr.attempts + 1; last_task = t.id })
        k.tracks;
}

-- `Ledger.markRunning`.
unfoldable pub mark_running : String → Started → ℕ → Ledger → Ledger × Bool
mark_running i st now l = on_task start_guard (start_change st now) (task i l.tasks) l

abbrev pub cool_down : ℕ → Track → Track
cool_down until tr = record tr { cooldown_until = stamp until }

abbrev pub fail_guard : List Status → Task → Bool
fail_guard from t = any (same_status t.status) from

abbrev pub fail_change : String → ℕ → Task → Ledger → Ledger
fail_change reason now t k =
    finish failed now (cool_down (now + failed_cooldown)) (record t { error = reason })
      (record k { totals = record (k.totals) { failed_sessions = k.totals.failed_sessions + 1 } })

-- `Ledger.failTask`.
unfoldable pub fail_task : String → List Status → String → ℕ → Ledger → Ledger × Bool
fail_task i from reason now l =
    on_task (fail_guard from) (fail_change reason now) (task i l.tasks) l

abbrev pub no_fix_guard : ℕ → Task → Bool
no_fix_guard now t = same_status t.status running && absent t.outcome && not (opening_fresh t now)

abbrev pub no_fix_change : Outcome → Limits → ℕ → Task → Ledger → Ledger
no_fix_change o m now t k =
    let n = record_session_time t now k.totals in
    finish no_fix now (cool_down (now + m.cooldown_hours * hour)) (record t { outcome = some o })
      (record k { totals = record n { no_fix = n.no_fix + 1 } })

-- `Ledger.reportNoFix`.
unfoldable pub report_no_fix : String → Outcome → Limits → ℕ → Ledger → Ledger × Bool
report_no_fix i o m now l = on_task (no_fix_guard now) (no_fix_change o m now) (task i l.tasks) l

abbrev pub begin_guard : ℕ → Task → Bool
begin_guard now t =
    same_status t.status running
    && absent t.pr
    && absent t.outcome
    && not (opening_fresh t now)
    && ltb t.open_attempts max_open_attempts

abbrev pub begin_change : ℕ → Task → Ledger → Ledger
begin_change guard t k = record k {
  tasks = put_task (record t { opening = guard; open_attempts = t.open_attempts + 1 }) k.tasks;
}

-- `Ledger.beginOpening` and `Ledger.clearOpening`.
unfoldable pub begin_opening : String → ℕ → ℕ → Ledger → Ledger × Bool
begin_opening i guard now l = on_task (begin_guard now) (begin_change guard) (task i l.tasks) l

abbrev pub clear_guard : ℕ → Task → Bool
clear_guard guard t = not (t.opening == 0) && (t.opening == guard)

abbrev pub clear_change : Task → Ledger → Ledger
clear_change t k = record k { tasks = put_task (record t { opening = 0 }) k.tasks }

unfoldable pub clear_opening : String → ℕ → Ledger → Ledger × Bool
clear_opening i guard l = on_task (clear_guard guard) clear_change (task i l.tasks) l
