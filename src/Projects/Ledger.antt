-- ===== src/Projects/Ledger.antt =====
-- The ledger of a project, projects/ledger.go: its records and how they are looked up and counted.
-- A field that holds a stamp is a time in whole seconds, and 0 is the empty stamp; the maps of the
-- tracks and of the days are association lists.
pub mod Compaction
pub mod Lifecycle
pub mod PullRequest
pub mod Verdicts
pub mod Events
pub mod Distinct
pub mod Replacing
pub mod Operations
pub mod Soundness
pub mod Accounts
pub mod Balance
pub mod Fixes
pub mod Sizes
pub mod Admission
pub mod Attempts
pub mod Budget
pub mod Counts
pub mod Limit
pub mod Sessions
pub mod Upkeep
pub mod Quiet
pub mod Backlog
pub mod Following
pub mod Stable
pub mod Composed
use arbetern.Base.{
  ℕ, suc, ◌+◌, ◌-◌, ◌*◌, ◌/◌, ◌<◌, Bool, true, false, not, ◌&&◌, ◌||◌, ◌==◌, Option, none, some,
  String, List, [], ◌∷◌, str_eq, ltb, leb, if◌then◌else◌,
}
use arbetern.Base.Duration.{second, minute, hour}
use arbetern.Projects.Review.{
  stamp, Status, is_terminal, is_active, pr_open, dispatching, running, merged, closed, no_fix,
  failed, Outcome, ReviewState, has_active,
}

abbrev pub max_tasks : ℕ
max_tasks = 200

abbrev pub opening_stale_after : ℕ
opening_stale_after = 2 * minute

abbrev pub max_open_attempts : ℕ
max_open_attempts = 10

abbrev pub failed_cooldown : ℕ
failed_cooldown = hour

abbrev pub ring_size : ℕ
ring_size = 50

-- `Recurrence`, with `undecided` for the empty string.
pub data Recurrence : Type 0 where
  undecided resolved recurred : Recurrence

-- `Group`, without what only a metric series has.
pub record Group : Type 0 where
  pub fingerprint : String
  pub service : String
  pub kind : String
  pub pattern : String
  pub frame : String
  pub site : String
  pub count : ℕ
  pub first_seen : ℕ
  pub last_seen : ℕ
  pub samples : List String

pub record Candidate : Type 0 where
  pub group : Group
  pub rank : ℕ

pub data PrState : Type 0 where
  open_pr merged_pr closed_pr : PrState

pub record Pr : Type 0 where
  pub number : ℕ
  pub url : String
  pub title : String
  pub state : PrState
  pub created_at : ℕ
  pub merged_at : ℕ
  pub closed_at : ℕ
  pub additions : ℕ
  pub deletions : ℕ
  pub unreadable_since : ℕ
  pub body_sha : String

-- `opening` is the time that the guard string of `Opening` is the print of.
pub record Task : Type 0 where
  pub id : String
  pub fingerprint : String
  pub group : Group
  pub status : Status
  pub attempt : ℕ
  pub session_id : String
  pub branch : String
  pub repo : String
  pub base_branch : String
  pub ticket : String
  pub ticket_url : String
  pub ticket_done : ℕ
  pub pr : Option Pr
  pub outcome : Option Outcome
  pub exit_reason : String
  pub recurrence : Recurrence
  pub learnings : ℕ
  pub open_attempts : ℕ
  pub opening : ℕ
  pub bound : Bool
  pub review : Option ReviewState
  pub claude_session : String
  pub transcript : ℕ
  pub transcript_size : ℕ
  pub turns : ℕ
  pub error : String
  pub created_at : ℕ
  pub dispatched_at : ℕ
  pub updated_at : ℕ
  pub finished_at : ℕ

pub record Track : Type 0 where
  pub attempts : ℕ
  pub last_task : String
  pub last_status : Option Status
  pub cooldown_until : ℕ
  pub merged_at : ℕ
  pub recurrence : Recurrence
  pub last_seen : ℕ

-- `&Track{}`.
abbrev pub no_track : Track
no_track = record {
  attempts = 0;
  last_task = "";
  last_status = none;
  cooldown_until = 0;
  merged_at = 0;
  recurrence = undecided;
  last_seen = 0;
}

-- The rings hold durations, in place of their rounded hours and minutes.
pub record Totals : Type 0 where
  pub sessions : ℕ
  pub rounds : ℕ
  pub failed_sessions : ℕ
  pub no_fix : ℕ
  pub prs_opened : ℕ
  pub prs_merged : ℕ
  pub prs_closed : ℕ
  pub lines_changed : ℕ
  pub resolved : ℕ
  pub recurred : ℕ
  pub merge_times : List ℕ
  pub session_times : List ℕ

-- `Day`; the UTC date is the number of days since the zero time.
pub record Day : Type 0 where
  pub date : ℕ
  pub sessions : ℕ
  pub opened : ℕ
  pub merged : ℕ
  pub closed : ℕ

-- The `Limits` that the ledger reads.
pub record Limits : Type 0 where
  pub max_open_prs : ℕ
  pub max_active_sessions : ℕ
  pub max_sessions_per_day : ℕ
  pub max_attempts : ℕ
  pub cooldown_hours : ℕ
  pub recurrence_window_hours : ℕ

pub record Ledger : Type 0 where
  pub cursor : ℕ
  pub signal : String
  pub tasks : List Task
  pub candidates : List Candidate
  pub tracks : List (String × Track)
  pub totals : Totals
  pub daily : List Day

-- `Ledger.task`: the first task with the id.
unfoldable pub task : String → List Task → Option Task
task i [] = none
task i (t ∷ ts) = if str_eq t.id i then some t else task i ts

-- What a change through the pointer of `Ledger.task` leaves: the first task with the id is replaced.
unfoldable pub put_task : Task → List Task → List Task
put_task t' [] = []
put_task t' (t ∷ ts) = if str_eq t.id t'.id then t' ∷ ts else t ∷ put_task t' ts

-- `Ledger.openTask(fp) != nil`.
unfoldable pub has_open_task : String → List Task → Bool
has_open_task fp [] = false
has_open_task fp (t ∷ ts) =
    (str_eq t.fingerprint fp && not (is_terminal t.status)) || has_open_task fp ts

abbrev pub find_track : String → List (String × Track) → Option Track
find_track fp [] = none
find_track fp ((k, tr) ∷ ts) = if str_eq k fp then some tr else find_track fp ts

-- A change through the pointer of `Ledger.track`, which adds a track that is missing.
unfoldable pub on_track : String → (Track → Track) → List (String × Track) → List (String × Track)
on_track fp f [] = (fp, f no_track) ∷ []
on_track fp f ((k, tr) ∷ ts) = if str_eq k fp then (k, f tr) ∷ ts else (k, tr) ∷ on_track fp f ts

abbrev pub utc_day : ℕ → ℕ
utc_day now = now / (24 * hour)

-- A change through the pointer of `Ledger.day`, which adds a day that is missing.
unfoldable pub on_day : ℕ → (Day → Day) → List Day → List Day
on_day d f [] = f (record { date = d; sessions = 0; opened = 0; merged = 0; closed = 0 }) ∷ []
on_day d f (x ∷ xs) = if x.date == d then f x ∷ xs else x ∷ on_day d f xs

-- `Ledger.sessionsToday`.
abbrev pub sessions_on : ℕ → List Day → ℕ
sessions_on d [] = 0
sessions_on d (x ∷ xs) = if x.date == d then x.sessions else sessions_on d xs

-- The three numbers of `Ledger.counts`.
abbrev pub is_pr_open : Status → Bool
is_pr_open pr_open = true
is_pr_open _ = false

abbrev pub runs_round : Option ReviewState → Bool
runs_round none = false
runs_round (some r) = has_active r

unfoldable pub open_count : List Task → ℕ
open_count [] = 0
open_count (t ∷ ts) = if is_pr_open t.status then 1 + open_count ts else open_count ts

unfoldable pub active_count : List Task → ℕ
active_count [] = 0
active_count (t ∷ ts) = if is_active t.status then 1 + active_count ts else active_count ts

unfoldable pub round_count : List Task → ℕ
round_count [] = 0
round_count (t ∷ ts) =
    if is_pr_open t.status && runs_round t.review then 1 + round_count ts else round_count ts

-- `roundCapacity`, `workCapacity`, `hasCapacity` and `fillCapacity`.
unfoldable pub round_capacity : Limits → Ledger → Bool
round_capacity m l = ltb (active_count l.tasks + round_count l.tasks) m.max_active_sessions

unfoldable pub work_capacity : Limits → ℕ → Ledger → Bool
work_capacity m now l =
    round_capacity m l && ltb (sessions_on (utc_day now) l.daily) m.max_sessions_per_day

unfoldable pub has_capacity : Limits → ℕ → Ledger → Bool
has_capacity m now l =
    ltb (open_count l.tasks + active_count l.tasks) m.max_open_prs && work_capacity m now l

unfoldable pub fill_capacity : Limits → ℕ → Ledger → Bool
fill_capacity m now l =
    ltb (open_count l.tasks + active_count l.tasks + 1) m.max_open_prs && work_capacity m now l

abbrev pub may_try : Limits → ℕ → Option Track → Bool
may_try m now none = true
may_try m now (some tr) =
    if leb m.max_attempts tr.attempts || not (tr.merged_at == 0)
    then false
    else not (ltb now tr.cooldown_until)

-- `Ledger.eligible`.
unfoldable pub eligible : String → Limits → ℕ → Ledger → Bool
eligible fp m now l =
    if has_open_task fp l.tasks then false else may_try m now (find_track fp l.tracks)

-- `openingFresh`.
unfoldable pub opening_fresh : Task → ℕ → Bool
opening_fresh t now = not (t.opening == 0) && ltb (now - t.opening) opening_stale_after
