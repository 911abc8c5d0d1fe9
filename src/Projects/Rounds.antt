-- ===== src/Projects/Rounds.antt =====
-- The follow-up rounds of a pull request in projects/rounds.go: `addRound`, `roundRunning`,
-- `failRound`, the guard of a report and `exhaust`. Each works on the review of an open pull request.
pub mod Order
pub mod Reports
pub mod Watching
pub mod Deciding
pub mod Upkeep
pub mod Machine
pub mod Phases
use arbetern.Base.{
  ℕ, suc, ◌+◌, ◌-◌, ◌*◌, Bool, true, false, not, ◌&&◌, ◌||◌, ◌==◌, Option, none, some, String, List,
  [], ◌∷◌, ◌++◌, length, any, filter, ltb, leb, str_eq, if◌then◌else◌,
}
use arbetern.Base.Duration.{minute}
use mathlib.Core.Option
use arbetern.Projects.Review.{
  stamp, pr_open, RoundStatus, starting, working, answered, broken, is_active_round, Phase,
  exhausted, Feedback, Outcome, Round, MergeState, ReviewState, has_active, settle,
  drop_round_bodies,
}
use arbetern.Projects.Ledger.{Task, Ledger, task, put_task, on_day, utc_day, opening_stale_after}
use arbetern.Projects.Ledger.Lifecycle.{same_status, absent, Started}

abbrev pub round_failed_cooldown : ℕ
round_failed_cooldown = 30 * minute

abbrev pub same_round : RoundStatus → RoundStatus → Bool
same_round starting starting = true
same_round working working = true
same_round answered answered = true
same_round broken broken = true
same_round _ _ = false

-- `ReviewState.round`: the first round with the number.
unfoldable pub round : ℕ → List Round → Option Round
round n [] = none
round n (d ∷ ds) = if d.n == n then some d else round n ds

-- What a change through the pointer of `ReviewState.round` leaves.
unfoldable pub put_round : Round → List Round → List Round
put_round e [] = []
put_round e (d ∷ ds) = if d.n == e.n then e ∷ ds else d ∷ put_round e ds

-- `ReviewState.used`.
abbrev pub used : List Round → ℕ
used [] = 0
used (d ∷ ds) = if str_eq d.session_id "" then used ds else 1 + used ds

abbrev pub is_feedback : String → Bool
is_feedback s = str_eq s "feedback"

-- A dispatch that failed before it had a session, which the next round replaces.
abbrev pub is_stillborn : Round → Bool
is_stillborn d = same_round d.status broken && str_eq d.session_id ""

-- The items that have no answer yet.
abbrev pub unanswered : List String → Feedback → Bool
unanswered handled f = not (any (λ h. str_eq h f.id) handled)

abbrev pub is_nil {ℓ} : {A : Type ℓ} → List A → Bool
is_nil [] = true
is_nil (x ∷ xs) = false

-- The round that is left to do: without the answered comments, and without the feedback trigger
-- once none is left.
unfoldable pub trimmed : List String → Round → Round
trimmed handled d =
    let items = filter (unanswered handled) d.items in
    if any is_feedback d.trigger
    then record d {
      items = items;
      trigger = if is_nil items then filter (λ s. not (is_feedback s)) d.trigger else d.trigger;
    }
    else d

abbrev pub disarmed : MergeState → MergeState
disarmed m = record m { snapshot = ""; armed_at = 0; update_tried_at = 0 }

abbrev pub is_exhausted : Phase → Bool
is_exhausted exhausted = true
is_exhausted _ = false

abbrev pub kept_rounds : List Round → List Round
kept_rounds [] = []
kept_rounds (d ∷ ds) = let rest = kept_rounds ds in if is_stillborn d then rest else d ∷ rest

abbrev pub with_round : Round → ℕ → ReviewState → ReviewState
with_round d now r = settle (record r {
  rounds =
      kept_rounds r.rounds
      ++ (record d {
        n = length (kept_rounds r.rounds) + 1;
        status = starting;
        created_at = stamp now;
      }
          ∷ []);
  auto_merge = Option.map disarmed r.auto_merge;
})

-- The review after `addRound`, if it takes the round.
unfoldable pub new_round : Round → ℕ → ℕ → ReviewState → Option ReviewState
new_round d max_rounds now r =
    let e = trimmed r.handled d in
    if has_active r
      || leb max_rounds (used r.rounds)
      || is_exhausted r.phase
      || ltb now r.next_round_after
      || (any is_feedback d.trigger && is_nil e.trigger)
    then none
    else some (with_round e now r)

-- A guarded change of one round.
abbrev pub on_round :
    (Round → Bool) → (Round → Round) → Option Round → ReviewState → Option ReviewState
on_round guard change none r = none
on_round guard change (some d) r =
    if guard d then some (record r { rounds = put_round (change d) r.rounds }) else none

abbrev pub start_guard : Round → Bool
start_guard d = same_round d.status starting

abbrev pub started_round : Started → ℕ → Round → Round
started_round st now d = record d {
  status = working;
  session_id = st.session_id;
  dispatched_at = stamp now;
  bound = true;
}

abbrev pub fail_guard : List RoundStatus → Round → Bool
fail_guard from d = any (same_round d.status) from

abbrev pub failed_round : String → ℕ → Round → Round
failed_round reason now d =
    drop_round_bodies
      (record d { status = broken; error = reason; reporting = 0; finished_at = stamp now })

-- `roundReportFresh`.
abbrev pub report_fresh : Round → ℕ → Bool
report_fresh d now = not (d.reporting == 0) && ltb (now - d.reporting) opening_stale_after

abbrev pub report_guard : ℕ → Round → Bool
report_guard now d = same_round d.status working && absent d.outcome && not (report_fresh d now)

abbrev pub clear_guard : ℕ → Round → Bool
clear_guard guard d = not (d.reporting == 0) && (d.reporting == guard)

-- The review after `roundRunning`, `failRound`, `beginRoundReport`, `clearRoundReport` and
-- `exhaust`, if the operation changes it.
unfoldable pub start_round : ℕ → Started → ℕ → ReviewState → Option ReviewState
start_round n st now r = on_round start_guard (started_round st now) (round n r.rounds) r

abbrev pub cooled : ℕ → ReviewState → ReviewState
cooled now r = settle (record r { next_round_after = stamp (now + round_failed_cooldown) })

unfoldable pub break_round : ℕ → List RoundStatus → String → ℕ → ReviewState → Option ReviewState
break_round n from reason now r =
    Option.map (cooled now)
      (on_round (fail_guard from) (failed_round reason now) (round n r.rounds) r)

unfoldable pub begin_report : ℕ → ℕ → ℕ → ReviewState → Option ReviewState
begin_report n guard now r =
    on_round (report_guard now) (λ d. record d { reporting = guard }) (round n r.rounds) r

unfoldable pub clear_report : ℕ → ℕ → ReviewState → Option ReviewState
clear_report n guard r =
    on_round (clear_guard guard) (λ d. record d { reporting = 0 }) (round n r.rounds) r

unfoldable pub exhaust : ReviewState → Option ReviewState
exhaust r =
    if is_exhausted r.phase || has_active r then none else some (record r { phase = exhausted })

-- The ledger with the changed review of a task, if there is one.
abbrev pub reviewed :
    (Task → Task) → (Ledger → Ledger) → Task → Option ReviewState → Ledger → Ledger × Bool
reviewed of_task rest t none l = (l, false)
reviewed of_task rest t (some r) l =
    (rest (record l { tasks = put_task (of_task (record t { review = some r })) l.tasks }), true)

-- What the ledger does with the review of an open pull request, `Ledger.review`, with a change of
-- its task and of its totals.
abbrev pub on_review :
    (ReviewState → Option ReviewState)
    → (Task → Task)
    → (Ledger → Ledger)
    → Option Task
    → Ledger
    → Ledger × Bool
on_review change of_task rest none l = (l, false)
on_review change of_task rest (some t) l =
    reviewed of_task rest t
      (if same_status t.status pr_open then Option.bind t.review change else none) l

unfoldable pub add_round : String → Round → ℕ → ℕ → Ledger → Ledger × Bool
add_round i d max_rounds now l =
    on_review (new_round d max_rounds now) (λ t. t) (λ k. k) (task i l.tasks) l

abbrev pub resumed_by : Started → ℕ → Task → Task
resumed_by st now t =
    let same = str_eq t.claude_session st.claude_session in
    record t {
      claude_session = st.claude_session;
      transcript = if same then t.transcript else 0;
      transcript_size = if same then t.transcript_size else 0;
      updated_at = stamp now;
    }

abbrev pub counted_session : ℕ → Ledger → Ledger
counted_session now k = record k {
  totals = record (k.totals) { sessions = k.totals.sessions + 1; rounds = k.totals.rounds + 1 };
  daily = on_day (utc_day now) (λ d. record d { sessions = d.sessions + 1 }) k.daily;
}

unfoldable pub round_running : String → ℕ → Started → ℕ → Ledger → Ledger × Bool
round_running i n st now l =
    on_review (start_round n st now) (resumed_by st now) (counted_session now) (task i l.tasks) l

abbrev pub touched : ℕ → Task → Task
touched now t = record t { updated_at = stamp now }

abbrev pub counted_failure : Ledger → Ledger
counted_failure k = record k {
  totals = record (k.totals) { failed_sessions = k.totals.failed_sessions + 1 };
}

unfoldable pub fail_round : String → ℕ → List RoundStatus → String → ℕ → Ledger → Ledger × Bool
fail_round i n from reason now l =
    on_review (break_round n from reason now) (touched now) counted_failure (task i l.tasks) l

unfoldable pub begin_round_report : String → ℕ → ℕ → ℕ → Ledger → Ledger × Bool
begin_round_report i n guard now l =
    on_review (begin_report n guard now) (λ t. t) (λ k. k) (task i l.tasks) l

unfoldable pub clear_round_report : String → ℕ → ℕ → Ledger → Ledger × Bool
clear_round_report i n guard l =
    on_review (clear_report n guard) (λ t. t) (λ k. k) (task i l.tasks) l

unfoldable pub exhaust_rounds : String → Ledger → Ledger × Bool
exhaust_rounds i l = on_review exhaust (λ t. t) (λ k. k) (task i l.tasks) l
