-- ===== src/Projects/Rounds/Upkeep.antt =====
-- The upkeep of the rounds of a ledger: `reconcileRounds`, `unbindRounds` and `boundRoundSessions`
-- of projects/rounds.go. The map of the sessions is an association list.
use arbetern.Base.{
  ℕ, ◌-◌, ◌*◌, Bool, true, false, not, ◌&&◌, ◌||◌, ◌==◌, Option, none, some, String, List, [], ◌∷◌,
  ◌++◌, ltb, str_eq, if◌then◌else◌,
}
use arbetern.Base.Duration.{minute}
use arbetern.Projects.Review.{pr_open, starting, working, RoundStatus, Round, ReviewState}
use arbetern.Projects.Ledger.{Task, Ledger, task, put_task}
use arbetern.Projects.Ledger.Lifecycle.{same_status}
use arbetern.Projects.Rounds.{same_round, round, put_round, report_fresh, fail_round}
use arbetern.Projects.Rounds.Reports.{exit_text, round_of, is_open_round}

abbrev pub dispatch_lost_after : ℕ
dispatch_lost_after = 15 * minute

-- What the loop of `reconcileRounds` does with a round.
pub data Fate : Type 0 where
  lost ended expired kept : Fate

abbrev pub or_time : ℕ → ℕ → ℕ
or_time a b = if a == 0 then b else a

unfoldable pub fate : ℕ → ℕ → Round → Fate
fate timeout now d =
    if same_round d.status starting
      && str_eq d.session_id ""
      && ltb dispatch_lost_after (now - d.created_at)
    then lost
    else if is_open_round d && not (str_eq d.exit_reason "") && not (report_fresh d now)
    then ended
    else if is_open_round d
        && not (report_fresh d now)
        && ltb timeout (now - or_time d.dispatched_at d.created_at)
    then expired
    else kept

abbrev same_fate : Fate → Fate → Bool
same_fate lost lost = true
same_fate ended ended = true
same_fate expired expired = true
same_fate kept kept = true
same_fate _ _ = false

-- The rounds of a task, and of all tasks, with one fate.
abbrev rounds_with : (Round → Bool) → String → List Round → List (String × ℕ)
rounds_with p i [] = []
rounds_with p i (d ∷ ds) = let rest = rounds_with p i ds in if p d then (i, d.n) ∷ rest else rest

abbrev open_rounds : (Round → Bool) → Task → Option ReviewState → List (String × ℕ)
open_rounds p t none = []
open_rounds p t (some r) = if same_status t.status pr_open then rounds_with p t.id r.rounds else []

unfoldable pub refs : (Round → Bool) → List Task → List (String × ℕ)
refs p [] = []
refs p (t ∷ ts) = open_rounds p t t.review ++ refs p ts

abbrev exit_of : Option Round → String
exit_of none = ""
exit_of (some d) = d.exit_reason

-- The loops that fail the rounds they were given, out of one status and with a reason of each.
unfoldable pub fail_rounds :
    RoundStatus → (Option Round → String) → ℕ → List (String × ℕ) → Ledger → Ledger
fail_rounds from reason now [] l = l
fail_rounds from reason now ((i, n) ∷ rs) l =
    fail_rounds from reason now rs
      (fail_round i n (from ∷ []) (reason (round_of n (task i l.tasks))) now l).0

abbrev pub is_nothing : List (String × ℕ) → Bool
is_nothing [] = true
is_nothing (r ∷ rs) = false

-- `Ledger.reconcileRounds`.
unfoldable pub reconcile_rounds : ℕ → ℕ → Ledger → Ledger × Bool
reconcile_rounds timeout now l =
    let gone = refs (λ d. same_fate (fate timeout now d) lost) l.tasks in
    let over = refs (λ d. same_fate (fate timeout now d) ended) l.tasks in
    let late = refs (λ d. same_fate (fate timeout now d) expired) l.tasks in
    let first = fail_rounds starting (λ d. "dispatch outcome unknown") now gone l in
    let second = fail_rounds working (λ d. exit_text (exit_of d)) now over first in
    (
      fail_rounds working (λ d. "session timed out") now late second,
      not (is_nothing gone && is_nothing over && is_nothing late),
    )

-- `unbindRounds`: the rounds of a task whose sessions are gone are let go.
abbrev unbind_found : Option Round → ReviewState → ReviewState × Bool
unbind_found none r = (r, false)
unbind_found (some d) r =
    if d.bound
    then (record r { rounds = put_round (record d { bound = false }) r.rounds }, true)
    else (r, false)

unfoldable pub unbind_all : List ℕ → ReviewState → ReviewState × Bool
unbind_all [] r = (r, false)
unbind_all (n ∷ ns) r =
    let (k, here) = unbind_found (round n r.rounds) r in
    let (last, more) = unbind_all ns k in (last, here || more)

abbrev unbind_review : List ℕ → Task → Option ReviewState → Ledger → Ledger × Bool
unbind_review ns t none l = (l, false)
unbind_review ns t (some r) l =
    let (k, changed) = unbind_all ns r in
    (record l { tasks = put_task (record t { review = some k }) l.tasks }, changed)

abbrev unbind_task : List ℕ → Option Task → Ledger → Ledger × Bool
unbind_task ns none l = (l, false)
unbind_task ns (some t) l = unbind_review ns t t.review l

unfoldable pub unbind_rounds : List (String × List ℕ) → Ledger → Ledger × Bool
unbind_rounds [] l = (l, false)
unbind_rounds ((i, ns) ∷ rest) l =
    let (k, here) = unbind_task ns (task i l.tasks) l in
    let (last, more) = unbind_rounds rest k in (last, here || more)

-- `boundRoundSessions`.
abbrev bound_numbers : List Round → List ℕ
bound_numbers [] = []
bound_numbers (d ∷ ds) = let rest = bound_numbers ds in if d.bound then d.n ∷ rest else rest

abbrev bound_in : Option ReviewState → List ℕ
bound_in none = []
bound_in (some r) = bound_numbers r.rounds

abbrev with_numbers : String → List ℕ → List (String × List ℕ) → List (String × List ℕ)
with_numbers i [] rest = rest
with_numbers i (n ∷ ns) rest = (i, n ∷ ns) ∷ rest

unfoldable pub bound_round_sessions : List Task → List (String × List ℕ)
bound_round_sessions [] = []
bound_round_sessions (t ∷ ts) = with_numbers t.id (bound_in t.review) (bound_round_sessions ts)
