-- ===== src/Projects/Rounds/Deciding.antt =====
-- What projects/review.go decides on what was read of a pull request: `needsRound`, `readyFor`,
-- `mergeReady`, and `quietSince` of projects/rounds.go.
use arbetern.Base.{
  ℕ, ◌+◌, ◌*◌, Bool, true, false, not, ◌&&◌, ◌||◌, ◌==◌, String, List, [], ◌∷◌, ltb, leb, str_eq,
  if◌then◌else◌, filter,
}
use arbetern.Base.Duration.{minute}
use arbetern.Projects.Review.{
  Phase, settled, Ci, passed, failing, absent, Feedback, Round, ReviewState,
}
use arbetern.Projects.Rounds.{is_exhausted, is_nil, unanswered}
use arbetern.Projects.Rounds.Watching.{latest_stamp}
use arbetern.Projects.AutoMerge.{is_empty}
use arbetern.Projects.AutoMerge.Turn.{PrWatch, Settings}

abbrev pub ci_wait_limit : ℕ
ci_wait_limit = 60 * minute

abbrev pub ci_no_checks_grace : ℕ
ci_no_checks_grace = 10 * minute

-- `prWatch`, with what the decisions read of it besides what a turn of the auto-merge does.
pub record Pull : Type 0 where
  pub watch : PrWatch
  pub items : List Feedback
  pub ci : Ci
  pub is_draft : Bool

-- The settings of `Review`.
pub record Limits : Type 0 where
  pub settings : Settings
  pub max_rounds : ℕ
  pub settle_minutes : ℕ

abbrev is_waiting : Ci → Bool
is_waiting Ci.pending = true
is_waiting _ = false

abbrev pub is_passed : Ci → Bool
is_passed passed = true
is_passed _ = false

abbrev is_unsettled : Ci → Bool
is_unsettled Ci.pending = true
is_unsettled failing = true
is_unsettled _ = false

abbrev is_absent : Ci → Bool
is_absent absent = true
is_absent _ = false

abbrev pub is_done : Phase → Bool
is_done settled = true
is_done _ = false

-- `ReviewState.quietSince`.
abbrev last_finished : ℕ → List Round → ℕ
last_finished at [] = at
last_finished at (d ∷ ds) = last_finished (if ltb at d.finished_at then d.finished_at else at) ds

unfoldable pub quiet_since : ReviewState → ℕ
quiet_since r =
    last_finished (latest_stamp (latest_stamp r.head_at r.last_feedback_at) r.ready_at) r.rounds

-- The watch without the comments that were answered since it was read.
unfoldable pub unhandled : ReviewState → Pull → Pull
unhandled r p =
    let left = filter (unanswered r.handled) p.items in
    record p { items = left; watch = record p.watch { has_items = not (is_nil left) } }

abbrev pub checks_settled : ReviewState → Pull → ℕ → Bool
checks_settled r p now = not (is_waiting p.ci) || ltb (r.head_at + ci_wait_limit) now

abbrev add_trigger : Bool → String → List String → List String
add_trigger true s xs = s ∷ xs
add_trigger false s xs = xs

abbrev pub needs_feedback : ReviewState → Pull → ℕ → Bool
needs_feedback r p now = not (is_nil p.items) && checks_settled r p now

abbrev pub needs_checks : ReviewState → Pull → ℕ → Bool
needs_checks r p now =
    p.watch.has_failed && checks_settled r p now && not (str_eq r.checks_handled p.watch.head_sha)

abbrev pub needs_conflict : ReviewState → Pull → Bool
needs_conflict r p = r.conflict && not (str_eq r.conflict_handled p.watch.head_sha)

-- `needsRound`.
unfoldable pub needs_round : ReviewState → Pull → ℕ → List String
needs_round r p now =
    if is_exhausted r.phase
    then []
    else add_trigger (needs_feedback r p now) "feedback" (
        add_trigger (needs_checks r p now) "checks"
          (add_trigger (needs_conflict r p) "conflict" []))

unfoldable pub take_out_of_draft : ReviewState → Pull → Bool
take_out_of_draft r p = p.is_draft && r.draft && (r.ready_at == 0)

-- `readyFor`.
unfoldable pub ready_for : ReviewState → Pull → Limits → ℕ → Bool
ready_for r p limits now =
    not (is_exhausted r.phase)
    && is_empty r.waiting
    && not r.conflict
    && is_nil p.items
    && not (is_unsettled p.ci)
    && not (is_absent p.ci && ltb now (r.head_at + ci_no_checks_grace))
    && not (str_eq r.done_head p.watch.head_sha && not (take_out_of_draft r p))
    && leb (quiet_since r + limits.settle_minutes * minute) now

-- `mergeReady`.
unfoldable pub merge_ready : ReviewState → Pull → Bool
merge_ready r p =
    is_done r.phase
    && str_eq r.done_head p.watch.head_sha
    && is_passed p.ci
    && not r.conflict
    && not p.is_draft
