-- ===== src/Tests/RoundTests.antt =====
-- Runs of the follow-up rounds of a pull request (projects/rounds.go).
use arbetern.Base.{◌≤◌, ◌≡◌, refl, false, none, some, List, [], ◌∷◌}
use arbetern.Projects.Review.{
  working, Round, ReviewState, fixing, unread, settled, settle, drop_round_bodies,
}
use arbetern.Projects.Ledger.Lifecycle.{Started}
use arbetern.Projects.Rounds.{round, put_round, trimmed, with_round, new_round, start_round}
use arbetern.Projects.Rounds.Order.{IsOrdered, active_rounds}
use arbetern.Projects.Rounds.Reports.{RoundResult, finish_result, record_result, mark_handled}
use arbetern.Projects.Rounds.Watching.{done_at_head}
use arbetern.Projects.Rounds.Machine.{
  RoundEvent, do_round, do_start, do_finish, do_done, round_run, round_run-IsOrdered,
}
use arbetern.Projects.Rounds.Phases.{IsPhased, IsDone, round_run-IsDone}

abbrev pub asked : Round
asked = record {
  n = 0;
  trigger = "checks" ∷ [];
  status = working;
  session_id = "";
  turns = 0;
  head_before = "h";
  head_after = "";
  items = [];
  context = [];
  checks = "build" ∷ [];
  outcome = none;
  replies = 0;
  learnings = 0;
  reporting = 0;
  bound = false;
  exit_reason = "";
  error = "";
  created_at = 0;
  dispatched_at = 0;
  finished_at = 0;
}

abbrev pub review : ReviewState
review = record {
  phase = fixing;
  head = "h";
  head_at = 0;
  ci = unread;
  failed_checks = [];
  conflict = false;
  pending = 0;
  last_feedback_at = 0;
  waiting = "";
  checks_handled = "";
  conflict_handled = "";
  rerun_head = "";
  handled = [];
  rounds = [];
  next_round_after = 0;
  draft = false;
  ready_at = 0;
  done_head = "";
  done_at = 0;
  content = "";
  content_head = "";
  content_base = "";
  diff = "";
  lineage = [];
  retargeted_at = 0;
  done_content = "";
  auto_merge = none;
}

abbrev pub session : Started
session = record { session_id = "s"; claude_session = "c"; branch = "b" }

abbrev taken : ReviewState
taken = with_round (trimmed [] asked) 10 review

abbrev report : RoundResult
report = record {
  outcome = record {
    status = "fixed";
    summary = "";
    testing = "";
    title = "";
    branch = "b";
    question = "";
    headline = "";
    reported_at = 0;
  };
  head = "i";
  replies = 1;
  rerun = false;
  described = none;
  body_sha = "";
}

-- A round is added, started and reported, and the review is done at the head that it left.
abbrev events : List RoundEvent
events =
    do_round asked 3 10 ∷ do_start 1 session 11 ∷ do_finish 1 report 12 ∷ do_done "i" "" 13 ∷ []

round_run-IsOrdered_example :
    IsOrdered 1 (round_run (λ s. s) events review).rounds
    × (active_rounds (round_run (λ s. s) events review).rounds ≤ 1)
round_run-IsOrdered_example = round_run-IsOrdered (λ s. s) events review refl tt

round_run-IsDone_example :
    IsPhased (round_run (λ s. s) events (settle review))
    × ((round_run (λ s. s) events (settle review)).phase ≡ settled
        → IsDone (round_run (λ s. s) events (settle review)))
unfolding settle
round_run-IsDone_example = round_run-IsDone (λ s. s) events (settle review) refl

-- The run does end in a review that is done.
ends_done : (round_run (λ s. s) events (settle review)).phase ≡ settled
unfolding new_round start_round finish_result record_result mark_handled done_at_head round
    put_round settle drop_round_bodies trimmed
ends_done = refl

-- The round that was taken is started.
started_once : (r : ReviewState) × (start_round 1 session 11 taken ≡ some r)
unfolding start_round round put_round settle trimmed
started_once = (_, refl)
