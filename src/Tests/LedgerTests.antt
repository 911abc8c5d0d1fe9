-- ===== src/Tests/LedgerTests.antt =====
-- Runs of a project's ledger (projects/ledger.go).
use arbetern.Base.{ℕ, ◌*◌, ◌≤◌, ◌≡◌, refl, ◌⊎◌, true, false, none, List, [], ◌∷◌, length, arith}
use arbetern.Base.Duration.{second, hour}
use arbetern.Projects.Review.{stamp, running, settle, drop_round_bodies, Outcome}
use arbetern.Projects.Ledger.{
  task, put_task, has_open_task, on_track, on_day, open_count, active_count, round_count,
  round_capacity, work_capacity, has_capacity, eligible, undecided, Group, open_pr, Pr, Task,
  Totals, Limits, Ledger, max_tasks,
}
use arbetern.Projects.Ledger.Compaction.{
  max_candidates, exhausted, without_samples, trim, compact_tasks, compact_candidates, keeps,
  trim_tracks, compact,
}
use arbetern.Projects.Ledger.Lifecycle.{
  end_round, end_review, finished, finish, push_ring, record_session_time, new_task, add_task,
  with_session, mark_running,
}
use arbetern.Projects.Ledger.PullRequest.{with_pr, open_task_pr, merge_totals, merge_pr}
use arbetern.Projects.Ledger.Verdicts.{judged, resolve, renew_track, resolve_one, resolve_due}
use arbetern.Projects.Ledger.Events.{
  Event, do_add, do_start, do_open, do_merge, do_resolve, step, run,
}
use arbetern.Projects.Ledger.Replacing.{IsSound}
use arbetern.Projects.Ledger.Soundness.{run-IsSound}
use arbetern.Projects.Ledger.Balance.{IsBalanced}
use arbetern.Projects.Ledger.Fixes.{run-IsBalanced}
use arbetern.Projects.Ledger.Budget.{IsWithin}
use arbetern.Projects.Ledger.Limit.{run-IsWithin}
use arbetern.Projects.Ledger.Sessions.{session_ended, unbind}
use arbetern.Projects.Ledger.Upkeep.{reconcile, reconcile_jobs}
use arbetern.Projects.Ledger.Composed.{IsMaintained, upkeep-IsHealthy}
use arbetern.Projects.Rounds.Reports.{round_ended}
use arbetern.Projects.Ledger.Sizes.{open_tasks, compact_bounds}

abbrev group : Group
group = record {
  fingerprint = "f";
  service = "";
  kind = "";
  pattern = "";
  frame = "";
  site = "";
  count = 3;
  first_seen = second;
  last_seen = second;
  samples = [];
}

abbrev totals : Totals
totals = record {
  sessions = 0;
  rounds = 0;
  failed_sessions = 0;
  no_fix = 0;
  prs_opened = 0;
  prs_merged = 0;
  prs_closed = 0;
  lines_changed = 0;
  resolved = 0;
  recurred = 0;
  merge_times = [];
  session_times = [];
}

abbrev pub ledger : Ledger
ledger = record {
  cursor = second;
  signal = "s";
  tasks = [];
  candidates = record { group = group; rank = 0 } ∷ [];
  tracks = [];
  totals = totals;
  daily = [];
}

abbrev pub limits : Limits
limits = record {
  max_open_prs = 3;
  max_active_sessions = 1;
  max_sessions_per_day = 6;
  max_attempts = 2;
  cooldown_hours = 72;
  recurrence_window_hours = 168;
}

abbrev pub work : Task
work = record {
  id = "t";
  fingerprint = "f";
  group = group;
  status = running;
  attempt = 0;
  session_id = "";
  branch = "";
  repo = "";
  base_branch = "";
  ticket = "";
  ticket_url = "";
  ticket_done = 0;
  pr = none;
  outcome = none;
  exit_reason = "";
  recurrence = undecided;
  learnings = 0;
  open_attempts = 0;
  opening = 0;
  bound = false;
  review = none;
  claude_session = "";
  transcript = 0;
  transcript_size = 0;
  turns = 0;
  error = "";
  created_at = 0;
  dispatched_at = 0;
  updated_at = 0;
  finished_at = 0;
}

abbrev pub fixed : Outcome
fixed = record {
  status = "fixed";
  summary = "s";
  testing = "";
  title = "";
  branch = "b";
  question = "";
  headline = "";
  reported_at = hour;
}

abbrev pub pull : Pr
pull = record {
  number = 1;
  url = "";
  title = "";
  state = open_pr;
  created_at = hour;
  merged_at = 0;
  closed_at = 0;
  additions = 0;
  deletions = 0;
  unreadable_since = 0;
  body_sha = "";
}

abbrev story : List (ℕ × Event)
story =
    (hour, do_add work)
    ∷ ((hour, do_start "t" (record { session_id = "s"; claude_session = "c"; branch = "b" }))
        ∷ ((2 * hour, do_open "t" fixed pull (record { name = ""; base_branch = "" }) true false)
            ∷ ((
              3 * hour,
              do_merge "t" (record {
                created_at = 0;
                merged_at = 0;
                closed_at = 0;
                additions = 2;
                deletions = 1;
              }),
            )
                ∷ ((4 * hour, do_resolve) ∷ []))))

run-IsSound_example : IsSound 3 (run limits story ledger).tasks
run-IsSound_example =
    run-IsSound 3 limits story ledger (omega arith)
      (record { distinct_ids = tt; one_open = tt; few_open = omega arith })

run-IsWithin_example : IsWithin limits (run limits story ledger)
run-IsWithin_example = run-IsWithin limits story ledger (λ fp. omega arith)

run-IsBalanced_example : IsBalanced (run limits story ledger)
run-IsBalanced_example = run-IsBalanced limits story ledger (omega arith)

-- A session that has run for ten days is failed.
abbrev working : Ledger
working = record ledger { tasks = work ∷ [] }

upkeep-IsHealthy_example :
    IsMaintained 3 limits working (reconcile 240 (240 * hour) working).0
    × IsMaintained 3 limits working (reconcile_jobs (λ s. false) (λ s. true) (240 * hour) working).0
    × IsMaintained 3 limits working (session_ended "t" "done" "b" 5 (240 * hour) working).0
    × IsMaintained 3 limits working (round_ended "t" 1 "done" 5 (240 * hour) working).0
    × IsMaintained 3 limits working (unbind ("t" ∷ []) (240 * hour) working).0
upkeep-IsHealthy_example =
    upkeep-IsHealthy 3 limits 240 (240 * hour) (λ s. false) (λ s. true) "t" "done" "b" 1 5
      ("t" ∷ []) working (omega arith)
      (record {
        sound = record { distinct_ids = (refl, tt); one_open = (refl, tt); few_open = omega arith };
        balanced = omega arith;
        within = λ fp. ground arith;
      })

compact_bounds_example :
    (open_tasks (compact limits hour ledger).tasks ≡ open_tasks ledger.tasks)
    × ((length (compact limits hour ledger).tasks ≤ max_tasks)
        ⊎ (length (compact limits hour ledger).tasks ≡ length (open_tasks ledger.tasks)))
    × (length (compact limits hour ledger).candidates ≤ max_candidates)
compact_bounds_example = compact_bounds limits hour ledger

-- The whole story runs: the task is added, dispatched, opened and merged.
program : Unit {0}
unfolding stamp settle drop_round_bodies task put_task has_open_task on_track on_day open_count
    active_count round_count round_capacity work_capacity has_capacity eligible exhausted
    without_samples trim compact_tasks compact_candidates keeps trim_tracks compact end_round
    end_review finished finish push_ring record_session_time new_task add_task with_session
    mark_running with_pr open_task_pr merge_totals merge_pr judged resolve resolve_one resolve_due
    renew_track step run
program = tt

story_merges : (run limits story ledger).totals.prs_merged ≡ 1
unfolding program
story_merges = refl
