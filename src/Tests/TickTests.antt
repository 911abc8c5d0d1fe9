-- ===== src/Tests/TickTests.antt =====
-- Runs of a tick on the pull requests that it follows (projects/review.go).
use arbetern.Base.{◌*◌, ◌≡◌, refl, true, false, some, [], ◌∷◌}
use arbetern.Base.Duration.{hour}
use arbetern.Projects.Review.{passed, failing}
use arbetern.Projects.Ledger.{task, put_task}
use arbetern.Projects.AutoMerge.{claim, merged_here, disarm}
use arbetern.Projects.AutoMerge.Approvals.{
  approvals, approving, latest_verdicts, put_verdict, approver_among,
}
use arbetern.Projects.AutoMerge.Turn.{answer, merge_ledger, merge_now, merge_call, comment_call}
use arbetern.Projects.AutoMerge.Turn.Delay.{auto_merge, claimed_merge}
use arbetern.Projects.AutoMerge.Turn.Follow.{follow_auto_merge}
use arbetern.Projects.Rounds.Deciding.{
  Pull, Limits, unhandled, needs_round, ready_for, merge_ready, quiet_since, take_out_of_draft,
}
use arbetern.Projects.Advance.{Posting, advance}
use arbetern.Projects.Advance.Reading.{ci_state}
use arbetern.Projects.Advance.Turns.{IsTurn, advance-IsTurn}
use arbetern.Tests.MergeTests.{watch, settings, github, open_ledger, world}

abbrev pull : Pull
pull = record { watch = watch; items = []; ci = passed; is_draft = false }

abbrev limits : Limits
limits = record { settings = settings; max_rounds = 3; settle_minutes = 5 }

abbrev posting : Posting
posting = record { marking = answer tt; commenting = answer tt }

advance-IsTurn_example :
    IsTurn github posting
      (λ s. s)
      limits
      pull
      open_ledger
      (2 * hour)
      world
      (advance github posting (λ s. s) limits pull open_ledger (2 * hour) world)
advance-IsTurn_example =
    advance-IsTurn github posting (λ s. s) limits pull open_ledger (2 * hour) world refl

-- The done review is merged.
merges :
    (advance github posting (λ s. s) limits pull open_ledger (2 * hour) world).2.calls
    ≡ comment_call ∷ merge_call ∷ []
unfolding advance unhandled needs_round ready_for merge_ready quiet_since take_out_of_draft
    follow_auto_merge auto_merge claimed_merge merge_now merge_ledger claim task put_task approvals
    approving latest_verdicts put_verdict approver_among merged_here
merges = refl

-- A failed check wants a round.
abbrev failed_pull : Pull
failed_pull = record pull { ci = failing; watch = record watch { has_failed = true } }

wants_round :
    (advance github posting (λ s. s) limits failed_pull open_ledger (2 * hour) world).1
    ≡ some ("checks" ∷ [])
unfolding advance unhandled needs_round follow_auto_merge merge_ledger task disarm put_task
wants_round = refl

passed_checks :
    ci_state (record { name = "build"; status = "completed"; conclusion = "success" } ∷ [])
    ≡ (passed, [])
unfolding ci_state
passed_checks = refl
