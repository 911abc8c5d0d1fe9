-- ===== src/Tests/MergeTests.antt =====
-- Runs of the auto-merge of a pull request (projects/automerge.go).
use arbetern.Base.{
  ◌*◌, ◌≡◌, refl, true, false, Option, none, some, String, [], ◌∷◌, arith, Bool, str_eq,
  if◌then◌else◌,
}
use arbetern.Base.Duration.{hour}
use arbetern.Projects.Review.{pr_open, settled, MergeState, ReviewState}
use arbetern.Projects.Ledger.{task, put_task, Ledger}
use arbetern.Projects.AutoMerge.{
  no_merge, or_new, arm, claim, is_done_at, may_claim, claim_update, merged_here,
}
use arbetern.Projects.AutoMerge.Coherence.{
  do_arm, do_claim, do_on, do_off, do_head, merge_step, merge_run, merge_run-coherent, is_coherent,
}
use arbetern.Projects.AutoMerge.Claims.{one_claim, hold_stays, is_held_by}
use arbetern.Projects.AutoMerge.Changes.{
  BaseMerge, Fingerprint, read_changes, base_merges, base_merges_since, same_changes, same_diffs,
  ChangeRead, same_content,
}
use arbetern.Projects.AutoMerge.Changes.Kept.{IsRead, read_changes-IsRead}
use arbetern.Projects.AutoMerge.Approvals.{
  Verdict, Head, approvals, approving, latest_verdicts, put_verdict, approver_among,
}
use arbetern.Projects.AutoMerge.Approvals.Standing.{IsApproved, approver-IsApproved}
use arbetern.Projects.AutoMerge.Turn.{
  answer, enabled, GitHub, World, PrWatch, Settings, merge_ledger, merge_now,
}
use arbetern.Projects.AutoMerge.Turn.Delay.{auto_merge, claimed_merge}
use arbetern.Projects.AutoMerge.Turn.Asking.{IsGuarded, auto_merge-IsGuarded}
use arbetern.Tests.LedgerTests.{ledger, work}
use arbetern.Tests.RoundTests.{review}

-- A review that is done at its head, with a delay running.
abbrev pub armed : MergeState
armed = record no_merge { snapshot = "a"; armed_at = hour }

abbrev pub done : ReviewState
done = record review {
  phase = settled;
  head = "h";
  done_head = "h";
  auto_merge = some armed;
  content_head = "g";
  content_base = "main";
  content = "g";
  diff = "d";
  lineage = "g" ∷ [];
}

merge_run-coherent_example :
    is_coherent (
      or_new
        (merge_run
          (do_arm "a" hour ∷ do_claim "h" "a" ∷ do_on "c" "h" "main" true hour ∷ do_off "ann" ∷ [])
          done).auto_merge)
    ≡ true
merge_run-coherent_example =
    merge_run-coherent
      (do_arm "a" hour ∷ do_claim "h" "a" ∷ do_on "c" "h" "main" true hour ∷ do_off "ann" ∷ []) done
      refl refl

one_claim_example :
    (is_done_at "h" done ≡ true)
    × (may_claim "a" armed ≡ true)
    × (claim "h" "a" (merge_run (do_head "i" ∷ []) (merge_step (do_claim "h" "a") done)) ≡ none)
unfolding claim
one_claim_example = one_claim "h" "a" (do_head "i" ∷ []) "h" "a" done refl refl

hold_stays_example :
    let r = merge_run (do_arm "a" hour ∷ do_head "i" ∷ []) (merge_step (do_off "ann") done) in
    (is_held_by "ann" r ≡ true)
    × (arm "b" hour r ≡ none)
    × (claim "h" "b" r ≡ none)
    × (claim_update "h" hour r ≡ none)
hold_stays_example =
    hold_stays "ann" (do_arm "a" hour ∷ do_head "i" ∷ []) "h" "b" hour done refl
      (λ e. absurd (ground (arith, e))) refl

-- The head h merges the base into g, and both have the same changes.
abbrev parents : BaseMerge
parents s = if str_eq s "h" then some (some "g") else some none

abbrev same_print : Fingerprint
same_print s = some "d"

abbrev kept_read : ChangeRead
kept_read = same_content "main" "d" ("h" ∷ []) done

read_changes-IsRead_example : IsRead parents same_print "main" "h" done kept_read
unfolding read_changes base_merges_since base_merges same_changes same_diffs
read_changes-IsRead_example = read_changes-IsRead parents same_print "main" "h" done kept_read refl

abbrev approval : Verdict
approval = record {
  author = "Ann";
  bot = false;
  association = "MEMBER";
  state = "APPROVED";
  created_at = hour;
  commit_id = "h";
}

abbrev at_head : Head
at_head = record { sha = "h"; content = "g"; lineage = "g" ∷ []; retargeted_at = 0 }

abbrev all_push : String → Option Bool
all_push s = some true

approver-IsApproved_example :
    IsApproved all_push at_head
      (record approval { author = "ann"; state = "CHANGES_REQUESTED" } ∷ approval ∷ [])
      "Ann"
unfolding approvals approving latest_verdicts put_verdict approver_among
approver-IsApproved_example =
    approver-IsApproved all_push at_head
      (record approval { author = "ann"; state = "CHANGES_REQUESTED" } ∷ approval ∷ []) "Ann" refl

abbrev pub watch : PrWatch
watch = record {
  task_id = "t";
  head_sha = "h";
  base_ref = "main";
  merge_state = "clean";
  on_github = false;
  ours = false;
  has_items = false;
  has_failed = false;
  content = "g";
  lineage = "g" ∷ [];
  retargeted_at = 0;
  snapshot = "a";
  reviews = approval ∷ [];
}

abbrev pub settings : Settings
settings = record { auto_merge = true; delay_minutes = 10; method = "squash" }

abbrev pub github : GitHub
github = record {
  can_push = all_push;
  push_message = "";
  decision = answer "";
  enabling = enabled;
  merging = answer tt;
  disabling = answer tt;
  updating = answer tt;
  disabled_by = answer "";
  login = "arbetern";
}

abbrev pub open_ledger : Ledger
open_ledger = record ledger { tasks = record work { status = pr_open; review = some done } ∷ [] }

abbrev pub world : World
world = record { stored = some open_ledger ∷ some open_ledger ∷ []; calls = [] }

auto_merge-IsGuarded_example :
    IsGuarded github watch settings
      (2 * hour)
      open_ledger
      world
      (auto_merge github (λ s. s) watch settings open_ledger (2 * hour) world).1
unfolding auto_merge claimed_merge merge_now merge_ledger claim task put_task approvals approving
    latest_verdicts put_verdict approver_among merged_here
auto_merge-IsGuarded_example =
    auto_merge-IsGuarded github (λ s. s) watch settings open_ledger (2 * hour) world refl refl
