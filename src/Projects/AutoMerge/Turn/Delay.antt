-- ===== src/Projects/AutoMerge/Turn/Delay.antt =====
-- The delay of an auto-merge and what follows it: `autoMerge` and `keepUpToDate` of
-- projects/automerge.go.
use arbetern.Base.{
  ℕ, ◌-◌, ◌*◌, Bool, true, false, not, ◌||◌, ◌==◌, Option, none, some, String, str_eq, ltb, leb,
  if◌then◌else◌,
}
use arbetern.Base.Duration.{minute}
use Prim.Native.String.{◌++◌ as text_append}
use arbetern.Projects.Review.{MergeState, ReviewState}
use arbetern.Projects.Ledger.{Ledger, task}
use arbetern.Projects.AutoMerge.{
  or_new, is_empty, branch_update_retry, arm_merge, claim_merge, merge_on, claim_branch_update,
  branch_updated,
}
use arbetern.Projects.AutoMerge.Approvals.{Approver, approved_by, nobody, unknown}
use arbetern.Projects.AutoMerge.Turn.{
  Answer, answer, refused, Enabling, enabled, mergeable_now, not_enabled, GitHub, enable_call,
  update_call, notify_call, World, made, PrWatch, Settings, Saved, lost, saved, merge_ledger, save,
  review_of, approver_of, wait_with, note_with, no_approver_yet, merge_now, approver_unknown,
  max_branch_updates,
}

abbrev pub is_mergeable : PrWatch → Bool
is_mergeable x = str_eq x.merge_state "clean" || str_eq x.merge_state "has_hooks"

module _ (gh : GitHub) (line : String → String) (w : PrWatch) (settings : Settings) where
  -- The record that auto-merge is on, and the note to the channel.
  abbrev pub noted_on : Ledger × World → Ledger × World
  noted_on (next, v) = elim (task w.task_id next.tasks) [
    | none ↦ (next, v)
    | some t ↦ (next, made notify_call v)
  ]

  abbrev pub enable_with : Enabling → Ledger → ℕ → ℕ → World → Ledger × World
  enable_with mergeable_now led armed_at now v = merge_now gh line w led armed_at now v
  enable_with (not_enabled e) led armed_at now v =
      wait_with gh line w led (text_append "GitHub did not turn on auto-merge: " e) true now v
  enable_with enabled led armed_at now v =
      noted_on (save (merge_on w.task_id w.content w.head_sha w.base_ref true now) led v)

  abbrev pub enable : Ledger → ℕ → ℕ → World → Ledger × World
  enable led armed_at now v = enable_with gh.enabling led armed_at now (made enable_call v)

  -- No review is required, so a person has to have approved the changes.
  abbrev pub enable_for : Approver → Ledger → ℕ → ℕ → World → Ledger × World
  enable_for unknown led armed_at now v =
      wait_with gh line w led (approver_unknown gh) true armed_at v
  enable_for nobody led armed_at now v = wait_with gh line w led no_approver_yet false now v
  enable_for (approved_by x) led armed_at now v = enable led armed_at now v

  abbrev pub on_decision : Answer {0} String → Ledger → ℕ → ℕ → World → Ledger × World
  on_decision (refused e) led armed_at now v =
      wait_with gh line w led (text_append "arbetern could not read the review decision: " e) true
        armed_at v
  on_decision (answer d) led armed_at now v =
      if is_empty d
      then enable_for (approver_of gh w) led armed_at now v
      else enable led armed_at now v

  -- What follows a claim that succeeded.
  unfoldable pub claimed_merge : Ledger → ℕ → ℕ → World → Ledger × World
  claimed_merge led armed_at now v =
      if is_mergeable w
      then merge_now gh line w led armed_at now v
      else on_decision gh.decision led armed_at now v

  abbrev pub after_claim : Ledger → ℕ → ℕ → Saved × World → Ledger × World
  after_claim led armed_at now (lost, v) = (led, v)
  after_claim led armed_at now (saved next claimed, v) =
      if claimed then claimed_merge next armed_at now v else (next, v)

  -- What follows a claim of an update.
  abbrev pub after_update : Ledger → World → Answer {0} Unit → Ledger × World
  after_update led v (refused e) =
      note_with gh line w led
        (text_append "GitHub did not bring the branch up to date with its base: " e) w.head_sha true
        v
  after_update led v (answer a) = save (branch_updated w.task_id w.head_sha) led v

  abbrev pub after_update_claim : Ledger → Saved × World → Ledger × World
  after_update_claim led (lost, v) = (led, v)
  after_update_claim led (saved next claimed, v) =
      if claimed then after_update next (made update_call v) gh.updating else (next, v)

  abbrev pub update_for : Approver → Ledger → ℕ → World → Ledger × World
  update_for (approved_by x) led now v =
      after_update_claim led (merge_ledger (claim_branch_update w.task_id w.head_sha now) led v)
  update_for nobody led now v = (led, v)
  update_for unknown led now v = (led, v)

  abbrev pub update_state : MergeState → Ledger → ℕ → World → Ledger × World
  update_state m led now v =
      if not (str_eq w.merge_state "behind") || ltb (now - m.update_tried_at) branch_update_retry
      then (led, v)
      else if str_eq settings.method "rebase"
      then note_with gh line w led
          "The branch is behind its base. With rebase merges, a person brings it up to date."
          w.head_sha true v
      else if leb max_branch_updates m.updates
      then note_with gh line w led
          "The branch fell behind its base again after 3 updates by arbetern. Over to a person." ""
          true v
      else update_for (approver_of gh w) led now v

  -- `keepUpToDate`, on the auto-merge state of the review.
  abbrev pub keep_up_to_date : Option MergeState → Ledger → ℕ → World → Ledger × World
  keep_up_to_date none led now v = (led, v)
  keep_up_to_date (some m) led now v = update_state m led now v

  abbrev pub delay_passed : MergeState → ℕ → Bool
  delay_passed m now = leb (settings.delay_minutes * minute) (now - m.armed_at)

  -- The delay of an auto-merge that is off, or the branch of one that is on.
  abbrev pub on_github_state : Bool → MergeState → ReviewState → Ledger → ℕ → World → Ledger × World
  on_github_state true m r led now v = keep_up_to_date r.auto_merge led now v
  on_github_state false m r led now v =
      if not (str_eq m.snapshot w.snapshot) || (m.armed_at == 0)
      then save (arm_merge w.task_id w.snapshot now) led v
      else if not (delay_passed m now)
      then (led, v)
      else after_claim led m.armed_at now
          (merge_ledger (claim_merge w.task_id w.head_sha w.snapshot) led v)

  abbrev pub on_state : MergeState → ReviewState → Ledger → ℕ → World → Ledger × World
  on_state m r led now v =
      if m.held || m.withdrawing || not (m.merged_at == 0)
      then (led, v)
      else on_github_state w.on_github m r led now v

  abbrev pub on_found : Option ReviewState → Ledger → ℕ → World → Ledger × World
  on_found none led now v = (led, v)
  on_found (some r) led now v = on_state (or_new r.auto_merge) r led now v

  -- `autoMerge`, which is called with a review only.
  unfoldable pub auto_merge : Ledger → ℕ → World → Ledger × World
  auto_merge led now v = on_found (review_of (task w.task_id led.tasks)) led now v
