-- ===== src/Projects/AutoMerge/Turn.antt =====
-- A turn of the auto-merge of projects/automerge.go on one pull request: `followAutoMerge`,
-- `autoMerge`, `mergeNow`, `mergeWaits`, `noteMerge`, `warnMerge`, `withdrawAutoMerge`, `keepUpToDate`
-- and `Registry.mergeLedger` of projects/registry.go. GitHub's answers are an argument. The store is
-- the list of the ledgers that its next writes find, `none` for a write that fails, and a turn leaves
-- the calls it made, newest first.
pub mod Guards
pub mod Merging
pub mod Asking
pub mod Delay
pub mod Follow
use arbetern.Base.{
  ℕ, ◌-◌, ◌*◌, Bool, true, false, not, ◌&&◌, ◌||◌, Option, none, some, String, List, [], ◌∷◌,
  str_eq, ltb, leb, if◌then◌else◌, any,
}
use arbetern.Base.Duration.{minute}
use Prim.Native.String.{◌++◌ as text_append}
use arbetern.Projects.Review.{stamp, pr_open, Ci, MergeState, ReviewState}
use arbetern.Projects.Ledger.{Task, Ledger, task}
use arbetern.Projects.Ledger.Lifecycle.{same_status}
use arbetern.Projects.Ledger.PullRequest.{equal_fold}
use arbetern.Projects.AutoMerge.{
  or_new, is_empty, branch_update_retry, arm_merge, disarm_merge, claim_merge, merge_waits,
  merge_on, withdraw_merge, merge_off, attribute_hold, claim_branch_update, branch_updated,
  note_merge, merged_by_arbetern, is_settled,
}
use arbetern.Projects.AutoMerge.Changes.{content_moved}
use arbetern.Projects.AutoMerge.Approvals.{
  Verdict, Head, Approver, approved_by, nobody, unknown, approver,
}

abbrev pub max_branch_updates : ℕ
max_branch_updates = 3

-- An answer of GitHub, or the message of its error.
pub data Answer {ℓ} (A : Type ℓ) : Type ℓ where
  answer : A → Answer A
  refused : String → Answer A

-- The answer of `EnablePullRequestAutoMerge`.
pub data Enabling : Type 0 where
  enabled mergeable_now : Enabling
  not_enabled : String → Enabling

-- What GitHub answers during the turn; `push_message` is the message of the lookups of
-- `CanPush` that failed.
pub record GitHub : Type 0 where
  pub can_push : String → Option Bool
  pub push_message : String
  pub decision : Answer {0} String
  pub enabling : Enabling
  pub merging : Answer {0} Unit
  pub disabling : Answer {0} Unit
  pub updating : Answer {0} Unit
  pub disabled_by : Answer {0} String
  pub login : String

pub data Call : Type 0 where
  enable_call merge_call disable_call update_call comment_call notify_call ready_call review_call :
      Call

-- The store and the calls made.
pub record World : Type 0 where
  pub stored : List (Option Ledger)
  pub calls : List Call

abbrev pub made : Call → World → World
made c v = record v { calls = c ∷ v.calls }

-- `prWatch`, what a turn reads of it.
pub record PrWatch : Type 0 where
  pub task_id : String
  pub head_sha : String
  pub base_ref : String
  pub merge_state : String
  pub on_github : Bool
  pub ours : Bool
  pub has_items : Bool
  pub has_failed : Bool
  pub content : String
  pub lineage : List String
  pub retargeted_at : ℕ
  pub snapshot : String
  pub reviews : List Verdict

-- The settings of a project that a turn reads.
pub record Settings : Type 0 where
  pub auto_merge : Bool
  pub delay_minutes : ℕ
  pub method : String

-- What `mergeLedger` returns: an error, or the ledger and whether it changed.
pub data Saved : Type 0 where
  lost : Saved
  saved : Ledger → Bool → Saved

abbrev pub written_over :
    (Ledger → Ledger × Bool) → List (Option Ledger) → List Call → Saved × World
written_over fn [] cs = (lost, record { stored = []; calls = cs })
written_over fn (none ∷ ls) cs = (lost, record { stored = ls; calls = cs })
written_over fn (some l ∷ ls) cs = (saved (fn l).0 (fn l).1, record { stored = ls; calls = cs })

-- `Registry.mergeLedger`: nothing is written_over when the change does not apply to the ledger at hand.
unfoldable pub merge_ledger : (Ledger → Ledger × Bool) → Ledger → World → Saved × World
merge_ledger fn cur v =
    if (fn cur).1 then written_over fn v.stored v.calls else (saved cur false, v)

-- The ledger that a turn goes on with: the one at hand after an error.
abbrev pub kept_ledger : Ledger → Saved → Ledger
kept_ledger cur lost = cur
kept_ledger cur (saved l b) = l

abbrev pub save : (Ledger → Ledger × Bool) → Ledger → World → Ledger × World
save fn cur v = let (s, u) = merge_ledger fn cur v in (kept_ledger cur s, u)

-- `Ledger.review`.
abbrev pub review_of : Option Task → Option ReviewState
review_of none = none
review_of (some t) = if same_status t.status pr_open then t.review else none

abbrev pub has_warned : String → Option ReviewState → Bool
has_warned note none = false
has_warned note (some r) = elim r.auto_merge [ none ↦ false | some m ↦ str_eq m.warned note ]

abbrev pub head_of : PrWatch → Head
head_of w = record {
  sha = w.head_sha;
  content = w.content;
  lineage = w.lineage;
  retargeted_at = w.retargeted_at;
}

abbrev pub approver_of : GitHub → PrWatch → Approver
approver_of gh w = approver gh.can_push (head_of w) w.reviews

-- `mergeHold`: whether something keeps auto-merge from starting.
abbrev pub merge_hold : ReviewState → PrWatch → Bool → Bool
merge_hold r w needs =
    needs
    || w.has_items
    || not (is_empty r.waiting)
    || r.conflict
    || (w.has_failed && not (str_eq r.checks_handled w.head_sha))

abbrev pub no_approver_now : String
no_approver_now =
    "GitHub has nothing left to wait for, so auto-merge cannot be turned on. arbetern merges once a person with write access approves these changes and no review asks for changes."

abbrev pub no_approver_yet : String
no_approver_yet =
    "No review is required here, so arbetern turns on auto-merge once a person with write access approves these changes and no review asks for changes."

abbrev pub approver_unknown : GitHub → String
approver_unknown gh =
    text_append "arbetern could not check who approved these changes: " gh.push_message

-- The turn of one pull request of a project; `line` is `oneLine` with `maxMergeNoteChars`.
module _ (gh : GitHub) (line : String → String) (w : PrWatch) where
  -- `warnMerge`.
  abbrev pub warned : Ledger → Ledger → String → World → World
  warned before after note v =
      if has_warned note (review_of (task w.task_id after.tasks))
        && not (has_warned note (review_of (task w.task_id before.tasks)))
      then made notify_call v
      else v

  abbrev pub after_note : Ledger → String → Saved × World → Ledger × World
  after_note led note (lost, v) = (led, v)
  after_note led note (saved next b, v) = (next, warned led next note v)

  -- `mergeWaits` and `noteMerge`.
  unfoldable pub wait_with : Ledger → String → Bool → ℕ → World → Ledger × World
  wait_with led note warn at v =
      after_note led (line note)
        (merge_ledger (merge_waits w.task_id w.snapshot (line note) warn at) led v)

  unfoldable pub note_with : Ledger → String → String → Bool → World → Ledger × World
  note_with led note head warn v =
      after_note led (line note) (merge_ledger (note_merge w.task_id (line note) head warn) led v)

  abbrev pub after_merge : Ledger → ℕ → World → Answer {0} Unit → Ledger × World
  after_merge led now v (refused e) =
      wait_with led (text_append "GitHub did not merge it: " e) true now v
  after_merge led now v (answer a) =
      save (merged_by_arbetern w.task_id now) led (made comment_call v)

  abbrev pub merge_for : Approver → Ledger → ℕ → ℕ → World → Ledger × World
  merge_for unknown led armed_at now v = wait_with led (approver_unknown gh) true armed_at v
  merge_for nobody led armed_at now v = wait_with led no_approver_now false now v
  merge_for (approved_by x) led armed_at now v = after_merge led now (made merge_call v) gh.merging

  -- `mergeNow`.
  unfoldable pub merge_now : Ledger → ℕ → ℕ → World → Ledger × World
  merge_now led armed_at now v = merge_for (approver_of gh w) led armed_at now v
