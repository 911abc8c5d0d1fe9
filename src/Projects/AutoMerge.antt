-- ===== src/Projects/AutoMerge.antt =====
-- The auto-merge state of a pull request in projects/automerge.go: the operations of the ledger that
-- change it, each as a change of the `MergeState` of a review that is given, and the lineage of heads
-- that carry the same changes. A stamp is a time in whole seconds, and 0 is the empty stamp.
pub mod Coherence
pub mod Claims
pub mod Changes
pub mod Approvals
pub mod Turn
use arbetern.Base.{
  ℕ, ◌+◌, ◌-◌, Bool, true, false, not, ◌&&◌, ◌||◌, ◌==◌, Option, none, some, String, List, [], ◌∷◌,
  ◌++◌, str_eq, ltb, if◌then◌else◌, length, any,
}
use arbetern.Base.Duration.{hour}
use Prim.Native.String.{◌++◌ as text_append}
use arbetern.Projects.Review.{stamp, pr_open, Phase, settled, MergeState, ReviewState, has_active}
use arbetern.Projects.Ledger.{Task, Ledger, task, put_task}
use arbetern.Projects.Ledger.Lifecycle.{same_status}

abbrev pub branch_update_retry : ℕ
branch_update_retry = hour

abbrev pub max_lineage : ℕ
max_lineage = 100

-- `&MergeState{}`.
abbrev pub no_merge : MergeState
no_merge = record {
  snapshot = "";
  armed_at = 0;
  update_tried_at = 0;
  on = false;
  on_content = "";
  on_head = "";
  on_base = "";
  enabled_at = 0;
  withdrawing = false;
  merged_at = 0;
  note = "";
  note_head = "";
  warned = "";
  held = false;
  held_by = "";
  updates = 0;
}

-- `cmp.Or(rv.AutoMerge, &MergeState{})`.
abbrev pub or_new : Option MergeState → MergeState
or_new none = no_merge
or_new (some m) = m

abbrev pub is_empty : String → Bool
is_empty s = str_eq s ""

-- `slices.Contains` on heads.
abbrev pub contains : List String → String → Bool
contains xs s = any (str_eq s) xs

-- `MergeState.changesChanged`.
unfoldable pub changes_changed : MergeState → MergeState
changes_changed m = record m {
  updates = 0;
  snapshot = "";
  armed_at = 0;
  note_head = "";
  note = if m.held then m.note else "";
}

-- `MergeState.headMoved`.
unfoldable pub head_moved : String → MergeState → MergeState
head_moved head m =
    if not (is_empty m.note_head) && not (str_eq m.note_head head) && not m.held
    then record m { update_tried_at = 0; note = ""; note_head = "" }
    else record m { update_tried_at = 0 }

-- `MergeState.setNote`, with whether it changed anything.
unfoldable pub set_note : String → Bool → MergeState → MergeState × Bool
set_note note warn m =
    let warns = warn && str_eq m.note note && not (str_eq m.warned note) in
    (
      record m { note = note; warned = if warns then note else m.warned },
      warns || not (str_eq m.note note),
    )

abbrev pub held_note : String → String
held_note by = text_append by " turned auto-merge off, so arbetern leaves it off."

-- What an operation does to the review of a task: none when it leaves it alone, else the new state
-- and whether it reports a change.
abbrev pub Change : Type 0
Change = ReviewState → Option (MergeState × Bool)

-- Whether the state keeps auto-merge from starting: held, on, going off or merged.
abbrev pub is_taken : MergeState → Bool
is_taken m = m.held || m.on || m.withdrawing || not (m.merged_at == 0)

unfoldable pub arm : String → ℕ → Change
arm snapshot now r =
    let m = or_new r.auto_merge in
    if is_taken m || (str_eq m.snapshot snapshot && not (m.armed_at == 0))
    then none
    else some (record m { snapshot = snapshot; armed_at = stamp now }, true)

abbrev disarm_on : Option MergeState → Option (MergeState × Bool)
disarm_on none = none
disarm_on (some m) =
    if m.armed_at == 0 then none else some (record m { snapshot = ""; armed_at = 0 }, true)

unfoldable pub disarm : Change
disarm r = disarm_on r.auto_merge

abbrev pub is_settled : Phase → Bool
is_settled settled = true
is_settled _ = false

-- Whether the review is done at this head, with no round under way.
abbrev pub is_done_at : String → ReviewState → Bool
is_done_at head r =
    not (has_active r) && is_settled r.phase && str_eq r.head head && str_eq r.done_head head

abbrev pub may_claim : String → MergeState → Bool
may_claim snapshot m = not (is_taken m) && not (m.armed_at == 0) && str_eq m.snapshot snapshot

abbrev pub claim_on : Bool → String → Option MergeState → Option (MergeState × Bool)
claim_on done snapshot none = none
claim_on done snapshot (some m) =
    if done && may_claim snapshot m then some (record m { armed_at = 0 }, true) else none

unfoldable pub claim : String → String → Change
claim head snapshot r = claim_on (is_done_at head r) snapshot r.auto_merge

abbrev pub waits_on : String → String → Bool → ℕ → Option MergeState → Option (MergeState × Bool)
waits_on snapshot note warn now none = none
waits_on snapshot note warn now (some m) =
    if str_eq m.snapshot snapshot
    then some ((set_note note warn (record m { armed_at = stamp now; note_head = "" })).0, true)
    else none

unfoldable pub waits : String → String → Bool → ℕ → Change
waits snapshot note warn now r = waits_on snapshot note warn now r.auto_merge

abbrev pub switched_on : String → String → String → MergeState → MergeState
switched_on content head base m = record m {
  on = true;
  on_content = content;
  on_head = head;
  on_base = base;
  held = false;
  held_by = "";
  withdrawing = false;
  armed_at = 0;
}

abbrev pub enabled_on : Bool → ℕ → MergeState → MergeState
enabled_on enabled now m = if enabled then record m { enabled_at = stamp now; note = "" } else m

unfoldable pub switch_on : String → String → String → Bool → ℕ → Change
switch_on content head base enabled now r =
    let m = or_new r.auto_merge in
    let next = switched_on content head base m in
    if m.on && not m.withdrawing && not enabled
    then none
    else some (enabled_on enabled now next, true)

abbrev pub going_off : MergeState → MergeState
going_off m = record m { withdrawing = true; held = false; held_by = "" }

unfoldable pub withdraw : Change
withdraw r = let m = or_new r.auto_merge in if m.withdrawing then none else some (going_off m, true)

abbrev pub switched_off : MergeState → MergeState
switched_off m = record m {
  on = false;
  on_content = "";
  on_head = "";
  on_base = "";
  enabled_at = 0;
  withdrawing = false;
  snapshot = "";
  armed_at = 0;
}

abbrev pub off_changes : String → MergeState → Bool
off_changes by m =
    m.on
    || m.withdrawing
    || not (m.enabled_at == 0)
    || not (is_empty m.snapshot)
    || not (m.armed_at == 0)
    || (not (is_empty by) && not (str_eq m.held_by by))

abbrev pub held_off : String → MergeState → MergeState
held_off by m =
    if not (is_empty by)
    then record m { held = true; held_by = by; note = held_note by; note_head = "" }
    else if not m.held
    then record m { note = ""; note_head = "" }
    else m

abbrev pub off_on : String → Option MergeState → Option (MergeState × Bool)
off_on by none = none
off_on by (some m) = some (held_off by (switched_off m), off_changes by m)

unfoldable pub switch_off : String → Change
switch_off by r = off_on by r.auto_merge

abbrev pub attribute_on : String → Option MergeState → Option (MergeState × Bool)
attribute_on by none = none
attribute_on by (some m) =
    if not m.held || not (is_empty m.held_by)
    then none
    else if is_empty by
    then some (record m { held = false; note = ""; note_head = "" }, true)
    else some (record m { held_by = by; note = held_note by }, true)

unfoldable pub attribute : String → Change
attribute by r = attribute_on by r.auto_merge

abbrev pub claim_update_on : Bool → ℕ → Option MergeState → Option (MergeState × Bool)
claim_update_on free now none = none
claim_update_on free now (some m) =
    if not free || m.held || m.withdrawing || ltb (now - m.update_tried_at) branch_update_retry
    then none
    else some (record m { update_tried_at = stamp now }, true)

unfoldable pub claim_update : String → ℕ → Change
claim_update head now r =
    claim_update_on (not (has_active r) && str_eq r.head head) now r.auto_merge

abbrev pub updated_on : Bool → Option MergeState → Option (MergeState × Bool)
updated_on here none = none
updated_on here (some m) = if here then some (record m { updates = m.updates + 1 }, true) else none

unfoldable pub updated : String → Change
updated head r = updated_on (str_eq r.head head) r.auto_merge

abbrev pub noted_on : String → String → Bool → Option MergeState → Option (MergeState × Bool)
noted_on note head warn none = none
noted_on note head warn (some m) =
    let (next, changed) = set_note note warn (record m { note_head = head }) in
    some (next, changed || not (str_eq m.note_head head))

unfoldable pub noted : String → String → Bool → Change
noted note head warn r = noted_on note head warn r.auto_merge

abbrev pub merged_on : ℕ → Option MergeState → Option (MergeState × Bool)
merged_on now none = none
merged_on now (some m) =
    if m.merged_at == 0
    then some (record m { merged_at = stamp now; armed_at = 0; note = "" }, true)
    else none

unfoldable pub merged_here : ℕ → Change
merged_here now r = merged_on now r.auto_merge

-- `Ledger.review` and a change of the auto-merge state of the review it finds.
abbrev pub changed_task : Task → ReviewState → Option (MergeState × Bool) → Ledger → Ledger × Bool
changed_task t r none l = (l, false)
changed_task t r (some (m, b)) l = (
  record l {
    tasks = put_task (record t { review = some (record r { auto_merge = some m }) }) l.tasks;
  },
  b,
)

abbrev pub changed_review : Change → Task → Option ReviewState → Ledger → Ledger × Bool
changed_review change t none l = (l, false)
changed_review change t (some r) l = changed_task t r (change r) l

abbrev pub on_merge : Change → Option Task → Ledger → Ledger × Bool
on_merge change none l = (l, false)
on_merge change (some t) l =
    if same_status t.status pr_open then changed_review change t t.review l else (l, false)

-- The operations of the ledger: `armMerge`, `disarmMerge`, `claimMerge`, `mergeWaits`, `mergeOn`,
-- `withdrawMerge`, `mergeOff`, `attributeHold`, `claimUpdate`, `branchUpdated`, `noteMerge` and
-- `mergedByArbetern`.
abbrev pub arm_merge : String → String → ℕ → Ledger → Ledger × Bool
arm_merge i snapshot now l = on_merge (arm snapshot now) (task i l.tasks) l

abbrev pub disarm_merge : String → Ledger → Ledger × Bool
disarm_merge i l = on_merge disarm (task i l.tasks) l

abbrev pub claim_merge : String → String → String → Ledger → Ledger × Bool
claim_merge i head snapshot l = on_merge (claim head snapshot) (task i l.tasks) l

abbrev pub merge_waits : String → String → String → Bool → ℕ → Ledger → Ledger × Bool
merge_waits i snapshot note warn now l = on_merge (waits snapshot note warn now) (task i l.tasks) l

abbrev pub merge_on : String → String → String → String → Bool → ℕ → Ledger → Ledger × Bool
merge_on i content head base enabled now l =
    on_merge (switch_on content head base enabled now) (task i l.tasks) l

abbrev pub withdraw_merge : String → Ledger → Ledger × Bool
withdraw_merge i l = on_merge withdraw (task i l.tasks) l

abbrev pub merge_off : String → String → Ledger → Ledger × Bool
merge_off i by l = on_merge (switch_off by) (task i l.tasks) l

abbrev pub attribute_hold : String → String → Ledger → Ledger × Bool
attribute_hold i by l = on_merge (attribute by) (task i l.tasks) l

abbrev pub claim_branch_update : String → String → ℕ → Ledger → Ledger × Bool
claim_branch_update i head now l = on_merge (claim_update head now) (task i l.tasks) l

abbrev pub branch_updated : String → String → Ledger → Ledger × Bool
branch_updated i head l = on_merge (updated head) (task i l.tasks) l

abbrev pub note_merge : String → String → String → Bool → Ledger → Ledger × Bool
note_merge i note head warn l = on_merge (noted note head warn) (task i l.tasks) l

abbrev pub merged_by_arbetern : String → ℕ → Ledger → Ledger × Bool
merged_by_arbetern i now l = on_merge (merged_here now) (task i l.tasks) l
