-- ===== src/Projects/Rounds/Watching.antt =====
-- How the review of a pull request follows what is read of it: `observe`, `markReady` and `markDone`
-- of projects/rounds.go.
use arbetern.Base.{
  ℕ, Bool, true, false, not, ◌&&◌, ◌||◌, ◌==◌, Option, none, some, String, List, [], ◌∷◌, ltb,
  str_eq, if◌then◌else◌,
}
use mathlib.Core.Option
use arbetern.Projects.Review.{
  stamp, pr_open, Phase, unset, checking, fixing, settled, exhausted, Ci, unread, passed, failing,
  MergeState, ReviewState, settle,
}
use arbetern.Projects.Ledger.{Task, Ledger, task, put_task}
use arbetern.Projects.Ledger.Lifecycle.{same_status}
use arbetern.Projects.Ledger.PullRequest.{no_review}
use arbetern.Projects.Rounds.{on_review}
use arbetern.Projects.AutoMerge.{head_moved, changes_changed, contains}
use arbetern.Projects.AutoMerge.Changes.{ChangeRead, append_lineage}

-- `observation`; `last_feedback` is 0 when there was none.
pub record Observation : Type 0 where
  pub head : String
  pub seen_head : String
  pub ci : Ci
  pub failed : List String
  pub conflict : Bool
  pub pending : ℕ
  pub last_feedback : ℕ
  pub changes : Option ChangeRead

abbrev pub is_named : String → Bool
is_named s = not (str_eq s "")

-- Whether the head that was read is news, and not older than what the ledger knows.
abbrev pub moves_head : Observation → ReviewState → Bool
moves_head o r =
    is_named o.head
    && not (str_eq o.head r.head)
    && (str_eq o.seen_head "" || str_eq r.head o.seen_head)

unfoldable pub with_head : Observation → ℕ → ReviewState → ReviewState
with_head o now r =
    if moves_head o r
    then record r {
      auto_merge = Option.map (head_moved o.head) r.auto_merge;
      head = o.head;
      head_at = stamp now;
    }
    else r

-- A record from before the changes had an epoch keeps what it recorded at a head with these changes.
abbrev pub adopted_merge : ChangeRead → List String → MergeState → MergeState
adopted_merge c lineage m =
    if is_named m.on_content && contains lineage m.on_head
    then record m { on_content = c.epoch }
    else m

abbrev adopted : ChangeRead → String → ReviewState → ReviewState
adopted c head r =
    let lineage = append_lineage [] c.walked head in
    record r {
      auto_merge = Option.map (adopted_merge c lineage) r.auto_merge;
      done_content =
          if is_named r.done_content && contains lineage r.done_head
          then c.epoch
          else r.done_content;
      lineage = [];
    }

abbrev renewed : ChangeRead → ℕ → ReviewState → ReviewState
renewed c now r = record r {
  auto_merge = Option.map changes_changed r.auto_merge;
  lineage = [];
  retargeted_at = if c.retarget then stamp now else 0;
}

abbrev prepared : ChangeRead → String → ℕ → ReviewState → ReviewState
prepared c head now r =
    if str_eq r.content_head "" then adopted c head r else if c.fresh then renewed c now r else r

unfoldable pub with_changes : ChangeRead → String → ℕ → ReviewState → ReviewState
with_changes c head now r =
    let k = prepared c head now r in
    record k {
      content = c.epoch;
      diff = c.diff;
      content_head = head;
      content_base = c.base;
      lineage = append_lineage k.lineage c.walked head;
    }

abbrev pub takes_changes : ChangeRead → String → ReviewState → Bool
takes_changes c head r =
    str_eq r.head head && (not (str_eq r.content_head head) || not (str_eq r.content_base c.base))

-- The review and whether the changes were seen.
abbrev pub read_content : Option ChangeRead → String → ℕ → ReviewState → ReviewState × Bool
read_content none head now r = (r, false)
read_content (some c) head now r =
    if takes_changes c head r then (with_changes c head now r, true) else (r, false)

abbrev pub done_here : ReviewState → Bool
done_here r =
    is_named r.content_head
    && str_eq r.content_head r.head
    && str_eq r.done_content ""
    && contains r.lineage r.done_head

abbrev pub latest_stamp : ℕ → ℕ → ℕ
latest_stamp a b = if (a == 0) || ltb a b then b else a

-- What `observe` leaves of a review, and whether the changes were seen.
abbrev pub with_rest : Observation → ReviewState → ReviewState
with_rest o r = settle (record r {
  done_content = if done_here r then r.content else r.done_content;
  ci = o.ci;
  conflict = o.conflict;
  pending = o.pending;
  failed_checks = o.failed;
  last_feedback_at =
      if o.last_feedback == 0
      then r.last_feedback_at
      else latest_stamp r.last_feedback_at (stamp o.last_feedback);
})

unfoldable pub observed : Observation → ℕ → ReviewState → ReviewState × Bool
observed o now r =
    let (k, seen) = read_content o.changes o.head now (with_head o now r) in
    (with_rest o k, seen || done_here k)

abbrev ci_code : Ci → ℕ
ci_code unread = 0
ci_code Ci.pending = 1
ci_code passed = 2
ci_code failing = 3
ci_code Ci.absent = 4

abbrev phase_code : Phase → ℕ
phase_code unset = 0
phase_code checking = 1
phase_code fixing = 2
phase_code Phase.waiting = 3
phase_code settled = 4
phase_code exhausted = 5

abbrev same_texts : List String → List String → Bool
same_texts [] [] = true
same_texts (x ∷ xs) (y ∷ ys) = str_eq x y && same_texts xs ys
same_texts _ _ = false

abbrev same_bit : Bool → Bool → Bool
same_bit true b = b
same_bit false b = not b

-- Whether what the ledger is compared by is the same in two reviews.
abbrev pub same_reading : ReviewState → ReviewState → Bool
same_reading r b =
    str_eq r.head b.head
    && (ci_code r.ci == ci_code b.ci)
    && same_bit r.conflict b.conflict
    && (r.pending == b.pending)
    && same_texts r.failed_checks b.failed_checks
    && (r.last_feedback_at == b.last_feedback_at)
    && (phase_code r.phase == phase_code b.phase)

abbrev pub observed_task : Observation → ℕ → Task → ReviewState → Bool → Ledger → Ledger × Bool
observed_task o now t before started l =
    let (r, seen) = observed o now before in
    (
      record l { tasks = put_task (record t { review = some r }) l.tasks },
      started || seen || not (same_reading r before),
    )

abbrev pub observe_open : Observation → ℕ → Task → Option ReviewState → Ledger → Ledger × Bool
observe_open o now t none l = observed_task o now t no_review true l
observe_open o now t (some r) l = observed_task o now t r false l

abbrev pub observe_task : Observation → ℕ → Option Task → Ledger → Ledger × Bool
observe_task o now none l = (l, false)
observe_task o now (some t) l =
    if same_status t.status pr_open then observe_open o now t t.review l else (l, false)

-- `Ledger.observe`.
unfoldable pub observe : String → Observation → ℕ → Ledger → Ledger × Bool
observe i o now l = observe_task o now (task i l.tasks) l

-- `markReady` and `markDone`.
unfoldable pub ready : ℕ → ReviewState → Option ReviewState
ready now r = if r.ready_at == 0 then some (record r { ready_at = stamp now }) else none

unfoldable pub done_at_head : String → String → ℕ → ReviewState → Option ReviewState
done_at_head head content now r =
    if str_eq head "" || not (str_eq r.head head) || str_eq r.done_head head
    then none
    else some (settle (record r { done_head = head; done_at = stamp now; done_content = content }))

unfoldable pub mark_ready : String → ℕ → Ledger → Ledger × Bool
mark_ready i now l = on_review (ready now) (λ t. t) (λ k. k) (task i l.tasks) l

unfoldable pub mark_done : String → String → String → ℕ → Ledger → Ledger × Bool
mark_done i head content now l =
    on_review (done_at_head head content now) (λ t. t) (λ k. k) (task i l.tasks) l
