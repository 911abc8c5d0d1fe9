-- ===== src/Projects/Review.antt =====
-- The follow-through of a pull request: the records of projects/rounds.go and projects/automerge.go
-- and the phase they settle in. A stamp is a time in whole seconds, and 0 is the empty stamp.
use arbetern.Base.{
  ℕ, ◌*◌, ◌/◌, Bool, true, false, not, ◌&&◌, ◌==◌, Option, String, List, [], str_eq, if◌then◌else◌,
  any, map,
}
use arbetern.Base.Duration.{second}

-- `stamp`: RFC 3339 keeps whole seconds.
unfoldable pub stamp : ℕ → ℕ
stamp t = t / second * second

-- The statuses of a task.
pub data Status : Type 0 where
  dispatching running pr_open merged closed no_fix failed : Status

abbrev pub is_terminal : Status → Bool
is_terminal merged = true
is_terminal closed = true
is_terminal no_fix = true
is_terminal failed = true
is_terminal _ = false

abbrev pub is_active : Status → Bool
is_active dispatching = true
is_active running = true
is_active _ = false

-- The statuses of a round.
pub data RoundStatus : Type 0 where
  starting working answered broken : RoundStatus

-- `isActiveRound`.
abbrev pub is_active_round : RoundStatus → Bool
is_active_round starting = true
is_active_round working = true
is_active_round _ = false

pub data Phase : Type 0 where
  unset checking fixing waiting settled exhausted : Phase

pub data Ci : Type 0 where
  unread pending passed failing absent : Ci

pub record Feedback : Type 0 where
  pub id : String
  pub bot : Bool
  pub body : String

pub record Outcome : Type 0 where
  pub status : String
  pub summary : String
  pub testing : String
  pub title : String
  pub branch : String
  pub question : String
  pub headline : String
  pub reported_at : ℕ

pub record Round : Type 0 where
  pub n : ℕ
  pub trigger : List String
  pub status : RoundStatus
  pub session_id : String
  pub turns : ℕ
  pub head_before : String
  pub head_after : String
  pub items : List Feedback
  pub context : List Feedback
  pub checks : List String
  pub outcome : Option Outcome
  pub replies : ℕ
  pub learnings : ℕ
  pub reporting : ℕ
  pub bound : Bool
  pub exit_reason : String
  pub error : String
  pub created_at : ℕ
  pub dispatched_at : ℕ
  pub finished_at : ℕ

pub record MergeState : Type 0 where
  pub snapshot : String
  pub armed_at : ℕ
  pub update_tried_at : ℕ
  pub on : Bool
  pub on_content : String
  pub on_head : String
  pub on_base : String
  pub enabled_at : ℕ
  pub withdrawing : Bool
  pub merged_at : ℕ
  pub note : String
  pub note_head : String
  pub warned : String
  pub held : Bool
  pub held_by : String
  pub updates : ℕ

pub record ReviewState : Type 0 where
  pub phase : Phase
  pub head : String
  pub head_at : ℕ
  pub ci : Ci
  pub failed_checks : List String
  pub conflict : Bool
  pub pending : ℕ
  pub last_feedback_at : ℕ
  pub waiting : String
  pub checks_handled : String
  pub conflict_handled : String
  pub rerun_head : String
  pub handled : List String
  pub rounds : List Round
  pub next_round_after : ℕ
  pub draft : Bool
  pub ready_at : ℕ
  pub done_head : String
  pub done_at : ℕ
  pub content : String
  pub content_head : String
  pub content_base : String
  pub diff : String
  pub lineage : List String
  pub retargeted_at : ℕ
  pub done_content : String
  pub auto_merge : Option MergeState

abbrev pub is_failing : Ci → Bool
is_failing failing = true
is_failing _ = false

-- `ReviewState.active() != nil`.
abbrev pub has_active : ReviewState → Bool
has_active r = any (λ d. is_active_round d.status) r.rounds

abbrev pub settled_phase : Phase → ReviewState → Phase
settled_phase exhausted r = exhausted
settled_phase _ r =
    if has_active r
    then fixing
    else if not (str_eq r.waiting "")
    then waiting
    else if not (str_eq r.done_head "")
        && str_eq r.done_head r.head
        && (r.pending == 0)
        && not (is_failing r.ci)
    then settled
    else checking

-- `ReviewState.settle`.
unfoldable pub settle : ReviewState → ReviewState
settle r = record r { phase = settled_phase r.phase r }

-- `dropRoundBodies`.
unfoldable pub drop_round_bodies : Round → Round
drop_round_bodies d = record d {
  items = map (λ (f : Feedback). record f { body = "" }) d.items;
  context = [];
  checks = [];
}
