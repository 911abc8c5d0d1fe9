-- ===== src/Projects/Rounds/Reports.antt =====
-- What a follow-up round of projects/rounds.go reports: `finishRound`, `recordRoundResult`,
-- `recordRoundReplies`, `roundEnded` and `markHandled`. `line` is `oneLine` with `maxQuestionChars`.
use arbetern.Base.{
  ℕ, zero, suc, ◌-◌, Bool, true, false, not, ◌&&◌, ◌||◌, ◌==◌, Option, none, some, String, List, [],
  ◌∷◌, ◌++◌, length, any, map, leb, str_eq, if◌then◌else◌,
}
use Prim.Native.String.{◌++◌ as text_append}
use arbetern.Projects.Review.{
  stamp, pr_open, working, answered, Feedback, Outcome, Round, ReviewState, settle,
  drop_round_bodies,
}
use arbetern.Projects.Ledger.{Pr, Task, Ledger, task}
use arbetern.Projects.Ledger.Lifecycle.{same_status, absent, push_ring}
use arbetern.Projects.Rounds.{
  same_round, round, put_round, on_round, report_fresh, on_review, fail_round,
}

abbrev pub max_handled : ℕ
max_handled = 300

-- `roundResult`.
pub record RoundResult : Type 0 where
  pub outcome : Outcome
  pub head : String
  pub replies : ℕ
  pub rerun : Bool
  pub described : Option Outcome
  pub body_sha : String

abbrev pub handled_in : List String → String → Bool
handled_in hs s = any (str_eq s) hs

abbrev pub mark_all : List String → List String → List String
mark_all hs [] = hs
mark_all hs (s ∷ ss) = mark_all (if handled_in hs s then hs else hs ++ (s ∷ [])) ss

abbrev pub drop_first : ℕ → List String → List String
drop_first zero hs = hs
drop_first (suc n) [] = []
drop_first (suc n) (h ∷ hs) = drop_first n hs

-- `ReviewState.markHandled`.
unfoldable pub mark_handled : List String → List String → List String
mark_handled ids hs =
    let all_of = mark_all hs ids in drop_first (length all_of - max_handled) all_of

abbrev pub item_ids : List Feedback → List String
item_ids fs = map (λ (f : Feedback). f.id) fs

abbrev pub or_text : String → String → String
or_text a b = if str_eq a "" then b else a

-- `personSpoke`.
abbrev pub person_spoke : Round → Bool
person_spoke d = any (λ (f : Feedback). not f.bot) d.items

abbrev pub has_trigger : String → Round → Bool
has_trigger s d = any (str_eq s) d.trigger

-- The open question that a report leaves.
abbrev pub waiting_after : (String → String) → Outcome → Round → String → String
waiting_after line o d waiting =
    if not (str_eq o.question "")
    then o.question
    else if str_eq o.status "cannot_fix"
    then line o.summary
    else if person_spoke d
    then ""
    else waiting

abbrev pub head_after : RoundResult → Round → String
head_after res d = or_text res.head d.head_before

abbrev pub recorded_round : RoundResult → Round → Round
recorded_round res d =
    drop_round_bodies (record d { replies = res.replies; head_after = head_after res d })

-- `recordRoundResult`, what it does to the review.
unfoldable pub record_result :
    (String → String) → RoundResult → ℕ → Round → ReviewState → ReviewState
record_result line res now d r =
    let after = head_after res d in
    let stays = str_eq after d.head_before in
    let moves = not (str_eq after r.head) in
    settle (record r {
      rounds = put_round (recorded_round res d) r.rounds;
      handled = mark_handled (item_ids d.items) r.handled;
      checks_handled = if stays && has_trigger "checks" d then d.head_before else r.checks_handled;
      conflict_handled =
          if stays && has_trigger "conflict" d then d.head_before else r.conflict_handled;
      rerun_head = if res.rerun then after else r.rerun_head;
      waiting = waiting_after line res.outcome d r.waiting;
      head = if moves then after else r.head;
      head_at = if moves then stamp now else r.head_at;
    })

-- What it does to the task.
abbrev described_pr : RoundResult → Option Pr → Option Pr
described_pr res none = none
described_pr res (some p) = some (record p { body_sha = res.body_sha })

abbrev described_outcome : Outcome → Option Outcome → Option Outcome
described_outcome d none = none
described_outcome d (some o) = some (record o { summary = d.summary; question = d.question })

abbrev described_task : RoundResult → Option Outcome → Task → Task
described_task res none t = t
described_task res (some d) t =
    if absent t.outcome || absent t.pr
    then t
    else record t { outcome = described_outcome d t.outcome; pr = described_pr res t.pr }

abbrev pub reported_task : RoundResult → ℕ → Task → Task
reported_task res now t = record (described_task res res.described t) { updated_at = stamp now }

abbrev pub is_open_round : Round → Bool
is_open_round d = same_round d.status working && absent d.outcome

abbrev pub answered_round : RoundResult → ℕ → Round → Round
answered_round res now d = record d {
  outcome = some res.outcome;
  status = answered;
  reporting = 0;
  finished_at = stamp now;
}

-- The reviews after `finishRound` and `recordRoundReplies`, if the operation applies.
abbrev pub finished_with :
    (String → String) → RoundResult → ℕ → Option Round → ReviewState → Option ReviewState
finished_with line res now none r = none
finished_with line res now (some d) r =
    if is_open_round d then some (record_result line res now (answered_round res now d) r) else none

unfoldable pub finish_result :
    (String → String) → ℕ → RoundResult → ℕ → ReviewState → Option ReviewState
finish_result line n res now r = finished_with line res now (round n r.rounds) r

abbrev pub replied_with :
    (String → String) → RoundResult → ℕ → Option Round → ReviewState → Option ReviewState
replied_with line res now none r = none
replied_with line res now (some d) r =
    if absent d.outcome then some (record_result line res now d r) else none

unfoldable pub reply_result :
    (String → String) → ℕ → RoundResult → ℕ → ReviewState → Option ReviewState
reply_result line n res now r = replied_with line res now (round n r.rounds) r

-- The round of a task that the ledger finds.
abbrev pub round_in : ℕ → Option ReviewState → Option Round
round_in n none = none
round_in n (some r) = round n r.rounds

abbrev pub round_of : ℕ → Option Task → Option Round
round_of n none = none
round_of n (some t) = if same_status t.status pr_open then round_in n t.review else none

abbrev timed : ℕ → Option Round → List ℕ → List ℕ
timed now none ts = ts
timed now (some d) ts =
    if not (d.dispatched_at == 0) && leb d.dispatched_at now
    then push_ring ts (now - d.dispatched_at)
    else ts

abbrev pub counted_time : ℕ → Option Round → Ledger → Ledger
counted_time now d k = record k {
  totals = record (k.totals) { session_times = timed now d k.totals.session_times };
}

unfoldable pub finish_round :
    (String → String) → String → ℕ → RoundResult → ℕ → Ledger → Ledger × Bool
finish_round line i n res now l =
    on_review (finish_result line n res now) (reported_task res now)
      (counted_time now (round_of n (task i l.tasks))) (task i l.tasks) l

unfoldable pub record_round_replies :
    (String → String) → String → ℕ → RoundResult → ℕ → Ledger → Ledger × Bool
record_round_replies line i n res now l =
    on_review (reply_result line n res now) (reported_task res now) (λ k. k) (task i l.tasks) l

-- `roundEnded`: what the end of a session tells of a round.
abbrev pub exit_guard : String → ℕ → Round → Bool
exit_guard reason turns d =
    (str_eq d.exit_reason "" && not (str_eq reason ""))
    || (not (turns == 0) && not (d.turns == turns))

abbrev pub exited_round : String → ℕ → Round → Round
exited_round reason turns d = record d {
  exit_reason = if str_eq d.exit_reason "" then reason else d.exit_reason;
  turns = if turns == 0 then d.turns else turns;
}

unfoldable pub note_exit : ℕ → String → ℕ → ReviewState → Option ReviewState
note_exit n reason turns r =
    on_round (exit_guard reason turns) (exited_round reason turns) (round n r.rounds) r

abbrev pub exit_round : String → ℕ → String → ℕ → Ledger → Ledger × Bool
exit_round i n reason turns l =
    on_review (note_exit n reason turns) (λ t. t) (λ x. x) (task i l.tasks) l

abbrev pub exit_text : String → String
exit_text reason =
    text_append "session ended without a report (exit: "
      (text_append (or_text reason "unknown") ")")

abbrev pub is_unreported : ℕ → Option Round → Bool
is_unreported now none = false
is_unreported now (some d) = is_open_round d && not (report_fresh d now)

unfoldable pub round_ended : String → ℕ → String → ℕ → ℕ → Ledger → Ledger × Bool
round_ended i n reason turns now l =
    let (k, changed) = exit_round i n reason turns l in
    if is_unreported now (round_of n (task i l.tasks))
    then ((fail_round i n (working ∷ []) (exit_text reason) now k).0, true)
    else (k, changed)
