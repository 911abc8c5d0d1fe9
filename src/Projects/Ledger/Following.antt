-- ===== src/Projects/Ledger/Following.antt =====
-- The operations of projects/rounds.go and projects/automerge.go, and the quiet ones of
-- projects/ledger.go, leave the tasks of a ledger to their work and its books alone.
use arbetern.Base.{
  ℕ, ◌≡◌, refl, inl, inr, Bool, true, false, Option, none, some, String, arith, Bool-cases,
}
use arbetern.Projects.Review.{pr_open, MergeState, ReviewState}
use arbetern.Projects.Ledger.{Task, Ledger, task, put_task}
use arbetern.Projects.Ledger.Lifecycle.{same_status}
use arbetern.Projects.Ledger.PullRequest.{no_review}
use arbetern.Projects.Ledger.Sessions.{
  Quiet, unreadable, readable, unbound, exited, moved_to, learned, transcribed, quiet_guard,
  quiet_task, quietly,
}
use arbetern.Projects.Ledger.Quiet.{
  SameWork, IsQuiet, same-IsQuiet, on_task-IsQuiet, keeps_all, replaced-IsQuiet, on_review-IsQuiet,
}
use arbetern.Projects.Ledger.Events.{follow}
use arbetern.Projects.Rounds.{
  new_round, start_round, break_round, begin_report, clear_report, exhaust, resumed_by, touched,
  counted_session, counted_failure, add_round, round_running, fail_round, begin_round_report,
  clear_round_report, exhaust_rounds,
}
use arbetern.Projects.Rounds.Reports.{
  RoundResult, finish_result, reply_result, note_exit, finish_round, record_round_replies,
  reported_task, counted_time, round_of,
}
use arbetern.Projects.Rounds.Watching.{
  Observation, ready, done_at_head, mark_ready, mark_done, observe, observe_task, observe_open,
  observed_task, observed,
}
use arbetern.Projects.Rounds.Machine.{
  RoundEvent, do_round, do_start, do_break, do_begin, do_clear, do_exhaust, do_finish, do_replies,
  do_exit, do_ready, do_done, do_observe,
}
use arbetern.Projects.AutoMerge.{Change, on_merge, changed_review, changed_task}

same_work : (t : Task) → SameWork t t
same_work t = record { same_id = refl; same_group = refl; same_state = refl }

quiet_task-SameWork : (q : Quiet) (now : ℕ) (t : Task) → SameWork t (quiet_task q now t)
quiet_task-SameWork unreadable now t = record {
  same_id = refl;
  same_group = refl;
  same_state = refl;
}
quiet_task-SameWork readable now t = record { same_id = refl; same_group = refl; same_state = refl }
quiet_task-SameWork unbound now t = record { same_id = refl; same_group = refl; same_state = refl }
quiet_task-SameWork (exited reason turns) now t = record {
  same_id = refl;
  same_group = refl;
  same_state = refl;
}
quiet_task-SameWork (moved_to branch) now t = record {
  same_id = refl;
  same_group = refl;
  same_state = refl;
}
quiet_task-SameWork (learned n k) now t = ground arith
quiet_task-SameWork (transcribed size) now t = record {
  same_id = refl;
  same_group = refl;
  same_state = refl;
}

pub quietly-IsQuiet :
    (q : Quiet) (i : String) (now : ℕ) (l : Ledger) → IsQuiet l (quietly q i now l).0
quietly-IsQuiet q i now l =
    on_task-IsQuiet i (quiet_guard q) (quiet_task q now) l (quiet_task-SameWork q now)

pub on_merge-IsQuiet :
    (i : String) (change : Change) (l : Ledger) → IsQuiet l (on_merge change (task i l.tasks) l).0
on_merge-IsQuiet i change l = go (task i l.tasks) refl
  where
    on_change :
        (t : Task) (r : ReviewState)
        → task i l.tasks ≡ some t
        → (c : Option (MergeState × Bool)) → IsQuiet l (changed_task t r c l).0
    on_change t r e none = same-IsQuiet l
    on_change t r e (some (m, b)) =
        let t' = record t { review = some (record r { auto_merge = some m }) } in
        replaced-IsQuiet i t t' l (record l { tasks = put_task t' l.tasks }) e
          (record { same_id = refl; same_group = refl; same_state = refl })
          (keeps_all (record l { tasks = put_task t' l.tasks }))

    on_found :
        (t : Task)
        → task i l.tasks ≡ some t
        → (o : Option ReviewState) → IsQuiet l (changed_review change t o l).0
    on_found t e none = same-IsQuiet l
    on_found t e (some r) = on_change t r e (change r)

    go : (o : Option Task) → task i l.tasks ≡ o → IsQuiet l (on_merge change o l).0
    go none e = same-IsQuiet l
    go (some t) e = elim (Bool-cases (same_status t.status pr_open)) [
      | inl y ↦ rw y (on_found t e t.review)
      | inr n ↦ rw n (same-IsQuiet l)
    ]

observe-IsQuiet :
    (i : String) (o : Observation) (now : ℕ) (l : Ledger) → IsQuiet l (observe i o now l).0
unfolding observe
observe-IsQuiet i o now l = go (task i l.tasks) refl
  where
    on_task :
        (t : Task) (r : ReviewState) (b : Bool)
        → task i l.tasks ≡ some t
        → IsQuiet l (observed_task o now t r b l).0
    on_task t r b e =
        let t' = record t { review = some (observed o now r).0 } in
        replaced-IsQuiet i t t' l (record l { tasks = put_task t' l.tasks }) e
          (record { same_id = refl; same_group = refl; same_state = refl })
          (keeps_all (record l { tasks = put_task t' l.tasks }))

    on_found :
        (t : Task)
        → task i l.tasks ≡ some t
        → (r : Option ReviewState) → IsQuiet l (observe_open o now t r l).0
    on_found t e none = on_task t no_review true e
    on_found t e (some r) = on_task t r false e

    go : (x : Option Task) → task i l.tasks ≡ x → IsQuiet l (observe_task o now x l).0
    go none e = same-IsQuiet l
    go (some t) e = elim (Bool-cases (same_status t.status pr_open)) [
      | inl y ↦ rw y (on_found t e t.review)
      | inr n ↦ rw n (same-IsQuiet l)
    ]

reported_task-SameWork :
    (res : RoundResult) (now : ℕ) (t : Task) → SameWork t (reported_task res now t)
reported_task-SameWork res now t = ground arith

pub follow-IsQuiet :
    (line : String → String) (i : String) (e : RoundEvent) (l : Ledger)
    → IsQuiet l (follow line i e l)
unfolding add_round round_running fail_round begin_round_report clear_round_report exhaust_rounds
    finish_round record_round_replies mark_ready mark_done
follow-IsQuiet line i (do_round d most now) l =
    on_review-IsQuiet i (new_round d most now) (λ t. t) (λ k. k) l same_work keeps_all
follow-IsQuiet line i (do_start n st now) l =
    on_review-IsQuiet i (start_round n st now) (resumed_by st now) (counted_session now) l
      (λ t. record { same_id = refl; same_group = refl; same_state = refl })
      (λ k. record {
        same_tasks = refl;
        same_tracks = refl;
        same_resolved = refl;
        same_recurred = refl;
        same_merged = refl;
      })
follow-IsQuiet line i (do_break n from reason now) l =
    on_review-IsQuiet i (break_round n from reason now) (touched now) counted_failure l
      (λ t. record { same_id = refl; same_group = refl; same_state = refl })
      (λ k. record {
        same_tasks = refl;
        same_tracks = refl;
        same_resolved = refl;
        same_recurred = refl;
        same_merged = refl;
      })
follow-IsQuiet line i (do_begin n guard now) l =
    on_review-IsQuiet i (begin_report n guard now) (λ t. t) (λ k. k) l same_work keeps_all
follow-IsQuiet line i (do_clear n guard) l =
    on_review-IsQuiet i (clear_report n guard) (λ t. t) (λ k. k) l same_work keeps_all
follow-IsQuiet line i do_exhaust l =
    on_review-IsQuiet i exhaust (λ t. t) (λ k. k) l same_work keeps_all
follow-IsQuiet line i (do_finish n res now) l =
    on_review-IsQuiet i (finish_result line n res now) (reported_task res now)
      (counted_time now (round_of n (task i l.tasks))) l (reported_task-SameWork res now)
      (λ k. record {
        same_tasks = refl;
        same_tracks = refl;
        same_resolved = refl;
        same_recurred = refl;
        same_merged = refl;
      })
follow-IsQuiet line i (do_replies n res now) l =
    on_review-IsQuiet i (reply_result line n res now) (reported_task res now) (λ k. k) l
      (reported_task-SameWork res now) keeps_all
follow-IsQuiet line i (do_exit n reason turns) l =
    on_review-IsQuiet i (note_exit n reason turns) (λ t. t) (λ k. k) l same_work keeps_all
follow-IsQuiet line i (do_ready now) l =
    on_review-IsQuiet i (ready now) (λ t. t) (λ k. k) l same_work keeps_all
follow-IsQuiet line i (do_done head content now) l =
    on_review-IsQuiet i (done_at_head head content now) (λ t. t) (λ k. k) l same_work keeps_all
follow-IsQuiet line i (do_observe o now) l = observe-IsQuiet i o now l
