-- ===== src/Projects/AutoMerge/Turn/Follow.antt =====
-- How the state of an auto-merge follows what is on at GitHub: `followAutoMerge`, `heldBy` and
-- `withdrawAutoMerge` of projects/automerge.go, and what `advanceReviews` of projects/review.go does
-- for one pull request that it follows. A result is the ledger, whether the turn may go on, and the
-- world.
use arbetern.Base.{
  ℕ, Bool, true, false, not, ◌&&◌, ◌||◌, ◌==◌, Option, none, some, String, if◌then◌else◌,
}
use Prim.Native.String.{◌++◌ as text_append}
use arbetern.Projects.Review.{MergeState, ReviewState}
use arbetern.Projects.Ledger.{Ledger, task}
use arbetern.Projects.Ledger.PullRequest.{equal_fold}
use arbetern.Projects.AutoMerge.{
  or_new, is_empty, disarm_merge, merge_on, withdraw_merge, merge_off, attribute_hold,
}
use arbetern.Projects.AutoMerge.Changes.{content_moved}
use arbetern.Projects.AutoMerge.Turn.{
  Answer, answer, refused, GitHub, disable_call, World, made, PrWatch, Settings, Saved, lost, saved,
  merge_ledger, save, review_of, note_with, merge_hold,
}

abbrev pub Turn : Type 0
Turn = Ledger × Bool × World

-- The person that turned auto-merge off, or the empty text for arbetern itself: `heldBy`.
abbrev pub holder : GitHub → Answer {0} String → Answer {0} String
holder gh (refused e) = refused e
holder gh (answer by) = if equal_fold by gh.login then answer "" else answer by

abbrev pub held_by : GitHub → Answer {0} String
held_by gh = holder gh gh.disabled_by

module _ (gh : GitHub) (line : String → String) (w : PrWatch) (settings : Settings) where
  abbrev pub after_off : Ledger → Saved × World → Turn
  after_off led (lost, v) = (led, true, v)
  after_off led (saved next b, v) = (next, true, v)

  abbrev pub withdraw_note : String → String
  withdraw_note e =
      text_append
        "arbetern could not turn off auto-merge, so nothing else happens on this pull request until it can: "
        e

  abbrev pub unable : Ledger × World → Turn
  unable (next, v) = (next, false, v)

  abbrev pub after_disable : Ledger → World → Answer {0} Unit → Turn
  after_disable led v (refused e) = unable (note_with gh line w led (withdraw_note e) "" true v)
  after_disable led v (answer a) = after_off led (merge_ledger (merge_off w.task_id "") led v)

  abbrev pub after_withdraw : Ledger → Saved × World → Turn
  after_withdraw led (lost, v) = (led, false, v)
  after_withdraw led (saved next b, v) = after_disable next (made disable_call v) gh.disabling

  -- `withdrawAutoMerge`.
  unfoldable pub withdraw_auto_merge : Ledger → World → Turn
  withdraw_auto_merge led v = after_withdraw led (merge_ledger (withdraw_merge w.task_id) led v)

  abbrev pub recorded : (Ledger → Ledger × Bool) → Ledger → World → Turn
  recorded fn led v = let (next, u) = save fn led v in (next, true, u)

  -- The record of a hold, once GitHub tells who turned auto-merge off.
  abbrev pub record_holder :
      (String → Ledger → Ledger × Bool) → Answer {0} String → Ledger → World → Turn
  record_holder fn (refused e) led v = (led, true, v)
  record_holder fn (answer by) led v = recorded (fn by) led v

  -- Whether arbetern's own auto-merge has to go off.
  abbrev pub must_withdraw : MergeState → ReviewState → Bool → Bool
  must_withdraw m r needs =
      w.on_github
      && w.ours
      && (m.withdrawing
          || not settings.auto_merge
          || merge_hold r w needs
          || content_moved w.content w.lineage w.base_ref w.head_sha m)

  abbrev pub follow_state : MergeState → ReviewState → Bool → Ledger → ℕ → World → Turn
  follow_state m r needs led now v =
      if must_withdraw m r needs
      then withdraw_auto_merge led v
      else if m.withdrawing
      then recorded (merge_off w.task_id "") led v
      else if m.on && not w.on_github
      then record_holder (λ by. merge_off w.task_id by) (held_by gh) led v
      else if settings.auto_merge && w.on_github && not m.on
      then recorded (merge_on w.task_id w.content w.head_sha w.base_ref false now) led v
      else if settings.auto_merge && m.held && is_empty m.held_by
      then record_holder (λ by. attribute_hold w.task_id by) (held_by gh) led v
      else if not (m.armed_at == 0) && (merge_hold r w needs || w.has_failed)
      then recorded (disarm_merge w.task_id) led v
      else (led, true, v)

  abbrev pub follow_found : Option ReviewState → Bool → Ledger → ℕ → World → Turn
  follow_found none needs led now v = (led, true, v)
  follow_found (some r) needs led now v = follow_state (or_new r.auto_merge) r needs led now v

  -- `followAutoMerge`, which is called with a review only.
  unfoldable pub follow_auto_merge : Bool → Ledger → ℕ → World → Turn
  follow_auto_merge needs led now v =
      follow_found (review_of (task w.task_id led.tasks)) needs led now v
