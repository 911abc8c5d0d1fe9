-- ===== src/Projects/Advance.antt =====
-- What a tick does for each pull request that it follows: `finishReview`, `stopFollowing` and
-- `advanceReviews` of projects/review.go, on what was read of the pull request before.
pub mod Reading
pub mod Idle
pub mod Turns
use arbetern.Base.{
  ℕ, ◌+◌, ◌*◌, Bool, true, false, not, ◌&&◌, ◌||◌, ◌==◌, Option, none, some, String, List, [], ◌∷◌,
  ltb, leb, str_eq, if◌then◌else◌, any, filter,
}
use arbetern.Base.Duration.{minute}
use arbetern.Projects.Review.{
  Phase, unset, checking, fixing, settled, exhausted, Ci, unread, passed, failing, absent, Feedback,
  Round, ReviewState, has_active,
}
use arbetern.Projects.Ledger.{Task, Ledger, task}
use arbetern.Projects.Rounds.{used, is_exhausted, is_nil, unanswered, exhaust_rounds}
use arbetern.Projects.Rounds.Watching.{latest_stamp, mark_ready, mark_done}
use arbetern.Projects.AutoMerge.{is_empty}
use arbetern.Projects.AutoMerge.Turn.{
  Answer, answer, refused, GitHub, ready_call, review_call, comment_call, notify_call, World, made,
  PrWatch, Settings, Saved, lost, saved, merge_ledger, save, review_of,
}
use arbetern.Projects.AutoMerge.Turn.Delay.{auto_merge}
use arbetern.Projects.AutoMerge.Turn.Follow.{Turn, follow_auto_merge}
use arbetern.Projects.Rounds.Deciding.{
  ci_wait_limit, ci_no_checks_grace, Pull, Limits, is_passed, is_done, quiet_since, unhandled,
  checks_settled, needs_feedback, needs_checks, needs_conflict, needs_round, take_out_of_draft,
  ready_for, merge_ready,
}

-- What GitHub answers to `MarkReadyForReview` and to `CommentOnPullRequest`.
pub record Posting : Type 0 where
  pub marking : Answer {0} Unit
  pub commenting : Answer {0} Unit

-- The ledger, the triggers of the round that is wanted, and the world.
abbrev pub Advance : Type 0
Advance = Ledger × Option (List String) × World

abbrev pub no_round : Ledger × World → Advance
no_round (led, v) = (led, none, v)

module _ (gh : GitHub) (post : Posting) (line : String → String) (limits : Limits) where
  abbrev pub notified : String → Ledger → Option Task → World → Ledger × World
  notified i led none v = (led, v)
  notified i led (some t) v = (led, made notify_call v)

  abbrev pub after_save : String → Ledger → Saved × World → Ledger × World
  after_save i led (lost, v) = (led, v)
  after_save i led (saved next b, v) = notified i next (task i next.tasks) v

  abbrev pub on_marked : Answer {0} Unit → Pull → Ledger → ℕ → World → Ledger × World
  on_marked (refused e) p led now v = (led, v)
  on_marked (answer a) p led now v = save (mark_ready p.watch.task_id now) led (made review_call v)

  abbrev pub is_repeat : ReviewState → Pull → Bool
  is_repeat r p =
      let known = not (is_empty p.watch.content) && not (is_empty r.done_content) in
      not (r.done_at == 0)
      && ((known && str_eq r.done_content p.watch.content) || (not known && p.watch.on_github))

  abbrev pub on_posted : Answer {0} Unit → Pull → Ledger → ℕ → World → Ledger × World
  on_posted (refused e) p led now v = (led, v)
  on_posted (answer a) p led now v =
      after_save p.watch.task_id led
        (merge_ledger (mark_done p.watch.task_id p.watch.head_sha p.watch.content now) led v)

  -- `finishReview`.
  unfoldable pub finish_review : ReviewState → Pull → Ledger → ℕ → World → Ledger × World
  finish_review r p led now v =
      if take_out_of_draft r p
      then on_marked post.marking p led now (made ready_call v)
      else if is_empty p.watch.content && not (is_empty r.done_content)
      then (led, v)
      else if is_repeat r p
      then save (mark_done p.watch.task_id p.watch.head_sha p.watch.content now) led v
      else on_posted post.commenting p led now (made comment_call v)

  abbrev pub on_stopped : Answer {0} Unit → Pull → Ledger → World → Ledger × World
  on_stopped (refused e) p led v = (led, v)
  on_stopped (answer a) p led v =
      after_save p.watch.task_id led (merge_ledger (exhaust_rounds p.watch.task_id) led v)

  -- `stopFollowing`.
  unfoldable pub stop_following : Pull → Ledger → World → Ledger × World
  stop_following p led v = on_stopped post.commenting p led (made comment_call v)

  -- What follows when no round is needed.
  abbrev pub without_round : ReviewState → Pull → Ledger → ℕ → World → Ledger × World
  without_round r p led now v =
      if ready_for r p limits now
      then finish_review r p led now v
      else if limits.settings.auto_merge && not (is_empty p.watch.content) && merge_ready r p
      then auto_merge gh line p.watch limits.settings led now v
      else (led, v)

  abbrev pub with_need : List String → ReviewState → Pull → Ledger → ℕ → World → Advance
  with_need [] r p led now v = no_round (without_round r p led now v)
  with_need (x ∷ xs) r p led now v =
      if leb limits.max_rounds (used r.rounds)
      then no_round (stop_following p led v)
      else (led, if ltb now r.next_round_after then none else some (x ∷ xs), v)

  abbrev pub on_review_left : List String → Option ReviewState → Pull → Ledger → ℕ → World → Advance
  on_review_left need none p led now v = (led, none, v)
  on_review_left need (some r) p led now v = with_need need r p led now v

  abbrev pub after_follow : List String → Pull → ℕ → Turn → Advance
  after_follow need p now (led, false, v) = (led, none, v)
  after_follow need p now (led, true, v) =
      on_review_left need (review_of (task p.watch.task_id led.tasks)) p led now v

  abbrev pub follow : List String → Pull → Ledger → ℕ → World → Turn
  follow need p led now v =
      follow_auto_merge gh line p.watch limits.settings (not (is_nil need)) led now v

  -- The turn for a review that has no round under way and is still at the head that was read.
  abbrev pub advance_at : ReviewState → Pull → Ledger → ℕ → World → Advance
  advance_at r p led now v =
      let need = needs_round r p now in after_follow need p now (follow need p led now v)

  abbrev pub is_outdated : ReviewState → Pull → Bool
  is_outdated r p = has_active r || not (str_eq r.head p.watch.head_sha)

  abbrev pub advance_found : Option ReviewState → Pull → Ledger → ℕ → World → Advance
  advance_found none p led now v = (led, none, v)
  advance_found (some r) p led now v =
      if is_outdated r p then (led, none, v) else advance_at r (unhandled r p) led now v

  -- One turn of the loop of `advanceReviews`.
  unfoldable pub advance : Pull → Ledger → ℕ → World → Advance
  advance p led now v = advance_found (review_of (task p.watch.task_id led.tasks)) p led now v

  abbrev wanted :
      Pull → Option (List String) → List (Pull × List String) → List (Pull × List String)
  wanted p none ws = ws
  wanted p (some need) ws = (p, need) ∷ ws

  -- `advanceReviews`, with the rounds that are wanted in the order of the pull requests.
  unfoldable pub advance_reviews :
      List Pull → Ledger → ℕ → World → Ledger × List (Pull × List String) × World
  advance_reviews [] led now v = (led, [], v)
  advance_reviews (p ∷ ps) led now v =
      let (next, round, u) = advance p led now v in
      let (end, rounds, w) = advance_reviews ps next now u in (end, wanted p round rounds, w)
