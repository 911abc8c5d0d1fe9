-- ===== src/Projects/Advance/Idle.antt =====
-- Which turns of projects/review.go and projects/automerge.go ask GitHub for no merge: the upkeep of
-- the auto-merge state, and what ends a review.
use arbetern.Base.{
  ℕ, ◌≡◌, inl, inr, Bool-cases, Bool, true, false, not, ◌&&◌, ◌||◌, ◌==◌, Option, none, some,
  String, arith, if◌then◌else◌,
}
use arbetern.Projects.Review.{MergeState, ReviewState}
use arbetern.Projects.Ledger.{Task, Ledger, task}
use arbetern.Projects.Rounds.{exhaust_rounds}
use arbetern.Projects.Rounds.Watching.{mark_ready, mark_done}
use arbetern.Projects.AutoMerge.{
  or_new, is_empty, disarm_merge, merge_on, withdraw_merge, merge_off, attribute_hold,
}
use arbetern.Projects.AutoMerge.Turn.{
  Answer, answer, refused, GitHub, disable_call, ready_call, review_call, comment_call, World, made,
  PrWatch, Settings, Saved, lost, saved, merge_ledger, review_of, merge_hold,
}
use arbetern.Projects.AutoMerge.Turn.Guards.{merge_ledger-calls}
use arbetern.Projects.AutoMerge.Turn.Merging.{has_asked, note_with-Idle}
use arbetern.Projects.AutoMerge.Turn.Follow.{
  Turn, held_by, follow_auto_merge, follow_found, follow_state, withdraw_auto_merge, after_withdraw,
  after_disable, after_off, recorded, record_holder, withdraw_note, must_withdraw,
}
use arbetern.Projects.Rounds.Deciding.{Pull, Limits, take_out_of_draft}
use arbetern.Projects.Advance.{
  Posting, finish_review, stop_following, on_marked, on_posted, on_stopped, after_save, notified,
  is_repeat,
}

-- Nothing was asked for.
abbrev pub IsIdle : World → Type 0
IsIdle v = has_asked v ≡ false

abbrev pub IsIdleTurn : Turn → Type 0
IsIdleTurn t = IsIdle t.2

abbrev pub IsIdleEnd : Ledger × World → Type 0
IsIdleEnd t = IsIdle t.1

save-IsIdle :
    (fn : Ledger → Ledger × Bool) (led : Ledger) (v : World)
    → IsIdle v
    → IsIdle (merge_ledger fn led v).1
save-IsIdle fn led v idle = let e = merge_ledger-calls fn led v in rw e idle

module _ (gh : GitHub) (line : String → String) (w : PrWatch) (settings : Settings) where
  record_holder-IsIdle :
      (fn : String → Ledger → Ledger × Bool) (a : Answer {0} String) (led : Ledger) (v : World)
      → IsIdle v
      → IsIdleTurn (record_holder gh line w settings fn a led v)
  record_holder-IsIdle fn (refused e) led v idle = idle
  record_holder-IsIdle fn (answer by) led v idle = save-IsIdle (fn by) led v idle

  withdraw-IsIdle :
      (led : Ledger) (v : World)
      → IsIdle v
      → IsIdleTurn (withdraw_auto_merge gh line w settings led v)
  unfolding withdraw_auto_merge
  withdraw-IsIdle led v idle =
      go (merge_ledger (withdraw_merge w.task_id) led v)
        (save-IsIdle (withdraw_merge w.task_id) led v idle)
    where
      off :
          (next : Ledger) (o : Saved × World)
          → IsIdle o.1
          → IsIdleTurn (after_off gh line w settings next o)
      off next (lost, u) e = e
      off next (saved l b, u) e = e

      disabled :
          (a : Answer {0} Unit) (next : Ledger) (u : World)
          → IsIdle u
          → IsIdleTurn (after_disable gh line w settings next u a)
      disabled (refused e) next u i =
          note_with-Idle gh line w settings next (withdraw_note gh line w settings e) "" true u i
      disabled (answer a) next u i =
          off next (merge_ledger (merge_off w.task_id "") next u)
            (save-IsIdle (merge_off w.task_id "") next u i)

      go : (o : Saved × World) → IsIdle o.1 → IsIdleTurn (after_withdraw gh line w settings led o)
      go (lost, u) e = e
      go (saved next b, u) e = disabled gh.disabling next (made disable_call u) (ground (arith, e))

  follow_state-IsIdle :
      (m : MergeState) (r : ReviewState) (needs : Bool) (led : Ledger) (now : ℕ) (v : World)
      → IsIdle v
      → IsIdleTurn (follow_state gh line w settings m r needs led now v)
  follow_state-IsIdle m r needs led now v idle =
      elim (Bool-cases (must_withdraw gh line w settings m r needs)) [
        | inl y ↦ rw y (withdraw-IsIdle led v idle)
        | inr a ↦ elim (Bool-cases m.withdrawing) [
          | inl y ↦ rw (a, y) (stays (merge_off w.task_id ""))
          | inr b ↦ elim (Bool-cases (m.on && not w.on_github)) [
            | inl y ↦ rw (a, b, y) (named (λ by. merge_off w.task_id by))
            | inr c ↦ elim (Bool-cases (settings.auto_merge && w.on_github && not m.on)) [
              | inl y ↦
                  rw (a, b, c, y)
                    (stays (merge_on w.task_id w.content w.head_sha w.base_ref false now))
              | inr d ↦ elim (Bool-cases (settings.auto_merge && m.held && is_empty m.held_by)) [
                | inl y ↦ rw (a, b, c, d, y) (named (λ by. attribute_hold w.task_id by))
                | inr e ↦
                    let f = not (m.armed_at == 0) && (merge_hold r w needs || w.has_failed) in
                    rw (a, b, c, d, e) (ends f)
              ]
            ]
          ]
        ]
      ]
    where
      stays : (fn : Ledger → Ledger × Bool) → IsIdleTurn (recorded gh line w settings fn led v)
      stays fn = save-IsIdle fn led v idle

      named :
          (fn : String → Ledger → Ledger × Bool)
          → IsIdleTurn (record_holder gh line w settings fn (held_by gh) led v)
      named fn = record_holder-IsIdle fn (held_by gh) led v idle

      ends :
          (f : Bool)
          → IsIdleTurn (
              if f
              then recorded gh line w settings (disarm_merge w.task_id) led v
              else (led, true, v))
      ends true = stays (disarm_merge w.task_id)
      ends false = idle

  pub follow_auto_merge-IsIdle :
      (needs : Bool) (led : Ledger) (now : ℕ) (v : World)
      → IsIdle v
      → IsIdleTurn (follow_auto_merge gh line w settings needs led now v)
  unfolding follow_auto_merge
  follow_auto_merge-IsIdle needs led now v idle = go (review_of (task w.task_id led.tasks))
    where
      go : (o : Option ReviewState) → IsIdleTurn (follow_found gh line w settings o needs led now v)
      go none = idle
      go (some r) = follow_state-IsIdle (or_new r.auto_merge) r needs led now v idle

module _ (gh : GitHub) (post : Posting) (line : String → String) (limits : Limits) (p : Pull) where
  after_save-IsIdle :
      (led : Ledger) (o : Saved × World)
      → IsIdle o.1
      → IsIdleEnd (after_save gh post line limits p.watch.task_id led o)
  after_save-IsIdle led (lost, u) e = e
  after_save-IsIdle led (saved next b, u) e = go (task p.watch.task_id next.tasks)
    where
      go : (o : Option Task) → IsIdleEnd (notified gh post line limits p.watch.task_id next o u)
      go none = e
      go (some t) = ground (arith, e)

  pub stop_following-IsIdle :
      (led : Ledger) (v : World) → IsIdle v → IsIdleEnd (stop_following gh post line limits p led v)
  unfolding stop_following
  stop_following-IsIdle led v idle = go post.commenting
    where
      go :
          (a : Answer {0} Unit)
          → IsIdleEnd (on_stopped gh post line limits a p led (made comment_call v))
      go (refused e) = ground (arith, idle)
      go (answer a) =
          let fn = exhaust_rounds p.watch.task_id in
          after_save-IsIdle led (merge_ledger fn led (made comment_call v))
            (save-IsIdle fn led (made comment_call v) (ground (arith, idle)))

  pub finish_review-IsIdle :
      (r : ReviewState) (led : Ledger) (now : ℕ) (v : World)
      → IsIdle v
      → IsIdleEnd (finish_review gh post line limits r p led now v)
  unfolding finish_review
  finish_review-IsIdle r led now v idle = elim (Bool-cases (take_out_of_draft r p)) [
    | inl y ↦ rw y (marked post.marking)
    | inr a ↦ elim (Bool-cases (is_empty p.watch.content && not (is_empty r.done_content))) [
      | inl y ↦ rw (a, y) idle
      | inr b ↦ elim (Bool-cases (is_repeat gh post line limits r p)) [
        | inl y ↦ rw (a, b, y) (save-IsIdle done led v idle)
        | inr c ↦ rw (a, b, c) (posted post.commenting)
      ]
    ]
  ]
    where
      done : Ledger → Ledger × Bool
      done = mark_done p.watch.task_id p.watch.head_sha p.watch.content now

      marked :
          (a : Answer {0} Unit)
          → IsIdleEnd (on_marked gh post line limits a p led now (made ready_call v))
      marked (refused e) = ground (arith, idle)
      marked (answer a) =
          save-IsIdle (mark_ready p.watch.task_id now) led (made review_call (made ready_call v))
            (ground (arith, idle))

      posted :
          (a : Answer {0} Unit)
          → IsIdleEnd (on_posted gh post line limits a p led now (made comment_call v))
      posted (refused e) = ground (arith, idle)
      posted (answer a) =
          after_save-IsIdle led (merge_ledger done led (made comment_call v))
            (save-IsIdle done led (made comment_call v) (ground (arith, idle)))
