-- ===== src/Projects/Advance/Turns.antt =====
-- What a turn of `advanceReviews` of projects/review.go may do, with `followAutoMerge` and `autoMerge` of
-- projects/automerge.go as its parts.
use arbetern.Base.{
  ℕ, ◌≤◌, ◌<◌, ◌≡◌, ◌⊎◌, refl, inl, inr, Bool, true, false, not, ◌&&◌, Option, none, some, String,
  List, [], ◌∷◌, arith, ltb, leb, Bool-cases,
}
use arbetern.Projects.Review.{ReviewState}
use arbetern.Projects.Ledger.{Ledger, task}
use arbetern.Projects.Rounds.{used, is_nil}
use arbetern.Projects.AutoMerge.{is_empty}
use arbetern.Projects.AutoMerge.Turn.{GitHub, World, review_of}
use arbetern.Projects.AutoMerge.Turn.Merging.{has_asked}
use arbetern.Projects.AutoMerge.Turn.Asking.{IsGuarded, auto_merge-IsGuarded}
use arbetern.Projects.AutoMerge.Turn.Delay.{auto_merge}
use arbetern.Projects.AutoMerge.Turn.Follow.{Turn}
use arbetern.Projects.Rounds.Deciding.{Pull, Limits, unhandled, needs_round, ready_for, merge_ready}
use arbetern.Projects.Advance.{
  Posting, Advance, finish_review, stop_following, no_round, with_need, on_review_left,
  after_follow, follow, is_outdated, advance_found, advance,
}
use arbetern.Projects.Advance.Idle.{
  IsIdle, follow_auto_merge-IsIdle, finish_review-IsIdle, stop_following-IsIdle,
}

module _ (gh : GitHub) (post : Posting) (line : String → String) (limits : Limits) where
  -- What a turn that acts on a pull request started from: a review with no round under way, at the head
  -- that was read, whose auto-merge state was brought up to date.
  pub record IsFollowed (p : Pull) (need : List String) (led : Ledger) (now : ℕ) (v : World)
      : Type 0 where
    pub review : ReviewState
    pub open_review : review_of (task p.watch.task_id led.tasks) ≡ some review
    pub fresh : is_outdated gh post line limits review p ≡ false
    pub needed : needs_round review (unhandled review p) now ≡ need
    pub next : Ledger
    pub world : World
    pub followed :
        follow gh post line limits need (unhandled review p) led now v ≡ (next, true, world)
    pub left : ReviewState
    pub open_left : review_of (task p.watch.task_id next.tasks) ≡ some left

  -- A turn that wants a round asks for no merge, keeps to the limit on rounds and to the pause, and does
  -- nothing after the upkeep of the auto-merge state.
  pub record IsRoundTurn (p : Pull) (led : Ledger) (now : ℕ) (v : World) (o : Advance)
      : Type 0 where
    pub need : List String
    pub wants : o.1 ≡ some need
    pub some_need : is_nil need ≡ false
    pub idle : IsIdle o.2
    pub start : IsFollowed p need led now v
    pub left_as_followed : (o.0 ≡ start.next) × (o.2 ≡ start.world)
    pub within : used start.left.rounds < limits.max_rounds
    pub paused : start.left.next_round_after ≤ now

  -- A turn that asks for a merge wants no round, and has a done review and the guards of the merge.
  pub record IsMergeTurn (p : Pull) (led : Ledger) (now : ℕ) (v : World) (o : Advance)
      : Type 0 where
    pub no_round : o.1 ≡ none
    pub start : IsFollowed p [] led now v
    pub enabled : limits.settings.auto_merge ≡ true
    pub ready : merge_ready start.left (unhandled start.review p) ≡ true
    pub guarded :
        IsGuarded gh (unhandled start.review p).watch limits.settings now start.next start.world o.2

  -- A turn that wants no round and asks for no merge.
  pub record IsQuietTurn (o : Advance) : Type 0 where
    pub no_round : o.1 ≡ none
    pub idle : IsIdle o.2

  abbrev pub IsTurn : Pull → Ledger → ℕ → World → Advance → Type 0
  IsTurn p led now v o = IsQuietTurn o ⊎ IsRoundTurn p led now v o ⊎ IsMergeTurn p led now v o

  quiet :
      {p : Pull} {led : Ledger} {now : ℕ} {v : World} (l : Ledger) (u : World)
      → IsIdle u
      → IsTurn p led now v (l, none, u)
  quiet l u e = inl (record { no_round = refl; idle = e })

  round-IsTurn :
      (p : Pull) (led : Ledger) (now : ℕ) (v : World) (x : String) (xs : List String)
      (f : IsFollowed p (x ∷ xs) led now v)
      → IsIdle f.world
      → IsTurn p led now v
          (with_need gh post line limits (x ∷ xs) f.left (unhandled f.review p) f.next now f.world)
  round-IsTurn p led now v x xs f idle =
      elim (Bool-cases (leb limits.max_rounds (used f.left.rounds))) [
        | inl y ↦
            let k = unhandled f.review p in
            let o = stop_following gh post line limits k f.next f.world in
            rw y (quiet o.0 o.1 (stop_following-IsIdle gh post line limits k f.next f.world idle))
        | inr a ↦ elim (Bool-cases (ltb now f.left.next_round_after)) [
          | inl y ↦ rw (a, y) (quiet f.next f.world idle)
          | inr b ↦
              rw (a, b)
                (inr (
                  inl (record {
                    need = x ∷ xs;
                    wants = refl;
                    some_need = refl;
                    idle = idle;
                    start = f;
                    left_as_followed = (refl, refl);
                    within = ground (arith, a);
                    paused = ground (arith, b);
                  })))
        ]
      ]

  merge-IsTurn :
      (p : Pull) (led : Ledger) (now : ℕ) (v : World) (f : IsFollowed p [] led now v)
      → IsIdle f.world
      → IsTurn p led now v
          (with_need gh post line limits [] f.left (unhandled f.review p) f.next now f.world)
  merge-IsTurn p led now v f idle =
      let k = unhandled f.review p in
      elim (Bool-cases (ready_for f.left k limits now)) [
        | inl y ↦
            let o = finish_review gh post line limits f.left k f.next now f.world in
            rw y (
              quiet o.0 o.1
                (finish_review-IsIdle gh post line limits k f.left f.next now f.world idle))
        | inr a ↦
            let may =
              limits.settings.auto_merge
              && not (is_empty k.watch.content)
              && merge_ready f.left k in
            elim (Bool-cases may) [
              | inl y ↦ rw (a, y) (asked y (has_asked (merging k).1) refl)
              | inr n ↦ rw (a, n) (quiet f.next f.world idle)
            ]
      ]
    where
      merging : Pull → Ledger × World
      merging k = auto_merge gh line k.watch limits.settings f.next now f.world

      asked :
          limits.settings.auto_merge
              && not (is_empty (unhandled f.review p).watch.content)
              && merge_ready f.left (unhandled f.review p)
            ≡ true
          → (b : Bool) → has_asked (merging (unhandled f.review p)).1 ≡ b
          → IsTurn p led now v (no_round (merging (unhandled f.review p)))
      asked y false e = quiet _ _ e
      asked y true e = inr (
          inr (record {
            no_round = refl;
            start = f;
            enabled = ground (arith, y);
            ready = ground (arith, y);
            guarded =
                auto_merge-IsGuarded gh line (unhandled f.review p).watch limits.settings f.next now
                  f.world idle e;
          }))

  -- A turn of `advanceReviews` never both wants a round and asks GitHub to merge or to turn on
  -- auto-merge. A round is wanted only for what the review still needs at its current head, with no round
  -- under way, below the limit on rounds and after the pause of a failed one, and the turn then does
  -- nothing after `followAutoMerge`. A merge, or auto-merge, is asked for only where auto-merge is on
  -- for the project, no round is needed, the review is done at this head with passing checks, no conflict
  -- and no draft, and with all guards of the auto-merge. The statement says nothing of the other calls
  -- that a turn may make: to mark the pull request ready, to comment, to update its branch, or to turn
  -- auto-merge off.
  pub advance-IsTurn :
      (p : Pull) (led : Ledger) (now : ℕ) (v : World)
      → has_asked v ≡ false
      → IsTurn p led now v (advance gh post line limits p led now v)
  unfolding advance unhandled
  advance-IsTurn p led now v idle = go (review_of (task p.watch.task_id led.tasks)) refl
    where
      left :
          (r : ReviewState)
          → review_of (task p.watch.task_id led.tasks) ≡ some r
          → is_outdated gh post line limits r p ≡ false
          → (need : List String) → needs_round r (unhandled r p) now ≡ need
          → (next : Ledger) (u : World)
          → follow gh post line limits need (unhandled r p) led now v ≡ (next, true, u)
          → IsIdle u
          → (o : Option ReviewState) → review_of (task p.watch.task_id next.tasks) ≡ o
          → IsTurn p led now v
              (on_review_left gh post line limits need o (unhandled r p) next now u)
      left r e s need n next u f i none q = quiet next u i
      left r e s [] n next u f i (some k) q =
          merge-IsTurn p led now v
            (record {
              review = r;
              open_review = e;
              fresh = s;
              needed = n;
              next = next;
              world = u;
              followed = f;
              left = k;
              open_left = q;
            })
            i
      left r e s (x ∷ xs) n next u f i (some k) q =
          round-IsTurn p led now v x xs
            (record {
              review = r;
              open_review = e;
              fresh = s;
              needed = n;
              next = next;
              world = u;
              followed = f;
              left = k;
              open_left = q;
            })
            i

      after :
          (r : ReviewState)
          → review_of (task p.watch.task_id led.tasks) ≡ some r
          → is_outdated gh post line limits r p ≡ false
          → (need : List String) → needs_round r (unhandled r p) now ≡ need
          → (t : Turn) → follow gh post line limits need (unhandled r p) led now v ≡ t
          → IsIdle t.2
          → IsTurn p led now v (after_follow gh post line limits need (unhandled r p) now t)
      after r e s need n (next, false, u) f i = quiet next u i
      after r e s need n (next, true, u) f i =
          left r e s need n next u f i (review_of (task p.watch.task_id next.tasks)) refl

      go :
          (o : Option ReviewState)
          → review_of (task p.watch.task_id led.tasks) ≡ o
          → IsTurn p led now v (advance_found gh post line limits o p led now v)
      go none e = quiet led v idle
      go (some r) e = elim (Bool-cases (is_outdated gh post line limits r p)) [
        | inl y ↦ rw y (quiet led v idle)
        | inr n ↦
            let q = unhandled r p in
            let need = needs_round r q now in
            rw n (
              after r e n need refl (follow gh post line limits need q led now v) refl (
                follow_auto_merge-IsIdle gh line q.watch limits.settings (not (is_nil need)) led now
                  v idle))
      ]
