-- ===== src/Projects/AutoMerge/Turn/Asking.antt =====
-- The turn of an auto-merge of projects/automerge.go asks GitHub for a merge only behind its guards.
use arbetern.Base.{
  ℕ, ◌-◌, ◌*◌, ◌≤◌, ◌≡◌, refl, inl, inr, Bool, true, false, not, ◌||◌, ◌==◌, Option, none, some,
  String, List, [], ◌∷◌, arith, str_eq, leb→le, Bool-cases,
}
use arbetern.Base.Duration.{minute}
use arbetern.Projects.Review.{MergeState, ReviewState, pr_open}
use arbetern.Projects.Ledger.{Task, Ledger, task}
use arbetern.Projects.Ledger.Lifecycle.{same_status}
use arbetern.Projects.AutoMerge.{
  or_new, arm_merge, claim_merge, claim, on_merge, changed_review, changed_task, is_done_at,
  may_claim,
}
use arbetern.Projects.AutoMerge.Claims.{claimed_state}
use arbetern.Projects.AutoMerge.Approvals.Standing.{IsApproved, approver-IsApproved}
use arbetern.Projects.AutoMerge.Turn.{
  GitHub, World, PrWatch, Settings, Saved, lost, saved, written_over, merge_ledger, save, review_of,
  head_of,
}
use arbetern.Projects.AutoMerge.Turn.Delay.{
  after_claim, keep_up_to_date, delay_passed, on_github_state, on_state, on_found, auto_merge,
}
use arbetern.Projects.AutoMerge.Turn.Guards.{
  has_merged, has_enabled, save-calls, merge_ledger-calls,
}
use arbetern.Projects.AutoMerge.Turn.Merging.{
  HasApprover, IsReviewed, has_asked, claimed_merge-Asks, up_to_date-Idle,
}

-- The ledger that the claim wrote to: it had the pull request open, its review done at this head with
-- no round under way, and the delay for this state of the pull request still running.
pub record IsClaimed (w : PrWatch) (ls : List (Option Ledger)) : Type 0 where
  pub ledger : Ledger
  pub rest : List (Option Ledger)
  pub found : ls ≡ some ledger ∷ rest
  pub review : ReviewState
  pub open_review : review_of (task w.task_id ledger.tasks) ≡ some review
  pub done : is_done_at w.head_sha review ≡ true
  pub armed : may_claim w.snapshot (or_new review.auto_merge) ≡ true

-- The review that the turn started from: off at GitHub, and the delay over.
pub record IsDue (w : PrWatch) (settings : Settings) (now : ℕ) (led : Ledger) : Type 0 where
  pub review : ReviewState
  pub open_review : review_of (task w.task_id led.tasks) ≡ some review
  pub off : w.on_github ≡ false
  pub same : str_eq (or_new review.auto_merge).snapshot w.snapshot ≡ true
  pub waited : settings.delay_minutes * minute ≤ now - (or_new review.auto_merge).armed_at

claim-IsClaimed :
    (w : PrWatch) (l : Ledger) (ls : List (Option Ledger))
    → (claim_merge w.task_id w.head_sha w.snapshot l).1 ≡ true
    → IsClaimed w (some l ∷ ls)
claim-IsClaimed w l ls h = on_task (task w.task_id l.tasks) refl h
  where
    on_change :
        (t : Task) (r : ReviewState) (c : Option (MergeState × Bool))
        → claim w.head_sha w.snapshot r ≡ c
        → review_of (task w.task_id l.tasks) ≡ some r
        → (changed_task t r c l).1 ≡ true
        → IsClaimed w (some l ∷ ls)
    on_change t r none c e k = absurd (ground (arith, k))
    on_change t r (some (m, b)) c e k =
        let (done, may) = claimed_state w.head_sha w.snapshot r (rw c k) in
        record {
          ledger = l;
          rest = ls;
          found = refl;
          review = r;
          open_review = e;
          done = done;
          armed = may;
        }

    on_found_review :
        (t : Task) (o : Option ReviewState)
        → review_of (task w.task_id l.tasks) ≡ o
        → (changed_review (claim w.head_sha w.snapshot) t o l).1 ≡ true
        → IsClaimed w (some l ∷ ls)
    on_found_review t none e k = absurd (ground (arith, k))
    on_found_review t (some r) e k = on_change t r (claim w.head_sha w.snapshot r) refl e k

    on_task :
        (o : Option Task)
        → task w.task_id l.tasks ≡ o
        → (on_merge (claim w.head_sha w.snapshot) o l).1 ≡ true
        → IsClaimed w (some l ∷ ls)
    on_task none e k = absurd (ground (arith, k))
    on_task (some t) e k = elim (Bool-cases (same_status t.status pr_open)) [
      | inl y ↦ on_found_review t t.review (rw (e, y) refl) (rw y at k)
      | inr n ↦ let q : false ≡ true = rw n at k in absurd (ground (arith, q))
    ]

-- A claim that the store took was written_over over the first ledger that stood there.
written_over-IsClaimed :
    (w : PrWatch) (led next : Ledger) (v u : World)
    → merge_ledger (claim_merge w.task_id w.head_sha w.snapshot) led v ≡ (saved next true, u)
    → IsClaimed w v.stored
unfolding merge_ledger
written_over-IsClaimed w led next v u h =
    elim (Bool-cases (claim_merge w.task_id w.head_sha w.snapshot led).1) [
      | inl y ↦ on_store v.stored (rw y at h)
      | inr n ↦
          let k : (saved led false, v) ≡ (saved next true, u) = rw n at h in
          let q : false ≡ true = cc in absurd (ground (arith, q))
    ]
  where
    on_store :
        (ls : List (Option Ledger))
        → written_over (claim_merge w.task_id w.head_sha w.snapshot) ls v.calls
          ≡ (saved next true, u)
        → IsClaimed w ls
    on_store [] k = absurd (ground (arith, k))
    on_store (none ∷ ls) k = absurd (ground (arith, k))
    on_store (some l ∷ ls) k =
        let q : (claim_merge w.task_id w.head_sha w.snapshot l).1 ≡ true = cc in
        claim-IsClaimed w l ls q

-- The guards of a turn that asked for a merge or for auto-merge.
pub record IsGuarded (gh : GitHub) (w : PrWatch) (settings : Settings) (now : ℕ) (led : Ledger)
    (v u : World) : Type 0 where
  pub due : IsDue w settings now led
  pub claimed : IsClaimed w v.stored
  pub merged_with :
      has_merged u ≡ true → (x : String) × IsApproved gh.can_push (head_of w) w.reviews x
  pub enabled_with : has_enabled u ≡ true → IsReviewed gh w

module _ (gh : GitHub) (line : String → String) (w : PrWatch) (settings : Settings) (led : Ledger)
    (now : ℕ) (v : World) where
  approver-found : HasApprover gh w → (x : String) × IsApproved gh.can_push (head_of w) w.reviews x
  approver-found (x, e) = (x, approver-IsApproved gh.can_push (head_of w) w.reviews x e)

  claimed-IsGuarded :
      (m : MergeState)
      → IsDue w settings now led
      → has_asked v ≡ false
      → let r =
          after_claim gh line w settings led m.armed_at now
            (merge_ledger (claim_merge w.task_id w.head_sha w.snapshot) led v) in
        has_asked r.1 ≡ true → IsGuarded gh w settings now led v r.1
  claimed-IsGuarded m due idle =
      let fn = claim_merge w.task_id w.head_sha w.snapshot in
      go (merge_ledger fn led v) refl (merge_ledger-calls fn led v)
    where
      go :
          (o : Saved × World)
          → merge_ledger (claim_merge w.task_id w.head_sha w.snapshot) led v ≡ o
          → o.1.calls ≡ v.calls
          → has_asked (after_claim gh line w settings led m.armed_at now o).1 ≡ true
          → IsGuarded gh w settings now led v
              (after_claim gh line w settings led m.armed_at now o).1
      go (lost, u) e c h = absurd (ground (arith, c, h, idle))
      go (saved next false, u) e c h = absurd (ground (arith, c, h, idle))
      go (saved next true, u) e c h =
          let quiet : has_asked u ≡ false = rw c idle in
          let (merges, enables) =
            claimed_merge-Asks gh line w settings next m.armed_at now u (ground (arith, quiet))
              (ground (arith, quiet)) in
          record {
            due = due;
            claimed = written_over-IsClaimed w led next v u e;
            merged_with = λ k. approver-found (merges k);
            enabled_with = enables;
          }

  on_state-IsGuarded :
      (r : ReviewState)
      → review_of (task w.task_id led.tasks) ≡ some r
      → has_asked v ≡ false
      → let o = on_state gh line w settings (or_new r.auto_merge) r led now v in
        has_asked o.1 ≡ true → IsGuarded gh w settings now led v o.1
  on_state-IsGuarded r e idle h =
      let m = or_new r.auto_merge in
      elim (Bool-cases (m.held || m.withdrawing || not (m.merged_at == 0))) [
        | inl y ↦ let k : has_asked v ≡ true = rw y at h in absurd (ground (arith, k, idle))
        | inr a ↦ rw a (on_github w.on_github refl (rw a at h))
      ]
    where
      keep-Idle :
          (o : Option MergeState)
          → has_asked (keep_up_to_date gh line w settings o led now v).1 ≡ false
      keep-Idle none = idle
      keep-Idle (some m) = up_to_date-Idle gh line w settings m led now v idle

      due :
          (r : ReviewState)
          → review_of (task w.task_id led.tasks) ≡ some r
          → w.on_github ≡ false
          → str_eq (or_new r.auto_merge).snapshot w.snapshot ≡ true
          → delay_passed gh line w settings (or_new r.auto_merge) now ≡ true
          → IsDue w settings now led
      due r e b c d = record {
        review = r;
        open_review = e;
        off = b;
        same = c;
        waited = leb→le _ _ d;
      }

      on_github :
          (b : Bool)
          → w.on_github ≡ b
          → has_asked (on_github_state gh line w settings b (or_new r.auto_merge) r led now v).1
            ≡ true
          → IsGuarded gh w settings now led v
              (on_github_state gh line w settings b (or_new r.auto_merge) r led now v).1
      on_github true b k = absurd (ground (arith, k, keep-Idle r.auto_merge))
      on_github false b k =
          let m = or_new r.auto_merge in
          elim (Bool-cases (not (str_eq m.snapshot w.snapshot) || (m.armed_at == 0))) [
            | inl y ↦
                let fn = arm_merge w.task_id w.snapshot now in
                let l : has_asked (save fn led v).1 ≡ true = rw y at k in
                let c = save-calls gh line w fn led v in absurd (ground (arith, l, c, idle))
            | inr c ↦ elim (Bool-cases (delay_passed gh line w settings m now)) [
              | inr z ↦
                  let l : has_asked v ≡ true = rw (c, z) at k in absurd (ground (arith, l, idle))
              | inl y ↦
                  rw (c, y)
                    (claimed-IsGuarded m (due r e b (ground (arith, c)) y) idle (rw (c, y) at k))
            ]
          ]

  -- A turn that asks GitHub to merge, or to turn on auto-merge, read a review whose delay has passed for
  -- the pull request as it stands now, with auto-merge off at GitHub; it claimed the merge over a stored
  -- ledger in which the review is done at this head, no round runs and the delay for this state of the
  -- pull request was still running; it merges only with an approver, and turns on auto-merge only
  -- while GitHub has a review decision, or with an approver.
  pub auto_merge-IsGuarded :
      has_asked v ≡ false
      → has_asked (auto_merge gh line w settings led now v).1 ≡ true
      → IsGuarded gh w settings now led v (auto_merge gh line w settings led now v).1
  unfolding auto_merge
  auto_merge-IsGuarded idle h = go (review_of (task w.task_id led.tasks)) refl h
    where
      go :
          (o : Option ReviewState)
          → review_of (task w.task_id led.tasks) ≡ o
          → has_asked (on_found gh line w settings o led now v).1 ≡ true
          → IsGuarded gh w settings now led v (on_found gh line w settings o led now v).1
      go none e k = absurd (ground (arith, k, idle))
      go (some r) e k = on_state-IsGuarded r e idle k
