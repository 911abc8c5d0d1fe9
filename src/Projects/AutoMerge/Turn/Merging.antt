-- ===== src/Projects/AutoMerge/Turn/Merging.antt =====
-- What follows a claim of the auto-merge of projects/automerge.go, and what it does not do.
use arbetern.Base.{
  ℕ, ◌-◌, ltb, leb, str_eq, not, ◌≡◌, refl, ◌⊎◌, inl, inr, Bool, true, false, ◌||◌, none, some,
  String, arith, Bool-cases,
}
use arbetern.Projects.Ledger.{Ledger, task}
use arbetern.Projects.AutoMerge.{
  is_empty, branch_update_retry, merge_on, note_merge, claim_branch_update, branch_updated,
}
use arbetern.Projects.Review.{MergeState}
use arbetern.Projects.AutoMerge.Approvals.{Approver, approved_by, nobody, unknown}
use arbetern.Projects.AutoMerge.Turn.{
  Answer, answer, refused, Enabling, enabled, mergeable_now, not_enabled, GitHub, enable_call,
  update_call, World, made, PrWatch, Settings, Saved, lost, saved, merge_ledger, save, approver_of,
  wait_with, note_with, after_note, merge_now, max_branch_updates,
}
use arbetern.Projects.AutoMerge.Turn.Delay.{
  is_mergeable, noted_on, enable_with, enable, enable_for, on_decision, claimed_merge, update_state,
  update_for, after_update_claim, after_update,
}
use arbetern.Projects.AutoMerge.Turn.Guards.{
  has_merged, has_enabled, merge_ledger-calls, save-calls, wait_with-calls, merge_now-approver,
}

-- Someone approved the changes.
abbrev pub HasApprover : GitHub → PrWatch → Type 0
HasApprover gh w = (x : String) × (approver_of gh w ≡ approved_by x)

-- GitHub waits for a review of its own, or someone approved the changes.
abbrev pub IsReviewed : GitHub → PrWatch → Type 0
IsReviewed gh w =
    ((d : String) × (gh.decision ≡ answer d) × (is_empty d ≡ false)) ⊎ HasApprover gh w

-- What may have been asked of GitHub in a turn that had asked for nothing.
abbrev pub Asks : GitHub → PrWatch → World → Type 0
Asks gh w v = (has_merged v ≡ true → HasApprover gh w) × (has_enabled v ≡ true → IsReviewed gh w)

abbrev pub has_asked : World → Bool
has_asked v = has_merged v || has_enabled v

module _ (gh : GitHub) (line : String → String) (w : PrWatch) (settings : Settings) where
  waits-Asks :
      (led : Ledger) (note : String) (warn : Bool) (at : ℕ) (v : World)
      → (has_enabled v ≡ true → IsReviewed gh w)
      → has_merged v ≡ false
      → Asks gh w (wait_with gh line w led note warn at v).1
  waits-Asks led note warn at v r idle =
      let (m, n) = wait_with-calls gh line w led note warn at v in
      (λ h. absurd (ground (arith, m, h, idle)), λ h. r (ground (arith, n, h)))

  merge_now-Asks :
      (led : Ledger) (armed_at now : ℕ) (v : World)
      → (has_enabled v ≡ true → IsReviewed gh w)
      → has_merged v ≡ false
      → Asks gh w (merge_now gh line w led armed_at now v).1
  merge_now-Asks led armed_at now v r idle =
      let (m, n) = merge_now-approver gh line w led armed_at now v idle in
      (m, λ h. r (ground (arith, n, h)))

  enable-Asks :
      (led : Ledger) (armed_at now : ℕ) (v : World)
      → IsReviewed gh w
      → has_merged v ≡ false
      → Asks gh w (enable gh line w settings led armed_at now v).1
  enable-Asks led armed_at now v r idle = go gh.enabling
    where
      quiet_noted :
          (led' : Ledger) (u : World)
          → has_merged u ≡ false
          → Asks gh w (noted_on gh line w settings (led', u)).1
      quiet_noted led' u h = elim (task w.task_id led'.tasks) [
        | none ↦ (λ k. absurd (ground (arith, k, h)), λ k. r)
        | some t ↦ (λ k. absurd (ground (arith, k, h)), λ k. r)
      ]

      go :
          (e : Enabling)
          → Asks gh w (enable_with gh line w settings e led armed_at now (made enable_call v)).1
      go mergeable_now =
          merge_now-Asks led armed_at now (made enable_call v) (λ h. r) (ground (arith, idle))
      go (not_enabled e) =
          waits-Asks led _ true now (made enable_call v) (λ h. r) (ground (arith, idle))
      go enabled =
          let fn = merge_on w.task_id w.content w.head_sha w.base_ref true now in
          let c = save-calls gh line w fn led (made enable_call v) in
          quiet_noted (save fn led (made enable_call v)).0 (save fn led (made enable_call v)).1
            (rw c (ground (arith, idle)))

  -- What a claim that succeeded asks of GitHub.
  pub claimed_merge-Asks :
      (led : Ledger) (armed_at now : ℕ) (v : World)
      → has_merged v ≡ false
      → has_enabled v ≡ false
      → Asks gh w (claimed_merge gh line w settings led armed_at now v).1
  unfolding claimed_merge
  claimed_merge-Asks led armed_at now v idle quiet = elim (Bool-cases (is_mergeable w)) [
    | inl y ↦ rw y (merge_now-Asks led armed_at now v none_yet idle)
    | inr n ↦ rw n (on_answer gh.decision refl)
  ]
    where
      none_yet : has_enabled v ≡ true → IsReviewed gh w
      none_yet h = absurd (ground (arith, h, quiet))

      on_approver :
          (a : Approver)
          → approver_of gh w ≡ a
          → Asks gh w (enable_for gh line w settings a led armed_at now v).1
      on_approver unknown e = waits-Asks led _ true armed_at v none_yet idle
      on_approver nobody e = waits-Asks led _ false now v none_yet idle
      on_approver (approved_by x) e = enable-Asks led armed_at now v (inr (x, e)) idle

      on_answer :
          (a : Answer {0} String)
          → gh.decision ≡ a
          → Asks gh w (on_decision gh line w settings a led armed_at now v).1
      on_answer (refused e) q = waits-Asks led _ true armed_at v none_yet idle
      on_answer (answer d) q = elim (Bool-cases (is_empty d)) [
        | inl y ↦ rw y (on_approver (approver_of gh w) refl)
        | inr n ↦ rw n (enable-Asks led armed_at now v (inl (d, q, n)) idle)
      ]

  pub note_with-Idle :
      (led : Ledger) (note head : String) (warn : Bool) (v : World)
      → has_asked v ≡ false
      → has_asked (note_with gh line w led note head warn v).1 ≡ false
  unfolding note_with
  note_with-Idle led note head warn v idle =
      let fn = note_merge w.task_id (line note) head warn in
      go (merge_ledger fn led v) (merge_ledger-calls fn led v)
    where
      go :
          (o : Saved × World)
          → o.1.calls ≡ v.calls
          → has_asked (after_note gh line w led (line note) o).1 ≡ false
      go (lost, u) e = rw e idle
      go (saved next b, u) e = ground (arith, e, idle)

  save-Idle :
      (fn : Ledger → Ledger × Bool) (led : Ledger) (v : World)
      → has_asked v ≡ false
      → has_asked (save fn led v).1 ≡ false
  save-Idle fn led v idle = let c = save-calls gh line w fn led v in rw c idle

  update-Idle :
      (led : Ledger) (now : ℕ) (v : World)
      → has_asked v ≡ false
      → has_asked
          (after_update_claim gh line w settings led
            (merge_ledger (claim_branch_update w.task_id w.head_sha now) led v)).1
        ≡ false
  update-Idle led now v idle =
      let fn = claim_branch_update w.task_id w.head_sha now in
      go (merge_ledger fn led v) (merge_ledger-calls fn led v)
    where
      on_answer :
          (next : Ledger) (u : World) (a : Answer {0} Unit)
          → has_asked u ≡ false
          → has_asked (after_update gh line w settings next u a).1 ≡ false
      on_answer next u (refused e) q = note_with-Idle next _ w.head_sha true u q
      on_answer next u (answer a) q = save-Idle (branch_updated w.task_id w.head_sha) next u q

      go :
          (o : Saved × World)
          → o.1.calls ≡ v.calls
          → has_asked (after_update_claim gh line w settings led o).1 ≡ false
      go (lost, u) e = rw e idle
      go (saved next true, u) e =
          let q : has_asked (made update_call u) ≡ false = rw e idle in
          on_answer next (made update_call u) gh.updating q
      go (saved next false, u) e = rw e idle

  -- Bringing a branch up to date neither merges nor enables anything.
  pub up_to_date-Idle :
      (m : MergeState) (led : Ledger) (now : ℕ) (v : World)
      → has_asked v ≡ false
      → has_asked (update_state gh line w settings m led now v).1 ≡ false
  up_to_date-Idle m led now v idle =
      elim (Bool-cases (
        not (str_eq w.merge_state "behind") || ltb (now - m.update_tried_at) branch_update_retry)) [
          | inl y ↦ rw y idle
          | inr n ↦ elim (Bool-cases (str_eq settings.method "rebase")) [
            | inl y ↦ rw (n, y) (note_with-Idle led _ w.head_sha true v idle)
            | inr z ↦ elim (Bool-cases (leb max_branch_updates m.updates)) [
              | inl y ↦ rw (n, z, y) (note_with-Idle led _ "" true v idle)
              | inr u ↦ rw (n, z, u) (go (approver_of gh w))
            ]
          ]
        ]
    where
      go : (a : Approver) → has_asked (update_for gh line w settings a led now v).1 ≡ false
      go (approved_by x) = update-Idle led now v idle
      go nobody = idle
      go unknown = idle
