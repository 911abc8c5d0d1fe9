-- ===== src/Projects/AutoMerge/Turn/Guards.antt =====
-- What stands behind each merge and each auto-merge that projects/automerge.go asks GitHub for.
use arbetern.Base.{
  ℕ, ◌≡◌, refl, inl, inr, Bool, true, false, Option, none, some, String, List, [], ◌∷◌, any, arith,
  Bool-cases,
}
use arbetern.Projects.Ledger.{Ledger}
use arbetern.Projects.AutoMerge.{merge_waits, merged_by_arbetern}
use arbetern.Projects.AutoMerge.Approvals.{Approver, approved_by, nobody, unknown}
use arbetern.Projects.AutoMerge.Turn.{
  Answer, answer, refused, GitHub, Call, enable_call, merge_call, comment_call, World, made,
  PrWatch, Saved, lost, saved, written_over, merge_ledger, save, approver_of, wait_with, merge_now,
  merge_for, after_merge, after_note,
}

-- The calls that bring a pull request in.
abbrev pub is_merge : Call → Bool
is_merge merge_call = true
is_merge _ = false

abbrev pub is_enable : Call → Bool
is_enable enable_call = true
is_enable _ = false

abbrev pub has_merged : World → Bool
has_merged v = any is_merge v.calls

abbrev pub has_enabled : World → Bool
has_enabled v = any is_enable v.calls

pub written_over-calls :
    (fn : Ledger → Ledger × Bool) (ls : List (Option Ledger)) (cs : List Call)
    → (written_over fn ls cs).1.calls ≡ cs
written_over-calls fn [] cs = refl
written_over-calls fn (none ∷ ls) cs = refl
written_over-calls fn (some l ∷ ls) cs = refl

pub merge_ledger-calls :
    (fn : Ledger → Ledger × Bool) (cur : Ledger) (v : World)
    → (merge_ledger fn cur v).1.calls ≡ v.calls
unfolding merge_ledger
merge_ledger-calls fn cur v = elim (Bool-cases (fn cur).1) [
  | inl y ↦ rw y (written_over-calls fn v.stored v.calls)
  | inr n ↦ rw n refl
]

module _ (gh : GitHub) (line : String → String) (w : PrWatch) where
  pub wait_with-calls :
      (led : Ledger) (note : String) (warn : Bool) (at : ℕ) (v : World)
      → (has_merged (wait_with gh line w led note warn at v).1 ≡ has_merged v)
        × (has_enabled (wait_with gh line w led note warn at v).1 ≡ has_enabled v)
  unfolding wait_with
  wait_with-calls led note warn at v =
      go (merge_ledger (merge_waits w.task_id w.snapshot (line note) warn at) led v)
        (merge_ledger-calls (merge_waits w.task_id w.snapshot (line note) warn at) led v)
    where
      go :
          (o : Saved × World)
          → o.1.calls ≡ v.calls
          → (has_merged (after_note gh line w led (line note) o).1 ≡ has_merged v)
            × (has_enabled (after_note gh line w led (line note) o).1 ≡ has_enabled v)
      go (lost, u) e = rw e (refl, refl)
      go (saved next b, u) e = ground (arith, e)

  pub save-calls :
      (fn : Ledger → Ledger × Bool) (led : Ledger) (v : World) → (save fn led v).1.calls ≡ v.calls
  save-calls fn led v = merge_ledger-calls fn led v

  -- A merge is asked for with an approver only, and nothing is enabled along with it.
  pub merge_now-approver :
      (led : Ledger) (armed_at now : ℕ) (v : World)
      → has_merged v ≡ false
      → (has_merged (merge_now gh line w led armed_at now v).1 ≡ true
          → (x : String) × (approver_of gh w ≡ approved_by x))
        × (has_enabled (merge_now gh line w led armed_at now v).1 ≡ has_enabled v)
  unfolding merge_now
  merge_now-approver led armed_at now v idle = go (approver_of gh w) refl
    where
      on_merge :
          (a : Answer {0} Unit)
          → has_enabled (after_merge gh line w led now (made merge_call v) a).1 ≡ has_enabled v
      on_merge (refused e) = (wait_with-calls led _ true now (made merge_call v)).1
      on_merge (answer a) =
          let e =
            save-calls (merged_by_arbetern w.task_id now) led
              (made comment_call (made merge_call v)) in
          rw e refl

      go :
          (a : Approver)
          → approver_of gh w ≡ a
          → (has_merged (merge_for gh line w a led armed_at now v).1 ≡ true
              → (x : String) × (approver_of gh w ≡ approved_by x))
            × (has_enabled (merge_for gh line w a led armed_at now v).1 ≡ has_enabled v)
      go unknown e =
          let (m, n) = wait_with-calls led _ true armed_at v in
          (λ h. absurd (ground (arith, m, h, idle)), n)
      go nobody e =
          let (m, n) = wait_with-calls led _ false now v in
          (λ h. absurd (ground (arith, m, h, idle)), n)
      go (approved_by x) e = (λ h. (x, e), on_merge gh.merging)
