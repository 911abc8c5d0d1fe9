-- ===== src/Projects/Ledger/Stable.antt =====
-- The changes that leave the work and the books of a ledger of projects/ledger.go alone keep its
-- invariants: the quiet ones, `pinRepo` and `expireTasks`.
use arbetern.Base.{
  ℕ, ◌+◌, ◌≤◌, ◌≡◌, refl, ◌⊎◌, inl, inr, Bool, true, String, List, [], ◌∷◌, arith, Bool-cases, max,
}
use arbetern.Projects.Review.{is_terminal}
use arbetern.Projects.Ledger.{Task, Limits, Ledger}
use arbetern.Projects.Ledger.PullRequest.{Repo}
use arbetern.Projects.Ledger.Distinct.{Remains, sub_refl, sub_skip, sub_keep, ids, open_fps}
use arbetern.Projects.Ledger.Replacing.{IsSound, put_task-IsSound, same_MayReplace}
use arbetern.Projects.Ledger.Balance.{IsBalanced}
use arbetern.Projects.Ledger.Attempts.{weight, starting, starting-put_task, tries}
use arbetern.Projects.Ledger.Budget.{IsWithin}
use arbetern.Projects.Ledger.Upkeep.{
  pin_guard, pin_all, pin_repo, is_expired_task, without_expired, expire_tasks,
}
use arbetern.Projects.Ledger.Quiet.{Replaces, IsQuiet}

pub quiet-IsSound : (b : ℕ) (l k : Ledger) → IsQuiet l k → IsSound b l.tasks → IsSound b k.tasks
quiet-IsSound b l k q s = go q.tasks
  where
    go : (k.tasks ≡ l.tasks) ⊎ Replaces l.tasks k.tasks → IsSound b k.tasks
    go (inl e) = rw e s
    go (inr (i, t, t', found, same, e)) = rw e (
        put_task-IsSound b i t t' l.tasks found
          (same_MayReplace t t' same.same_id same.same_group same.same_state) s)

pub quiet-IsBalanced : (l k : Ledger) → IsQuiet l k → IsBalanced l → IsBalanced k
quiet-IsBalanced l k q b = rw (q.resolved, q.recurred, q.merged, q.tracks) b

pub quiet-IsWithin : (m : Limits) (l k : Ledger) → IsQuiet l k → IsWithin m l → IsWithin m k
quiet-IsWithin m l k q w fp = rw (q.tracks) (go q.tasks)
  where
    go :
        (k.tasks ≡ l.tasks) ⊎ Replaces l.tasks k.tasks
        → tries fp l.tracks + starting fp k.tasks ≤ max 1 m.max_attempts
    go (inl e) = rw e (w fp)
    go (inr (i, t, t', found, same, e)) =
        let s = starting-put_task fp i t t' l.tasks found same.same_id in
        let u : weight fp t' ≡ weight fp t = rw (same.same_group, same.same_state) refl in
        rw e (omega (arith, s, u, w fp))

-- A repository that is pinned changes no id, no group and no status.
ids-pin_all : (r : Repo) (ts : List Task) → ids (pin_all r ts) ≡ ids ts
ids-pin_all r [] = refl
ids-pin_all r (t ∷ ts) = elim (Bool-cases (pin_guard t)) [
  | inl y ↦ rw (y, ids-pin_all r ts) refl
  | inr n ↦ rw (n, ids-pin_all r ts) refl
]

open_fps-pin_all : (r : Repo) (ts : List Task) → open_fps (pin_all r ts) ≡ open_fps ts
open_fps-pin_all r [] = refl
open_fps-pin_all r (t ∷ ts) = elim (Bool-cases (pin_guard t)) [
  | inl y ↦ rw (y, open_fps-pin_all r ts) refl
  | inr n ↦ rw (n, open_fps-pin_all r ts) refl
]

starting-pin_all :
    (fp : String) (r : Repo) (ts : List Task) → starting fp (pin_all r ts) ≡ starting fp ts
starting-pin_all fp r [] = refl
starting-pin_all fp r (t ∷ ts) = elim (Bool-cases (pin_guard t)) [
  | inl y ↦ rw (y, starting-pin_all fp r ts) refl
  | inr n ↦ rw (n, starting-pin_all fp r ts) refl
]

pub pin_repo-IsSound :
    (b : ℕ) (r : Repo) (l : Ledger) → IsSound b l.tasks → IsSound b (pin_repo r l).0.tasks
unfolding pin_repo
pin_repo-IsSound b r l s = record {
  distinct_ids = rw (ids-pin_all r l.tasks) s.distinct_ids;
  one_open = rw (open_fps-pin_all r l.tasks) s.one_open;
  few_open = rw (open_fps-pin_all r l.tasks) s.few_open;
}

pub pin_repo-IsWithin :
    (m : Limits) (r : Repo) (l : Ledger) → IsWithin m l → IsWithin m (pin_repo r l).0
unfolding pin_repo
pin_repo-IsWithin m r l w fp = rw (starting-pin_all fp r l.tasks) (w fp)

-- Only finished tasks expire.
expired-terminal :
    (keep now : ℕ) (l : Ledger) (t : Task)
    → is_expired_task keep now l t ≡ true
    → is_terminal t.status ≡ true
unfolding is_expired_task
expired-terminal keep now l t h = elim (Bool-cases (is_terminal t.status)) [
  | inl y ↦ y
  | inr n ↦ absurd (ground (arith, n, h))
]

module _ (p : Task → Bool) (finished : (t : Task) → p t ≡ true → is_terminal t.status ≡ true) where
  ids-without_expired : (ts : List Task) → Remains (ids (without_expired p ts)) (ids ts)
  ids-without_expired [] = sub_refl []
  ids-without_expired (t ∷ ts) =
      let r = ids-without_expired ts in
      elim (Bool-cases (p t)) [
        | inl y ↦ rw y (sub_skip t.id (ids (without_expired p ts)) (ids ts) r)
        | inr n ↦ rw n (sub_keep t.id (ids (without_expired p ts)) (ids ts) r)
      ]

  open_fps-without_expired : (ts : List Task) → open_fps (without_expired p ts) ≡ open_fps ts
  open_fps-without_expired [] = refl
  open_fps-without_expired (t ∷ ts) =
      let r = open_fps-without_expired ts in
      elim (Bool-cases (p t)) [ inl y ↦ rw (y, finished t y) r | inr n ↦ rw (n, r) refl ]

  starting-without_expired :
      (fp : String) (ts : List Task) → starting fp (without_expired p ts) ≤ starting fp ts
  starting-without_expired fp [] = omega arith
  starting-without_expired fp (t ∷ ts) =
      let r = starting-without_expired fp ts in
      elim (Bool-cases (p t)) [ inl y ↦ rw y (omega (arith, r)) | inr n ↦ rw n (omega (arith, r)) ]

pub expire_tasks-IsSound :
    (b keep now : ℕ) (l : Ledger) → IsSound b l.tasks → IsSound b (expire_tasks keep now l).tasks
unfolding expire_tasks
expire_tasks-IsSound b keep now l s =
    let p = is_expired_task keep now l in
    let finished = expired-terminal keep now l in
    record {
      distinct_ids = (ids-without_expired p finished l.tasks).distinct s.distinct_ids;
      one_open = rw (open_fps-without_expired p finished l.tasks) s.one_open;
      few_open = rw (open_fps-without_expired p finished l.tasks) s.few_open;
    }

pub expire_tasks-IsWithin :
    (m : Limits) (keep now : ℕ) (l : Ledger) → IsWithin m l → IsWithin m (expire_tasks keep now l)
unfolding expire_tasks
expire_tasks-IsWithin m keep now l w fp =
    let p = is_expired_task keep now l in
    let r = starting-without_expired p (expired-terminal keep now l) fp l.tasks in
    omega (arith, r, w fp)
