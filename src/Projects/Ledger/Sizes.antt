-- ===== src/Projects/Ledger/Sizes.antt =====
-- What `compact` of projects/ledger.go leaves of the tasks and of the candidates.
use arbetern.Base.{
  ℕ, suc, ◌+◌, ◌-◌, ◌≤◌, ◌≡◌, refl, ap, ◌∙◌, ◌⊎◌, inl, inr, true, false, ◌&&◌, List, [], ◌∷◌,
  length, length-take, filter, sort, map, arith, ltb, if◌then◌else◌, Bool-cases,
}
use arbetern.Projects.Review.{is_terminal}
use arbetern.Projects.Ledger.{Task, Limits, Ledger, max_tasks}
use arbetern.Projects.Ledger.Compaction.{
  max_candidates, candidate_before, is_fresh, without_samples, trim, compact_tasks,
  compact_candidates, compact,
}

-- The tasks that are not finished.
abbrev pub open_tasks : List Task → List Task
open_tasks [] = []
open_tasks (t ∷ ts) = if is_terminal t.status then open_tasks ts else t ∷ open_tasks ts

open_tasks-trim : (n : ℕ) (ts : List Task) → open_tasks (trim n ts).0 ≡ open_tasks ts
unfolding trim
open_tasks-trim n [] = refl
open_tasks-trim n (t ∷ ts) = elim (Bool-cases (is_terminal t.status && ltb 0 (trim n ts).1)) [
  | inl y ↦
      let d : is_terminal t.status ≡ true = ground (arith, y) in rw (y, d) (open_tasks-trim n ts)
  | inr e ↦ rw e (elim (Bool-cases (is_terminal t.status)) [
    | inl y ↦ rw y (open_tasks-trim n ts)
    | inr k ↦ rw k (ap (λ us. t ∷ us) (open_tasks-trim n ts))
  ])
]

open_tasks-samples : (ts : List Task) → open_tasks (map without_samples ts) ≡ open_tasks ts
unfolding without_samples
open_tasks-samples [] = refl
open_tasks-samples (t ∷ ts) = elim (Bool-cases (is_terminal t.status)) [
  | inl y ↦ rw y (rw y (open_tasks-samples ts))
  | inr n ↦ rw n (rw n (ap (λ us. t ∷ us) (open_tasks-samples ts)))
]

-- Trimming takes off what it is asked to, unless only open tasks are left.
length-trim :
    (n : ℕ) (ts : List Task)
    → (length (trim n ts).0 + n ≡ length ts + (trim n ts).1)
      × (((trim n ts).1 ≡ 0) ⊎ (length (trim n ts).0 ≡ length (open_tasks ts)))
unfolding trim
length-trim n [] = (omega arith, inr refl)
length-trim n (t ∷ ts) =
    let (e, left) = length-trim n ts in
    elim (Bool-cases (is_terminal t.status && ltb 0 (trim n ts).1)) [
      | inl y ↦ rw y (ground (arith, y, e), drops (ground (arith, y)) (ground (arith, y)) left)
      | inr k ↦ rw k (omega (arith, e), holds k left)
    ]
  where
    drops :
        is_terminal t.status ≡ true
        → 1 ≤ (trim n ts).1
        → ((trim n ts).1 ≡ 0) ⊎ (length (trim n ts).0 ≡ length (open_tasks ts))
        → ((trim n ts).1 - 1 ≡ 0) ⊎ (length (trim n ts).0 ≡ length (open_tasks (t ∷ ts)))
    drops d more (inl z) = inl (omega (arith, z))
    drops d more (inr q) = inr (rw d q)

    holds :
        (is_terminal t.status && ltb 0 (trim n ts).1) ≡ false
        → ((trim n ts).1 ≡ 0) ⊎ (length (trim n ts).0 ≡ length (open_tasks ts))
        → ((trim n ts).1 ≡ 0) ⊎ (suc (length (trim n ts).0) ≡ length (open_tasks (t ∷ ts)))
    holds k (inl z) = inl z
    holds k (inr q) = elim (Bool-cases (is_terminal t.status)) [
      | inl d ↦ inl (ground (arith, k, d))
      | inr d ↦ inr (rw d (omega (arith, q)))
    ]

length-samples : (ts : List Task) → length (map without_samples ts) ≡ length ts
length-samples [] = refl
length-samples (t ∷ ts) = ap suc (length-samples ts)

-- Compaction keeps every open task as it is, and leaves at most `maxTasks` tasks unless only open
-- tasks are left; of the candidates it leaves at most `maxCandidates`.
pub compact_bounds :
    (m : Limits) (now : ℕ) (l : Ledger)
    → (open_tasks (compact m now l).tasks ≡ open_tasks l.tasks)
      × ((length (compact m now l).tasks ≤ max_tasks)
          ⊎ (length (compact m now l).tasks ≡ length (open_tasks l.tasks)))
      × (length (compact m now l).candidates ≤ max_candidates)
unfolding compact compact_tasks compact_candidates
compact_bounds m now l =
    let us = map without_samples l.tasks in
    let n = length us - max_tasks in
    let (e, left) = length-trim n us in
    let same = open_tasks-samples l.tasks in
    (
      open_tasks-trim n us ∙ same,
      elim left [ inl z ↦ inl (omega (arith, e, z)) | inr q ↦ inr (q ∙ ap length same) ],
      length-take max_candidates
          (sort candidate_before (filter (is_fresh m now l.tracks) l.candidates)),
    )
