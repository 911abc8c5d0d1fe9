-- ===== src/Projects/Ledger/Budget.antt =====
-- No error group is started more often than its limit in the ledger of projects/ledger.go.
use arbetern.Base.{
  ℕ, ◌+◌, ◌≤◌, ◌<◌, ◌≡◌, refl, inl, inr, Bool, false, not, ◌||◌, Option, none, some, String, ◌∷◌,
  max, arith, str_eq, Bool-cases, eq_iff,
}
use arbetern.Projects.Review.{Status, dispatching}
use arbetern.Projects.Ledger.{
  Candidate, Track, Task, Limits, Ledger, task, put_task, has_capacity, eligible, on_track,
}
use arbetern.Projects.Ledger.Compaction.{
  compact_tasks, compact_candidates, victims, is_spared, trim_tracks, compact,
}
use arbetern.Projects.Ledger.Lifecycle.{
  absent, same_status, on_task, start_guard, start_change, with_session, cool_down, finish,
  find_candidate, drop_candidate, new_task, added, add_task, Started, mark_running,
}
use arbetern.Projects.Ledger.Attempts.{
  weight, starting, starting-put_task, starting-compact_tasks, starting-nobody, tries, tries-other,
  tries-same, tries-on_track, tries-filter,
}
use arbetern.Projects.Ledger.Admission.{MayTry, eligible-MayTry}

-- The attempts of each error group, those being dispatched included, are within the limit.
abbrev pub IsWithin : Limits → Ledger → Type 0
IsWithin m l = (fp : String) → tries fp l.tracks + starting fp l.tasks ≤ max 1 m.max_attempts

-- A task that starts nothing by taking the place of `t`.
pub record StartsNothing (t t' : Task) : Type 0 where
  pub same_id : t'.id ≡ t.id
  pub lighter : (fp : String) → weight fp t' ≤ weight fp t

pub kept-StartsNothing :
    (t t' : Task)
    → t'.id ≡ t.id
    → t'.fingerprint ≡ t.fingerprint
    → t'.status ≡ t.status
    → StartsNothing t t'
kept-StartsNothing t t' i f s = record { same_id = i; lighter = λ fp. rw (f, s) (omega arith) }

pub ended-StartsNothing :
    (t t' : Task) → t'.id ≡ t.id → same_status t'.status dispatching ≡ false → StartsNothing t t'
ended-StartsNothing t t' i s = record { same_id = i; lighter = λ fp. ground (arith, s) }

pub on_task-IsWithin :
    (m : Limits) (i : String) (guard : Task → Bool) (change : Task → Ledger → Ledger)
    (t' : Task → Task) (l : Ledger)
    → ((t : Task) → (change t l).tasks ≡ put_task (t' t) l.tasks)
    → ((t : Task) → StartsNothing t (t' t))
    → ((t : Task) (fp : String) → tries fp (change t l).tracks ≤ tries fp l.tracks)
    → IsWithin m l
    → IsWithin m (on_task guard change (task i l.tasks) l).0
on_task-IsWithin m i guard change t' l puts may same w = go (task i l.tasks) refl
  where
    go : (o : Option Task) → task i l.tasks ≡ o → IsWithin m (on_task guard change o l).0
    go none e = w
    go (some t) e = elim (Bool-cases (guard t)) [
      | inl y ↦ rw y (λ fp.
          let s = starting-put_task fp i t (t' t) l.tasks e (may t).same_id in
          rw (puts t) (omega (arith, s, (may t).lighter fp, same t fp, w fp)))
      | inr n ↦ rw n w
    ]

pub finish-tries :
    (s : Status) (now until : ℕ) (t : Task) (l : Ledger) (fp : String)
    → tries fp (finish s now (cool_down until) t l).tracks ≤ tries fp l.tracks
unfolding finish
finish-tries s now until t l fp =
    tries-on_track fp t.fingerprint (λ tr. cool_down until (record tr { last_status = some s }))
      l.tracks (λ tr. omega arith)

abbrev tried : Task → Track → Track
tried t tr = record tr { attempts = tr.attempts + 1; last_task = t.id }

-- A start turns a task that was being dispatched into an attempt.
pub mark_running-IsWithin :
    (m : Limits) (i : String) (st : Started) (now : ℕ) (l : Ledger)
    → IsWithin m l
    → IsWithin m (mark_running i st now l).0
unfolding mark_running with_session
mark_running-IsWithin m i st now l w = go (task i l.tasks) refl
  where
    go :
        (o : Option Task)
        → task i l.tasks ≡ o
        → IsWithin m (on_task start_guard (start_change st now) o l).0
    go none e = w
    go (some t) e = elim (Bool-cases (start_guard t)) [
      | inl y ↦ rw y (λ fp.
          let s = starting-put_task fp i t (with_session st now t) l.tasks e refl in
          elim (Bool-cases (str_eq t.fingerprint fp)) [
            | inl z ↦
                let k : t.fingerprint ≡ fp = (eq_iff t.fingerprint fp).0 z in
                let a : tries fp (on_track t.fingerprint (tried t) l.tracks)
                    ≤ tries fp l.tracks + 1 =
                  rw k (tries-same fp (tried t) 1 l.tracks (λ tr. omega arith)) in
                let here : weight fp t ≡ 1 = ground (arith, y, z) in
                let gone : weight fp (with_session st now t) ≡ 0 = ground arith in
                omega (arith, s, here, gone, a, w fp)
            | inr z ↦
                let a = tries-other fp t.fingerprint (tried t) l.tracks z in
                let here : weight fp t ≡ 0 = ground (arith, z) in
                let gone : weight fp (with_session st now t) ≡ 0 = ground (arith, z) in
                omega (arith, s, here, gone, a, w fp)
          ])
      | inr n ↦ rw n w
    ]

pub compact-IsWithin :
    (m n : Limits) (now : ℕ) (l : Ledger) → IsWithin m l → IsWithin m (compact n now l)
unfolding compact trim_tracks
compact-IsWithin m n now l w fp =
    let ts = compact_tasks l.tasks in
    let cs = compact_candidates n now l.tracks l.candidates in
    let a = tries-filter fp (is_spared (victims ts cs l.tracks)) l.tracks (λ k x y. refl) in
    omega (arith, a, starting-compact_tasks fp l.tasks, w fp)

-- A new task is the only one that is dispatched for a group that has an attempt left.
pub new_task-IsWithin :
    (m : Limits) (t : Task) (c : Candidate) (now : ℕ) (l : Ledger)
    → MayTry t.fingerprint m now l
    → IsWithin m l
    → IsWithin m (record l {
      candidates = drop_candidate t.fingerprint l.candidates;
      tasks = new_task t c now l ∷ l.tasks;
    })
unfolding new_task
new_task-IsWithin m t c now l may w fp = elim (Bool-cases (str_eq t.fingerprint fp)) [
  | inl z ↦
      let k : t.fingerprint ≡ fp = (eq_iff t.fingerprint fp).0 z in
      let none_yet : starting fp l.tasks ≡ 0 = starting-nobody fp l.tasks (rw k at may.nobody) in
      let left : tries fp l.tracks < max 1 m.max_attempts = rw k at may.attempts in
      rw z (omega (arith, none_yet, left))
  | inr z ↦ rw z (omega (arith, w fp))
]

pub add_task-IsWithin :
    (m : Limits) (t : Task) (now : ℕ) (l : Ledger)
    → IsWithin m l
    → IsWithin m (add_task t m now l).0
unfolding add_task
add_task-IsWithin m t now l w =
    elim (Bool-cases (
      not (absent (task t.id l.tasks))
      || not (has_capacity m now l)
      || not (eligible t.fingerprint m now l))) [
        | inl y ↦ rw y w
        | inr n ↦ rw n (
            go (find_candidate t.fingerprint l.candidates)
              (eligible-MayTry t.fingerprint m now l (ground (arith, n))))
      ]
  where
    go : (o : Option Candidate) → MayTry t.fingerprint m now l → IsWithin m (added t m now o l).0
    go none may = w
    go (some c) may =
        compact-IsWithin m m now
          (record l {
            candidates = drop_candidate t.fingerprint l.candidates;
            tasks = new_task t c now l ∷ l.tasks;
          })
          (new_task-IsWithin m t c now l may w)
