-- ===== src/Projects/Ledger/Replacing.antt =====
-- What a change of one task of the ledger of projects/ledger.go keeps: the ids of the tasks are
-- distinct, no two open tasks work on one fingerprint, and the open tasks are within a bound.
use arbetern.Base.{
  ℕ, ◌≤◌, ◌≡◌, refl, inl, inr, Bool, true, Option, none, some, String, List, length, arith,
  Bool-cases,
}
use arbetern.Projects.Review.{Status, is_terminal}
use arbetern.Projects.Ledger.{Task, Ledger, task, put_task}
use arbetern.Projects.Ledger.Compaction.{compact_tasks}
use arbetern.Projects.Ledger.Distinct.{
  Distinct, ids, open_fps, ids-put_task, MayReplace, open_fps-put_task, open_fps-compact_tasks,
  ids-compact_tasks,
}
use arbetern.Projects.Ledger.Lifecycle.{on_task, finished, same_status}

pub record IsSound (bound : ℕ) (ts : List Task) : Type 0 where
  pub distinct_ids : Distinct (ids ts)
  pub one_open : Distinct (open_fps ts)
  pub few_open : length (open_fps ts) ≤ bound

pub put_task-IsSound :
    (b : ℕ) (i : String) (t t' : Task) (ts : List Task)
    → task i ts ≡ some t
    → MayReplace t t'
    → IsSound b ts
    → IsSound b (put_task t' ts)
put_task-IsSound b i t t' ts found r s =
    let p = open_fps-put_task i t t' ts found r in
    record {
      distinct_ids = rw (ids-put_task t' ts) s.distinct_ids;
      one_open = p.distinct s.one_open;
      few_open = omega (arith, p.shorter, s.few_open);
    }

pub compact_tasks-IsSound : (b : ℕ) (ts : List Task) → IsSound b ts → IsSound b (compact_tasks ts)
compact_tasks-IsSound b ts s = record {
  distinct_ids = (ids-compact_tasks ts).distinct s.distinct_ids;
  one_open = rw (open_fps-compact_tasks ts) s.one_open;
  few_open = rw (open_fps-compact_tasks ts) s.few_open;
}

-- A guarded change of the task found keeps what the change keeps.
pub on_task-IsSound :
    (b : ℕ) (i : String) (guard : Task → Bool) (change : Task → Ledger → Ledger) (t' : Task → Task)
    (l : Ledger)
    → ((t : Task) → (change t l).tasks ≡ put_task (t' t) l.tasks)
    → ((t : Task) → guard t ≡ true → MayReplace t (t' t))
    → IsSound b l.tasks
    → IsSound b (on_task guard change (task i l.tasks) l).0.tasks
on_task-IsSound b i guard change t' l puts may s = go (task i l.tasks) refl
  where
    go : (o : Option Task) → task i l.tasks ≡ o → IsSound b (on_task guard change o l).0.tasks
    go none e = s
    go (some t) e = elim (Bool-cases (guard t)) [
      | inl y ↦ rw (y, puts t) (put_task-IsSound b i t (t' t) l.tasks e (may t y) s)
      | inr n ↦ rw n s
    ]

pub same_MayReplace :
    (t t' : Task)
    → t'.id ≡ t.id
    → t'.fingerprint ≡ t.fingerprint
    → t'.status ≡ t.status
    → MayReplace t t'
same_MayReplace t t' i f e = record { same_id = i; same_work = f; stays = λ h. rw e h }

pub finished-MayReplace :
    (s : Status) (now : ℕ) (t t' : Task)
    → t'.id ≡ t.id
    → t'.fingerprint ≡ t.fingerprint
    → is_terminal s ≡ true
    → MayReplace t (finished s now t')
unfolding finished
finished-MayReplace s now t t' i f d = record { same_id = i; same_work = f; stays = λ h. d }

pub same_status-eq : (s r : Status) → same_status s r ≡ true → s ≡ r
same_status-eq s r h = ground arith
