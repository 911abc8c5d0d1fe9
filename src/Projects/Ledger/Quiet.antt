-- ===== src/Projects/Ledger/Quiet.antt =====
-- The operations of projects/ledger.go, projects/rounds.go and projects/automerge.go that change one
-- task and leave its id, its error group and its status alone.
use arbetern.Base.{
  ◌≡◌, refl, ◌⊎◌, inl, inr, Bool, Option, none, some, String, List, if◌then◌else◌, Bool-cases,
}
use mathlib.Core.Option
use arbetern.Projects.Review.{pr_open, ReviewState}
use arbetern.Projects.Ledger.{Task, Ledger, task, put_task}
use arbetern.Projects.Ledger.Lifecycle.{same_status, on_task}
use arbetern.Projects.Rounds.{reviewed, on_review}

-- A task that another one of the same id, group and status may take the place of.
pub record SameWork (t t' : Task) : Type 0 where
  pub same_id : t'.id ≡ t.id
  pub same_group : t'.fingerprint ≡ t.fingerprint
  pub same_state : t'.status ≡ t.status

-- One task gives way to another of the same work.
abbrev pub Replaces : List Task → List Task → Type 0
Replaces ts us =
    (i : String) × (t : Task) × (t' : Task) × (task i ts ≡ some t)
    × SameWork t t'
    × (us ≡ put_task t' ts)

pub record IsQuiet (l k : Ledger) : Type 0 where
  pub tasks : (k.tasks ≡ l.tasks) ⊎ Replaces l.tasks k.tasks
  pub tracks : k.tracks ≡ l.tracks
  pub resolved : k.totals.resolved ≡ l.totals.resolved
  pub recurred : k.totals.recurred ≡ l.totals.recurred
  pub merged : k.totals.prs_merged ≡ l.totals.prs_merged

pub same-IsQuiet : (l : Ledger) → IsQuiet l l
same-IsQuiet l = record {
  tasks = inl refl;
  tracks = refl;
  resolved = refl;
  recurred = refl;
  merged = refl;
}

pub on_task-IsQuiet :
    (i : String) (guard : Task → Bool) (f : Task → Task) (l : Ledger)
    → ((t : Task) → SameWork t (f t))
    → IsQuiet l
        (on_task guard (λ t k. record k { tasks = put_task (f t) k.tasks }) (task i l.tasks) l).0
on_task-IsQuiet i guard f l same = go (task i l.tasks) refl
  where
    go :
        (o : Option Task)
        → task i l.tasks ≡ o
        → IsQuiet l (on_task guard (λ t k. record k { tasks = put_task (f t) k.tasks }) o l).0
    go none e = same-IsQuiet l
    go (some t) e = elim (Bool-cases (guard t)) [
      | inl y ↦ rw y (record {
        tasks = inr (i, t, f t, e, same t, refl);
        tracks = refl;
        resolved = refl;
        recurred = refl;
        merged = refl;
      })
      | inr n ↦ rw n (same-IsQuiet l)
    ]

-- A change of the totals and the days that leaves the tasks, the tracks and the verdicts alone.
pub record KeepsBooks (l k : Ledger) : Type 0 where
  pub same_tasks : k.tasks ≡ l.tasks
  pub same_tracks : k.tracks ≡ l.tracks
  pub same_resolved : k.totals.resolved ≡ l.totals.resolved
  pub same_recurred : k.totals.recurred ≡ l.totals.recurred
  pub same_merged : k.totals.prs_merged ≡ l.totals.prs_merged

pub keeps_all : (l : Ledger) → KeepsBooks l l
keeps_all l = record {
  same_tasks = refl;
  same_tracks = refl;
  same_resolved = refl;
  same_recurred = refl;
  same_merged = refl;
}

-- A replacement of one task, followed by a change that keeps the books.
pub replaced-IsQuiet :
    (i : String) (t t' : Task) (l k : Ledger)
    → task i l.tasks ≡ some t
    → SameWork t t'
    → KeepsBooks (record l { tasks = put_task t' l.tasks }) k
    → IsQuiet l k
replaced-IsQuiet i t t' l k found same books = record {
  tasks = inr (i, t, t', found, same, books.same_tasks);
  tracks = books.same_tracks;
  resolved = books.same_resolved;
  recurred = books.same_recurred;
  merged = books.same_merged;
}

pub on_review-IsQuiet :
    (i : String) (change : ReviewState → Option ReviewState) (of_task : Task → Task)
    (rest : Ledger → Ledger) (l : Ledger)
    → ((t : Task) → SameWork t (of_task t))
    → ((k : Ledger) → KeepsBooks k (rest k))
    → IsQuiet l (on_review change of_task rest (task i l.tasks) l).0
on_review-IsQuiet i change of_task rest l same books = go (task i l.tasks) refl
  where
    on_change :
        (t : Task)
        → task i l.tasks ≡ some t
        → (c : Option ReviewState) → IsQuiet l (reviewed of_task rest t c l).0
    on_change t e none = same-IsQuiet l
    on_change t e (some r) =
        let s = same (record t { review = some r }) in
        let t' = of_task (record t { review = some r }) in
        replaced-IsQuiet i t t' l (rest (record l { tasks = put_task t' l.tasks })) e
          (record { same_id = s.same_id; same_group = s.same_group; same_state = s.same_state })
          (books (record l { tasks = put_task t' l.tasks }))

    go : (o : Option Task) → task i l.tasks ≡ o → IsQuiet l (on_review change of_task rest o l).0
    go none e = same-IsQuiet l
    go (some t) e =
        on_change t e (if same_status t.status pr_open then Option.bind t.review change else none)
