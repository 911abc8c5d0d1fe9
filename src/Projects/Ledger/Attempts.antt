-- ===== src/Projects/Ledger/Attempts.antt =====
-- The attempts that an error group has had in the ledger of projects/ledger.go, and those that are
-- being dispatched, under the changes of a task and of a track.
use arbetern.Base.{
  ℕ, ◌+◌, ◌-◌, ◌≤◌, ◌≡◌, refl, sym, ap, ◌∙◌, inl, inr, Bool, true, false, ◌&&◌, some, String, List,
  [], ◌∷◌, length, map, filter, arith, ltb, str_eq, if◌then◌else◌, Bool-cases, eq_iff,
}
use arbetern.Projects.Review.{is_terminal, dispatching}
use arbetern.Projects.Ledger.{
  no_track, Track, Task, task, put_task, has_open_task, find_track, on_track, max_tasks,
}
use arbetern.Projects.Ledger.Compaction.{without_samples, trim, compact_tasks}
use arbetern.Projects.Ledger.Lifecycle.{same_status, attempts_of}
use arbetern.Projects.Ledger.Distinct.{task-id}

-- A task that is being dispatched for the fingerprint counts one.
abbrev pub weight : String → Task → ℕ
weight fp t = if str_eq t.fingerprint fp && same_status t.status dispatching then 1 else 0

abbrev pub starting : String → List Task → ℕ
starting fp [] = 0
starting fp (t ∷ ts) = weight fp t + starting fp ts

pub starting-put_task :
    (fp i : String) (t t' : Task) (ts : List Task)
    → task i ts ≡ some t
    → t'.id ≡ t.id
    → starting fp (put_task t' ts) + weight fp t ≡ starting fp ts + weight fp t'
unfolding task put_task
starting-put_task fp i t t' [] found same = absurd (ground arith)
starting-put_task fp i t t' (u ∷ ts) found same = elim (Bool-cases (str_eq u.id i)) [
  | inl y ↦
      let q : u ≡ t = (let r : some u ≡ some t = rw y at found in cc) in
      let eq : str_eq u.id t'.id ≡ true = (eq_iff u.id t'.id).1 (ap (λ x. x.id) q ∙ sym same) in
      rw (eq, q) (omega arith)
  | inr n ↦
      let at : task i ts ≡ some t = rw n at found in
      let e : t'.id ≡ i = same ∙ task-id i ts t at in
      let r = starting-put_task fp i t t' ts at same in rw (e, n) (omega (arith, r))
]

weight-terminal : (fp : String) (t : Task) → is_terminal t.status ≡ true → weight fp t ≡ 0
weight-terminal fp t h = ground (arith, h)

weight-samples : (fp : String) (t : Task) → weight fp (without_samples t) ≡ weight fp t
unfolding without_samples
weight-samples fp t = ground arith

starting-samples :
    (fp : String) (ts : List Task) → starting fp (map without_samples ts) ≡ starting fp ts
starting-samples fp [] = refl
starting-samples fp (t ∷ ts) = omega (arith, weight-samples fp t, starting-samples fp ts)

starting-trim : (fp : String) (n : ℕ) (ts : List Task) → starting fp (trim n ts).0 ≡ starting fp ts
unfolding trim
starting-trim fp n [] = refl
starting-trim fp n (t ∷ ts) =
    let r = starting-trim fp n ts in
    elim (Bool-cases (is_terminal t.status && ltb 0 (trim n ts).1)) [
      | inl y ↦ let z = weight-terminal fp t (ground (arith, y)) in rw y (omega (arith, r, z))
      | inr e ↦ rw e (omega (arith, r))
    ]

pub starting-compact_tasks :
    (fp : String) (ts : List Task) → starting fp (compact_tasks ts) ≡ starting fp ts
unfolding compact_tasks
starting-compact_tasks fp ts =
    starting-trim fp (length (map without_samples ts) - max_tasks) (map without_samples ts)
    ∙ starting-samples fp ts

pub starting-nobody :
    (fp : String) (ts : List Task) → has_open_task fp ts ≡ false → starting fp ts ≡ 0
unfolding has_open_task
starting-nobody fp [] h = refl
starting-nobody fp (t ∷ ts) h =
    let r = starting-nobody fp ts (ground (arith, h)) in
    elim (Bool-cases (str_eq t.fingerprint fp)) [
      | inl y ↦ elim (Bool-cases (is_terminal t.status)) [
        | inl d ↦ omega (arith, r, weight-terminal fp t d)
        | inr d ↦ absurd (ground (arith, h, y, d))
      ]
      | inr n ↦ rw n (omega (arith, r))
    ]

-- The attempts of a fingerprint.
abbrev pub tries : String → List (String × Track) → ℕ
tries fp ts = attempts_of (find_track fp ts)

pub tries-other :
    (fp k : String) (f : Track → Track) (ts : List (String × Track))
    → str_eq k fp ≡ false
    → tries fp (on_track k f ts) ≡ tries fp ts
unfolding on_track
tries-other fp k f [] h = rw h refl
tries-other fp k f ((j, tr) ∷ ts) h = elim (Bool-cases (str_eq j k)) [
  | inl y ↦ let e = (eq_iff j k).0 y in rw y (rw (e, h) refl)
  | inr n ↦ rw n (elim (Bool-cases (str_eq j fp)) [
    | inl z ↦ rw z refl
    | inr z ↦ rw z (tries-other fp k f ts h)
  ])
]

pub tries-same :
    (fp : String) (f : Track → Track) (c : ℕ) (ts : List (String × Track))
    → ((tr : Track) → (f tr).attempts ≤ tr.attempts + c)
    → tries fp (on_track fp f ts) ≤ tries fp ts + c
unfolding on_track
tries-same fp f c [] h = rw ((eq_iff fp fp).1 refl) (h no_track)
tries-same fp f c ((j, tr) ∷ ts) h = elim (Bool-cases (str_eq j fp)) [
  | inl y ↦ rw y (rw y (h tr))
  | inr n ↦ rw n (rw n (tries-same fp f c ts h))
]

-- A change of a track that adds no attempt.
pub tries-on_track :
    (fp k : String) (f : Track → Track) (ts : List (String × Track))
    → ((tr : Track) → (f tr).attempts ≤ tr.attempts)
    → tries fp (on_track k f ts) ≤ tries fp ts
tries-on_track fp k f ts h = elim (Bool-cases (str_eq k fp)) [
  | inl y ↦
      let e = (eq_iff k fp).0 y in
      rw e (let r = tries-same fp f 0 ts (λ tr. omega (arith, h tr)) in omega (arith, r))
  | inr n ↦ omega (arith, tries-other fp k f ts n)
]

-- A filter on the key alone.
tries-dropped :
    (fp : String) (p : String × Track → Bool) (ts : List (String × Track))
    → ((a : Track) → p (fp, a) ≡ false)
    → tries fp (filter p ts) ≡ 0
tries-dropped fp p [] h = refl
tries-dropped fp p ((j, tr) ∷ ts) h =
    let r = tries-dropped fp p ts h in
    elim (Bool-cases (p (j, tr))) [
      | inl y ↦ elim (Bool-cases (str_eq j fp)) [
        | inl z ↦
            let e = (eq_iff j fp).0 z in
            let no : p (j, tr) ≡ false = rw e (h tr) in absurd (ground (arith, y, no))
        | inr z ↦ rw (y, filter) (rw z r)
      ]
      | inr n ↦ rw (n, filter) r
    ]

pub tries-filter :
    (fp : String) (p : String × Track → Bool) (ts : List (String × Track))
    → ((k : String) (a b : Track) → p (k, a) ≡ p (k, b))
    → tries fp (filter p ts) ≤ tries fp ts
tries-filter fp p [] h = omega arith
tries-filter fp p ((j, tr) ∷ ts) h =
    let r = tries-filter fp p ts h in
    elim (Bool-cases (p (j, tr))) [
      | inl y ↦ elim (Bool-cases (str_eq j fp)) [
        | inl z ↦ rw (y, filter) (rw z (omega arith))
        | inr z ↦ rw (y, filter) (rw z r)
      ]
      | inr n ↦ elim (Bool-cases (str_eq j fp)) [
        | inl z ↦
            let e = (eq_iff j fp).0 z in
            let gone = tries-dropped fp p ts (λ a. h fp a tr ∙ (rw e at n)) in
            rw (n, filter) (omega (arith, gone))
        | inr z ↦ rw (n, filter) (rw z r)
      ]
    ]
