-- ===== src/Projects/Ledger/Counts.antt =====
-- The verdicts of the ledger of projects/ledger.go add no attempt to an error group.
use arbetern.Base.{
  ℕ, ◌+◌, ◌≤◌, ◌≡◌, refl, inl, inr, not, ◌&&◌, ◌||◌, ◌==◌, Option, none, some, String, List, [],
  ◌∷◌, max, arith, ltb, Bool-cases,
}
use arbetern.Projects.Review.{merged}
use arbetern.Projects.Ledger.{
  Recurrence, resolved, recurred, Group, Track, Task, Limits, Ledger, task, find_track, on_track,
}
use arbetern.Projects.Ledger.Lifecycle.{same_status}
use arbetern.Projects.Ledger.Verdicts.{
  is_undecided, is_resolved, awaits, judged, recur_on, recur, resolve, renewed, renew_track,
  window_of, resolve_one, resolve_due, sighted, in_window, noted, latest, sight,
}
use arbetern.Projects.Ledger.Attempts.{starting, starting-put_task, tries, tries-on_track}
use arbetern.Projects.Ledger.Budget.{IsWithin}

starting-judged :
    (fp : String) (r : Recurrence) (i : String) (ts : List Task)
    → starting fp (judged r (task i ts) ts) ≡ starting fp ts
unfolding judged
starting-judged fp r i ts = go (task i ts) refl
  where
    go : (o : Option Task) → task i ts ≡ o → starting fp (judged r o ts) ≡ starting fp ts
    go none e = refl
    go (some t) e =
        let s = starting-put_task fp i t (record t { recurrence = r }) ts e refl in
        elim (Bool-cases (same_status t.status merged && is_undecided t.recurrence)) [
          | inl y ↦ rw y (omega (arith, s))
          | inr n ↦ rw n refl
        ]

-- A change of one track and of the verdict on a task.
decided :
    (m : Limits) (k : String) (f : Track → Track) (r : Recurrence) (i : String) (l : Ledger)
    → ((tr : Track) → (f tr).attempts ≤ tr.attempts)
    → IsWithin m l
    → (fp : String)
    → tries fp (on_track k f l.tracks) + starting fp (judged r (task i l.tasks) l.tasks)
      ≤ max 1 m.max_attempts
decided m k f r i l less w fp =
    omega (arith, tries-on_track fp k f l.tracks less, starting-judged fp r i l.tasks, w fp)

resolve-IsWithin :
    (m : Limits) (k : String) (tr : Track) (l : Ledger) → IsWithin m l → IsWithin m (resolve k tr l)
unfolding resolve
resolve-IsWithin m k tr l w =
    decided m k (λ x. record x { recurrence = resolved }) resolved tr.last_task l (λ x. omega arith)
      w

recur_on-IsWithin :
    (m : Limits) (k : String) (o : Option Track) (l : Ledger)
    → IsWithin m l
    → IsWithin m (recur_on k o l).0
unfolding recur_on
recur_on-IsWithin m k none l w = w
recur_on-IsWithin m k (some tr) l w =
    let d =
      decided m k (λ x. record x { recurrence = recurred; attempts = 0; merged_at = 0 }) recurred
        tr.last_task l (λ x. omega arith) w in
    elim (Bool-cases (awaits tr)) [ inl y ↦ rw y d | inr n ↦ rw n w ]

-- A change of one track alone.
on_track-IsWithin :
    (m : Limits) (k : String) (f : Track → Track) (l : Ledger)
    → ((tr : Track) → (f tr).attempts ≤ tr.attempts)
    → IsWithin m l
    → IsWithin m (record l { tracks = on_track k f l.tracks })
on_track-IsWithin m k f l less w fp = omega (arith, tries-on_track fp k f l.tracks less, w fp)

renew_track-IsWithin :
    (m : Limits) (k : String) (l : Ledger) → IsWithin m l → IsWithin m (renew_track k l)
unfolding renew_track
renew_track-IsWithin m k l w = on_track-IsWithin m k renewed l (λ x. omega arith) w

sighted-IsWithin :
    (m : Limits) (g : Group) (grace : ℕ) (n : Limits) (o : Option Track) (l : Ledger)
    → IsWithin m l
    → IsWithin m (sighted g grace n o l)
unfolding sighted recur
sighted-IsWithin m g grace n none l w = w
sighted-IsWithin m g grace n (some tr) l w =
    let r = recur_on-IsWithin m g.fingerprint (find_track g.fingerprint l.tracks) l w in
    let q = renew_track-IsWithin m g.fingerprint l w in
    elim (Bool-cases (awaits tr && ltb (tr.merged_at + grace) g.last_seen)) [
      | inl y ↦ rw y r
      | inr k ↦
          rw k
            (elim (Bool-cases (
              not (tr.merged_at == 0)
              && is_resolved tr.recurrence
              && ltb (tr.merged_at + window_of n) g.last_seen)) [ inl z ↦ rw z q | inr z ↦ rw z w ])
    ]

in_window-IsWithin :
    (m : Limits) (g : Group) (grace : ℕ) (n : Limits) (o : Option Track) (l : Ledger)
    → IsWithin m l
    → IsWithin m (in_window g grace n o l)
in_window-IsWithin m g grace n none l w = w
in_window-IsWithin m g grace n (some tr) l w =
    let d = resolve g.fingerprint tr l in
    let r = resolve-IsWithin m g.fingerprint tr l w in
    elim (Bool-cases (awaits tr && ltb (tr.merged_at + window_of n) g.first_seen)) [
      | inl y ↦ rw y (elim (Bool-cases (ltb (tr.merged_at + window_of n) l.cursor)) [
        | inl z ↦ rw z (sighted-IsWithin m g grace n (find_track g.fingerprint d.tracks) d r)
        | inr z ↦ rw z w
      ])
      | inr k ↦ rw k (sighted-IsWithin m g grace n (some tr) l w)
    ]

resolve_one-IsWithin :
    (m n : Limits) (k : String) (o : Option Track) (l : Ledger)
    → IsWithin m l
    → IsWithin m (resolve_one n k o l)
unfolding resolve_one
resolve_one-IsWithin m n k none l w = w
resolve_one-IsWithin m n k (some tr) l w =
    let r = resolve-IsWithin m k tr l w in
    let q = renew_track-IsWithin m k (resolve k tr l) r in
    elim (Bool-cases (not (awaits tr) || not (ltb (tr.merged_at + window_of n) l.cursor))) [
      | inl y ↦ rw y w
      | inr e ↦ rw e (elim (Bool-cases (ltb (tr.merged_at + window_of n) tr.last_seen)) [
        | inl z ↦ rw z q
        | inr z ↦ rw z r
      ])
    ]

pub resolve_due-IsWithin :
    (m n : Limits) (ts : List (String × Track)) (l : Ledger)
    → IsWithin m l
    → IsWithin m (resolve_due n ts l)
unfolding resolve_due
resolve_due-IsWithin m n [] l w = w
resolve_due-IsWithin m n ((k, tr) ∷ ts) l w =
    let o = find_track k l.tracks in
    resolve_due-IsWithin m n ts (resolve_one n k o l) (resolve_one-IsWithin m n k o l w)

pub sight-IsWithin :
    (m : Limits) (g : Group) (grace : ℕ) (l : Ledger)
    → IsWithin m l
    → IsWithin m (sight g grace m l)
unfolding sight
sight-IsWithin m g grace l w =
    in_window-IsWithin m g grace m (find_track g.fingerprint (noted g l).tracks) (noted g l) (
      on_track-IsWithin m g.fingerprint
        (λ tr. record tr { last_seen = latest tr.last_seen g.last_seen }) l (λ x. omega arith) w)
