-- ===== src/Projects/Ledger/Distinct.antt =====
-- The ids and the open fingerprints of a list of tasks, under the two changes that projects/ledger.go
-- makes to the list: a task that is replaced, and the trimming of `compact`.
use arbetern.Base.{
  ℕ, ◌-◌, ◌≤◌, ◌≡◌, refl, sym, ap, ◌∙◌, inl, inr, Bool, true, false, ◌&&◌, some, String, List, [],
  ◌∷◌, length, any, map, arith, ltb, str_eq, if◌then◌else◌, Bool-cases, eq_iff,
}
use arbetern.Projects.Review.{is_terminal}
use arbetern.Projects.Ledger.{Task, task, put_task, max_tasks}
use arbetern.Projects.Ledger.Compaction.{without_samples, trim, compact_tasks}

abbrev pub member : String → List String → Bool
member x ys = any (λ y. str_eq y x) ys

abbrev pub Distinct : List String → Type 0
Distinct [] = Unit
Distinct (x ∷ xs) = (member x xs ≡ false) × Distinct xs

-- What is left of a list after dropping some of its elements, as far as it matters here.
pub record Remains (xs ys : List String) : Type 0 where
  pub shorter : length xs ≤ length ys
  pub fewer : (x : String) → member x ys ≡ false → member x xs ≡ false
  pub distinct : Distinct ys → Distinct xs

pub sub_refl : (xs : List String) → Remains xs xs
sub_refl xs = record { shorter = omega arith; fewer = λ x h. h; distinct = λ d. d }

pub sub_skip : (y : String) (xs ys : List String) → Remains xs ys → Remains xs (y ∷ ys)
sub_skip y xs ys s = record {
  shorter = omega (arith, s.shorter);
  fewer = λ x h. s.fewer x (ground (arith, h));
  distinct = λ d. s.distinct d.1;
}

pub sub_keep : (y : String) (xs ys : List String) → Remains xs ys → Remains (y ∷ xs) (y ∷ ys)
sub_keep y xs ys s = record {
  shorter = omega (arith, s.shorter);
  fewer = λ x h. ground (arith, h, s.fewer x (ground (arith, h)));
  distinct = λ d. (s.fewer y d.0, s.distinct d.1);
}

pub sub_trans : (xs ys zs : List String) → Remains xs ys → Remains ys zs → Remains xs zs
sub_trans xs ys zs s r = record {
  shorter = omega (arith, s.shorter, r.shorter);
  fewer = λ x h. s.fewer x (r.fewer x h);
  distinct = λ d. s.distinct (r.distinct d);
}

abbrev pub ids : List Task → List String
ids [] = []
ids (t ∷ ts) = t.id ∷ ids ts

-- The fingerprints of the tasks that are not finished.
abbrev pub open_fps : List Task → List String
open_fps [] = []
open_fps (t ∷ ts) = if is_terminal t.status then open_fps ts else t.fingerprint ∷ open_fps ts

pub task-id : (i : String) (ts : List Task) (t : Task) → task i ts ≡ some t → t.id ≡ i
unfolding task
task-id i [] t h = absurd (ground arith)
task-id i (u ∷ ts) t h = elim (Bool-cases (str_eq u.id i)) [
  | inl y ↦
      let q : u ≡ t = (let r : some u ≡ some t = rw y at h in cc) in
      ap (λ x. x.id) (sym q) ∙ (eq_iff u.id i).0 y
  | inr n ↦ task-id i ts t (rw n at h)
]

pub ids-put_task : (t : Task) (ts : List Task) → ids (put_task t ts) ≡ ids ts
unfolding put_task
ids-put_task t [] = refl
ids-put_task t (u ∷ ts) = elim (Bool-cases (str_eq u.id t.id)) [
  | inl y ↦ rw y (ap (λ i. i ∷ ids ts) (sym ((eq_iff u.id t.id).0 y)))
  | inr n ↦ rw n (ap (λ is. u.id ∷ is) (ids-put_task t ts))
]

-- `t'` may take the place of `t`: the same work, and open only if `t` is.
pub record MayReplace (t t' : Task) : Type 0 where
  pub same_id : t'.id ≡ t.id
  pub same_work : t'.fingerprint ≡ t.fingerprint
  pub stays : is_terminal t.status ≡ true → is_terminal t'.status ≡ true

open_head : (t : Task) (ts : List Task) → Remains (open_fps ts) (open_fps (t ∷ ts))
open_head t ts = elim (Bool-cases (is_terminal t.status)) [
  | inl y ↦ rw y (sub_refl (open_fps ts))
  | inr n ↦ rw n (sub_skip t.fingerprint (open_fps ts) (open_fps ts) (sub_refl (open_fps ts)))
]

open_keep :
    (t : Task) (ts us : List Task)
    → Remains (open_fps ts) (open_fps us)
    → Remains (open_fps (t ∷ ts)) (open_fps (t ∷ us))
open_keep t ts us s = elim (Bool-cases (is_terminal t.status)) [
  | inl y ↦ rw y s
  | inr n ↦ rw n (sub_keep t.fingerprint (open_fps ts) (open_fps us) s)
]

replaced_head :
    (t t' : Task) (ts : List Task)
    → MayReplace t t'
    → Remains (open_fps (t' ∷ ts)) (open_fps (t ∷ ts))
replaced_head t t' ts r = elim (Bool-cases (is_terminal t'.status)) [
  | inl y ↦ rw y (open_head t ts)
  | inr n ↦
      let live : is_terminal t.status ≡ false = ground (arith, n, r.stays) in
      rw (n, live, r.same_work) (sub_refl (t.fingerprint ∷ open_fps ts))
]

found_head :
    (i : String) (u t : Task) (ts : List Task)
    → str_eq u.id i ≡ true
    → task i (u ∷ ts) ≡ some t
    → u ≡ t
unfolding task
found_head i u t ts y h = let r : some u ≡ some t = rw y at h in cc

-- A task that is replaced opens no other work.
pub open_fps-put_task :
    (i : String) (t t' : Task) (ts : List Task)
    → task i ts ≡ some t
    → MayReplace t t'
    → Remains (open_fps (put_task t' ts)) (open_fps ts)
unfolding task put_task
open_fps-put_task i t t' [] found r = absurd (ground arith)
open_fps-put_task i t t' (u ∷ ts) found r = elim (Bool-cases (str_eq u.id i)) [
  | inl y ↦
      let q = found_head i u t ts y found in
      let same : str_eq u.id t'.id ≡ true =
        (eq_iff u.id t'.id).1 (ap (λ x. x.id) q ∙ sym r.same_id) in
      rw (same, q) (replaced_head t t' ts r)
  | inr n ↦
      let at : task i ts ≡ some t = rw n at found in
      let e : t'.id ≡ i = r.same_id ∙ task-id i ts t at in
      rw (e, n) (open_keep u (put_task t' ts) ts (open_fps-put_task i t t' ts at r))
]

open_fps-samples : (ts : List Task) → open_fps (map without_samples ts) ≡ open_fps ts
unfolding without_samples
open_fps-samples [] = refl
open_fps-samples (t ∷ ts) = elim (Bool-cases (is_terminal t.status)) [
  | inl y ↦ rw y (rw y (open_fps-samples ts))
  | inr n ↦ rw n (rw n (ap (λ fs. t.fingerprint ∷ fs) (open_fps-samples ts)))
]

ids-samples : (ts : List Task) → ids (map without_samples ts) ≡ ids ts
unfolding without_samples
ids-samples [] = refl
ids-samples (t ∷ ts) = elim (Bool-cases (is_terminal t.status)) [
  | inl y ↦ rw y (ap (λ is. t.id ∷ is) (ids-samples ts))
  | inr n ↦ rw n (ap (λ is. t.id ∷ is) (ids-samples ts))
]

-- Trimming drops no open work.
pub open_fps-trim : (n : ℕ) (ts : List Task) → open_fps (trim n ts).0 ≡ open_fps ts
unfolding trim
open_fps-trim n [] = refl
open_fps-trim n (t ∷ ts) = elim (Bool-cases (is_terminal t.status && ltb 0 (trim n ts).1)) [
  | inl y ↦
      let d : is_terminal t.status ≡ true = ground (arith, y) in rw (y, d) (open_fps-trim n ts)
  | inr e ↦ rw e (elim (Bool-cases (is_terminal t.status)) [
    | inl y ↦ rw y (open_fps-trim n ts)
    | inr k ↦ rw k (ap (λ fs. t.fingerprint ∷ fs) (open_fps-trim n ts))
  ])
]

ids-trim : (n : ℕ) (ts : List Task) → Remains (ids (trim n ts).0) (ids ts)
unfolding trim
ids-trim n [] = sub_refl []
ids-trim n (t ∷ ts) = elim (Bool-cases (is_terminal t.status && ltb 0 (trim n ts).1)) [
  | inl y ↦ rw y (sub_skip t.id _ _ (ids-trim n ts))
  | inr e ↦ rw e (sub_keep t.id _ _ (ids-trim n ts))
]

pub open_fps-compact_tasks : (ts : List Task) → open_fps (compact_tasks ts) ≡ open_fps ts
unfolding compact_tasks
open_fps-compact_tasks ts =
    open_fps-trim (length (map without_samples ts) - max_tasks) (map without_samples ts)
    ∙ open_fps-samples ts

pub ids-compact_tasks : (ts : List Task) → Remains (ids (compact_tasks ts)) (ids ts)
unfolding compact_tasks
ids-compact_tasks ts =
    let s = ids-trim (length (map without_samples ts) - max_tasks) (map without_samples ts) in
    rw (ids-samples ts) at s
