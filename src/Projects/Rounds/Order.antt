-- ===== src/Projects/Rounds/Order.antt =====
-- The rounds of a pull request in projects/rounds.go are numbered in order, and only the last one can
-- be under way.
use arbetern.Base.{
  ℕ, suc, ◌+◌, ◌≤◌, ◌≡◌, refl, sym, ap, ◌∙◌, ◌⊎◌, inl, inr, Bool, true, false, ◌&&◌, ◌||◌, ◌==◌,
  Option, none, some, String, List, [], ◌∷◌, ◌++◌, length, any, all, arith, if◌then◌else◌,
  Bool-cases, leb, ltb,
}
use mathlib.Core.Option
use arbetern.Projects.Review.{
  RoundStatus, starting, is_active_round, Round, ReviewState, has_active, settle, drop_round_bodies,
}
use arbetern.Projects.Ledger.Lifecycle.{Started}
use arbetern.Projects.Rounds.{
  same_round, round, put_round, is_stillborn, is_nil, kept_rounds, with_round, trimmed, used,
  is_feedback, is_exhausted, new_round, on_round, start_guard, started_round, fail_guard,
  failed_round, report_guard, clear_guard, start_round, break_round, begin_report, clear_report,
  cooled,
}

abbrev pub IsSettled : Round → Type 0
IsSettled d = (is_active_round d.status ≡ false) × (is_stillborn d ≡ false)

-- Numbered from `k` on, and no round but the last is under way or failed before it had a session.
abbrev pub IsOrdered : ℕ → List Round → Type 0
IsOrdered k [] = Unit
IsOrdered k (d ∷ ds) = (d.n ≡ k) × (is_nil ds ≡ false → IsSettled d) × IsOrdered (suc k) ds

abbrev pub active_rounds : List Round → ℕ
active_rounds [] = 0
active_rounds (d ∷ ds) = if is_active_round d.status then 1 + active_rounds ds else active_rounds ds

pub one_active : (k : ℕ) (ds : List Round) → IsOrdered k ds → active_rounds ds ≤ 1
one_active k [] o = omega arith
one_active k (d ∷ []) o = ground arith
one_active k (d ∷ (e ∷ ds)) o = let s = o.1 refl in rw s.0 (one_active (suc k) (e ∷ ds) o.2)

kept-IsOrdered :
    (k : ℕ) (ds : List Round) (e : Round)
    → any (λ d. is_active_round d.status) ds ≡ false
    → e.n ≡ k + length (kept_rounds ds)
    → IsOrdered k ds
    → IsOrdered k (kept_rounds ds ++ (e ∷ []))
kept-IsOrdered k [] e idle n o = (omega (arith, n), λ h. absurd (ground (arith, h)), tt)
kept-IsOrdered k (d ∷ ds) e idle n o = elim (Bool-cases (is_stillborn d)) [
  | inl y ↦ elim (Bool-cases (is_nil ds)) [
    | inl z ↦ rw y (last ds z (rw y at n))
    | inr z ↦ let bad = (o.1 z).1 in absurd (ground (arith, bad, y))
  ]
  | inr z ↦
      let next =
        kept-IsOrdered (suc k) ds e (ground (arith, idle)) (let m = rw z at n in omega (arith, m))
          o.2 in
      rw z (o.0, λ h. (ground (arith, idle), z), next)
]
  where
    last :
        (us : List Round)
        → is_nil us ≡ true
        → e.n ≡ k + length (kept_rounds us)
        → IsOrdered k (kept_rounds us ++ (e ∷ []))
    last [] h m = (omega (arith, m), λ q. absurd (ground (arith, q)), tt)
    last (u ∷ us) h m = absurd (ground (arith, h))

is_nil-put_round : (e : Round) (ds : List Round) → is_nil (put_round e ds) ≡ is_nil ds
unfolding put_round
is_nil-put_round e [] = refl
is_nil-put_round e (d ∷ ds) = ground arith

pub round-n : (n : ℕ) (ds : List Round) (d : Round) → round n ds ≡ some d → d.n ≡ n
unfolding round
round-n n [] d h = absurd (ground arith)
round-n n (x ∷ ds) d h = elim (Bool-cases (x.n == n)) [
  | inl y ↦
      let q : x ≡ d = (let r : some x ≡ some d = rw y at h in cc) in
      ap (λ z. z.n) (sym q) ∙ ground (arith, y)
  | inr z ↦ round-n n ds d (rw z at h)
]

pub put_round-IsOrdered :
    (k n : ℕ) (d e : Round) (ds : List Round)
    → round n ds ≡ some d
    → e.n ≡ d.n
    → (IsSettled d → IsSettled e)
    → IsOrdered k ds
    → IsOrdered k (put_round e ds)
unfolding round put_round
put_round-IsOrdered k n d e [] found same to o = absurd (ground arith)
put_round-IsOrdered k n d e (x ∷ ds) found same to o = elim (Bool-cases (x.n == n)) [
  | inl y ↦
      let q : x ≡ d = (let r : some x ≡ some d = rw y at found in cc) in
      let m : (x.n == e.n) ≡ true = ground (arith, ap (λ z. z.n) q, same) in
      rw m (same ∙ ap (λ z. z.n) (sym q) ∙ o.0, λ h. to (rw q at (o.1 h)), o.2)
  | inr z ↦
      let at : round n ds ≡ some d = rw z at found in
      let m : (x.n == e.n) ≡ false = ground (arith, z, same, round-n n ds d at) in
      rw m (
        o.0,
        λ h. o.1 (sym (is_nil-put_round e ds) ∙ h),
        put_round-IsOrdered (suc k) n d e ds at same to o.2,
      )
]

pub on_round-IsOrdered :
    (n : ℕ) (guard : Round → Bool) (change : Round → Round) (r r' : ReviewState)
    → ((d : Round) → (change d).n ≡ d.n)
    → ((d : Round) → guard d ≡ true → IsSettled d → IsSettled (change d))
    → IsOrdered 1 r.rounds
    → on_round guard change (round n r.rounds) r ≡ some r'
    → IsOrdered 1 r'.rounds
on_round-IsOrdered n guard change r r' same to o h = go (round n r.rounds) refl h
  where
    go :
        (d : Option Round)
        → round n r.rounds ≡ d
        → on_round guard change d r ≡ some r'
        → IsOrdered 1 r'.rounds
    go none e q = absurd (ground (arith, q))
    go (some d) e q = elim (Bool-cases (guard d)) [
      | inl y ↦
          let w : record r { rounds = put_round (change d) r.rounds } ≡ r' =
            (let v : some (record r { rounds = put_round (change d) r.rounds }) ≡ some r' =
                rw y at q in
              cc) in
          rw (← w) (put_round-IsOrdered 1 n d (change d) r.rounds e (same d) (to d y) o)
      | inr z ↦ absurd (ground (arith, z, q))
    ]

pub new_round-IsOrdered :
    (d : Round) (max_rounds now : ℕ) (r r' : ReviewState)
    → IsOrdered 1 r.rounds
    → new_round d max_rounds now r ≡ some r'
    → IsOrdered 1 r'.rounds
unfolding new_round settle
new_round-IsOrdered d max_rounds now r r' o h =
    let e = trimmed r.handled d in
    elim (Bool-cases (
      has_active r
      || leb max_rounds (used r.rounds)
      || is_exhausted r.phase
      || ltb now r.next_round_after
      || (any is_feedback d.trigger && is_nil e.trigger))) [
        | inl y ↦ absurd (ground (arith, y, h))
        | inr n ↦
            let w : with_round e now r ≡ r' =
              (let v : some (with_round e now r) ≡ some r' = rw n at h in cc) in
            rw (← w) (kept-IsOrdered 1 r.rounds _ (ground (arith, n)) (omega arith) o)
      ]

-- A round that is under way cannot be the one that is settled.
live_guard :
    (s t : RoundStatus)
    → is_active_round t ≡ true
    → same_round s t ≡ true
    → is_active_round s ≡ true
live_guard s t a h = ground (arith, a, h)

live_from :
    (s : RoundStatus) (from : List RoundStatus)
    → all is_active_round from ≡ true
    → any (same_round s) from ≡ true
    → is_active_round s ≡ true
live_from s [] a h = absurd (ground (arith, h))
live_from s (t ∷ ts) a h = elim (Bool-cases (same_round s t)) [
  | inl y ↦ live_guard s t (ground (arith, a)) y
  | inr n ↦ live_from s ts (ground (arith, a)) (ground (arith, h, n))
]

pub start_round-IsOrdered :
    (n : ℕ) (st : Started) (now : ℕ) (r r' : ReviewState)
    → IsOrdered 1 r.rounds
    → start_round n st now r ≡ some r'
    → IsOrdered 1 r'.rounds
unfolding start_round
start_round-IsOrdered n st now r r' o h =
    on_round-IsOrdered n start_guard (started_round st now) r r' (λ d. refl)
      (λ d g s. let a = live_guard d.status starting refl g in absurd (ground (arith, a, s.0))) o h

pub break_round-IsOrdered :
    (n : ℕ) (from : List RoundStatus) (reason : String) (now : ℕ) (r r' : ReviewState)
    → all is_active_round from ≡ true
    → IsOrdered 1 r.rounds
    → break_round n from reason now r ≡ some r'
    → IsOrdered 1 r'.rounds
unfolding break_round settle drop_round_bodies
break_round-IsOrdered n from reason now r r' live o h =
    go (on_round (fail_guard from) (failed_round reason now) (round n r.rounds) r) refl h
  where
    go :
        (x : Option ReviewState)
        → on_round (fail_guard from) (failed_round reason now) (round n r.rounds) r ≡ x
        → Option.map (cooled now) x ≡ some r'
        → IsOrdered 1 r'.rounds
    go none e q = absurd (ground (arith, q))
    go (some x) e q =
        let w : cooled now x ≡ r' = cc in
        let p =
          on_round-IsOrdered n (fail_guard from) (failed_round reason now) r x (λ d. refl)
            (λ d g s. let a = live_from d.status from live g in absurd (ground (arith, a, s.0))) o
            e in
        rw (← w) p

pub begin_report-IsOrdered :
    (n guard now : ℕ) (r r' : ReviewState)
    → IsOrdered 1 r.rounds
    → begin_report n guard now r ≡ some r'
    → IsOrdered 1 r'.rounds
unfolding begin_report
begin_report-IsOrdered n guard now r r' o h =
    on_round-IsOrdered n (report_guard now) (λ d. record d { reporting = guard }) r r' (λ d. refl)
      (λ d g s. s) o h

pub clear_report-IsOrdered :
    (n guard : ℕ) (r r' : ReviewState)
    → IsOrdered 1 r.rounds
    → clear_report n guard r ≡ some r'
    → IsOrdered 1 r'.rounds
unfolding clear_report
clear_report-IsOrdered n guard r r' o h =
    on_round-IsOrdered n (clear_guard guard) (λ d. record d { reporting = 0 }) r r' (λ d. refl)
      (λ d g s. s) o h

-- The rounds of a review that are numbered from one on, with none but the last under way or failed
-- before it had a session, stay so when a round is added, when one is started, when one is failed
-- out of the statuses of a round under way, and when the guard of a report is set or cleared; of
-- the rounds that are left, at most one is under way.
pub rounds-IsOrdered :
    (n guard max_rounds now : ℕ) (d : Round) (st : Started) (from : List RoundStatus)
    (reason : String) (r r' : ReviewState)
    → IsOrdered 1 r.rounds
    → all is_active_round from ≡ true
    → (new_round d max_rounds now r ≡ some r')
      ⊎ (start_round n st now r ≡ some r')
      ⊎ (break_round n from reason now r ≡ some r')
      ⊎ (begin_report n guard now r ≡ some r')
      ⊎ (clear_report n guard r ≡ some r')
    → IsOrdered 1 r'.rounds × (active_rounds r'.rounds ≤ 1)
rounds-IsOrdered n guard max_rounds now d st from reason r r' o live h =
    let p : IsOrdered 1 r'.rounds = step h in (p, one_active 1 r'.rounds p)
  where
    step :
        (new_round d max_rounds now r ≡ some r')
          ⊎ (start_round n st now r ≡ some r')
          ⊎ (break_round n from reason now r ≡ some r')
          ⊎ (begin_report n guard now r ≡ some r')
          ⊎ (clear_report n guard r ≡ some r')
        → IsOrdered 1 r'.rounds
    step (inl e) = new_round-IsOrdered d max_rounds now r r' o e
    step (inr (inl e)) = start_round-IsOrdered n st now r r' o e
    step (inr (inr (inl e))) = break_round-IsOrdered n from reason now r r' live o e
    step (inr (inr (inr (inl e)))) = begin_report-IsOrdered n guard now r r' o e
    step (inr (inr (inr (inr e)))) = clear_report-IsOrdered n guard r r' o e
