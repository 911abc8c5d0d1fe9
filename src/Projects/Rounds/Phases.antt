-- ===== src/Projects/Rounds/Phases.antt =====
-- The phase of the review of a pull request in projects/rounds.go says how it stands.
use arbetern.Base.{
  ℕ, ◌≡◌, refl, sym, ap, ◌∙◌, inl, inr, Bool, true, false, ◌==◌, Option, none, some, String, List,
  [], ◌∷◌, any, arith, str_eq, if◌then◌else◌, Bool-cases,
}
use mathlib.Core.Option
use arbetern.Projects.Review.{
  is_active_round, is_failing, has_active, settled, Round, ReviewState, settle, settled_phase,
  RoundStatus,
}
use arbetern.Projects.Ledger.Lifecycle.{Started}
use arbetern.Projects.Rounds.{
  round, put_round, new_round, start_round, break_round, begin_report, clear_report, exhaust,
  on_round, start_guard, started_round, fail_guard, failed_round, report_guard, clear_guard, cooled,
}
use arbetern.Projects.Rounds.Reports.{
  RoundResult, finish_result, reply_result, note_exit, finished_with, replied_with, record_result,
  exit_guard, exited_round,
}
use arbetern.Projects.Rounds.Watching.{Observation, observed, ready, done_at_head}
use arbetern.Projects.Rounds.Order.{round-n}
use arbetern.Projects.Rounds.Machine.{
  RoundEvent, do_round, do_start, do_break, do_begin, do_clear, do_exhaust, do_finish, do_replies,
  do_exit, do_ready, do_done, do_observe, round_change, or_same, round_run,
}

-- The phase is the one that `settle` gives.
abbrev pub IsPhased : ReviewState → Type 0
IsPhased r = settled_phase r.phase r ≡ r.phase

settle-IsPhased : (r : ReviewState) → IsPhased (settle r)
unfolding settle
settle-IsPhased r = ground arith

-- Putting a round of the same number and activity in place of another changes no activity.
put_round-active :
    (n : ℕ) (d e : Round) (ds : List Round)
    → round n ds ≡ some d
    → e.n ≡ d.n
    → is_active_round e.status ≡ is_active_round d.status
    → any (λ x. is_active_round x.status) (put_round e ds) ≡ any (λ x. is_active_round x.status) ds
unfolding round put_round
put_round-active n d e [] found same act = refl
put_round-active n d e (x ∷ ds) found same act = elim (Bool-cases (x.n == n)) [
  | inl y ↦
      let q : x ≡ d = (let r : some x ≡ some d = rw y at found in cc) in
      let m : (x.n == e.n) ≡ true = ground (arith, ap (λ z. z.n) q, same) in
      let a : is_active_round e.status ≡ is_active_round x.status =
        act ∙ ap (λ z. is_active_round z.status) (sym q) in
      rw m (ground (arith, a))
  | inr z ↦
      let at : round n ds ≡ some d = rw z at found in
      let m : (x.n == e.n) ≡ false = ground (arith, z, same, round-n n ds d at) in
      let rest = put_round-active n d e ds at same act in rw m (ground (arith, rest))
]

on_round-IsPhased :
    (n : ℕ) (guard : Round → Bool) (change : Round → Round) (r k : ReviewState)
    → ((d : Round) → (change d).n ≡ d.n)
    → ((d : Round) → guard d ≡ true → is_active_round (change d).status ≡ is_active_round d.status)
    → IsPhased r
    → on_round guard change (round n r.rounds) r ≡ some k
    → IsPhased k
on_round-IsPhased n guard change r k same act p h = go (round n r.rounds) refl h
  where
    go : (d : Option Round) → round n r.rounds ≡ d → on_round guard change d r ≡ some k → IsPhased k
    go none e q = absurd (ground (arith, q))
    go (some d) e q = elim (Bool-cases (guard d)) [
      | inr z ↦ absurd (ground (arith, z, q))
      | inl y ↦
          let w : record r { rounds = put_round (change d) r.rounds } ≡ k =
            (let v : some (record r { rounds = put_round (change d) r.rounds }) ≡ some k =
                rw y at q in
              cc) in
          let a = put_round-active n d (change d) r.rounds e (same d) (act d y) in
          rw (← w) (ground (arith, a, p))
    ]

-- What a settled review stands for.
pub record IsDone (r : ReviewState) : Type 0 where
  pub idle : has_active r ≡ false
  pub nothing_open : str_eq r.waiting "" ≡ true
  pub at_head : str_eq r.done_head r.head ≡ true
  pub has_head : str_eq r.done_head "" ≡ false
  pub no_comments : r.pending ≡ 0
  pub checks_pass : is_failing r.ci ≡ false

phased-IsDone : (r : ReviewState) → IsPhased r → r.phase ≡ settled → IsDone r
phased-IsDone r p s = ground (arith, p, s)

-- An operation that refuses, or ends in `settle`.
settled_unless :
    (b : Bool) (x k : ReviewState) → (if b then none else some (settle x)) ≡ some k → IsPhased k
settled_unless true x k h = absurd (ground (arith, h))
settled_unless false x k h = let w : settle x ≡ k = cc in rw (← w) (settle-IsPhased x)

settled_if :
    (b : Bool) (x k : ReviewState) → (if b then some (settle x) else none) ≡ some k → IsPhased k
settled_if false x k h = absurd (ground (arith, h))
settled_if true x k h = let w : settle x ≡ k = cc in rw (← w) (settle-IsPhased x)

new_round-IsPhased :
    (d : Round) (most now : ℕ) (r k : ReviewState) → new_round d most now r ≡ some k → IsPhased k
unfolding new_round
new_round-IsPhased d most now r k h = settled_unless _ _ k h

break_round-IsPhased :
    (n : ℕ) (from : List RoundStatus) (reason : String) (now : ℕ) (r k : ReviewState)
    → break_round n from reason now r ≡ some k
    → IsPhased k
unfolding break_round
break_round-IsPhased n from reason now r k h =
    go (on_round (fail_guard from) (failed_round reason now) (round n r.rounds) r) h
  where
    go : (x : Option ReviewState) → Option.map (cooled now) x ≡ some k → IsPhased k
    go none q = absurd (ground (arith, q))
    go (some x) q = let w : cooled now x ≡ k = cc in rw (← w) (settle-IsPhased _)

finish_result-IsPhased :
    (line : String → String) (n : ℕ) (res : RoundResult) (now : ℕ) (r k : ReviewState)
    → finish_result line n res now r ≡ some k
    → IsPhased k
unfolding finish_result record_result
finish_result-IsPhased line n res now r k h = go (round n r.rounds) h
  where
    go : (d : Option Round) → finished_with line res now d r ≡ some k → IsPhased k
    go none q = absurd (ground (arith, q))
    go (some d) q = settled_if _ _ k q

reply_result-IsPhased :
    (line : String → String) (n : ℕ) (res : RoundResult) (now : ℕ) (r k : ReviewState)
    → reply_result line n res now r ≡ some k
    → IsPhased k
unfolding reply_result record_result
reply_result-IsPhased line n res now r k h = go (round n r.rounds) h
  where
    go : (d : Option Round) → replied_with line res now d r ≡ some k → IsPhased k
    go none q = absurd (ground (arith, q))
    go (some d) q = settled_if _ _ k q

done-IsPhased :
    (head content : String) (now : ℕ) (r k : ReviewState)
    → done_at_head head content now r ≡ some k
    → IsPhased k
unfolding done_at_head
done-IsPhased head content now r k h = settled_unless _ _ k h

exhaust-IsPhased : (r k : ReviewState) → exhaust r ≡ some k → IsPhased k
unfolding exhaust
exhaust-IsPhased r k h = ground (arith, h)

ready-IsPhased : (now : ℕ) (r k : ReviewState) → IsPhased r → ready now r ≡ some k → IsPhased k
unfolding ready
ready-IsPhased now r k p h = ground (arith, h, p)

observed-IsPhased : (o : Observation) (now : ℕ) (r : ReviewState) → IsPhased (observed o now r).0
unfolding observed
observed-IsPhased o now r = settle-IsPhased _

-- The guards that keep a round under way, or leave it ended.
started_active :
    (st : Started) (now : ℕ) (d : Round)
    → start_guard d ≡ true
    → is_active_round (started_round st now d).status ≡ is_active_round d.status
started_active st now d g = ground (arith, g)

round_step-IsPhased :
    (line : String → String) (e : RoundEvent) (r k : ReviewState)
    → IsPhased r
    → round_change line e r ≡ some k
    → IsPhased k
unfolding start_round begin_report clear_report note_exit
round_step-IsPhased line (do_round d most now) r k p h = new_round-IsPhased d most now r k h
round_step-IsPhased line (do_start n st now) r k p h =
    on_round-IsPhased n start_guard (started_round st now) r k (λ d. refl)
      (λ d g. started_active st now d g) p h
round_step-IsPhased line (do_break n from reason now) r k p h =
    break_round-IsPhased n from reason now r k h
round_step-IsPhased line (do_begin n guard now) r k p h =
    on_round-IsPhased n (report_guard now) (λ d. record d { reporting = guard }) r k (λ d. refl)
      (λ d g. refl) p h
round_step-IsPhased line (do_clear n guard) r k p h =
    on_round-IsPhased n (clear_guard guard) (λ d. record d { reporting = 0 }) r k (λ d. refl)
      (λ d g. refl) p h
round_step-IsPhased line do_exhaust r k p h = exhaust-IsPhased r k h
round_step-IsPhased line (do_finish n res now) r k p h = finish_result-IsPhased line n res now r k h
round_step-IsPhased line (do_replies n res now) r k p h = reply_result-IsPhased line n res now r k h
round_step-IsPhased line (do_exit n reason turns) r k p h =
    on_round-IsPhased n (exit_guard reason turns) (exited_round reason turns) r k (λ d. refl)
      (λ d g. refl) p h
round_step-IsPhased line (do_ready now) r k p h = ready-IsPhased now r k p h
round_step-IsPhased line (do_done head content now) r k p h = done-IsPhased head content now r k h
round_step-IsPhased line (do_observe o now) r k p h =
    let q : (observed o now r).0 ≡ k = cc in rw (← q) (observed-IsPhased o now r)

round_run-IsPhased :
    (line : String → String) (es : List RoundEvent) (r : ReviewState)
    → IsPhased r
    → IsPhased (round_run line es r)
round_run-IsPhased line [] r p = p
round_run-IsPhased line (e ∷ es) r p =
    round_run-IsPhased line es (or_same r (round_change line e r)) (go (round_change line e r) refl)
  where
    go : (c : Option ReviewState) → round_change line e r ≡ c → IsPhased (or_same r c)
    go none q = p
    go (some k) q = round_step-IsPhased line e r k p q

-- Over any operations on the review of a pull request, its phase stays the one that `settle` gives
-- when it is that at first; and a review that is done by its phase has no round under way, no open
-- question, no comment that waits for an answer and no failing check, and is done at its head.
pub round_run-IsDone :
    (line : String → String) (es : List RoundEvent) (r : ReviewState)
    → IsPhased r
    → IsPhased (round_run line es r)
      × ((round_run line es r).phase ≡ settled → IsDone (round_run line es r))
round_run-IsDone line es r p =
    let q = round_run-IsPhased line es r p in (q, λ s. phased-IsDone (round_run line es r) q s)
