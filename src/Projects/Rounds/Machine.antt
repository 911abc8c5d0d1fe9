-- ===== src/Projects/Rounds/Machine.antt =====
-- The operations of projects/rounds.go on one review as the steps of one machine.
use arbetern.Base.{
  ℕ, ◌≤◌, ◌≡◌, refl, inl, inr, Bool, true, Option, none, some, String, List, [], ◌∷◌, all, arith,
  Bool-cases,
}
use arbetern.Projects.Review.{
  RoundStatus, is_active_round, Round, ReviewState, settle, drop_round_bodies,
}
use arbetern.Projects.Ledger.Lifecycle.{Started, absent}
use arbetern.Projects.Rounds.{
  round, new_round, start_round, break_round, begin_report, clear_report, exhaust,
}
use arbetern.Projects.Rounds.Reports.{
  RoundResult, finish_result, reply_result, note_exit, finished_with, replied_with, record_result,
  recorded_round, answered_round, is_open_round, exit_guard, exited_round,
}
use arbetern.Projects.Rounds.Watching.{
  Observation, observed, ready, done_at_head, with_head, with_changes,
}
use arbetern.Projects.Rounds.Order.{
  IsSettled, IsOrdered, active_rounds, one_active, put_round-IsOrdered, on_round-IsOrdered,
  new_round-IsOrdered, start_round-IsOrdered, break_round-IsOrdered, begin_report-IsOrdered,
  clear_report-IsOrdered,
}

pub data RoundEvent : Type 0 where
  do_round : Round → ℕ → ℕ → RoundEvent
  do_start : ℕ → Started → ℕ → RoundEvent
  do_break : ℕ → List RoundStatus → String → ℕ → RoundEvent
  do_begin : ℕ → ℕ → ℕ → RoundEvent
  do_clear : ℕ → ℕ → RoundEvent
  do_exhaust : RoundEvent
  do_finish : ℕ → RoundResult → ℕ → RoundEvent
  do_replies : ℕ → RoundResult → ℕ → RoundEvent
  do_exit : ℕ → String → ℕ → RoundEvent
  do_ready : ℕ → RoundEvent
  do_done : String → String → ℕ → RoundEvent
  do_observe : Observation → ℕ → RoundEvent

-- The review that an event leaves, if it changes it.
abbrev pub round_change : (String → String) → RoundEvent → ReviewState → Option ReviewState
round_change line (do_round d max_rounds now) r = new_round d max_rounds now r
round_change line (do_start n st now) r = start_round n st now r
round_change line (do_break n from reason now) r = break_round n from reason now r
round_change line (do_begin n guard now) r = begin_report n guard now r
round_change line (do_clear n guard) r = clear_report n guard r
round_change line do_exhaust r = exhaust r
round_change line (do_finish n res now) r = finish_result line n res now r
round_change line (do_replies n res now) r = reply_result line n res now r
round_change line (do_exit n reason turns) r = note_exit n reason turns r
round_change line (do_ready now) r = ready now r
round_change line (do_done head content now) r = done_at_head head content now r
round_change line (do_observe o now) r = some (observed o now r).0

abbrev pub or_same : ReviewState → Option ReviewState → ReviewState
or_same r none = r
or_same r (some k) = k

abbrev pub round_run : (String → String) → List RoundEvent → ReviewState → ReviewState
round_run line [] r = r
round_run line (e ∷ es) r = round_run line es (or_same r (round_change line e r))

-- A round is failed out of the statuses of a round under way.
abbrev pub is_live : RoundEvent → Bool
is_live (do_break n from reason now) = all is_active_round from
is_live _ = true

observed-rounds :
    (o : Observation) (now : ℕ) (r : ReviewState) → (observed o now r).0.rounds ≡ r.rounds
unfolding observed with_head with_changes settle
observed-rounds o now r = ground arith

ready-rounds : (now : ℕ) (r k : ReviewState) → ready now r ≡ some k → k.rounds ≡ r.rounds
unfolding ready
ready-rounds now r k h = ground (arith, h)

done-rounds :
    (head content : String) (now : ℕ) (r k : ReviewState)
    → done_at_head head content now r ≡ some k
    → k.rounds ≡ r.rounds
unfolding done_at_head settle
done-rounds head content now r k h = ground (arith, h)

exhaust-rounds : (r k : ReviewState) → exhaust r ≡ some k → k.rounds ≡ r.rounds
unfolding exhaust
exhaust-rounds r k h = ground (arith, h)

-- A result that is recorded takes the place of a round.
record_result-IsOrdered :
    (line : String → String) (n : ℕ) (res : RoundResult) (now : ℕ) (d e : Round) (r : ReviewState)
    → round n r.rounds ≡ some d
    → e.n ≡ d.n
    → (IsSettled d → IsSettled e)
    → IsOrdered 1 r.rounds
    → IsOrdered 1 (record_result line res now e r).rounds
unfolding record_result settle drop_round_bodies
record_result-IsOrdered line n res now d e r found same to o =
    put_round-IsOrdered 1 n d (recorded_round res e) r.rounds found same to o

finish_result-IsOrdered :
    (line : String → String) (n : ℕ) (res : RoundResult) (now : ℕ) (r k : ReviewState)
    → IsOrdered 1 r.rounds
    → finish_result line n res now r ≡ some k
    → IsOrdered 1 k.rounds
unfolding finish_result
finish_result-IsOrdered line n res now r k o h = go (round n r.rounds) refl h
  where
    go :
        (d : Option Round)
        → round n r.rounds ≡ d
        → finished_with line res now d r ≡ some k
        → IsOrdered 1 k.rounds
    go none e q = absurd (ground (arith, q))
    go (some d) e q = elim (Bool-cases (is_open_round d)) [
      | inr z ↦ absurd (ground (arith, z, q))
      | inl y ↦
          let w : record_result line res now (answered_round res now d) r ≡ k =
            (let v : some (record_result line res now (answered_round res now d) r) ≡ some k =
                rw y at q in
              cc) in
          rw (← w) (
            record_result-IsOrdered line n res now d (answered_round res now d) r e refl
              (λ s. (refl, refl)) o)
    ]

reply_result-IsOrdered :
    (line : String → String) (n : ℕ) (res : RoundResult) (now : ℕ) (r k : ReviewState)
    → IsOrdered 1 r.rounds
    → reply_result line n res now r ≡ some k
    → IsOrdered 1 k.rounds
unfolding reply_result
reply_result-IsOrdered line n res now r k o h = go (round n r.rounds) refl h
  where
    go :
        (d : Option Round)
        → round n r.rounds ≡ d
        → replied_with line res now d r ≡ some k
        → IsOrdered 1 k.rounds
    go none e q = absurd (ground (arith, q))
    go (some d) e q = elim (Bool-cases (absent d.outcome)) [
      | inr z ↦ absurd (ground (arith, z, q))
      | inl y ↦
          let w : record_result line res now d r ≡ k =
            (let v : some (record_result line res now d r) ≡ some k = rw y at q in cc) in
          rw (← w) (record_result-IsOrdered line n res now d d r e refl (λ s. s) o)
    ]

note_exit-IsOrdered :
    (n : ℕ) (reason : String) (turns : ℕ) (r k : ReviewState)
    → IsOrdered 1 r.rounds
    → note_exit n reason turns r ≡ some k
    → IsOrdered 1 k.rounds
unfolding note_exit
note_exit-IsOrdered n reason turns r k o h =
    on_round-IsOrdered n (exit_guard reason turns) (exited_round reason turns) r k (λ d. refl)
      (λ d g s. s) o h

round_change-IsOrdered :
    (line : String → String) (e : RoundEvent) (r k : ReviewState)
    → is_live e ≡ true
    → IsOrdered 1 r.rounds
    → round_change line e r ≡ some k
    → IsOrdered 1 k.rounds
round_change-IsOrdered line (do_round d most now) r k v o h = new_round-IsOrdered d most now r k o h
round_change-IsOrdered line (do_start n st now) r k v o h = start_round-IsOrdered n st now r k o h
round_change-IsOrdered line (do_break n from reason now) r k v o h =
    break_round-IsOrdered n from reason now r k v o h
round_change-IsOrdered line (do_begin n guard now) r k v o h =
    begin_report-IsOrdered n guard now r k o h
round_change-IsOrdered line (do_clear n guard) r k v o h = clear_report-IsOrdered n guard r k o h
round_change-IsOrdered line do_exhaust r k v o h = rw (exhaust-rounds r k h) o
round_change-IsOrdered line (do_finish n res now) r k v o h =
    finish_result-IsOrdered line n res now r k o h
round_change-IsOrdered line (do_replies n res now) r k v o h =
    reply_result-IsOrdered line n res now r k o h
round_change-IsOrdered line (do_exit n reason turns) r k v o h =
    note_exit-IsOrdered n reason turns r k o h
round_change-IsOrdered line (do_ready now) r k v o h = rw (ready-rounds now r k h) o
round_change-IsOrdered line (do_done head content now) r k v o h =
    rw (done-rounds head content now r k h) o
round_change-IsOrdered line (do_observe w now) r k v o h =
    let q : (observed w now r).0 ≡ k = cc in rw (← q, observed-rounds w now r) o

round_step-IsOrdered :
    (line : String → String) (e : RoundEvent) (r : ReviewState)
    → is_live e ≡ true
    → IsOrdered 1 r.rounds
    → IsOrdered 1 (or_same r (round_change line e r)).rounds
round_step-IsOrdered line e r v o = go (round_change line e r) refl
  where
    go : (c : Option ReviewState) → round_change line e r ≡ c → IsOrdered 1 (or_same r c).rounds
    go none q = o
    go (some k) q = round_change-IsOrdered line e r k v o q

-- Over any operations on the review of a pull request, its rounds stay numbered from one on in
-- their order, none but the last is under way or failed before it had a session, and at most one is
-- under way, when this holds at first and rounds are failed only out of the statuses of a round
-- under way.
pub round_run-IsOrdered :
    (line : String → String) (es : List RoundEvent) (r : ReviewState)
    → all is_live es ≡ true
    → IsOrdered 1 r.rounds
    → IsOrdered 1 (round_run line es r).rounds × (active_rounds (round_run line es r).rounds ≤ 1)
round_run-IsOrdered line [] r v o = (o, one_active 1 r.rounds o)
round_run-IsOrdered line (e ∷ es) r v o =
    round_run-IsOrdered line es (or_same r (round_change line e r)) (ground (arith, v))
      (round_step-IsOrdered line e r (ground (arith, v)) o)
