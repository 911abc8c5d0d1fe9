-- ===== src/Queue/Task.antt =====
-- `claimAndRun`, `retry` and `drop` of internal/queue/queue.go. A stored count of attempts that is
-- negative, which the code sets to 0 as soon as it is read, is read as 0.
use arbetern.Base.{
  ℕ, ◌+◌, Bool, not, ◌&&◌, ◌||◌, List, Option, none, some, String, ltb, leb, ◌==◌, str_eq,
  if◌then◌else◌,
}
use arbetern.Store.Client.{Client}
use arbetern.Store.Backend.{Result, ok, err, if_tag, Codec, get, put_json, delete}
use arbetern.Text.{truncate}
use arbetern.Queue.Options.{Options, not_before_after}

abbrev pub max_error_chars : ℕ
max_error_chars = 400

pub record Task : Type 0 where
  pub id : String
  pub topic : String
  pub payload : String
  pub enqueued_at : ℕ
  pub not_before : ℕ
  pub attempts : ℕ
  pub owner : String
  pub lease_until : ℕ
  pub last_error : List ℕ

-- What a worker does with the task that it read.
pub data Decision : Type 0 where
  leave exhausted : Decision
  claim : Task → Decision

-- The guards of `claimAndRun`, and the task that a claim writes.
unfoldable pub decide : Options → String → ℕ → Task → Decision
decide opts holder now t =
    let claimed : Task = record t {
      attempts = t.attempts + 1;
      owner = holder;
      lease_until = now + opts.visibility;
    } in
    if ltb now t.not_before || (ltb now t.lease_until && not (str_eq t.owner holder))
    then leave
    else if ltb opts.max_attempts (t.attempts + 1)
    then exhausted
    else claim claimed

-- The task that `retry` hands back.
unfoldable pub handed_back : ℕ → List ℕ → Task → Task
handed_back now cause t = record t {
  not_before = not_before_after now t.attempts;
  owner = "";
  lease_until = 0;
  last_error = truncate cause max_error_chars;
}

module _ (c : Client) (json : Codec Task) (opts : Options) (holder key : String) where
  -- `drop` only logs what the delete returns.
  unfoldable pub drop : String → c.State → c.State
  drop tag s = (delete c key tag s).1

  unfoldable pub retry : ℕ → List ℕ → String → Task → c.State → c.State
  unfolding drop
  retry now cause tag t s =
      if leb opts.max_attempts t.attempts
      then drop tag s
      else (put_json c json key (handed_back now cause t) (if_tag tag) s).1

  abbrev pub at_most_once : Bool
  at_most_once = opts.max_attempts == 1

  -- After the conditional write of a claim.
  unfoldable pub claimed : Task → Result String × c.State → Option (Task × String) × c.State
  claimed t (err e, s) = (none, s)
  claimed t (ok tag, s) = (some (t, tag), s)

  -- An at-most-once topic gives the task up before it is run.
  unfoldable pub given_up : String → c.State → c.State
  unfolding drop
  given_up tag s = if at_most_once then drop tag s else s

  -- Everything up to the handler: the task to run, with the tag of its claim. `meanwhile` is what
  -- other replicas do to the bucket after the read, and before the write if there is one.
  module _ (meanwhile : c.State → c.State) where
    unfoldable pub act : Decision → String → c.State → Option (Task × String) × c.State
    unfolding claimed
    act leave tag s = (none, meanwhile s)
    act exhausted tag s = (none, drop tag (meanwhile s))
    act (claim t) tag s = claimed t (put_json c json key t (if_tag tag) (meanwhile s))

    unfoldable pub opened : ℕ → Option Task → String → c.State → Option (Task × String) × c.State
    opened now none tag s = (none, drop tag (meanwhile s))
    opened now (some t) tag s = act (decide opts holder now t) tag s

    unfoldable pub on_read :
        ℕ → Result (String × String) → c.State → Option (Task × String) × c.State
    on_read now (err e) s = (none, meanwhile s)
    on_read now (ok r) s = opened now (json.unmarshal r.0) r.1 s

    unfoldable pub claim_task : ℕ → c.State → Option (Task × String) × c.State
    claim_task now s = on_read now (get c key s) s

  -- Everything after the handler, which failed with a cause or not.
  unfoldable pub settle : ℕ → Option (List ℕ) → Task × String → c.State → c.State
  unfolding drop retry
  settle later none (t, tag) s = if at_most_once then s else drop tag s
  settle later (some cause) (t, tag) s = if at_most_once then s else retry later cause tag t s

  -- The handler gets the payload, and may do anything to the bucket. `between` is what other replicas
  -- do after the claim, before an at-most-once topic gives the task up.
  unfoldable pub run_job :
      (c.State → c.State)
      → (String → c.State → Option (List ℕ) × c.State)
      → ℕ
      → Option (Task × String) × c.State
      → Option Task × c.State
  unfolding given_up
  run_job between handler later (none, s) = (none, s)
  run_job between handler later (some job, s) =
      let (failure, s') = handler job.0.payload (given_up job.1 (between s)) in
      (some job.0, settle later failure job s')

  -- `claimAndRun`: the task that was run, if one was, and the bucket afterwards.
  unfoldable pub claim_and_run :
      (c.State → c.State)
      → (c.State → c.State)
      → (String → c.State → Option (List ℕ) × c.State)
      → ℕ
      → ℕ
      → c.State
      → Option Task × c.State
  unfolding run_job
  claim_and_run meanwhile between handler now later s =
      run_job between handler later (claim_task meanwhile now s)
