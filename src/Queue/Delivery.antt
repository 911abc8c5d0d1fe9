-- ===== src/Queue/Delivery.antt =====
-- How often and when a task of internal/queue/queue.go is run.
use arbetern.Base.{ℕ, ◌+◌, ◌≤◌, ◌≡◌, refl, sym, ap, ◌⊎◌, Option, none, some, String, arith, eq_iff}
use arbetern.Store.Client.{Client, IsS3}
use arbetern.Store.Backend.{Result, ok, err, if_tag, Codec, get, get_json, put_json}
use arbetern.Store.Backend.Laws.{stored, put_json-etag, put_after_get}
use arbetern.Queue.Options.{Options}
use arbetern.Queue.Task.{
  Task, Decision, leave, exhausted, claim, decide, claimed, act, opened, on_read, claim_task,
}

-- A task that `holder` may take at `now`: due, and not leased to another worker.
pub record IsDue (holder : String) (now : ℕ) (t : Task) : Type 0 where
  pub due : t.not_before ≤ now
  pub unleased : (t.lease_until ≤ now) ⊎ (t.owner ≡ holder)

-- What a claim writes over the task `t`: one more attempt, within the budget, under a lease.
pub record Claims (opts : Options) (holder : String) (now : ℕ) (t t' : Task) : Type 0 where
  pub attempts : t'.attempts ≡ t.attempts + 1
  pub within : t'.attempts ≤ opts.max_attempts
  pub payload : t'.payload ≡ t.payload
  pub owner : t'.owner ≡ holder
  pub lease : t'.lease_until ≡ now + opts.visibility

pub decide-claim :
    (opts : Options) (holder : String) (now : ℕ) (t t' : Task)
    → decide opts holder now t ≡ claim t'
    → IsDue holder now t × Claims opts holder now t t'
unfolding decide
decide-claim opts holder now t t' h = ground (arith, eq_iff t.owner holder)

module _ (c : Client) (laws : IsS3 c) (json : Codec Task) (opts : Options) (holder key : String)
    (meanwhile : c.State → c.State) (now : ℕ) where
  -- What a worker knows of the task that it claimed: the tag is that of the body it wrote.
  abbrev pub IsJob : Task × String → Type 0
  IsJob job = (b : String) × (json.marshal job.0 ≡ some b) × (job.1 ≡ c.etag b)

  -- The task `t` was at the key at the moment of the write, and the claim of `job` over it held.
  abbrev pub Took : Task × String → c.State → Type 0
  Took job u =
      (t : Task) × (stored c json u key ≡ some t)
      × IsDue holder now t
      × Claims opts holder now t job.0

  read_json :
      (s : c.State) (r : String × String) (t : Task)
      → get c key s ≡ ok r
      → json.unmarshal r.0 ≡ some t
      → get_json c json key s ≡ ok (t, r.1)
  unfolding get_json
  read_json s r t e o = rw (e, get_json, o)

  pub claimed-some :
      (t : Task) (r : Result String) (s : c.State) (job : Task × String)
      → (claimed c json opts holder key t (r, s)).0 ≡ some job
      → (r ≡ ok job.1) × (job.0 ≡ t)
  unfolding claimed
  claimed-some t (ok tag) s job h =
      let e : (t, tag) ≡ job = cc in (ap (λ j. ok j.1) e, sym (ap (λ j. j.0) e))
  claimed-some t (err x) s job h = absurd (ground arith)

  claimed-Took :
      (s : c.State) (r : String × String) (t t' : Task) (job : Task × String)
      → get c key s ≡ ok r
      → json.unmarshal r.0 ≡ some t
      → decide opts holder now t ≡ claim t'
      → (claimed c json opts holder key t' (put_json c json key t' (if_tag r.1) (meanwhile s))).0
        ≡ some job
      → Took job (meanwhile s) × IsJob job
  claimed-Took s r t t' job e o d h =
      let w = claimed-some t' _ _ job h in
      let p =
        put_after_get c laws json key s (meanwhile s) t t' r.1 job.1 (read_json s r t e o) w.0 in
      let k = decide-claim opts holder now t t' d in
      let m = put_json-etag c laws json key t' (if_tag r.1) (meanwhile s) job.1 w.0 in
      ((t, p.0, k.0, rw w.1 k.1), rw w.1 m)

  act-Took :
      (s : c.State) (r : String × String) (t : Task) (d : Decision) (job : Task × String)
      → get c key s ≡ ok r
      → json.unmarshal r.0 ≡ some t
      → decide opts holder now t ≡ d
      → (act c json opts holder key meanwhile d r.1 s).0 ≡ some job
      → Took job (meanwhile s) × IsJob job
  unfolding act
  act-Took s r t leave job e o d h = absurd (ground arith)
  act-Took s r t exhausted job e o d h = absurd (ground arith)
  act-Took s r t (claim t') job e o d h = claimed-Took s r t t' job e o d h

  opened-Took :
      (s : c.State) (r : String × String) (o : Option Task) (job : Task × String)
      → get c key s ≡ ok r
      → json.unmarshal r.0 ≡ o
      → (opened c json opts holder key meanwhile now o r.1 s).0 ≡ some job
      → Took job (meanwhile s) × IsJob job
  unfolding opened
  opened-Took s r none job e o h = absurd (ground arith)
  opened-Took s r (some t) job e o h = act-Took s r t (decide opts holder now t) job e o refl h

  on_read-Took :
      (s : c.State) (r : Result (String × String)) (job : Task × String)
      → get c key s ≡ r
      → (on_read c json opts holder key meanwhile now r s).0 ≡ some job
      → Took job (meanwhile s) × IsJob job
  unfolding on_read
  on_read-Took s (err x) job e h = absurd (ground arith)
  on_read-Took s (ok r) job e h = opened-Took s r (json.unmarshal r.0) job e refl h

  -- A worker runs a task only after its claim replaced, at one moment, a task at the key that was
  -- due, not leased to another worker and had attempts left, whatever other replicas did between
  -- the worker's read and its write; the claim counts the attempt and leases the task. The tag
  -- that the worker keeps is that of the task as it wrote it.
  pub claim_task-Took :
      (s : c.State) (job : Task × String)
      → (claim_task c json opts holder key meanwhile now s).0 ≡ some job
      → Took job (meanwhile s) × IsJob job
  unfolding claim_task
  claim_task-Took s job h = on_read-Took s (get c key s) job refl h
