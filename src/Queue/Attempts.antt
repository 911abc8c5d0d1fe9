-- ===== src/Queue/Attempts.antt =====
-- How often a task of internal/queue/queue.go is run, over all workers and replicas.
use arbetern.Base.{
  ℕ, ◌+◌, ◌≤◌, ◌≡◌, refl, sym, ◌∙◌, inl, inr, Option, none, some, String, List, arith, leb,
  Bool-cases,
}
use native.Mathlib.Nat.{add-zero}
use arbetern.Store.Client.{Client, IsS3}
use arbetern.Store.Backend.{Result, ok, err, if_tag, Codec, get, put_json}
use arbetern.Store.Backend.Laws.{stored, put_json-ok, put_json_any, delete_any, Allows, get-etag}
use arbetern.Queue.Options.{Options}
use arbetern.Queue.Task.{
  Task, Decision, leave, exhausted, claim, decide, handed_back, drop, retry, at_most_once, given_up,
  claimed, act, opened, on_read, claim_task, settle,
}
use arbetern.Queue.Delivery.{decide-claim}

-- The attempts that the bucket records for the task at a key; an object that is gone, or that
-- nobody can decode, has none left.
abbrev pub Spent : ℕ → ℕ → Option Task → Type 0
Spent max n none = n ≤ max
Spent max n (some t) = (n ≤ t.attempts) × (n ≤ max)

-- One start of the handler counts once.
abbrev pub starts {ℓ} : {A : Type ℓ} → Option A → ℕ
starts none = 0
starts (some a) = 1

module _ (c : Client) (laws : IsS3 c) (json : Codec Task) (opts : Options) (key : String) where
  abbrev pub at_key : c.State → Option Task
  at_key s = stored c json s key

  -- A tag that is that of a body which decodes to the task.
  abbrev pub Tags : Task → String → Type 0
  Tags t tag = (b : String) × (json.unmarshal b ≡ some t) × (tag ≡ c.etag b)

  pub Spent-weaken : (n : ℕ) (o : Option Task) → Spent opts.max_attempts n o → n ≤ opts.max_attempts
  Spent-weaken n none h = h
  Spent-weaken n (some t) h = h.1

  pub Spent-zero : (o : Option Task) → Spent opts.max_attempts 0 o
  Spent-zero none = omega arith
  Spent-zero (some t) = omega arith

  drop-Spent :
      (holder tag : String) (s : c.State) (n : ℕ)
      → Spent opts.max_attempts n (at_key s)
      → Spent opts.max_attempts n (at_key (drop c json opts holder key tag s))
  unfolding drop
  drop-Spent holder tag s n h = elim (delete_any c laws key tag s) [
    | inl same ↦ rw same h
    | inr gone ↦ rw gone.0 (Spent-weaken n (at_key s) h)
  ]

  pub given_up-Spent :
      (holder tag : String) (s : c.State) (n : ℕ)
      → Spent opts.max_attempts n (at_key s)
      → Spent opts.max_attempts n (at_key (given_up c json opts holder key tag s))
  unfolding given_up
  given_up-Spent holder tag s n h = elim (Bool-cases (at_most_once c json opts holder key)) [
    | inl once ↦ rw once (drop-Spent holder tag s n h)
    | inr more ↦ rw more h
  ]

  -- A write that is acknowledged, or carried out without being acknowledged, replaced the task
  -- that the tag is of.
  written-over :
      (t : Task) (tag : String) (s : c.State)
      → Tags t tag
      → Allows c (if_tag tag) (c.object s key)
      → at_key s ≡ some t
  written-over t tag s (b, opens, is) met =
      let (x, was, same) = met.0 (λ e. laws.etag_nonempty b (sym is ∙ e)) in
      let e = laws.etag_injective x b (same ∙ is) in rw (was, e) opens

  -- A write over a task under its tag never lowers the count of attempts.
  put-Spent :
      (old new : Task) (tag : String) (s : c.State) (n : ℕ)
      → Tags old tag
      → old.attempts ≤ new.attempts
      → Spent opts.max_attempts n (at_key s)
      → Spent opts.max_attempts n (at_key (put_json c json key new (if_tag tag) s).1)
  put-Spent old new tag s n j le h = elim (put_json_any c laws json key new (if_tag tag) s) [
    | inl same ↦ rw same h
    | inr (b, shut, at, met) ↦
        let e = written-over old tag s j met in
        let k : Spent opts.max_attempts n (some old) = rw e at h in
        rw (at, json.round_trip new b shut) (omega arith, omega arith)
  ]

  -- A claim that is acknowledged makes room for one more start.
  put-Spent_suc :
      (old new : Task) (tag u : String) (s : c.State) (n : ℕ)
      → Tags old tag
      → new.attempts ≡ old.attempts + 1
      → new.attempts ≤ opts.max_attempts
      → (put_json c json key new (if_tag tag) s).0 ≡ ok u
      → Spent opts.max_attempts n (at_key s)
      → Spent opts.max_attempts (n + 1) (at_key (put_json c json key new (if_tag tag) s).1)
  put-Spent_suc old new tag u s n j next within acked h =
      let (b, shut, at, met) = put_json-ok c laws json key new (if_tag tag) s u acked in
      let e = written-over old tag s j met in
      let k : Spent opts.max_attempts n (some old) = rw e at h in
      rw (at, json.round_trip new b shut) (omega arith, omega arith)

  attempts-handed_back :
      (later : ℕ) (cause : List ℕ) (t : Task) → t.attempts ≤ (handed_back later cause t).attempts
  unfolding handed_back
  attempts-handed_back later cause t = omega arith

  retry-Spent :
      (holder : String) (later n : ℕ) (cause : List ℕ) (tag : String) (t : Task) (s : c.State)
      → Tags t tag
      → Spent opts.max_attempts n (at_key s)
      → Spent opts.max_attempts n (at_key (retry c json opts holder key later cause tag t s))
  unfolding retry
  retry-Spent holder later n cause tag t s j h =
      elim (Bool-cases (leb opts.max_attempts t.attempts)) [
        | inl e ↦ rw e (drop-Spent holder tag s n h)
        | inr e ↦ rw e (
            put-Spent t (handed_back later cause t) tag s n j (attempts-handed_back later cause t)
              h)
      ]

  -- After the handler the count of starts still fits what the bucket records.
  pub settle-Spent :
      (holder : String) (later n : ℕ) (f : Option (List ℕ)) (job : Task × String) (s : c.State)
      → Tags job.0 job.1
      → Spent opts.max_attempts n (at_key s)
      → Spent opts.max_attempts n (at_key (settle c json opts holder key later f job s))
  unfolding settle
  settle-Spent holder later n none (t, tag) s j h =
      elim (Bool-cases (at_most_once c json opts holder key)) [
        | inl e ↦ rw e h
        | inr e ↦ rw e (drop-Spent holder tag s n h)
      ]
  settle-Spent holder later n (some cause) (t, tag) s j h =
      elim (Bool-cases (at_most_once c json opts holder key)) [
        | inl e ↦ rw e h
        | inr e ↦ rw e (retry-Spent holder later n cause tag t s j h)
      ]

  module _ (holder : String) (meanwhile : c.State → c.State) (now : ℕ) where
    claimed-Spent :
        (old new : Task) (tag : String) (s : c.State) (n : ℕ) (r : Result String)
        → (put_json c json key new (if_tag tag) s).0 ≡ r
        → Tags old tag
        → new.attempts ≡ old.attempts + 1
        → new.attempts ≤ opts.max_attempts
        → Spent opts.max_attempts n (at_key s)
        → Spent opts.max_attempts
            (n
              + starts
                  (claimed c json opts holder key new
                    (r, (put_json c json key new (if_tag tag) s).1)).0)
            (at_key
              (claimed c json opts holder key new
                (r, (put_json c json key new (if_tag tag) s).1)).1)
    unfolding claimed
    claimed-Spent old new tag s n (err x) e j next within h =
        rw add-zero (put-Spent old new tag s n j (omega arith) h)
    claimed-Spent old new tag s n (ok u) e j next within h =
        put-Spent_suc old new tag u s n j next within e h

    act-Spent :
        (t : Task) (d : Decision) (tag : String) (s : c.State) (n : ℕ)
        → decide opts holder now t ≡ d
        → Tags t tag
        → Spent opts.max_attempts n (at_key (meanwhile s))
        → Spent opts.max_attempts
            (n + starts (act c json opts holder key meanwhile d tag s).0)
            (at_key (act c json opts holder key meanwhile d tag s).1)
    unfolding act
    act-Spent t leave tag s n e j h = rw add-zero h
    act-Spent t exhausted tag s n e j h = rw add-zero (drop-Spent holder tag (meanwhile s) n h)
    act-Spent t (claim new) tag s n e j h =
        let k = (decide-claim opts holder now t new e).1 in
        claimed-Spent t new tag (meanwhile s) n _ refl j k.attempts k.within h

    opened-Spent :
        (o : Option Task) (b tag : String) (s : c.State) (n : ℕ)
        → json.unmarshal b ≡ o
        → tag ≡ c.etag b
        → Spent opts.max_attempts n (at_key (meanwhile s))
        → Spent opts.max_attempts
            (n + starts (opened c json opts holder key meanwhile now o tag s).0)
            (at_key (opened c json opts holder key meanwhile now o tag s).1)
    unfolding opened
    opened-Spent none b tag s n e i h = rw add-zero (drop-Spent holder tag (meanwhile s) n h)
    opened-Spent (some t) b tag s n e i h =
        act-Spent t (decide opts holder now t) tag s n refl (b, e, i) h

    on_read-Spent :
        (r : Result (String × String)) (s : c.State) (n : ℕ)
        → get c key s ≡ r
        → Spent opts.max_attempts n (at_key (meanwhile s))
        → Spent opts.max_attempts
            (n + starts (on_read c json opts holder key meanwhile now r s).0)
            (at_key (on_read c json opts holder key meanwhile now r s).1)
    unfolding on_read
    on_read-Spent (err x) s n e h = rw add-zero h
    on_read-Spent (ok (b, tag)) s n e h =
        opened-Spent (json.unmarshal b) b tag s n refl (get-etag c laws key s b tag e) h

    -- Whatever other replicas do between the read and the write, the starts counted so far and
    -- this one never exceed the attempts that the bucket records, nor the topic's budget.
    pub claim_task-Spent :
        (s : c.State) (n : ℕ)
        → Spent opts.max_attempts n (at_key (meanwhile s))
        → Spent opts.max_attempts
            (n + starts (claim_task c json opts holder key meanwhile now s).0)
            (at_key (claim_task c json opts holder key meanwhile now s).1)
    unfolding claim_task
    claim_task-Spent s n h = on_read-Spent (get c key s) s n refl h
