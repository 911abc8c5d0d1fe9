-- ===== src/Journal/Recovery.antt =====
-- The sweep of internal/journal/journal.go: `recoverOne` and `Recover`.
use arbetern.Base.{
  ℕ, ◌+◌, Bool, true, false, ◌||◌, Option, none, some, String, List, [], ◌∷◌, leb, if◌then◌else◌,
}
use arbetern.Store.Client.{Client}
use arbetern.Store.Backend.{Result, ok, err, if_tag, Codec, get_json, put_json, delete}
use arbetern.Journal.Entry.{Entry, Limits, Reason, refuse, is_stale, max_per_sweep}

-- What the sweep did with an entry: nothing, handed it to `Abandon`, or handed it to `Resume`.
pub data Verdict : Type 0 where
  nothing : Verdict
  abandoned : Entry → Reason → Verdict
  resumed : Entry → Verdict

abbrev pub acts : Verdict → Bool
acts nothing = false
acts _ = true

-- The entry that a resume stores before the work is scheduled again.
abbrev pub next_attempt : ℕ → Entry → Entry
next_attempt now e = record e {
  attempt = e.attempt + 1;
  owner = "";
  started_at = now;
  heartbeat = now;
}

-- `meanwhile` is what other replicas do after the read, and before the write if there is one.
module _ (c : Client) (json : Codec Entry) (limits : Limits) (key : String)
    (meanwhile : c.State → c.State) where
  abbrev pub retired : Entry → Reason → Result (Unit {0}) × c.State → Verdict × c.State
  retired e r (ok u, s) = (abandoned e r, s)
  retired e r (err x, s) = (nothing, s)

  abbrev pub claimed : Entry → Result String × c.State → Verdict × c.State
  claimed e (ok t, s) = (resumed e, s)
  claimed e (err x, s) = (nothing, s)

  unfoldable pub on_verdict : ℕ → Entry → String → Option Reason → c.State → Verdict × c.State
  on_verdict now e tag (some r) s = retired e r (delete c key tag (meanwhile s))
  on_verdict now e tag none s =
      claimed (next_attempt now e)
        (put_json c json key (next_attempt now e) (if_tag tag) (meanwhile s))

  unfoldable pub on_entry : ℕ → Result (Entry × String) → c.State → Verdict × c.State
  on_entry now (err x) s = (nothing, meanwhile s)
  on_entry now (ok (e, tag)) s =
      let judged = on_verdict now e tag (refuse e now limits) s in
      if is_stale now e.heartbeat then judged else (nothing, meanwhile s)

  unfoldable pub recover_one : ℕ → c.State → Verdict × c.State
  unfolding on_entry
  recover_one now s = on_entry now (get_json c json key s) s

-- A listed object, with the kind in its key if it has one.
pub record Listed : Type 0 where
  pub key : String
  pub kind : Option String
  pub last_modified : ℕ

-- What the clock and the context say at an object's turn.
pub record Turn : Type 0 where
  pub since : ℕ
  pub now : ℕ
  pub cancelled : Bool

module _ (c : Client) (json : Codec Entry) (kinds : String → Option Limits)
    (meanwhile : c.State → c.State) (turn : Listed → Turn) where
  abbrev pub limits_of : Option String → Option Limits
  limits_of none = none
  limits_of (some k) = kinds k

  -- One turn of the loop: what is done with the object, and the bucket after it.
  unfoldable pub visit : Option Limits → Listed → c.State → Verdict × c.State
  visit none o s = (nothing, s)
  visit (some h) o s =
      let r = recover_one c json h o.key meanwhile (turn o).now s in
      if is_stale (turn o).since o.last_modified then r else (nothing, s)

  -- The loop of `Recover` over the objects, oldest first: the entries it acted on, and the bucket.
  unfoldable pub sweep : ℕ → List Listed → c.State → List Verdict × c.State
  sweep acted [] s = ([], s)
  sweep acted (o ∷ os) s =
      let v = visit (limits_of o.kind) o s in
      let rest = sweep (if acts v.0 then acted + 1 else acted) os v.1 in
      if leb max_per_sweep acted || (turn o).cancelled
      then ([], s)
      else (if acts v.0 then v.0 ∷ rest.0 else rest.0, rest.1)
