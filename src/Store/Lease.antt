-- ===== src/Store/Lease.antt =====
-- The lease of one object of internal/store/lease.go: `claim`, `Acquire`, one tick of `renew` and
-- `release`. The times that `time.Now()` returns are arguments, in the order of the calls.
pub mod Exclusion
use arbetern.Base.{
  ℕ, ◌+◌, Bool, true, false, not, ◌&&◌, ◌||◌, Option, none, some, String, ltb, str_eq,
  if◌then◌else◌,
}
use arbetern.Store.Client.{Client}
use arbetern.Store.Backend.{
  Error, not_found, conflict, other, Result, ok, err, if_absent, if_tag, Codec, get_json, put_json,
  delete,
}

-- `leaseRecord`, as it is stored.
pub record LeaseRecord : Type 0 where
  pub holder : String
  pub expires : ℕ

-- `holding`: what a holder remembers of its lease. `cancelled` tells that its context ended.
pub record Holding : Type 0 where
  pub tag : String
  pub expires : ℕ
  pub cancelled : Bool
  pub released : Bool

-- `meanwhile` is what other replicas do to the bucket between the read and the write of a claim.
module _ (c : Client) (json : Codec LeaseRecord) (key holder : String) (ttl : ℕ)
    (meanwhile : c.State → c.State) where
  -- The end of `claim`: the tag if the lease was won, none if somebody else has it.
  abbrev claim_result : Result String × c.State → Result (Option String) × c.State
  claim_result (ok t, s) = (ok (some t), s)
  claim_result (err conflict, s) = (ok none, s)
  claim_result (err e, s) = (err e, s)

  abbrev mine : ℕ → LeaseRecord
  mine now = record { holder = holder; expires = now + ttl }

  abbrev claim_over : ℕ → Result (LeaseRecord × String) → c.State → Result (Option String) × c.State
  claim_over now (err not_found) s =
      claim_result (put_json c json key (mine now) if_absent (meanwhile s))
  claim_over now (err e) s = (err e, s)
  claim_over now (ok r) s =
      let taken = claim_result (put_json c json key (mine now) (if_tag r.1) (meanwhile s)) in
      if not (str_eq r.0.holder holder) && ltb now r.0.expires then (ok none, s) else taken

  unfoldable pub claim : ℕ → c.State → Result (Option String) × c.State
  claim now s = claim_over now (get_json c json key s) s

  abbrev acquired : ℕ → Result (Option String) → Result (Option Holding)
  acquired later (err e) = err e
  acquired later (ok none) = ok none
  acquired later (ok (some t)) =
      ok (some (record { tag = t; expires = later + ttl; cancelled = false; released = false }))

  -- `Acquire`: the local expiry is set after the claim, from a later reading of the clock.
  unfoldable pub acquire : ℕ → ℕ → c.State → Result (Option Holding) × c.State
  acquire now later s = (acquired later (claim now s).0, (claim now s).1)

module _ (c : Client) (json : Codec LeaseRecord) (key holder : String) (ttl : ℕ) where
  abbrev renewed : ℕ → ℕ → Holding → Result String → Holding
  renewed now later h (ok t) = record h { tag = t; expires = now + ttl }
  renewed now later h (err other) = if ltb h.expires later then record h { cancelled = true } else h
  renewed now later h (err e) = record h { cancelled = true }

  -- One tick of the loop of `renew`; it does not run once the context ended or `stop` is closed.
  unfoldable pub renew : ℕ → ℕ → Holding → c.State → Holding × c.State
  renew now later h s =
      let w =
        put_json c json key (record { holder = holder; expires = now + ttl }) (if_tag h.tag) s in
      if h.cancelled || h.released then (h, s) else (renewed now later h w.0, w.1)

  -- `release`, under its `once`.
  unfoldable pub release : Holding → c.State → Holding × c.State
  release h s =
      if h.released
      then (h, s)
      else (record h { cancelled = true; released = true }, (delete c key h.tag s).1)
