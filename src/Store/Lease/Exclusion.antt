-- ===== src/Store/Lease/Exclusion.antt =====
-- At most one replica takes the lease while it is live (internal/store/lease.go).
use arbetern.Base.{
  ℕ, ◌+◌, ◌-◌, ◌≤◌, ◌<◌, ◌≡◌, refl, ◌≢◌, ◌⊎◌, inl, inr, false, Option, none, some, String, arith,
  eq_iff, ltb, str_eq, Bool-cases, sym, ap, ◌∙◌, not, ◌&&◌,
}
use arbetern.Store.Client.{Client, IsS3}
use arbetern.Store.Backend.{
  not_found, conflict, other, Result, ok, err, if_absent, if_tag, Codec, get_json, put_json,
}
use arbetern.Store.Backend.Laws.{stored, put_json-ok, put_after_get, delete_any}
use arbetern.Store.Lease.{
  LeaseRecord, Holding, claim, claim_over, claim_result, acquire, acquired, renew, renewed, release,
}

-- Free for `holder` at `now`: no object, its own record, or one that has expired.
abbrev pub IsFree : (c : Client) → Codec LeaseRecord → String → String → ℕ → c.State → Type 0
IsFree c json key holder now s =
    (c.object s key ≡ none)
    ⊎ ((r : LeaseRecord) × (stored c json s key ≡ some r)
        × ((r.holder ≡ holder) ⊎ (r.expires ≤ now)))

module _ (c : Client) (laws : IsS3 c) (json : Codec LeaseRecord) (key holder : String) (ttl : ℕ)
    (meanwhile : c.State → c.State) (now : ℕ) (s : c.State) where
  abbrev mine : LeaseRecord
  mine = record { holder = holder; expires = now + ttl }

  absent :
      (t : String)
      → (put_json c json key mine if_absent (meanwhile s)).0 ≡ ok t
      → IsFree c json key holder now (meanwhile s)
        × (stored c json (put_json c json key mine if_absent (meanwhile s)).1 key ≡ some mine)
  absent t w =
      let (b, shut, at, met) = put_json-ok c laws json key mine if_absent (meanwhile s) t w in
      (inl (met.1 refl), rw at (json.round_trip mine b shut))

  expired :
      (r : LeaseRecord) (t u : String)
      → get_json c json key s ≡ ok (r, t)
      → (r.holder ≡ holder) ⊎ (r.expires ≤ now)
      → (put_json c json key mine (if_tag t) (meanwhile s)).0 ≡ ok u
      → IsFree c json key holder now (meanwhile s)
        × (stored c json (put_json c json key mine (if_tag t) (meanwhile s)).1 key ≡ some mine)
  expired r t u read free w =
      let p = put_after_get c laws json key s (meanwhile s) r mine t u read w in
      (inr (r, p.0, free), p.1)

  claim_result-won :
      (p : Result String × c.State) (t : String)
      → (claim_result c json key holder ttl meanwhile p).0 ≡ ok (some t)
      → (p.0 ≡ ok t) × ((claim_result c json key holder ttl meanwhile p).1 ≡ p.1)
  claim_result-won (ok u, s') t h = (ground arith, refl)
  claim_result-won (err conflict, s') t h = absurd (ground arith)
  claim_result-won (err not_found, s') t h = absurd (ground arith)
  claim_result-won (err other, s') t h = absurd (ground arith)

  claim_over-IsFree :
      (r : Result (LeaseRecord × String)) (t : String)
      → get_json c json key s ≡ r
      → (claim_over c json key holder ttl meanwhile now r s).0 ≡ ok (some t)
      → IsFree c json key holder now (meanwhile s)
        × (stored c json (claim_over c json key holder ttl meanwhile now r s).1 key ≡ some mine)
  claim_over-IsFree (err not_found) t read h =
      let w = claim_result-won (put_json c json key mine if_absent (meanwhile s)) t h in
      rw w.1 (absent t w.0)
  claim_over-IsFree (err conflict) t read h = absurd (ground arith)
  claim_over-IsFree (err other) t read h = absurd (ground arith)
  claim_over-IsFree (ok (r, tag)) t read h =
      elim (Bool-cases (not (str_eq r.holder holder) && ltb now r.expires)) [
        | inl live ↦ absurd (ground arith)
        | inr free ↦
            let w =
              claim_result-won (put_json c json key mine (if_tag tag) (meanwhile s)) t
                (rw free at h) in
            let open_to : (r.holder ≡ holder) ⊎ (r.expires ≤ now) =
              ground (arith, eq_iff r.holder holder) in
            rw (free, w.1) (expired r tag t read open_to w.0)
      ]

  -- A claim that wins found the lease free at the moment of its write, whatever other replicas
  -- did since it read: no object, the claimer's own record, or a record that had expired. The
  -- lease is then the claimer's for the whole time to live.
  pub claim-IsFree :
      (t : String)
      → (claim c json key holder ttl meanwhile now s).0 ≡ ok (some t)
      → IsFree c json key holder now (meanwhile s)
        × (stored c json (claim c json key holder ttl meanwhile now s).1 key ≡ some mine)
  unfolding claim
  claim-IsFree t h = claim_over-IsFree (get_json c json key s) t refl h

module _ (c : Client) (laws : IsS3 c) (json : Codec LeaseRecord) (key holder : String) (ttl : ℕ)
    (now later : ℕ) (h : Holding) (s : c.State) where
  abbrev renewal : LeaseRecord
  renewal = record { holder = holder; expires = now + ttl }

  abbrev write : Result String × c.State
  write = put_json c json key renewal (if_tag h.tag) s

  renew_live :
      h.cancelled ≡ false
      → h.released ≡ false
      → renew c json key holder ttl now later h s
        ≡ (renewed c json key holder ttl now later h write.0, write.1)
  unfolding renew
  renew_live live kept = rw (live, kept)

  renewed-alive :
      (r : Result String)
      → write.0 ≡ r
      → (renewed c json key holder ttl now later h r).cancelled ≡ false
      → (stored c json write.1 key ≡ some renewal)
        ⊎ ((r ≡ err other)
            × (renewed c json key holder ttl now later h r ≡ h)
            × (later ≤ h.expires))
  renewed-alive (ok t) e alive =
      let (b, shut, at, met) = put_json-ok c laws json key renewal (if_tag h.tag) s t e in
      inl (rw at (json.round_trip renewal b shut))
  renewed-alive (err not_found) e alive = absurd (ground arith)
  renewed-alive (err conflict) e alive = absurd (ground arith)
  renewed-alive (err other) e alive = inr (refl, ground arith, ground arith)

  -- A tick of the renewal loop that leaves the context alive either stored the longer lease, or
  -- its write failed with neither a conflict nor a missing object, before the holder's own expiry
  -- passed, and changed nothing that the holder remembers.
  pub renew-alive :
      h.cancelled ≡ false
      → h.released ≡ false
      → (renew c json key holder ttl now later h s).0.cancelled ≡ false
      → (stored c json (renew c json key holder ttl now later h s).1 key ≡ some renewal)
        ⊎ ((write.0 ≡ err other)
            × ((renew c json key holder ttl now later h s).0 ≡ h)
            × (later ≤ h.expires))
  renew-alive live kept alive =
      let e = renew_live live kept in rw e (renewed-alive write.0 refl (rw e at alive))

  release_twice :
      release c json key holder ttl
        (release c json key holder ttl h s).0
        (release c json key holder ttl h s).1
      ≡ release c json key holder ttl h s
  unfolding release
  release_twice = ground arith

  -- Only the object that the holder wrote is removed: a release under a tag that is not that of
  -- the object leaves the object, and a second release does nothing at all.
  pub release_lost :
      (b : String)
      → c.object s key ≡ some b
      → h.tag ≢ ""
      → c.etag b ≢ h.tag
      → (c.object (release c json key holder ttl h s).1 key ≡ some b)
        × (release c json key holder ttl
              (release c json key holder ttl h s).0
              (release c json key holder ttl h s).1
            ≡ release c json key holder ttl h s)
  unfolding release
  release_lost b at tagged foreign = elim (Bool-cases h.released) [
    | inl e ↦ (simp e at, release_twice)
    | inr e ↦ elim (delete_any c laws key h.tag s) [
      | inl same ↦ (simp e (same ∙ at), release_twice)
      | inr (gone, met) ↦
          let (x, was, tag) = met.0 tagged in
          let q : x ≡ b = cc in absurd (foreign (ap c.etag (sym q) ∙ tag))
    ]
  ]

module _ (c : Client) (laws : IsS3 c) (json : Codec LeaseRecord) (key holder : String) (ttl : ℕ)
    (meanwhile : c.State → c.State) (now later : ℕ) (s : c.State) where
  won :
      (r : Result (Option String)) (h : Holding)
      → acquired c json key holder ttl meanwhile later r ≡ ok (some h)
      → (t : String) × (r ≡ ok (some t)) × (h.expires ≡ later + ttl)
  won (ok (some t)) h e = (t, refl, sym (ap expiry e))
    where
      expiry : Result (Option Holding) → ℕ
      expiry (ok (some h)) = h.expires
      expiry _ = later + ttl
  won (ok none) h e = absurd (ground arith)
  won (err x) h e = absurd (ground arith)

  -- A lease that was acquired is stored as running out one time to live after the first reading
  -- of the clock, while its holder counts from the second reading: the holder goes on believing
  -- in the lease after the stored one has run out, for as long as the claim took.
  pub acquire_outlives :
      (h : Holding)
      → now < later
      → (acquire c json key holder ttl meanwhile now later s).0 ≡ ok (some h)
      → (r : LeaseRecord) × (stored c json
            (acquire c json key holder ttl meanwhile now later s).1
            key
          ≡ some r)
        × (r.expires < h.expires)
        × (h.expires ≡ r.expires + (later - now))
  unfolding acquire
  acquire_outlives h late e =
      let (t, win, x) = won (claim c json key holder ttl meanwhile now s).0 h e in
      let p = claim-IsFree c laws json key holder ttl meanwhile now s t win in
      (record { holder = holder; expires = now + ttl }, p.1, ground arith, ground arith)
