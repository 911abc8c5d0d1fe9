-- ===== src/Journal/Starts.antt =====
-- What `Begin` of internal/journal/journal.go takes over from an earlier start of the same work.
use arbetern.Base.{
  subst, ℕ, ◌+◌, ◌-◌, ◌≤◌, ◌≡◌, refl, sym, ◌⊎◌, inl, inr, false, some, String, arith, Bool-cases,
  ltb, leb, ◌&&◌,
}
use arbetern.Store.Client.{Client, IsS3}
use arbetern.Store.Backend.{Result, ok, err, unconditional, Codec, get_json, put_json}
use arbetern.Store.Backend.Laws.{stored, put_json-ok, put_json-etag}
use arbetern.Journal.Entry.{Entry, carry_window}
use arbetern.Journal.Handle.{Handle, fresh_entry, carried, started, begin}

-- The entry that was read counted an attempt and first started at most `carryWindow` ago.
abbrev pub IsRecent : ℕ → Entry → Type 0
IsRecent now p = (1 ≤ p.attempt) × (now ≤ p.first_seen + carry_window)

-- The new entry counts on from the one that was read if that is recent, and else starts at one.
abbrev pub CountsOn : ℕ → Result (Entry × String) → Entry → Type 0
CountsOn now r e =
    (((p : Entry × String) → r ≡ ok p → ¬ IsRecent now p.0)
      × (e.attempt ≡ 1)
      × (e.first_seen ≡ now))
    ⊎ ((p : Entry × String) × (r ≡ ok p)
        × IsRecent now p.0
        × (e.attempt ≡ p.0.attempt)
        × (e.first_seen ≡ p.0.first_seen))

module _ (c : Client) (laws : IsS3 c) (json : Codec Entry) (key : String)
    (meanwhile : c.State → c.State) (kind target detail holder : String) (now : ℕ) where
  abbrev new : Result (Entry × String) → Entry
  new r = carried c json key now r (fresh_entry c json key kind target detail holder now)

  carried-CountsOn :
      (r : Result (Entry × String))
      → CountsOn now r (new r) × ((new r).heartbeat ≡ now) × ((new r).side_effects ≡ false)
  unfolding carried
  carried-CountsOn (err x) = (inl (λ p e. absurd (ground (arith, e)), refl, refl), refl, refl)
  carried-CountsOn (ok (p, t)) =
      elim (Bool-cases (ltb 0 p.attempt && leb (now - p.first_seen) carry_window)) [
        | inl y ↦ rw y (inr ((p, t), refl, (ground arith, ground arith), refl, refl), refl, refl)
        | inr n ↦
            let none_recent : (q : Entry × String) → ok (p, t) ≡ ok q → ¬ IsRecent now q.0 =
              λ q e h.
                let same : (p, t) ≡ q = cc in
                let u : IsRecent now p =
                  subst (λ (x : Entry × String). IsRecent now x.0) (sym same) h in
                absurd (ground (arith, u, n)) in
            rw n (inl (none_recent, refl, refl), refl, refl)
      ]

  started-some :
      (e : Entry) (p : Result String × c.State) (h : Handle)
      → (started c json key e p).0 ≡ some h
      → (t : String) × (p.0 ≡ ok t)
        × (h ≡ record { entry = e; tag = t; closed = false })
        × ((started c json key e p).1 ≡ p.1)
  started-some e (ok t, s) h q =
      (t, refl, let w : record { entry = e; tag = t; closed = false } ≡ h = cc in sym w, refl)
  started-some e (err x, s) h q = absurd (ground arith)

  -- A start that returns a handle has stored the handle's entry, under the tag that the handle
  -- keeps. The entry is unmarked. If the entry that was read before counted an attempt and first
  -- started at most `carryWindow` ago, the attempt and the first start are taken over from it; if
  -- not, or if none could be read, it is the first attempt and starts now.
  pub begin-CountsOn :
      (s : c.State) (h : Handle)
      → (begin c json key meanwhile kind target detail holder now s).0 ≡ some h
      → (stored c json (begin c json key meanwhile kind target detail holder now s).1 key
          ≡ some h.entry)
        × ((b : String) × (json.marshal h.entry ≡ some b) × (h.tag ≡ c.etag b))
        × CountsOn now (get_json c json key s) h.entry
        × (h.entry.side_effects ≡ false)
        × (h.closed ≡ false)
  unfolding begin
  begin-CountsOn s h q =
      let e = new (get_json c json key s) in
      let w = started-some e (put_json c json key e unconditional (meanwhile s)) h q in
      let k = carried-CountsOn (get_json c json key s) in
      let (b, shut, at, met) = put_json-ok c laws json key e unconditional (meanwhile s) w.0 w.1 in
      let m = put_json-etag c laws json key e unconditional (meanwhile s) w.0 w.1 in
      rw (w.2, w.3) (rw at (json.round_trip e b shut), m, k.0, k.2, refl)
