-- ===== src/Journal/Resumption.antt =====
-- When the sweep of internal/journal/journal.go schedules work again, and how often.
use arbetern.Base.{
  ℕ, ◌+◌, ◌-◌, ◌≤◌, ◌<◌, ◌≡◌, refl, sym, true, ◌||◌, inl, inr, Option, none, some, String, List, [],
  ◌∷◌, arith, length, leb, Bool-cases, if◌then◌else◌,
}
use arbetern.Store.Client.{Client, IsS3}
use arbetern.Store.Backend.{Result, ok, err, if_tag, Codec, get_json, put_json, delete}
use arbetern.Store.Backend.Laws.{stored, put_after_get, Result-cases}
use arbetern.Journal.Entry.{
  Entry, Limits, Reason, refuse, is_stale, stale_after, max_per_sweep, MayResume, refuse-none_iff,
}
use arbetern.Journal.Recovery.{
  Verdict, nothing, abandoned, resumed, acts, next_attempt, claimed, on_verdict, on_entry,
  recover_one, Listed, Turn, limits_of, visit, sweep,
}

-- The sweep at `now` replaced the interrupted entry `e`, which stood at the key in `u`, by `e'`.
abbrev pub Resumes :
    (c : Client) → Codec Entry → Limits → String → ℕ → Entry → Entry → c.State → c.State → Type 0
Resumes c json limits key now e e' u u' =
    (stored c json u key ≡ some e)
    × MayResume limits now e
    × (stale_after ≤ now - e.heartbeat)
    × (e' ≡ next_attempt now e)
    × (stored c json u' key ≡ some e')

module _ (c : Client) (laws : IsS3 c) (json : Codec Entry) (limits : Limits) (key : String)
    (meanwhile : c.State → c.State) (now : ℕ) where
  claimed-resumed :
      (e e' : Entry) (p : Result String × c.State)
      → (claimed c json limits key meanwhile e p).0 ≡ resumed e'
      → (t : String) × (p.0 ≡ ok t) × (e' ≡ e) × ((claimed c json limits key meanwhile e p).1 ≡ p.1)
  claimed-resumed e e' (ok t, s) h = (t, refl, let q : e ≡ e' = cc in sym q, refl)
  claimed-resumed e e' (err x, s) h = absurd (ground arith)

  on_verdict-Resumes :
      (e e' : Entry) (t : String) (r : Option Reason) (s : c.State)
      → get_json c json key s ≡ ok (e, t)
      → refuse e now limits ≡ r
      → is_stale now e.heartbeat ≡ true
      → (on_verdict c json limits key meanwhile now e t r s).0 ≡ resumed e'
      → Resumes c json limits key now e e'
          (meanwhile s)
          (on_verdict c json limits key meanwhile now e t r s).1
  unfolding on_verdict
  on_verdict-Resumes e e' t (some r) s read judged late h =
      elim (Result-cases (delete c key t (meanwhile s)).0) [
        | inl (u, d) ↦ absurd (ground arith)
        | inr (x, d) ↦ absurd (ground arith)
      ]
  on_verdict-Resumes e e' t none s read judged late h =
      let w =
        claimed-resumed (next_attempt now e) e'
          (put_json c json key (next_attempt now e) (if_tag t) (meanwhile s)) h in
      let p = put_after_get c laws json key s (meanwhile s) e (next_attempt now e) t w.0 read w.1 in
      (p.0, (refuse-none_iff e now limits).0 judged, ground arith, w.2, rw (w.3, w.2) p.1)

  on_entry-Resumes :
      (s : c.State) (r : Result (Entry × String)) (e' : Entry)
      → get_json c json key s ≡ r
      → (on_entry c json limits key meanwhile now r s).0 ≡ resumed e'
      → (e : Entry) × Resumes c json limits key now e e'
          (meanwhile s)
          (on_entry c json limits key meanwhile now r s).1
  unfolding on_entry
  on_entry-Resumes s (err x) e' read h = absurd (ground arith)
  on_entry-Resumes s (ok (e, t)) e' read h = elim (Bool-cases (is_stale now e.heartbeat)) [
    | inl late ↦ (
      e,
      rw late (on_verdict-Resumes e e' t (refuse e now limits) s read refl late (rw late at h)),
    )
    | inr young ↦ absurd (ground arith)
  ]

  -- Work is resumed only when the conditional write that announces it replaced, at that moment,
  -- the very entry that was read: one with no change made, attempts left, no older than its kind
  -- allows, and silent for at least `staleAfter`, whatever other replicas did between the read and
  -- the write. The entry that is then stored counts one more attempt.
  pub recover_one-Resumes :
      (s : c.State) (e' : Entry)
      → (recover_one c json limits key meanwhile now s).0 ≡ resumed e'
      → (e : Entry) × Resumes c json limits key now e e'
          (meanwhile s)
          (recover_one c json limits key meanwhile now s).1
  unfolding recover_one
  recover_one-Resumes s e' h = on_entry-Resumes s (get_json c json key s) e' refl h

module _ (c : Client) (json : Codec Entry) (kinds : String → Option Limits)
    (meanwhile : c.State → c.State) (turn : Listed → Turn) where
  counted :
      (v : Verdict) (acted n : ℕ) (rest : List Verdict)
      → length rest + (if acts v then acted + 1 else acted) ≤ n
      → length (if acts v then v ∷ rest else rest) + acted ≤ n
  counted nothing acted n rest h = h
  counted (abandoned e r) acted n rest h = omega (arith, h)
  counted (resumed e) acted n rest h = omega (arith, h)

  next_acted :
      (v : Verdict) (acted : ℕ)
      → acted < max_per_sweep
      → (if acts v then acted + 1 else acted) ≤ max_per_sweep
  next_acted v acted h = ground arith

  -- A sweep acts on at most `maxPerSweep` entries, those it acted on before included.
  pub sweep_bounds :
      (acted : ℕ) (os : List Listed) (s : c.State)
      → acted ≤ max_per_sweep
      → length (sweep c json kinds meanwhile turn acted os s).0 + acted ≤ max_per_sweep
  unfolding sweep
  sweep_bounds acted [] s h = omega (arith, h)
  sweep_bounds acted (o ∷ os) s h =
      let v =
        visit c json kinds meanwhile turn (limits_of c json kinds meanwhile turn o.kind) o s in
      let more = sweep_bounds (if acts v.0 then acted + 1 else acted) os v.1 in
      elim (Bool-cases (leb max_per_sweep acted || (turn o).cancelled)) [
        | inl full ↦ rw full (omega (arith, h))
        | inr room ↦
            rw room (counted v.0 acted max_per_sweep _ (more (next_acted v.0 acted (ground arith))))
      ]
