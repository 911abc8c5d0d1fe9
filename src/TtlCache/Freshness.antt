-- ===== src/TtlCache/Freshness.antt =====
-- When `Cache.Get` of internal/ttlcache/ttlcache.go fetches, and what it answers.
use arbetern.Base.{
  ℕ, ◌+◌, ◌≤◌, ◌<◌, ◌≡◌, ◌≢◌, refl, inl, inr, Bool, true, false, Option, none, some, arith, ltb,
  Bool-cases,
}
use arbetern.TtlCache.{
  fail_cooldown, Fetched, fetched, failed, empty, Cache, Refresh, or_error, is_fresh_value,
  refreshed, get, invalidate,
}

-- A failure that is remembered has its error.
abbrev pub IsValid : {T E : Type 0} → Cache T E → Type 0
IsValid {T} {E} c = 1 ≤ c.fail_until → (e : E) × (c.last_err ≡ some e)

module _ {T E : Type 0} where
  -- Until when a fetch that its caller waited for is not repeated.
  abbrev pub rests : Cache T E → Fetched T E → ℕ
  rests c (fetched v) = c.ttl
  rests c (failed x) = fail_cooldown

  or_error-ne : (o : Option T) (x : E) → or_error o (some x) ≢ empty
  or_error-ne none x h = absurd (ground (arith, h))
  or_error-ne (some v) x h = absurd (ground (arith, h))

  fresh-ne :
      (now : ℕ) (c : Cache T E) (o : Option T) (e : Option E)
      → is_fresh_value now c o ≡ true
      → or_error o e ≢ empty
  fresh-ne now c none e f h = absurd (ground (arith, f))
  fresh-ne now c (some v) e f h = absurd (ground (arith, h))

  failure-IsValid :
      (c : Cache T E) (away : Bool) (later : ℕ) (x : E)
      → IsValid c
      → IsValid (refreshed c away later (failed x)).cache
  unfolding refreshed
  failure-IsValid c true later x valid = valid
  failure-IsValid c false later x valid = λ h. (x, refl)

  refreshed-IsValid :
      (c : Cache T E) (away : Bool) (later : ℕ) (o : Fetched T E)
      → IsValid c
      → IsValid (refreshed c away later o).cache × ((refreshed c away later o).answer ≢ empty)
  unfolding refreshed
  refreshed-IsValid c away later (fetched v) valid =
      (λ h. absurd (ground (arith, h)), λ h. absurd (ground (arith, h)))
  refreshed-IsValid c away later (failed x) valid =
      (failure-IsValid c away later x valid, or_error-ne c.held x)

  -- `Get` never answers with neither a value nor an error, and neither it nor `Invalidate` forgets
  -- the error of a failure that it remembers.
  pub get-IsValid :
      (now : ℕ) (r : Refresh T E) (c : Cache T E)
      → IsValid c
      → IsValid (get now r c).cache × ((get now r c).answer ≢ empty) × IsValid (invalidate c)
  unfolding get invalidate
  get-IsValid now r c valid =
      let v = refreshed-IsValid c r.walked_away r.done_at r.outcome valid in
      elim (Bool-cases (is_fresh_value now c c.held)) [
        | inl y ↦ rw y (valid, fresh-ne now c c.held none y, λ h. absurd (ground (arith, h)))
        | inr n ↦ elim (Bool-cases (ltb now c.fail_until)) [
          | inl z ↦
              let (e, known) = valid (ground (arith, z)) in
              rw (n, z) (valid, rw known (or_error-ne c.held e), λ h. absurd (ground (arith, h)))
          | inr z ↦ rw (n, z) (v.0, v.1, λ h. absurd (ground (arith, h)))
        ]
      ]

  failed_again :
      (c : Cache T E) (later next : ℕ) (x : E) (s : Refresh T E) (o : Option T)
      → c.held ≡ o
      → next < later + fail_cooldown
      → get next s (refreshed c false later (failed x)).cache ≡ record {
        answer = or_error c.held (some x);
        cache = (refreshed c false later (failed x)).cache;
        ran = false;
      }
  unfolding get refreshed
  failed_again c later next x s none e soon =
      let y : ltb next (later + fail_cooldown) ≡ true = ground (arith, soon) in rw (e, y) refl
  failed_again c later next x s (some v) e soon =
      let y : ltb next (later + fail_cooldown) ≡ true = ground (arith, soon) in
      elim (Bool-cases (ltb next c.expires_at)) [
        | inl z ↦ rw (e, z) refl
        | inr z ↦ rw (e, z, y) refl
      ]

  refreshed_again :
      (c : Cache T E) (later next : ℕ) (o : Fetched T E) (s : Refresh T E)
      → next < later + rests c o
      → get next s (refreshed c false later o).cache
        ≡ record (refreshed c false later o) { ran = false }
  unfolding get refreshed
  refreshed_again c later next (fetched v) s soon =
      let y : ltb next (later + c.ttl) ≡ true = ground (arith, soon) in rw y refl
  refreshed_again c later next (failed x) s soon = failed_again c later next x s c.held refl soon

  -- No fetch is repeated too soon. After one that succeeded, every call answers its value without
  -- a fetch until the time to live has passed; after one that failed, unless its caller walked
  -- away, every call answers as it did, the last good value if there is one and the error
  -- otherwise, without a fetch until the cooldown has passed. The cache stays as it is.
  pub get_again :
      (now : ℕ) (r : Refresh T E) (c : Cache T E) (next : ℕ) (s : Refresh T E)
      → (get now r c).ran ≡ true
      → r.walked_away ≡ false
      → next < r.done_at + rests c r.outcome
      → get next s (get now r c).cache ≡ record (get now r c) { ran = false }
  unfolding get
  get_again now r c next s ran stayed soon = elim (Bool-cases (is_fresh_value now c c.held)) [
    | inl y ↦ absurd (ground (arith, y, ran))
    | inr n ↦ elim (Bool-cases (ltb now c.fail_until)) [
      | inl z ↦ absurd (ground (arith, n, z, ran))
      | inr z ↦ rw (n, z, stayed) (refreshed_again c r.done_at next r.outcome s soon)
    ]
  ]
