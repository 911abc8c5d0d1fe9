-- ===== src/TtlCache/Keyed/Bounds.antt =====
-- The cache of internal/ttlcache/keyed.go keeps to its bound.
use arbetern.Base.{
  ℕ, zero, suc, ◌+◌, ◌≤◌, ◌≡◌, refl, inl, inr, Bool, true, false, ◌||◌, ◌==◌, Option, none, some,
  String, List, [], ◌∷◌, ltb, leb, leb→le, if◌then◌else◌, length, arith, Bool-cases,
}
use arbetern.TtlCache.{Fetched}
use arbetern.TtlCache.Keyed.{
  KeyedEntry, Keyed, Ties, is_sooner, put_entry, drop_expired, soonest, drop_id, drop_over,
  evict_locked, started_entry, missed, find, look_at, look, settle_entry, drop_key, Step, do_look,
  do_settle, do_drop, step, run,
}

module _ {V E : Type 0} where
  -- Whether an entry of the number is in the list.
  abbrev has_id : ℕ → List (KeyedEntry V E) → Bool
  has_id i [] = false
  has_id i (e ∷ es) = (e.id == i) || has_id i es

module _ {V E : Type 0} (ties : Ties V E) where
  has_id-pick :
      (e x : KeyedEntry V E) (xs : List (KeyedEntry V E))
      → has_id (soonest ties x xs).id (x ∷ xs) ≡ true
      → has_id (soonest ties e xs).id (e ∷ xs) ≡ true
      → (b : Bool) → has_id (soonest ties (if b then x else e) xs).id (e ∷ x ∷ xs) ≡ true
  has_id-pick e x xs p q true = ground (arith, p)
  has_id-pick e x xs p q false = ground (arith, q)

  has_id-soonest :
      (e : KeyedEntry V E) (es : List (KeyedEntry V E))
      → has_id (soonest ties e es).id (e ∷ es) ≡ true
  has_id-soonest e [] = ground arith
  has_id-soonest e (x ∷ xs) =
      has_id-pick e x xs (has_id-soonest x xs) (has_id-soonest e xs) (is_sooner ties x e)

  length-drop_id :
      (i : ℕ) (es : List (KeyedEntry V E))
      → has_id i es ≡ true
      → length (drop_id i es) + 1 ≡ length es
  unfolding drop_id
  length-drop_id i [] h = absurd (ground (arith, h))
  length-drop_id i (e ∷ es) h = elim (Bool-cases (e.id == i)) [
    | inl y ↦ rw y (omega arith)
    | inr n ↦ let r = length-drop_id i es (ground (arith, h, n)) in rw n (omega (arith, r))
  ]

  -- A turn for each entry is enough.
  length-drop_over :
      (n max : ℕ) (es : List (KeyedEntry V E))
      → length es ≤ n
      → length (drop_over ties n max es) ≤ max
  unfolding drop_over
  length-drop_over zero max [] h = omega arith
  length-drop_over zero max (e ∷ es) h = absurd (omega (arith, h))
  length-drop_over (suc n) max [] h = ground arith
  length-drop_over (suc n) max (e ∷ es) h =
      let i = (soonest ties e es).id in
      let less = length-drop_id i (e ∷ es) (has_id-soonest e es) in
      let rest = length-drop_over n max (drop_id i (e ∷ es)) (omega (arith, h, less)) in
      elim (Bool-cases (leb (length (e ∷ es)) max)) [
        | inl y ↦ rw y (leb→le (length (e ∷ es)) max y)
        | inr z ↦ rw z rest
      ]

  length-evict_locked :
      (max now : ℕ) (es : List (KeyedEntry V E))
      → (max == 0) ≡ false
      → length (evict_locked ties max now es) ≤ max
  unfolding evict_locked
  length-evict_locked max now es h =
      let kept = drop_expired now es in
      elim (Bool-cases ((max == 0) || leb (length es) max)) [
        | inl y ↦ rw y (leb→le (length es) max (ground (arith, y, h)))
        | inr n ↦ rw n (length-drop_over (length kept) max kept (omega arith))
      ]

module _ {V E : Type 0} where
  length-settle_entry :
      (i : ℕ) (r : Fetched V E) (es : List (KeyedEntry V E))
      → length (settle_entry i r es) ≡ length es
  unfolding settle_entry
  length-settle_entry i r [] = refl
  length-settle_entry i r (e ∷ es) = ground (arith, length-settle_entry i r es)

  length-drop_key :
      (k : String) (i : ℕ) (es : List (KeyedEntry V E)) → length (drop_key k i es) ≤ length es
  unfolding drop_key
  length-drop_key k i [] = omega arith
  length-drop_key k i (e ∷ es) = ground (arith, length-drop_key k i es)

  abbrev pub IsBounded : Keyed V E → Type 0
  IsBounded c = length c.entries ≤ c.max

  look-IsBounded :
      (ties : Ties V E) (k : String) (now later at : ℕ) (c : Keyed V E)
      → (c.max == 0) ≡ false
      → IsBounded c
      → IsBounded (look ties k now later at c).0
  unfolding look
  look-IsBounded ties k now later at c h b = go (find k c.entries)
    where
      miss : IsBounded (missed ties k later at c)
      miss = length-evict_locked ties c.max at (put_entry (started_entry k later c) c.entries) h

      go : (o : Option (KeyedEntry V E)) → IsBounded (look_at ties k now later at o c).0
      go none = miss
      go (some e) = elim (Bool-cases (ltb now e.expires_at)) [ inl y ↦ rw y b | inr n ↦ rw n miss ]

  step-max : (s : Step V E) (c : Keyed V E) → (step s c).max ≡ c.max
  unfolding look
  step-max (do_look ties k now later at) c = go (find k c.entries)
    where
      go : (o : Option (KeyedEntry V E)) → (look_at ties k now later at o c).0.max ≡ c.max
      go none = refl
      go (some e) = ground arith
  step-max (do_settle i r) c = refl
  step-max (do_drop k i) c = refl

  -- Over any interleaving of the callers, a cache with a maximum never holds more entries than that.
  pub run-IsBounded :
      (ss : List (Step V E)) (c : Keyed V E)
      → (c.max == 0) ≡ false
      → IsBounded c
      → IsBounded (run ss c)
  run-IsBounded [] c h b = b
  run-IsBounded (s ∷ ss) c h b = run-IsBounded ss (step s c) (rw (step-max s c) h) (go s)
    where
      go : (s : Step V E) → IsBounded (step s c)
      go (do_look ties k now later at) = look-IsBounded ties k now later at c h b
      go (do_settle i r) = rw (length-settle_entry i r c.entries) b
      go (do_drop k i) = omega (arith, length-drop_key k i c.entries, b)
