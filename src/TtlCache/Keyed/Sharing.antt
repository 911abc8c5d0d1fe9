-- ===== src/TtlCache/Keyed/Sharing.antt =====
-- The callers of internal/ttlcache/keyed.go that ask for one key share one fetch.
use arbetern.Base.{
  ◌≤◌, length, leb, if◌then◌else◌, ℕ, ◌+◌, ◌≡◌, refl, sym, subst, ◌∙◌, inl, inr, Bool, true, false,
  not, ◌&&◌, ◌||◌, ◌==◌, Option, none, some, String, List, [], ◌∷◌, ltb, str_eq, eq_iff, eq_refl,
  arith, Bool-cases,
}
use arbetern.TtlCache.{Fetched}
use arbetern.TtlCache.Keyed.{
  KeyedEntry, Keyed, Ties, waits, fetches, find, put_entry, evict_locked, started_entry, missed,
  look_at, look, settle_entry, drop_key, Step, do_look, do_settle, do_drop, step, run,
}

module _ {V E : Type 0} where
  -- A cache without a maximum, or with room for one more entry.
  abbrev pub has_room : Keyed V E → Bool
  has_room c = (c.max == 0) || ltb (length c.entries) c.max

  -- What keeps an entry of a key alive until it expires: no late look at the key, no look at another key
  -- in a full cache, and no drop of the entry for its failure.
  abbrev pub is_calm : String → ℕ → ℕ → Step V E → Keyed V E → Bool
  is_calm k i t (do_look ties j now later at) c = if str_eq j k then ltb now t else has_room c
  is_calm k i t (do_settle j r) c = true
  is_calm k i t (do_drop j n) c = not (n == i)

  -- That of all steps in order.
  abbrev pub all_calm : String → ℕ → ℕ → List (Step V E) → Keyed V E → Bool
  all_calm k i t [] c = true
  all_calm k i t (s ∷ ss) c = is_calm k i t s c && all_calm k i t ss (step s c)

  -- The entry of a key has this number, and expires then.
  abbrev pub holds : String → ℕ → ℕ → Option (KeyedEntry V E) → Bool
  holds k i t none = false
  holds k i t (some e) = (e.id == i) && (e.expires_at == t)

  abbrev pub IsHeld : String → ℕ → ℕ → Keyed V E → Type 0
  IsHeld k i t c = holds k i t (find k c.entries) ≡ true

  find-put_entry :
      (k : String) (e : KeyedEntry V E) (es : List (KeyedEntry V E))
      → str_eq e.key k ≡ true
      → find k (put_entry e es) ≡ some e
  unfolding find put_entry
  find-put_entry k e [] h = rw h refl
  find-put_entry k e (x ∷ xs) h = elim (Bool-cases (str_eq x.key e.key)) [
    | inl y ↦ rw (y, h) refl
    | inr n ↦
        let m : str_eq x.key k ≡ false = (let q : e.key ≡ k = (eq_iff e.key k).0 h in rw q at n) in
        rw (n, m) (find-put_entry k e xs h)
  ]

  find-put_entry_other :
      (k : String) (e : KeyedEntry V E) (es : List (KeyedEntry V E))
      → str_eq e.key k ≡ false
      → find k (put_entry e es) ≡ find k es
  unfolding find put_entry
  find-put_entry_other k e [] h = rw h refl
  find-put_entry_other k e (x ∷ xs) h = elim (Bool-cases (str_eq x.key e.key)) [
    | inl y ↦
        let q : x.key ≡ e.key = (eq_iff x.key e.key).0 y in
        let m : str_eq x.key k ≡ false = rw q h in rw (y, h, m) refl
    | inr n ↦ let r = find-put_entry_other k e xs h in rw n (ground (arith, r))
  ]

  holds-settle_entry :
      (k : String) (i t j : ℕ) (r : Fetched V E) (es : List (KeyedEntry V E))
      → holds k i t (find k (settle_entry j r es)) ≡ holds k i t (find k es)
  unfolding find settle_entry
  holds-settle_entry k i t j r [] = refl
  holds-settle_entry k i t j r (e ∷ es) = ground (arith, holds-settle_entry k i t j r es)

  holds-drop_key :
      (k : String) (i t : ℕ) (j : String) (n : ℕ) (es : List (KeyedEntry V E))
      → (n == i) ≡ false
      → holds k i t (find k es) ≡ true
      → holds k i t (find k (drop_key j n es)) ≡ true
  unfolding find drop_key
  holds-drop_key k i t j n [] h g = absurd (ground (arith, g))
  holds-drop_key k i t j n (e ∷ es) h g = elim (Bool-cases (str_eq e.key j)) [
    | inl y ↦ elim (Bool-cases (e.id == n)) [
      | inl z ↦ elim (Bool-cases (str_eq e.key k)) [
        | inl q ↦
            let u : holds k i t (some e) ≡ true = rw q at g in absurd (ground (arith, u, z, h))
        | inr q ↦ rw (y, z) (rw q at g)
      ]
      | inr z ↦ rw (y, z) g
    ]
    | inr y ↦ elim (Bool-cases (str_eq e.key k)) [
      | inl q ↦ rw (y, q) (rw q at g)
      | inr q ↦ rw (y, q) (holds-drop_key k i t j n es h (rw q at g))
    ]
  ]

  length-put_entry :
      (e : KeyedEntry V E) (es : List (KeyedEntry V E)) → length (put_entry e es) ≤ length es + 1
  unfolding put_entry
  length-put_entry e [] = omega arith
  length-put_entry e (x ∷ xs) = ground (arith, length-put_entry e xs)

  -- A new entry for which there is room takes the place of no other.
  evict_locked-room :
      (ties : Ties V E) (e : KeyedEntry V E) (at : ℕ) (c : Keyed V E)
      → has_room c ≡ true
      → evict_locked ties c.max at (put_entry e c.entries) ≡ put_entry e c.entries
  unfolding evict_locked
  evict_locked-room ties e at c h =
      let size = length-put_entry e c.entries in
      let q : ((c.max == 0) || leb (length (put_entry e c.entries)) c.max) ≡ true =
        ground (arith, h, size) in
      rw q refl

  missed-IsHeld :
      (ties : Ties V E) (k j : String) (i t later at : ℕ) (c : Keyed V E)
      → str_eq j k ≡ false
      → has_room c ≡ true
      → IsHeld k i t c
      → IsHeld k i t (missed ties j later at c)
  missed-IsHeld ties k j i t later at c h room p =
      let e = evict_locked-room ties (started_entry j later c) at c room in
      let f = find-put_entry_other k (started_entry j later c) c.entries h in rw (e, f) p

  held_waits :
      (ties : Ties V E) (k : String) (i t now later at : ℕ) (o : Option (KeyedEntry V E))
      (c : Keyed V E)
      → holds k i t o ≡ true
      → ltb now t ≡ true
      → look_at ties k now later at o c ≡ (c, waits i)
  held_waits ties k i t now later at none c h l = absurd (ground (arith, h))
  held_waits ties k i t now later at (some e) c h l =
      let same : e.id ≡ i = ground (arith, h) in
      let fresh : ltb now e.expires_at ≡ true = ground (arith, h, l) in rw (fresh, same) refl

  step-IsHeld :
      (k : String) (i t : ℕ) (s : Step V E) (c : Keyed V E)
      → is_calm k i t s c ≡ true
      → IsHeld k i t c
      → IsHeld k i t (step s c)
  unfolding look
  step-IsHeld k i t (do_settle j r) c calm p = holds-settle_entry k i t j r c.entries ∙ p
  step-IsHeld k i t (do_drop j n) c calm p =
      holds-drop_key k i t j n c.entries (ground (arith, calm)) p
  step-IsHeld k i t (do_look ties j now later at) c calm p = elim (Bool-cases (str_eq j k)) [
    | inl y ↦
        let q : j ≡ k = (eq_iff j k).0 y in
        let w : look_at ties j now later at (find j c.entries) c ≡ (c, waits i) =
          rw q
            (held_waits ties k i t now later at (find k c.entries) c p (ground (arith, calm, y))) in
        subst (λ x. IsHeld k i t x.0) (sym w) p
    | inr n ↦ go n (ground (arith, calm, n)) (find j c.entries)
  ]
    where
      go :
          str_eq j k ≡ false
          → has_room c ≡ true
          → (o : Option (KeyedEntry V E)) → IsHeld k i t (look_at ties j now later at o c).0
      go n room none = missed-IsHeld ties k j i t later at c n room p
      go n room (some e) = elim (Bool-cases (ltb now e.expires_at)) [
        | inl y ↦ rw y p
        | inr z ↦ rw z (missed-IsHeld ties k j i t later at c n room p)
      ]

  run-IsHeld :
      (k : String) (i t : ℕ) (ss : List (Step V E)) (c : Keyed V E)
      → all_calm k i t ss c ≡ true
      → IsHeld k i t c
      → IsHeld k i t (run ss c)
  run-IsHeld k i t [] c calm p = p
  run-IsHeld k i t (s ∷ ss) c calm p =
      run-IsHeld k i t ss (step s c) (ground (arith, calm))
        (step-IsHeld k i t s c (ground (arith, calm)) p)

  fetched-IsHeld :
      (ties : Ties V E) (k : String) (now later at i : ℕ) (c : Keyed V E)
      → has_room c ≡ true
      → (look ties k now later at c).1 ≡ fetches i
      → IsHeld k i (later + c.ttl) (look ties k now later at c).0
  unfolding look
  fetched-IsHeld ties k now later at i c h f = go (find k c.entries) f
    where
      miss : fetches c.next ≡ fetches i → IsHeld k i (later + c.ttl) (missed ties k later at c)
      miss g =
          let q : c.next ≡ i = cc in
          let e = evict_locked-room ties (started_entry k later c) at c h in
          let p = find-put_entry k (started_entry k later c) c.entries (eq_refl k) in
          rw (e, p) (ground (arith, q))

      go :
          (o : Option (KeyedEntry V E))
          → (look_at ties k now later at o c).1 ≡ fetches i
          → IsHeld k i (later + c.ttl) (look_at ties k now later at o c).0
      go none g = miss g
      go (some e) g = elim (Bool-cases (ltb now e.expires_at)) [
        | inl y ↦ let u : waits e.id ≡ fetches i = rw y at g in absurd (ground (arith, u))
        | inr n ↦ rw n (miss (rw n at g))
      ]

  -- Once a caller fetches a key, every later caller of the key waits for that fetch, or takes its
  -- result, and fetches nothing itself, whatever steps of other callers are in between, as long as the
  -- entry has not expired at any look at the key, the fetch has not been dropped for its failure, and
  -- no look at another key, nor the first one, found the cache full. In a full cache the entry may be
  -- evicted while its fetch is under way, and the fetch is then repeated.
  pub fetch_is_shared :
      (ties ties' : Ties V E) (k : String) (now later at i : ℕ) (ss : List (Step V E))
      (now' later' at' : ℕ) (c : Keyed V E)
      → has_room c ≡ true
      → (look ties k now later at c).1 ≡ fetches i
      → all_calm k i (later + c.ttl) ss (look ties k now later at c).0 ≡ true
      → ltb now' (later + c.ttl) ≡ true
      → let d = run ss (look ties k now later at c).0 in
        look ties' k now' later' at' d ≡ (d, waits i)
  unfolding look
  fetch_is_shared ties ties' k now later at i ss now' later' at' c h f calm l =
      let p =
        run-IsHeld k i (later + c.ttl) ss (look ties k now later at c).0 calm
          (fetched-IsHeld ties k now later at i c h f) in
      let d = run ss (look ties k now later at c).0 in
      held_waits ties' k i (later + c.ttl) now' later' at' (find k d.entries) d p l
