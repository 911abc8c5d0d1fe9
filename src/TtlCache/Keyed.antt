-- ===== src/TtlCache/Keyed.antt =====
-- `Keyed` of internal/ttlcache/keyed.go: one value for each key, fetched once for all callers. A call
-- of Get is cut at the mutex into steps that interleave with those of other callers: `look`, which
-- finds an entry to wait for or starts a fetch; `settle`, the end of the fetch; and `drop_own`, after
-- a fetch that failed. The pointer of an entry is its number, and the map is a list in the order in
-- which its keys came.
pub mod Bounds
pub mod Sharing
use arbetern.Base.{
  ℕ, zero, suc, ◌+◌, Bool, true, false, not, ◌&&◌, ◌||◌, ◌==◌, Option, none, some, String, List, [],
  ◌∷◌, ltb, leb, str_eq, if◌then◌else◌, length,
}
use arbetern.TtlCache.{Fetched, fetched, failed}

module _ (V E : Type 0) where
  -- `keyedEntry`; its outcome is there once it is ready.
  pub record KeyedEntry : Type 0 where
    pub key : String
    pub id : ℕ
    pub expires_at : ℕ
    pub outcome : Option (Fetched V E)

  -- What the order of a run over Go's map makes of entries that expire at the same time: whether the
  -- first of two is the one to go.
  abbrev pub Ties : Type 0
  Ties = KeyedEntry → KeyedEntry → Bool

  -- `Keyed`, with the number of the next entry.
  pub record Keyed : Type 0 where
    pub ttl : ℕ
    pub max : ℕ
    pub entries : List KeyedEntry
    pub next : ℕ

-- What a look at the map leads to: another caller's entry, or a fetch of one's own.
pub data Found : Type 0 where
  waits fetches : ℕ → Found

module _ {V E : Type 0} where
  unfoldable pub find : String → List (KeyedEntry V E) → Option (KeyedEntry V E)
  find k [] = none
  find k (e ∷ es) = if str_eq e.key k then some e else find k es

  -- `c.entries[key] = e`.
  unfoldable pub put_entry : KeyedEntry V E → List (KeyedEntry V E) → List (KeyedEntry V E)
  put_entry e [] = e ∷ []
  put_entry e (x ∷ xs) = if str_eq x.key e.key then e ∷ xs else x ∷ put_entry e xs

  unfoldable pub drop_expired : ℕ → List (KeyedEntry V E) → List (KeyedEntry V E)
  drop_expired now [] = []
  drop_expired now (e ∷ es) =
      let rest = drop_expired now es in if ltb e.expires_at now then rest else e ∷ rest

  abbrev pub is_sooner : Ties V E → KeyedEntry V E → KeyedEntry V E → Bool
  is_sooner ties x e = ltb x.expires_at e.expires_at || ((x.expires_at == e.expires_at) && ties x e)

  -- An entry that expires next, and the list without that entry.
  abbrev pub soonest : Ties V E → KeyedEntry V E → List (KeyedEntry V E) → KeyedEntry V E
  soonest ties e [] = e
  soonest ties e (x ∷ xs) = soonest ties (if is_sooner ties x e then x else e) xs

  unfoldable pub drop_id : ℕ → List (KeyedEntry V E) → List (KeyedEntry V E)
  drop_id i [] = []
  drop_id i (e ∷ es) = if e.id == i then es else e ∷ drop_id i es

  abbrev drop_soonest : Ties V E → List (KeyedEntry V E) → List (KeyedEntry V E)
  drop_soonest ties [] = []
  drop_soonest ties (e ∷ es) = drop_id (soonest ties e es).id (e ∷ es)

  -- The loop that drops the entry that expires soonest, with a turn for each entry.
  unfoldable pub drop_over : Ties V E → ℕ → ℕ → List (KeyedEntry V E) → List (KeyedEntry V E)
  drop_over ties zero max es = es
  drop_over ties (suc n) max es =
      let rest = drop_over ties n max (drop_soonest ties es) in
      if leb (length es) max then es else rest

  abbrev pub evict_oldest : Ties V E → ℕ → List (KeyedEntry V E) → List (KeyedEntry V E)
  evict_oldest ties max es = drop_over ties (length es) max es

  -- `evictLocked`; a `max` of 0 means unbounded.
  unfoldable pub evict_locked : Ties V E → ℕ → ℕ → List (KeyedEntry V E) → List (KeyedEntry V E)
  evict_locked ties max now es =
      if (max == 0) || leb (length es) max then es else evict_oldest ties max (drop_expired now es)

  abbrev pub started_entry : String → ℕ → Keyed V E → KeyedEntry V E
  started_entry k later c = record {
    key = k;
    id = c.next;
    expires_at = later + c.ttl;
    outcome = none;
  }

  abbrev pub missed : Ties V E → String → ℕ → ℕ → Keyed V E → Keyed V E
  missed ties k later at c = record c {
    entries = evict_locked ties c.max at (put_entry (started_entry k later c) c.entries);
    next = suc c.next;
  }

  abbrev pub look_at :
      Ties V E → String → ℕ → ℕ → ℕ → Option (KeyedEntry V E) → Keyed V E → Keyed V E × Found
  look_at ties k now later at none c = (missed ties k later at c, fetches c.next)
  look_at ties k now later at (some e) c =
      if ltb now e.expires_at then (c, waits e.id) else (missed ties k later at c, fetches c.next)

  -- The part of `Get` under the first lock; the three times are those of its calls of `time.Now()`.
  unfoldable pub look : Ties V E → String → ℕ → ℕ → ℕ → Keyed V E → Keyed V E × Found
  look ties k now later at c = look_at ties k now later at (find k c.entries) c

  -- The end of the fetch of an entry, which is still in the map or not.
  unfoldable pub settle_entry : ℕ → Fetched V E → List (KeyedEntry V E) → List (KeyedEntry V E)
  settle_entry i r [] = []
  settle_entry i r (e ∷ es) =
      if e.id == i then record e { outcome = some r } ∷ es else e ∷ settle_entry i r es

  abbrev pub settle : ℕ → Fetched V E → Keyed V E → Keyed V E
  settle i r c = record c { entries = settle_entry i r c.entries }

  -- The second lock of `Get`: only the own entry is dropped.
  unfoldable pub drop_key : String → ℕ → List (KeyedEntry V E) → List (KeyedEntry V E)
  drop_key k i [] = []
  drop_key k i (e ∷ es) =
      if str_eq e.key k then (if e.id == i then es else e ∷ es) else e ∷ drop_key k i es

  abbrev pub drop_own : String → ℕ → Keyed V E → Keyed V E
  drop_own k i c = record c { entries = drop_key k i c.entries }

  -- `Cached`.
  abbrev pub value_of : Option (Fetched V E) → Option V
  value_of none = none
  value_of (some (fetched v)) = some v
  value_of (some (failed e)) = none

  abbrev pub cached_value : ℕ → Option (KeyedEntry V E) → Option V
  cached_value now none = none
  cached_value now (some e) = if ltb e.expires_at now then none else value_of e.outcome

  unfoldable pub cached : String → ℕ → Keyed V E → Option V
  cached k now c = cached_value now (find k c.entries)

-- The steps of all callers, interleaved.
pub data Step (V E : Type 0) : Type 0 where
  do_look : Ties V E → String → ℕ → ℕ → ℕ → Step V E
  do_settle : ℕ → Fetched V E → Step V E
  do_drop : String → ℕ → Step V E

module _ {V E : Type 0} where
  abbrev pub step : Step V E → Keyed V E → Keyed V E
  step (do_look ties k now later at) c = (look ties k now later at c).0
  step (do_settle i r) c = settle i r c
  step (do_drop k i) c = drop_own k i c

  abbrev pub run : List (Step V E) → Keyed V E → Keyed V E
  run [] c = c
  run (s ∷ ss) c = run ss (step s c)
