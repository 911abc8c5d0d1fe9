-- ===== src/Projects/Ledger/Accounts.antt =====
-- The merged fixes of projects/ledger.go that wait for a verdict, under the changes of a track.
use arbetern.Base.{
  ℕ, ◌+◌, ◌≤◌, ◌≡◌, inl, inr, Bool, true, false, some, String, List, [], ◌∷◌, filter, arith, str_eq,
  if◌then◌else◌, Bool-cases,
}
use arbetern.Projects.Ledger.{no_track, Track, find_track, on_track}
use arbetern.Projects.Ledger.Verdicts.{awaits}

-- The merged fixes that wait for a verdict.
abbrev pub awaiting : List (String × Track) → ℕ
awaiting [] = 0
awaiting ((fp, tr) ∷ ts) = if awaits tr then 1 + awaiting ts else awaiting ts

-- A change that makes no fix wait.
pub awaiting-on_track :
    (fp : String) (f : Track → Track) (ts : List (String × Track))
    → ((tr : Track) → awaits (f tr) ≡ true → awaits tr ≡ true)
    → awaiting (on_track fp f ts) ≤ awaiting ts
unfolding on_track
awaiting-on_track fp f [] keeps = elim (Bool-cases (awaits (f no_track))) [
  | inl y ↦ absurd (ground (arith, keeps no_track y))
  | inr n ↦ rw n (omega arith)
]
awaiting-on_track fp f ((k, tr) ∷ ts) keeps = elim (Bool-cases (str_eq k fp)) [
  | inl y ↦ rw y (elim (Bool-cases (awaits (f tr))) [
    | inl z ↦ rw (z, keeps tr z) (omega arith)
    | inr z ↦ rw z (ground arith)
  ])
  | inr n ↦ rw n (let r = awaiting-on_track fp f ts keeps in ground (arith, r))
]

-- Any change of one track makes at most one more fix wait.
pub awaiting-on_track_any :
    (fp : String) (f : Track → Track) (ts : List (String × Track))
    → awaiting (on_track fp f ts) ≤ awaiting ts + 1
unfolding on_track
awaiting-on_track_any fp f [] = ground arith
awaiting-on_track_any fp f ((k, tr) ∷ ts) = elim (Bool-cases (str_eq k fp)) [
  | inl y ↦ rw y (ground arith)
  | inr n ↦ rw n (let r = awaiting-on_track_any fp f ts in ground (arith, r))
]

-- A change that ends the wait of the track found.
pub awaiting-decided :
    (fp : String) (f : Track → Track) (tr : Track) (ts : List (String × Track))
    → find_track fp ts ≡ some tr
    → awaits tr ≡ true
    → ((x : Track) → awaits (f x) ≡ false)
    → awaiting (on_track fp f ts) + 1 ≤ awaiting ts
unfolding on_track
awaiting-decided fp f tr [] found w ends = absurd (ground arith)
awaiting-decided fp f tr ((k, u) ∷ ts) found w ends = elim (Bool-cases (str_eq k fp)) [
  | inl y ↦
      let q : u ≡ tr = (let r : some u ≡ some tr = rw y at found in cc) in
      rw (y, ends u, q, w) (omega arith)
  | inr n ↦ let r = awaiting-decided fp f tr ts (rw n at found) w ends in rw n (ground (arith, r))
]

pub awaiting-filter :
    (p : String × Track → Bool) (ts : List (String × Track)) → awaiting (filter p ts) ≤ awaiting ts
awaiting-filter p [] = omega arith
awaiting-filter p ((k, tr) ∷ ts) =
    let r = awaiting-filter p ts in
    elim (Bool-cases (p (k, tr))) [
      | inl y ↦ rw (y, filter) (ground (arith, r))
      | inr n ↦ rw (n, filter) (ground (arith, r))
    ]
