-- ===== src/Projects/AutoMerge/Changes/Walks.antt =====
-- What the walks of projects/automerge.go over the heads of a branch find.
use arbetern.Base.{
  ℕ, zero, suc, ◌≤◌, ◌≡◌, ◌⊎◌, refl, ap, ◌∙◌, inl, inr, true, false, Option, none, some, String,
  List, [], ◌∷◌, str_eq, arith, if◌then◌else◌, length, Bool-cases, All, eq_iff,
}
use mathlib.Core.Option
use arbetern.Projects.AutoMerge.{contains}
use arbetern.Projects.AutoMerge.Changes.{
  BaseMerge, Fingerprint, base_merges, base_turn, same_turn, earlier_print, earlier_turn,
  same_diffs, earlier_heads, last_of,
}

-- Each head of the walk is a merge of the base into the next one, and the last one into a known head.
abbrev pub IsWalk : BaseMerge → List String → String → List String → Type 0
IsWalk parent known at [] = contains known at ≡ true
IsWalk parent known at (x ∷ xs) =
    (x ≡ at) × (q : String) × (parent at ≡ some (some q)) × IsWalk parent known q xs

pub base_merges-IsWalk :
    (parent : BaseMerge) (known : List String) (n : ℕ) (at : String) (xs : List String)
    → base_merges parent known n at ≡ some (some xs)
    → IsWalk parent known at xs × (length xs ≤ n)
unfolding base_merges
base_merges-IsWalk parent known zero at xs h = absurd (ground (arith, h))
base_merges-IsWalk parent known (suc n) at xs h =
    on_parent (λ q. base_merges parent known n q) (λ q. base_merges-IsWalk parent known n q)
      (parent at) refl h
  where
    on_rest :
        (q : String)
        → parent at ≡ some (some q)
        → (o : Option (Option (List String)))
        → ((ys : List String) → o ≡ some (some ys) → IsWalk parent known q ys × (length ys ≤ n))
        → Option.map (Option.map (λ (ys : List String). at ∷ ys)) o ≡ some (some xs)
        → IsWalk parent known at xs × (length xs ≤ suc n)
    on_rest q p none ih k = absurd (ground (arith, k))
    on_rest q p (some none) ih k = absurd (ground (arith, k))
    on_rest q p (some (some ys)) ih k =
        let w : at ∷ ys ≡ xs = cc in
        let (walk, size) = ih ys refl in rw (← w) ((refl, q, p, walk), omega (arith, size))

    on_parent :
        (rest : String → Option (Option (List String)))
        → ((q : String) (ys : List String)
            → rest q ≡ some (some ys)
            → IsWalk parent known q ys × (length ys ≤ n))
        → (o : Option (Option String)) → parent at ≡ o
        → base_turn known at rest o ≡ some (some xs)
        → IsWalk parent known at xs × (length xs ≤ suc n)
    on_parent rest ih none e k = absurd (ground (arith, k))
    on_parent rest ih (some none) e k = absurd (ground (arith, k))
    on_parent rest ih (some (some q)) e k = elim (Bool-cases (contains known q)) [
      | inl y ↦
          let l : some (some (at ∷ [])) ≡ some (some xs) = rw y at k in
          let w : at ∷ [] ≡ xs = cc in rw (← w) ((refl, q, e, y), omega arith)
      | inr z ↦ on_rest q e (rest q) (ih q) (rw z at k)
    ]

-- Each head of the trail is what the one before it merged the base into, with the same changes.
abbrev pub IsTrail : BaseMerge → Fingerprint → String → String → List String → Type 0
IsTrail parent print diff at [] = Unit
IsTrail parent print diff at (x ∷ xs) =
    (parent at ≡ some (some x)) × (print x ≡ some diff) × IsTrail parent print diff x xs

-- Why a walk over heads with these changes ends: at a head that is no merge of the base, or above one
-- whose changes are others.
abbrev pub IsEnd : BaseMerge → Fingerprint → String → String → Type 0
IsEnd parent print diff at =
    (parent at ≡ some none)
    ⊎ ((q : String) × (d : String) × (parent at ≡ some (some q))
        × (print q ≡ some d)
        × (str_eq d diff ≡ false))

-- A walk that took all its turns, or went on to such an end.
abbrev pub IsWhole : BaseMerge → Fingerprint → String → ℕ → String → List String → Type 0
IsWhole parent print diff n at xs = (length xs ≡ n) ⊎ IsEnd parent print diff (last_of at xs)

pub earlier_heads-IsTrail :
    (parent : BaseMerge) (print : Fingerprint) (diff : String) (n : ℕ) (at : String)
    (xs : List String)
    → earlier_heads parent print diff n at ≡ some xs
    → IsTrail parent print diff at xs × (length xs ≤ n) × IsWhole parent print diff n at xs
unfolding earlier_heads
earlier_heads-IsTrail parent print diff zero at xs h =
    let w : [] ≡ xs = cc in rw (← w) (tt, omega arith, inl refl)
earlier_heads-IsTrail parent print diff (suc n) at xs h =
    on_parent (λ q. earlier_heads parent print diff n q)
      (λ q. earlier_heads-IsTrail parent print diff n q) (parent at) refl h
  where
    stop :
        IsEnd parent print diff at
        → some [] ≡ some xs
        → IsTrail parent print diff at xs
          × (length xs ≤ suc n)
          × IsWhole parent print diff (suc n) at xs
    stop end k = let w : [] ≡ xs = cc in rw (← w) (tt, omega arith, inr end)

    on_rest :
        (q : String)
        → parent at ≡ some (some q)
        → print q ≡ some diff
        → (o : Option (List String))
        → ((ys : List String)
            → o ≡ some ys
            → IsTrail parent print diff q ys × (length ys ≤ n) × IsWhole parent print diff n q ys)
        → Option.map (λ (ys : List String). q ∷ ys) o ≡ some xs
        → IsTrail parent print diff at xs
          × (length xs ≤ suc n)
          × IsWhole parent print diff (suc n) at xs
    on_rest q p d none ih k = absurd (ground (arith, k))
    on_rest q p d (some ys) ih k =
        let w : q ∷ ys ≡ xs = cc in
        let (trail, size, whole) = ih ys refl in
        let longer : IsWhole parent print diff (suc n) at (q ∷ ys) = elim whole [
          | inl full ↦ inl (omega (arith, full))
          | inr end ↦ inr end
        ] in
        rw (← w) ((p, d, trail), omega (arith, size), longer)

    on_print :
        (rest : String → Option (List String)) (q : String)
        → parent at ≡ some (some q)
        → ((ys : List String)
            → rest q ≡ some ys
            → IsTrail parent print diff q ys × (length ys ≤ n) × IsWhole parent print diff n q ys)
        → (o : Option String) → print q ≡ o
        → earlier_print diff q rest o ≡ some xs
        → IsTrail parent print diff at xs
          × (length xs ≤ suc n)
          × IsWhole parent print diff (suc n) at xs
    on_print rest q p ih none e k = absurd (ground (arith, k))
    on_print rest q p ih (some d) e k = elim (Bool-cases (str_eq d diff)) [
      | inl y ↦
          let same : d ≡ diff = (eq_iff d diff).0 y in
          on_rest q p (e ∙ ap (λ (x : String). some x) same) (rest q) ih (rw y at k)
      | inr z ↦ stop (inr (q, d, p, e, z)) (rw z at k)
    ]

    on_parent :
        (rest : String → Option (List String))
        → ((q : String) (ys : List String)
            → rest q ≡ some ys
            → IsTrail parent print diff q ys × (length ys ≤ n) × IsWhole parent print diff n q ys)
        → (o : Option (Option String)) → parent at ≡ o
        → earlier_turn print diff rest o ≡ some xs
        → IsTrail parent print diff at xs
          × (length xs ≤ suc n)
          × IsWhole parent print diff (suc n) at xs
    on_parent rest ih none e k = absurd (ground (arith, k))
    on_parent rest ih (some none) e k = stop (inl e) k
    on_parent rest ih (some (some q)) e k = on_print rest q e (ih q) (print q) refl k

-- Heads with these changes.
abbrev pub HaveDiff : Fingerprint → String → List String → Type 0
HaveDiff print diff = All (λ (s : String). print s ≡ some diff)

pub trail-HaveDiff :
    (parent : BaseMerge) (print : Fingerprint) (diff at : String) (xs : List String)
    → IsTrail parent print diff at xs
    → HaveDiff print diff xs
trail-HaveDiff parent print diff at [] t = tt
trail-HaveDiff parent print diff at (x ∷ xs) t = (t.1, trail-HaveDiff parent print diff x xs t.2)

pub same_diffs-HaveDiff :
    (print : Fingerprint) (diff : String) (ss xs : List String)
    → same_diffs print diff ss ≡ some xs
    → HaveDiff print diff xs × (length xs ≤ length ss)
unfolding same_diffs
same_diffs-HaveDiff print diff [] xs h = let w : [] ≡ xs = cc in rw (← w) (tt, omega arith)
same_diffs-HaveDiff print diff (s ∷ ss) xs h =
    on_print (print s) refl (same_diffs print diff ss) (same_diffs-HaveDiff print diff ss) h
  where
    on_rest :
        (d : String)
        → print s ≡ some d
        → (ys : List String) → HaveDiff print diff ys × (length ys ≤ length ss)
        → (if str_eq d diff then s ∷ ys else ys) ≡ xs
        → HaveDiff print diff xs × (length xs ≤ suc (length ss))
    on_rest d e ys (have, size) k = elim (Bool-cases (str_eq d diff)) [
      | inl y ↦
          let same : d ≡ diff = (eq_iff d diff).0 y in
          let w : s ∷ ys ≡ xs = rw y at k in
          rw (← w) ((e ∙ ap (λ (x : String). some x) same, have), omega (arith, size))
      | inr z ↦ let w : ys ≡ xs = rw z at k in rw (← w) (have, omega (arith, size))
    ]

    on_print :
        (o : Option String)
        → print s ≡ o
        → (rest : Option (List String))
        → ((ys : List String) → rest ≡ some ys → HaveDiff print diff ys × (length ys ≤ length ss))
        → same_turn diff s rest o ≡ some xs
        → HaveDiff print diff xs × (length xs ≤ suc (length ss))
    on_print none e rest ih k = absurd (ground (arith, k))
    on_print (some d) e none ih k = absurd (ground (arith, k))
    on_print (some d) e (some ys) ih k = on_rest d e ys (ih ys refl) cc
