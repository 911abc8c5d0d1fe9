-- ===== src/Projects/AutoMerge/Changes/Lineage.antt =====
-- The lineage of heads of projects/automerge.go is bounded and ends in the newest head.
use arbetern.Base.{
  ℕ, zero, suc, ◌-◌, ◌≤◌, ◌≡◌, refl, ◌∙◌, inl, inr, Bool, true, false, ◌||◌, String, List, [], ◌∷◌,
  ◌++◌, arith, length, Bool-cases, str_eq, eq_iff, eq_refl, length-append,
}
use arbetern.Projects.AutoMerge.{contains, max_lineage}
use arbetern.Projects.AutoMerge.Changes.{with_head, with_walked, drop, append_lineage}

-- No head is in the list twice.
abbrev pub is_distinct : List String → Bool
is_distinct [] = true
is_distinct (x ∷ xs) = elim (contains xs x) [ true ↦ false | false ↦ is_distinct xs ]

length-drop : (n : ℕ) (xs : List String) → length (drop n xs) ≡ length xs - n
length-drop zero xs = omega arith
length-drop (suc n) [] = omega arith
length-drop (suc n) (x ∷ xs) = omega (arith, length-drop n xs)

contains-append :
    (xs : List String) (s x : String) → contains (xs ++ (s ∷ [])) x ≡ (contains xs x || str_eq x s)
contains-append [] s x = ground arith
contains-append (y ∷ xs) s x = ground (arith, contains-append xs s x)

str_eq_comm : (x y : String) → str_eq x y ≡ false → str_eq y x ≡ false
str_eq_comm x y h = elim (Bool-cases (str_eq y x)) [
  | inl e ↦
      let same : y ≡ x = (eq_iff y x).0 e in
      let k : str_eq x x ≡ false = rw same at h in absurd (ground (arith, k, eq_refl x))
  | inr n ↦ n
]

distinct-append :
    (xs : List String) (s : String)
    → is_distinct xs ≡ true
    → contains xs s ≡ false
    → is_distinct (xs ++ (s ∷ [])) ≡ true
distinct-append [] s d n = refl
distinct-append (x ∷ xs) s d n =
    let apart : str_eq x s ≡ false = str_eq_comm s x (ground (arith, n)) in
    let here : contains xs x ≡ false = ground (arith, d) in
    let e : contains (xs ++ (s ∷ [])) x ≡ false =
      contains-append xs s x ∙ ground (arith, apart, here) in
    rw (e, is_distinct) (distinct-append xs s (ground (arith, d)) (ground (arith, n)))

distinct-with_head :
    (xs : List String) (s : String) → is_distinct xs ≡ true → is_distinct (with_head xs s) ≡ true
distinct-with_head xs s d = elim (Bool-cases (contains xs s)) [
  | inl y ↦ rw y d
  | inr n ↦ rw n (distinct-append xs s d n)
]

distinct-with_walked :
    (xs ss : List String) → is_distinct xs ≡ true → is_distinct (with_walked xs ss) ≡ true
distinct-with_walked xs [] d = d
distinct-with_walked xs (s ∷ ss) d =
    distinct-with_head (with_walked xs ss) s (distinct-with_walked xs ss d)

distinct-drop : (n : ℕ) (xs : List String) → is_distinct xs ≡ true → is_distinct (drop n xs) ≡ true
distinct-drop zero xs d = d
distinct-drop (suc n) [] d = d
distinct-drop (suc n) (x ∷ xs) d = distinct-drop n xs (ground (arith, d))

-- The last element survives as long as not all are dropped.
drop-last :
    (n : ℕ) (xs : List String) (s : String)
    → n ≤ length xs
    → contains (drop n (xs ++ (s ∷ []))) s ≡ true
drop-last zero xs s h = contains-append xs s s ∙ ground (arith, eq_refl s)
drop-last (suc n) [] s h = absurd (omega (arith, h))
drop-last (suc n) (x ∷ xs) s h = drop-last n xs s (omega (arith, h))

newest-kept :
    (xs : List String) (head : String)
    → contains xs head ≡ false
    → contains (drop (length (with_head xs head) - max_lineage) (with_head xs head)) head ≡ true
newest-kept xs head n = rw n (
    drop-last (length (xs ++ (head ∷ [])) - max_lineage) xs head
      (omega (arith, length-append xs (head ∷ []))))

-- The lineage keeps at most 100 heads and none of them twice, if none was, and the newest head is
-- among them when it is new to it.
pub append_lineage_bounds :
    (lineage walked : List String) (head : String)
    → is_distinct lineage ≡ true
    → (length (append_lineage lineage walked head) ≤ max_lineage)
      × (is_distinct (append_lineage lineage walked head) ≡ true)
      × (contains (with_walked lineage walked) head ≡ false
          → contains (append_lineage lineage walked head) head ≡ true)
unfolding append_lineage
append_lineage_bounds lineage walked head d =
    let whole = with_head (with_walked lineage walked) head in
    (
      omega (arith, length-drop (length whole - max_lineage) whole),
      distinct-drop (length whole - max_lineage) whole (
          distinct-with_head (with_walked lineage walked) head
            (distinct-with_walked lineage walked d)),
      λ n. newest-kept (with_walked lineage walked) head n,
    )
