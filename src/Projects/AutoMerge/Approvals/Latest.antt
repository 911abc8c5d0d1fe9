-- ===== src/Projects/AutoMerge/Approvals/Latest.antt =====
-- The map that `approvals` of projects/automerge.go fills holds the last verdict of each author.
use arbetern.Base.{
  ◌≡◌, refl, ◌∙◌, inl, inr, Bool, true, ◌&&◌, Option, none, some, String, List, [], ◌∷◌, arith,
  if◌then◌else◌, Bool-cases,
}
use Prim.Native.Char.{code}
use arbetern.Projects.Ledger.PullRequest.{equal_fold, fold_code}
use arbetern.Projects.AutoMerge.Approvals.{
  Verdict, counts, put_verdict, noted_verdict, latest_verdicts,
}

-- The last verdict of an author that counts.
abbrev pub last_counted : String → List Verdict → Option Verdict
last_counted k [] = none
last_counted k (v ∷ vs) = elim (last_counted k vs) [
  | some b ↦ some b
  | none ↦ if counts v && equal_fold v.author k then some v else none
]

abbrev pub find_author : String → List Verdict → Option Verdict
find_author k [] = none
find_author k (x ∷ xs) = if equal_fold x.author k then some x else find_author k xs

pub fold_refl : (a : String) → equal_fold a a ≡ true
fold_refl String.[] = refl
fold_refl (String.◌∷◌ c s) = ground (arith, fold_refl s)

-- Logins that differ in case only are the same to any third one.
fold_cong : (a b k : String) → equal_fold a b ≡ true → equal_fold a k ≡ equal_fold b k
fold_cong String.[] String.[] k h = refl
fold_cong String.[] (String.◌∷◌ d t) k h = absurd (ground (arith, h))
fold_cong (String.◌∷◌ c s) String.[] k h = absurd (ground (arith, h))
fold_cong (String.◌∷◌ c s) (String.◌∷◌ d t) String.[] h = refl
fold_cong (String.◌∷◌ c s) (String.◌∷◌ d t) (String.◌∷◌ e u) h =
    let heads : fold_code (code c) ≡ fold_code (code d) = ground (arith, h) in
    let tails : equal_fold s u ≡ equal_fold t u = fold_cong s t u (ground (arith, h)) in
    ground (arith, heads, tails)

pub fold_comm : (a b : String) → equal_fold a b ≡ equal_fold b a
fold_comm String.[] String.[] = refl
fold_comm String.[] (String.◌∷◌ d t) = refl
fold_comm (String.◌∷◌ c s) String.[] = refl
fold_comm (String.◌∷◌ c s) (String.◌∷◌ d t) = ground (arith, fold_comm s t)

pub find_author-cong :
    (a b : String) (xs : List Verdict) → equal_fold a b ≡ true → find_author a xs ≡ find_author b xs
find_author-cong a b [] h = refl
find_author-cong a b (x ∷ xs) h =
    let same : equal_fold x.author a ≡ equal_fold x.author b =
      fold_comm x.author a ∙ fold_cong a b x.author h ∙ fold_comm b x.author in
    let rest = find_author-cong a b xs h in ground (arith, same, rest)

or_else : Option Verdict → Option Verdict → Option Verdict
or_else none b = b
or_else (some a) b = some a

if_found : Bool → Verdict → Option Verdict → Option Verdict
if_found hit v rest = if hit then some v else rest

pub find_author-put_verdict :
    (k : String) (v : Verdict) (xs : List Verdict)
    → find_author k (put_verdict v xs)
      ≡ (if equal_fold v.author k then some v else find_author k xs)
unfolding put_verdict
find_author-put_verdict k v [] = refl
find_author-put_verdict k v (x ∷ xs) = elim (Bool-cases (equal_fold x.author v.author)) [
  | inl y ↦ let c = fold_cong x.author v.author k y in rw y (ground (arith, c))
  | inr n ↦
      let ih = find_author-put_verdict k v xs in
      let apart : equal_fold x.author k ≡ true
          → equal_fold v.author k ≡ true
          → equal_fold x.author v.author ≡ true =
        λ p q. fold_cong x.author k v.author p ∙ fold_comm k v.author ∙ q in
      rw n (elim (Bool-cases (equal_fold x.author k)) [
        | inl p ↦ elim (Bool-cases (equal_fold v.author k)) [
          | inl q ↦ let bad = apart p q in absurd (ground (arith, bad, n))
          | inr q ↦ rw (p, q) refl
        ]
        | inr p ↦ rw p ih
      ])
]

pub latest-last_counted :
    (k : String) (found vs : List Verdict)
    → find_author k (latest_verdicts found vs)
      ≡ elim (last_counted k vs) [ some b ↦ some b | none ↦ find_author k found ]
unfolding latest_verdicts
latest-last_counted k found [] = refl
latest-last_counted k found (v ∷ vs) =
    let ih = latest-last_counted k (noted_verdict v found) vs in
    elim (Bool-cases (counts v)) [
      | inl y ↦ let put = find_author-put_verdict k v found in go y ih put
      | inr n ↦ ground (arith, ih, n)
    ]
  where
    go :
        counts v ≡ true
        → find_author k (latest_verdicts (noted_verdict v found) vs) ≡ elim (last_counted k vs) [
          | some b ↦ some b
          | none ↦ find_author k (noted_verdict v found)
        ]
        → find_author k (put_verdict v found)
          ≡ (if equal_fold v.author k then some v else find_author k found)
        → find_author k (latest_verdicts (noted_verdict v found) vs)
          ≡ elim (last_counted k (v ∷ vs)) [ some b ↦ some b | none ↦ find_author k found ]
    go y ih put = ground (arith, ih, put, y)
