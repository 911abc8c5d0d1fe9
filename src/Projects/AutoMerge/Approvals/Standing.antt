-- ===== src/Projects/AutoMerge/Approvals/Standing.antt =====
-- Whose approval lets projects/automerge.go act on a pull request.
use arbetern.Base.{
  ◌≡◌, refl, sym, ◌∙◌, inl, inr, Bool, true, false, Option, none, some, String, List, [], ◌∷◌,
  arith, if◌then◌else◌, Bool-cases, All,
}
use arbetern.Projects.Ledger.PullRequest.{equal_fold}
use arbetern.Projects.AutoMerge.Approvals.{
  Verdict, is_approved, asks_changes, counts, put_verdict, noted_verdict, latest_verdicts,
  approving, or_nil, approvals, Head, is_current, Approver, approved_by, nobody, unknown, on_push,
  approver_among, approver,
}
use arbetern.Projects.AutoMerge.Approvals.Latest.{
  last_counted, find_author, fold_refl, fold_comm, find_author-cong, find_author-put_verdict,
  latest-last_counted,
}

-- One verdict for each author.
abbrev pub IsUnique : List Verdict → Type 0
IsUnique [] = Unit
IsUnique (x ∷ xs) = (find_author x.author xs ≡ none) × IsUnique xs

put_verdict-IsUnique : (v : Verdict) (xs : List Verdict) → IsUnique xs → IsUnique (put_verdict v xs)
unfolding put_verdict
put_verdict-IsUnique v [] u = (refl, tt)
put_verdict-IsUnique v (x ∷ xs) u = elim (Bool-cases (equal_fold x.author v.author)) [
  | inl y ↦ rw y (sym (find_author-cong x.author v.author xs y) ∙ u.0, u.1)
  | inr n ↦
      let m : equal_fold v.author x.author ≡ false = fold_comm v.author x.author ∙ n in
      let p : find_author x.author (put_verdict v xs) ≡ none =
        find_author-put_verdict x.author v xs ∙ ground (arith, m, u.0) in
      rw n (p, put_verdict-IsUnique v xs u.1)
]

latest-IsUnique : (found vs : List Verdict) → IsUnique found → IsUnique (latest_verdicts found vs)
unfolding latest_verdicts
latest-IsUnique found [] u = u
latest-IsUnique found (v ∷ vs) u =
    latest-IsUnique (noted_verdict v found) vs (elim (Bool-cases (counts v)) [
      | inl y ↦ rw y (put_verdict-IsUnique v found u)
      | inr n ↦ rw n u
    ])

abbrev FoundIn : List Verdict → List Verdict → Type 0
FoundIn xs = All (λ (x : Verdict). find_author x.author xs ≡ some x)

found_below :
    (y : Verdict) (xs ys : List Verdict)
    → find_author y.author xs ≡ none
    → FoundIn xs ys
    → FoundIn (y ∷ xs) ys
found_below y xs [] n f = tt
found_below y xs (z ∷ ys) n f =
    let head : find_author z.author (y ∷ xs) ≡ some z =
      elim (Bool-cases (equal_fold y.author z.author)) [
        | inl e ↦
            let c = find_author-cong y.author z.author xs e in absurd (ground (arith, c, n, f.0))
        | inr e ↦ rw e f.0
      ] in
    (head, found_below y xs ys n f.1)

unique-FoundIn : (xs : List Verdict) → IsUnique xs → FoundIn xs xs
unique-FoundIn [] u = tt
unique-FoundIn (x ∷ xs) u =
    (rw (fold_refl x.author) refl, found_below x xs xs u.0 (unique-FoundIn xs u.1))

-- The approval of a person who has the last word, and asks for no changes.
approving-All :
    (P : Verdict → Type 0) (xs out : List Verdict)
    → All P xs
    → approving xs ≡ some out
    → All (λ (x : Verdict). P x × (is_approved x ≡ true)) out
      × All (λ (x : Verdict). asks_changes x ≡ false) xs
unfolding approving
approving-All P [] out a h = let w : [] ≡ out = cc in rw (← w) (tt, tt)
approving-All P (x ∷ xs) out a h = go (approving xs) (λ ys e. approving-All P xs ys a.1 e) h
  where
    go :
        (o : Option (List Verdict))
        → ((ys : List Verdict)
            → o ≡ some ys
            → All (λ (x : Verdict). P x × (is_approved x ≡ true)) ys
              × All (λ (x : Verdict). asks_changes x ≡ false) xs)
        → (elim o [
          | none ↦ none
          | some rest ↦
              if asks_changes x then none else some (if is_approved x then x ∷ rest else rest)
        ])
          ≡ some out
        → All (λ (x : Verdict). P x × (is_approved x ≡ true)) out
          × All (λ (x : Verdict). asks_changes x ≡ false) (x ∷ xs)
    go none ih k = absurd (ground (arith, k))
    go (some ys) ih k = elim (Bool-cases (asks_changes x)) [
      | inl y ↦ let l : none ≡ some out = rw y at k in absurd (ground (arith, l))
      | inr n ↦
          let l : some (if is_approved x then x ∷ ys else ys) ≡ some out = rw n at k in
          let (good, calm) = ih ys refl in
          elim (Bool-cases (is_approved x)) [
            | inl y ↦
                let m : some (x ∷ ys) ≡ some out = rw y at l in
                let w : x ∷ ys ≡ out = cc in rw (← w) (((a.0, y), good), (n, calm))
            | inr z ↦
                let m : some ys ≡ some out = rw z at l in
                let w : ys ≡ out = cc in rw (← w) (good, (n, calm))
          ]
    ]

-- What an approval that is acted on stands for: it is the last verdict of its author that counts,
-- on these changes, by someone who may push, and nobody's last verdict asks for changes.
pub record IsApproved (can_push : String → Option Bool) (w : Head) (vs : List Verdict) (x : String)
    : Type 0 where
  pub verdict : Verdict
  pub by_author : verdict.author ≡ x
  pub last_word : last_counted x vs ≡ some verdict
  pub approves : is_approved verdict ≡ true
  pub current : is_current w verdict ≡ true
  pub may_push : can_push x ≡ some true
  pub nobody_objects :
      (k : String) (b : Verdict) → last_counted k vs ≡ some b → asks_changes b ≡ false

approver_among-found :
    (Q : Verdict → Type 0) (can_push : String → Option Bool) (w : Head) (vs : List Verdict)
    (x : String)
    → All Q vs
    → approver_among can_push w vs ≡ approved_by x
    → (a : Verdict) × Q a
      × (a.author ≡ x)
      × (is_current w a ≡ true)
      × (can_push a.author ≡ some true)
unfolding approver_among
approver_among-found Q can_push w [] x q h = absurd (ground (arith, h))
approver_among-found Q can_push w (a ∷ more) x q h = elim (Bool-cases (is_current w a)) [
  | inr n ↦ approver_among-found Q can_push w more x q.1 (rw n at h)
  | inl y ↦
      go y (can_push a.author) refl (approver_among can_push w more)
        (approver_among-found Q can_push w more x q.1) (rw y at h)
]
  where
    go :
        is_current w a ≡ true
        → (o : Option Bool) → can_push a.author ≡ o
        → (rest : Approver)
        → (rest ≡ approved_by x
            → (b : Verdict) × Q b
              × (b.author ≡ x)
              × (is_current w b ≡ true)
              × (can_push b.author ≡ some true))
        → on_push a.author rest o ≡ approved_by x
        → (b : Verdict) × Q b
          × (b.author ≡ x)
          × (is_current w b ≡ true)
          × (can_push b.author ≡ some true)
    go y none e (approved_by z) ih k = ih k
    go y none e nobody ih k = absurd (ground (arith, k))
    go y none e unknown ih k = absurd (ground (arith, k))
    go y (some false) e rest ih k = ih k
    go y (some true) e rest ih k = let same : a.author ≡ x = cc in (a, q.0, same, y, e)

all-found :
    (R : Verdict → Type 0) (k : String) (xs : List Verdict) (b : Verdict)
    → All R xs
    → find_author k xs ≡ some b
    → R b
all-found R k [] b a h = absurd (ground (arith, h))
all-found R k (x ∷ xs) b a h = elim (Bool-cases (equal_fold x.author k)) [
  | inl y ↦ let l : some x ≡ some b = rw y at h in let w : x ≡ b = cc in rw (← w) a.0
  | inr n ↦ all-found R k xs b a.1 (rw n at h)
]

-- The second loop fails to nil, or leaves approvals of a list in which nobody asks for changes.
approvals-cases :
    (vs : List Verdict) (can_push : String → Option Bool) (w : Head) (x : String)
    → approver can_push w vs ≡ approved_by x
    → (out : List Verdict) × (approving (latest_verdicts [] vs) ≡ some out)
      × (approver_among can_push w out ≡ approved_by x)
unfolding approvals approver_among
approvals-cases vs can_push w x h = go (approving (latest_verdicts [] vs)) refl h
  where
    go :
        (o : Option (List Verdict))
        → approving (latest_verdicts [] vs) ≡ o
        → approver_among can_push w (or_nil o) ≡ approved_by x
        → (out : List Verdict) × (approving (latest_verdicts [] vs) ≡ some out)
          × (approver_among can_push w out ≡ approved_by x)
    go none e k = absurd (ground (arith, k))
    go (some out) e k = (out, e, k)

-- An approver that is found gave the last verdict of that author that counts, an approval of these
-- changes since the base last changed, may push, and nobody's last verdict asks for changes.
pub approver-IsApproved :
    (can_push : String → Option Bool) (w : Head) (vs : List Verdict) (x : String)
    → approver can_push w vs ≡ approved_by x
    → IsApproved can_push w vs x
approver-IsApproved can_push w vs x h =
    let xs = latest_verdicts [] vs in
    let (out, e, k) = approvals-cases vs can_push w x h in
    let found = unique-FoundIn xs (latest-IsUnique [] vs tt) in
    let (good, calm) = approving-All (λ v. find_author v.author xs ≡ some v) xs out found e in
    let (a, q, same, current, push) =
      approver_among-found (λ v. (find_author v.author xs ≡ some v) × (is_approved v ≡ true))
        can_push w out x good k in
    let at : find_author x xs ≡ some a = rw same at q.0 in
    record {
      verdict = a;
      by_author = same;
      last_word = last x a (sym (latest-last_counted x [] vs) ∙ at);
      approves = q.1;
      current = current;
      may_push = rw same at push;
      nobody_objects = λ j b l.
          all-found (λ v. asks_changes v ≡ false) j xs b calm
            (latest-last_counted j [] vs ∙ rw l refl);
    }
  where
    last :
        (k : String) (a : Verdict)
        → (elim (last_counted k vs) [ some b ↦ some b | none ↦ none ]) ≡ some a
        → last_counted k vs ≡ some a
    last k a l = ground (arith, l)
