-- ===== src/Projects/AutoMerge/Changes/Kept.antt =====
-- When `readChanges` of projects/automerge.go takes the changes of a new head for the ones it knows.
use arbetern.Base.{
  ◌+◌, ◌≤◌, ◌≡◌, refl, ap, ◌∙◌, ◌⊎◌, inl, inr, Bool, true, false, Option, none, some, String, List,
  [], ◌∷◌, str_eq, arith, if◌then◌else◌, length, Bool-cases, eq_iff, not, ◌&&◌, ◌||◌,
}
use mathlib.Core.Option
use arbetern.Projects.Review.{ReviewState}
use arbetern.Projects.AutoMerge.{contains, is_empty}
use arbetern.Projects.AutoMerge.Changes.{
  BaseMerge, Fingerprint, max_base_merges, same_diffs, same_changes, earlier_heads, last_of,
  first_with_changes, with_last, ChangeRead, failed, unchanged, changed, read_changes, on_diff,
  over_merges, new_changes, is_retargeted, base_merges_since, confirmed, same_content,
}
use arbetern.Projects.AutoMerge.Changes.Walks.{
  IsWalk, IsWhole, base_merges-IsWalk, IsTrail, earlier_heads-IsTrail, HaveDiff, trail-HaveDiff,
  same_diffs-HaveDiff,
}

-- How a head is known to carry the changes of the review: it was read already, or merges of the base
-- lead from it to a head that was.
abbrev pub IsReached : BaseMerge → String → ReviewState → Type 0
IsReached parent head r =
    ((str_eq r.content_head head || contains r.lineage head) ≡ true)
    ⊎ ((xs : List String) × IsWalk parent r.lineage head xs)

pub record IsKept (parent : BaseMerge) (base head : String) (r : ReviewState) (c : ChangeRead)
    : Type 0 where
  pub same_epoch : c.epoch ≡ r.content
  pub same_diff : c.diff ≡ r.diff
  pub same_base : is_retargeted base r ≡ false
  pub reached : IsReached parent head r

-- New changes first appeared at the last of the heads with them that merges of the base lead to: the
-- walk ends there, for 20 heads were walked, the head is no merge of the base, or the head before it has
-- other changes.
abbrev pub IsNew : BaseMerge → Fingerprint → String → ChangeRead → Type 0
IsNew parent print head c =
    (xs : List String) × (c.walked ≡ head ∷ xs)
    × (c.epoch ≡ last_of head xs)
    × IsTrail parent print c.diff head xs
    × IsWhole parent print c.diff max_base_merges head xs

pub record IsRead (parent : BaseMerge) (print : Fingerprint) (base head : String) (r : ReviewState)
    (c : ChangeRead) : Type 0 where
  pub of_base : c.base ≡ base
  pub of_head : print head ≡ some c.diff
  pub of_walked : HaveDiff print c.diff c.walked
  pub short : length c.walked ≤ max_base_merges + 1
  pub of_fresh :
      ((c.fresh ≡ false) × IsKept parent base head r c)
      ⊎ ((c.fresh ≡ true) × IsNew parent print head c)

module _ (parent : BaseMerge) (print : Fingerprint) (base head : String) (r : ReviewState) where
  new_changes-IsRead :
      (retarget : Bool) (diff : String) (c : ChangeRead)
      → print head ≡ some diff
      → new_changes parent print base head retarget diff ≡ changed c
      → IsRead parent print base head r c
  unfolding first_with_changes
  new_changes-IsRead retarget diff c d h =
      go (earlier_heads parent print diff max_base_merges head) refl h
    where
      go :
          (o : Option (List String))
          → earlier_heads parent print diff max_base_merges head ≡ o
          → (elim (Option.map (with_last head) o) [
            | none ↦ failed
            | some found ↦ changed (record {
              epoch = found.0;
              diff = diff;
              base = base;
              walked = found.1;
              fresh = true;
              retarget = retarget;
            })
          ])
            ≡ changed c
          → IsRead parent print base head r c
      go none e k = absurd (ground (arith, k))
      go (some xs) e k =
          let (trail, size, whole) =
            earlier_heads-IsTrail parent print diff max_base_merges head xs e in
          let w : record {
            epoch = last_of head xs;
            diff = diff;
            base = base;
            walked = head ∷ xs;
            fresh = true;
            retarget = retarget;
          }
              ≡ c =
            cc in
          rw (← w) (record {
            of_base = refl;
            of_head = d;
            of_walked = (d, trail-HaveDiff parent print diff head xs trail);
            short = omega (arith, size);
            of_fresh = inr (refl, (xs, refl, refl, trail, whole));
          })

  same_content-IsRead :
      (diff : String) (walked : List String)
      → print head ≡ some diff
      → diff ≡ r.diff
      → is_retargeted base r ≡ false
      → IsReached parent head r
      → HaveDiff print diff walked
      → length walked ≤ max_base_merges
      → IsRead parent print base head r (same_content base diff walked r)
  same_content-IsRead diff walked d same b reached have size = record {
    of_base = refl;
    of_head = d;
    of_walked = have;
    short = omega (arith, size);
    of_fresh =
        inl
          (refl, record { same_epoch = refl; same_diff = same; same_base = b; reached = reached });
  }

  -- The first head of a walk is the head it starts from.
  same_changes-HaveDiff :
      (diff : String) (walked kept : List String)
      → print head ≡ some diff
      → IsWalk parent r.lineage head walked
      → same_changes print diff walked ≡ some kept
      → HaveDiff print diff kept × (length kept ≤ length walked)
  unfolding same_changes
  same_changes-HaveDiff diff [] kept d walk h = let w : [] ≡ kept = cc in rw (← w) (tt, omega arith)
  same_changes-HaveDiff diff (s ∷ ss) kept d walk h = go (same_diffs print diff ss) refl h
    where
      go :
          (o : Option (List String))
          → same_diffs print diff ss ≡ o
          → Option.map (λ (xs : List String). s ∷ xs) o ≡ some kept
          → HaveDiff print diff kept × (length kept ≤ length (s ∷ ss))
      go none e k = absurd (ground (arith, k))
      go (some xs) e k =
          let w : s ∷ xs ≡ kept = cc in
          let (have, size) = same_diffs-HaveDiff print diff ss xs e in
          rw (← w) ((ap print walk.0 ∙ d, have), omega (arith, size))

  over_merges-IsRead :
      (diff : String) (c : ChangeRead)
      → print head ≡ some diff
      → diff ≡ r.diff
      → is_retargeted base r ≡ false
      → (o : Option (Option (List String))) → base_merges_since parent r.lineage head ≡ o
      → over_merges print (new_changes parent print base head false diff) base diff r o ≡ changed c
      → IsRead parent print base head r c
  unfolding base_merges_since
  over_merges-IsRead diff c d same b none e h = absurd (ground (arith, h))
  over_merges-IsRead diff c d same b (some none) e h = new_changes-IsRead false diff c d h
  over_merges-IsRead diff c d same b (some (some walked)) e h =
      let (walk, size) = base_merges-IsWalk parent r.lineage max_base_merges head walked e in
      go walk size (same_changes print diff walked) refl h
    where
      go :
          IsWalk parent r.lineage head walked
          → length walked ≤ max_base_merges
          → (k : Option (List String)) → same_changes print diff walked ≡ k
          → confirmed base diff r k ≡ changed c
          → IsRead parent print base head r c
      go walk size none q k = absurd (ground (arith, k))
      go walk size (some kept) q k =
          let (have, fewer) = same_changes-HaveDiff diff walked kept d walk q in
          let w : same_content base diff kept r ≡ c = cc in
          rw (← w) (
            same_content-IsRead diff kept d same b (inr (walked, walk)) have
              (omega (arith, size, fewer)))

  on_diff-IsRead :
      (c : ChangeRead) (o : Option String)
      → print head ≡ o
      → on_diff parent print base head r o ≡ changed c
      → IsRead parent print base head r c
  on_diff-IsRead c none d h = absurd (ground (arith, h))
  on_diff-IsRead c (some diff) d h = elim (Bool-cases (is_retargeted base r)) [
    | inl y ↦
        let e : (not (is_empty r.content_head) && not true && str_eq diff r.diff) ≡ false =
          ground arith in
        let k : new_changes parent print base head true diff ≡ changed c = rw e at (rw y at h) in
        new_changes-IsRead true diff c d k
    | inr b ↦ elim (Bool-cases (not (is_empty r.content_head) && not false && str_eq diff r.diff)) [
      | inr z ↦ new_changes-IsRead false diff c d (rw z at (rw b at h))
      | inl z ↦
          let same : diff ≡ r.diff = (eq_iff diff r.diff).0 (ground (arith, z)) in
          known same b (Bool-cases (str_eq r.content_head head || contains r.lineage head))
            (rw z at (rw b at h))
    ]
  ]
    where
      known :
          diff ≡ r.diff
          → is_retargeted base r ≡ false
          → ((str_eq r.content_head head || contains r.lineage head) ≡ true)
            ⊎ ((str_eq r.content_head head || contains r.lineage head) ≡ false)
          → (if str_eq r.content_head head || contains r.lineage head
              then changed (same_content base diff [] r)
              else over_merges print
                  (new_changes parent print base head false diff)
                  base
                  diff
                  r
                  (base_merges_since parent r.lineage head))
            ≡ changed c
          → IsRead parent print base head r c
      known same b (inl y) k =
          let l : changed (same_content base diff [] r) ≡ changed c = rw y at k in
          let w : same_content base diff [] r ≡ c = cc in
          rw (← w) (same_content-IsRead diff [] d same b (inl y) tt (omega arith))
      known same b (inr z) k =
          over_merges-IsRead diff c d same b (base_merges_since parent r.lineage head) refl
            (rw z at k)

  -- A reading of the changes has GitHub's fingerprint of the head, and every head it walked has the
  -- same one, at most 21 of them. It takes the changes for the known ones only when the fingerprint
  -- and the base are the recorded ones and the head is known already or leads to a known head over
  -- merges of the base alone; else the changes first appeared at the last of the heads with this
  -- fingerprint that merges of the base lead to from the head: that head is no merge of the base, or its
  -- parent has another fingerprint, unless 20 heads were walked.
  pub read_changes-IsRead :
      (c : ChangeRead)
      → read_changes parent print base head r ≡ changed c
      → IsRead parent print base head r c
  unfolding read_changes
  read_changes-IsRead c h =
      elim (Bool-cases (str_eq r.content_head head && str_eq r.content_base base)) [
        | inl y ↦ let k : unchanged ≡ changed c = rw y at h in absurd (ground (arith, k))
        | inr z ↦ on_diff-IsRead c (print head) refl (rw z at h)
      ]
