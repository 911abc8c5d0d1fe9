-- ===== src/Projects/AutoMerge/Changes.antt =====
-- How projects/automerge.go follows the changes of a pull request over the heads of its branch:
-- `readChanges`, `baseMergesSince`, `sameChanges`, `firstWithChanges`, `appendLineage` and
-- `contentMoved`. GitHub's answers are arguments: the fingerprint of the changes at a head, and the
-- parent of a head that is a merge of the base, each `none` for a call that failed.
pub mod Walks
pub mod Lineage
pub mod Kept
use arbetern.Base.{
  ℕ, zero, suc, ◌-◌, Bool, true, false, not, ◌&&◌, ◌||◌, Option, none, some, String, List, [], ◌∷◌,
  ◌++◌, str_eq, if◌then◌else◌, length,
}
use mathlib.Core.Option
use arbetern.Projects.Review.{MergeState, ReviewState}
use arbetern.Projects.AutoMerge.{contains, is_empty, max_lineage}

abbrev pub max_base_merges : ℕ
max_base_merges = 20

-- `ChangeFingerprint` at the head, and `BaseMerge`: some none for a head that is no merge of the base.
abbrev pub Fingerprint : Type 0
Fingerprint = String → Option String

abbrev pub BaseMerge : Type 0
BaseMerge = String → Option (Option String)

-- `changeRead`.
pub record ChangeRead : Type 0 where
  pub epoch : String
  pub diff : String
  pub base : String
  pub walked : List String
  pub fresh : Bool
  pub retarget : Bool

-- A turn of the loop of `baseMergesSince` at a head, with what the next turns answer from its parent.
abbrev pub base_turn :
    List String
    → String
    → (String → Option (Option (List String)))
    → Option (Option String)
    → Option (Option (List String))
base_turn known at rest none = none
base_turn known at rest (some none) = some none
base_turn known at rest (some (some q)) =
    if contains known q
    then some (some (at ∷ []))
    else Option.map (Option.map (λ (xs : List String). at ∷ xs)) (rest q)

-- The loop, with what is left of `maxBaseMerges`: the heads it walked, newest first, or `some none`
-- when it found no known head.
unfoldable pub base_merges : BaseMerge → List String → ℕ → String → Option (Option (List String))
base_merges parent known zero at = some none
base_merges parent known (suc n) at =
    base_turn known at (λ q. base_merges parent known n q) (parent at)

unfoldable pub base_merges_since : BaseMerge → List String → String → Option (Option (List String))
base_merges_since parent known head = base_merges parent known max_base_merges head

-- The loop of `sameChanges`, over the heads after the first.
abbrev pub same_turn : String → String → Option (List String) → Option String → Option (List String)
same_turn diff s rest none = none
same_turn diff s rest (some d) =
    Option.map (λ (xs : List String). if str_eq d diff then s ∷ xs else xs) rest

unfoldable pub same_diffs : Fingerprint → String → List String → Option (List String)
same_diffs print diff [] = some []
same_diffs print diff (s ∷ ss) = same_turn diff s (same_diffs print diff ss) (print s)

unfoldable pub same_changes : Fingerprint → String → List String → Option (List String)
same_changes print diff [] = some []
same_changes print diff (s ∷ ss) =
    Option.map (λ (xs : List String). s ∷ xs) (same_diffs print diff ss)

-- A turn of the loop of `firstWithChanges`, with what the next turns answer from the parent.
abbrev pub earlier_print :
    String → String → (String → Option (List String)) → Option String → Option (List String)
earlier_print diff q rest none = none
earlier_print diff q rest (some d) =
    if str_eq d diff then Option.map (λ (xs : List String). q ∷ xs) (rest q) else some []

abbrev pub earlier_turn :
    Fingerprint
    → String
    → (String → Option (List String))
    → Option (Option String)
    → Option (List String)
earlier_turn print diff rest none = none
earlier_turn print diff rest (some none) = some []
earlier_turn print diff rest (some (some q)) = earlier_print diff q rest (print q)

-- The loop, with the turns it has left: the heads below the one it is at that have the same
-- changes, newest first.
unfoldable pub earlier_heads : BaseMerge → Fingerprint → String → ℕ → String → Option (List String)
earlier_heads parent print diff zero at = some []
earlier_heads parent print diff (suc n) at =
    earlier_turn print diff (λ q. earlier_heads parent print diff n q) (parent at)

abbrev pub last_of : String → List String → String
last_of s [] = s
last_of s (x ∷ xs) = last_of x xs

abbrev pub with_last : String → List String → String × List String
with_last head xs = (last_of head xs, head ∷ xs)

unfoldable pub first_with_changes :
    BaseMerge → Fingerprint → String → String → Option (String × List String)
first_with_changes parent print diff head =
    Option.map (with_last head) (earlier_heads parent print diff max_base_merges head)

-- What `readChanges` answers, its error as `failed`.
pub data Reading : Type 0 where
  failed unchanged : Reading
  changed : ChangeRead → Reading

abbrev pub new_changes : BaseMerge → Fingerprint → String → String → Bool → String → Reading
new_changes parent print base head retarget diff =
    elim (first_with_changes parent print diff head) [
      | none ↦ failed
      | some found ↦ changed (record {
        epoch = found.0;
        diff = diff;
        base = base;
        walked = found.1;
        fresh = true;
        retarget = retarget;
      })
    ]

abbrev pub same_content : String → String → List String → ReviewState → ChangeRead
same_content base diff walked r = record {
  epoch = r.content;
  diff = diff;
  base = base;
  walked = walked;
  fresh = false;
  retarget = false;
}

abbrev pub confirmed : String → String → ReviewState → Option (List String) → Reading
confirmed base diff r none = failed
confirmed base diff r (some kept) = changed (same_content base diff kept r)

-- The head is reached over merges of the base, or the changes are taken for new ones.
abbrev pub over_merges :
    Fingerprint → Reading → String → String → ReviewState → Option (Option (List String)) → Reading
over_merges print anew base diff r none = failed
over_merges print anew base diff r (some none) = anew
over_merges print anew base diff r (some (some walked)) =
    confirmed base diff r (same_changes print diff walked)

-- Whether the base is another one than the changes were last read against; a record without a base
-- is from before it was kept.
abbrev pub is_retargeted : String → ReviewState → Bool
is_retargeted base r = not (is_empty r.content_base) && not (str_eq r.content_base base)

abbrev pub on_diff :
    BaseMerge → Fingerprint → String → String → ReviewState → Option String → Reading
on_diff parent print base head r none = failed
on_diff parent print base head r (some diff) =
    let retarget = is_retargeted base r in
    let anew = new_changes parent print base head retarget diff in
    if not (is_empty r.content_head) && not retarget && str_eq diff r.diff
    then (if str_eq r.content_head head || contains r.lineage head
        then changed (same_content base diff [] r)
        else over_merges print anew base diff r (base_merges_since parent r.lineage head))
    else anew

-- `readChanges`, on the base and the head of the pull request.
unfoldable pub read_changes : BaseMerge → Fingerprint → String → String → ReviewState → Reading
read_changes parent print base head r =
    if str_eq r.content_head head && str_eq r.content_base base
    then unchanged
    else on_diff parent print base head r (print head)

-- The loop of `appendLineage` over the walked heads, oldest first, and its end.
abbrev pub with_head : List String → String → List String
with_head lineage s = if contains lineage s then lineage else lineage ++ (s ∷ [])

abbrev pub with_walked : List String → List String → List String
with_walked lineage [] = lineage
with_walked lineage (s ∷ ss) = with_head (with_walked lineage ss) s

abbrev pub drop : ℕ → List String → List String
drop zero xs = xs
drop (suc n) [] = []
drop (suc n) (x ∷ xs) = drop n xs

unfoldable pub append_lineage : List String → List String → String → List String
append_lineage lineage walked head =
    let whole = with_head (with_walked lineage walked) head in
    drop (length whole - max_lineage) whole

-- `contentMoved`, on the content and lineage that were read, and the base and head of the pull request.
abbrev pub content_moved : String → List String → String → String → MergeState → Bool
content_moved content lineage base head m =
    if not (is_empty m.on_base) && not (str_eq m.on_base base)
    then true
    else if is_empty content
    then not (str_eq m.on_head head)
    else if not (is_empty m.on_content)
    then not (str_eq m.on_content content)
    else not (str_eq m.on_head head) && not (contains lineage m.on_head)
