-- ===== src/Projects/Memory.antt =====
-- The notes of a project, `Memory` of projects/ledger.go: newest first, at most `maxNotes`.
pub mod Retention
use arbetern.Base.{
  ℕ, zero, suc, ◌+◌, ◌-◌, ◌≡◌, ◌==◌, Bool, true, false, not, ◌&&◌, ◌||◌, String, List, [], ◌∷◌,
  length, any, ltb, str_eq, if◌then◌else◌,
}

abbrev pub max_notes : ℕ
max_notes = 60

pub data Source : Type 0 where
  admin session review : Source

abbrev pub is_admin : Source → Bool
is_admin admin = true
is_admin _ = false

abbrev pub same_source : Source → Source → Bool
same_source admin admin = true
same_source session session = true
same_source review review = true
same_source _ _ = false

pub record Note : Type 0 where
  pub id : String
  pub text : String
  pub source : Source
  pub task : String
  pub by : String
  pub at : ℕ

-- `Memory.has`.
abbrev pub has : String → List Note → Bool
has i ns = any (λ n. str_eq n.id i) ns

abbrev pub all_admin : List Note → Bool
all_admin [] = true
all_admin (n ∷ ns) = is_admin n.source && all_admin ns

-- `slices.Delete` of the last note.
abbrev pub drop_last : List Note → List Note
drop_last [] = []
drop_last (n ∷ []) = []
drop_last (n ∷ (m ∷ ns)) = n ∷ drop_last (m ∷ ns)

-- `slices.Delete` of the oldest note that is no admin's: the last one in the list.
abbrev pub drop_oldest : List Note → List Note
drop_oldest [] = []
drop_oldest (n ∷ ns) =
    let rest = drop_oldest ns in
    if all_admin ns then (if is_admin n.source then n ∷ ns else ns) else n ∷ rest

-- One turn of the loop of `Memory.add`: the victim is the oldest note that is no admin's, or the
-- oldest note.
unfoldable pub evict : List Note → List Note
evict ns = if all_admin ns then drop_last ns else drop_oldest ns

-- The loop of `Memory.add`. Each turn removes a note, so as many turns as there are notes do.
unfoldable pub evict_over : ℕ → List Note → List Note
evict_over zero ns = ns
evict_over (suc k) ns =
    let rest = evict_over k (evict ns) in if ltb max_notes (length ns) then rest else ns

-- `Memory.add`: the notes, and whether the note is among them.
unfoldable pub add : Note → List Note → List Note × Bool
add n ns =
    let kept = evict_over (length (n ∷ ns)) (n ∷ ns) in
    if has n.id ns then (ns, false) else (kept, has n.id kept)

abbrev pub without : String → List Note → List Note
without i [] = []
without i (n ∷ ns) = if str_eq n.id i then without i ns else n ∷ without i ns

-- `Memory.remove`: the notes, and whether there was one.
unfoldable pub remove : String → List Note → List Note × Bool
remove i ns = (without i ns, not (length (without i ns) == length ns))

-- `Memory.count`.
unfoldable pub count : Source → String → List Note → ℕ
count s t [] = 0
count s t (n ∷ ns) =
    if same_source n.source s && (str_eq t "" || str_eq n.task t)
    then 1 + count s t ns
    else count s t ns
