-- ===== src/Projects/Memory/Retention.antt =====
-- Which notes `Memory.add` of projects/ledger.go keeps.
use arbetern.Base.{
  ℕ, zero, suc, ◌+◌, ◌≤◌, ◌<◌, ◌≡◌, refl, ap, ◌∙◌, inl, inr, true, false, List, [], ◌∷◌, length,
  arith, ltb, if◌then◌else◌, Bool-cases,
}
use arbetern.Projects.Memory.{
  max_notes, is_admin, Note, has, all_admin, drop_last, drop_oldest, evict, evict_over, add,
}

-- The notes of the admins.
abbrev pub admins : List Note → List Note
admins [] = []
admins (n ∷ ns) = if is_admin n.source then n ∷ admins ns else admins ns

length-drop_last : (n : Note) (ns : List Note) → length (drop_last (n ∷ ns)) ≡ length ns
length-drop_last n [] = refl
length-drop_last n (m ∷ ns) = ap suc (length-drop_last m ns)

length-drop_oldest :
    (ns : List Note) → all_admin ns ≡ false → length ns ≡ 1 + length (drop_oldest ns)
length-drop_oldest [] h = absurd (ground arith)
length-drop_oldest (n ∷ ns) h = elim (Bool-cases (all_admin ns)) [
  | inl y ↦ rw y (elim (Bool-cases (is_admin n.source)) [
    | inl a ↦ absurd (ground arith)
    | inr a ↦ rw a (omega arith)
  ])
  | inr e ↦ rw e (omega (arith, length-drop_oldest ns e))
]

length-evict : (n : Note) (ns : List Note) → length (evict (n ∷ ns)) ≡ length ns
unfolding evict
length-evict n ns = elim (Bool-cases (all_admin (n ∷ ns))) [
  | inl y ↦ rw y (length-drop_last n ns)
  | inr e ↦ rw e (omega (arith, length-drop_oldest (n ∷ ns) e))
]

admins-all : (ns : List Note) → all_admin ns ≡ true → admins ns ≡ ns
admins-all [] h = refl
admins-all (n ∷ ns) h = elim (Bool-cases (is_admin n.source)) [
  | inl a ↦ rw a (ap (λ r. n ∷ r) (admins-all ns (ground arith)))
  | inr a ↦ absurd (ground arith)
]

admins-drop_oldest : (ns : List Note) → all_admin ns ≡ false → admins (drop_oldest ns) ≡ admins ns
admins-drop_oldest [] h = absurd (ground arith)
admins-drop_oldest (n ∷ ns) h = elim (Bool-cases (all_admin ns)) [
  | inl y ↦
      rw y (elim (Bool-cases (is_admin n.source)) [
        | inl a ↦ absurd (ground arith)
        | inr a ↦ rw a refl
      ])
  | inr e ↦ rw e (elim (Bool-cases (is_admin n.source)) [
    | inl a ↦ rw a (ap (λ r. n ∷ r) (admins-drop_oldest ns e))
    | inr a ↦ rw a (admins-drop_oldest ns e)
  ])
]

admins-evict :
    (ns : List Note)
    → length (admins ns) ≤ max_notes
    → max_notes < length ns
    → admins (evict ns) ≡ admins ns
unfolding evict
admins-evict ns few over = elim (Bool-cases (all_admin ns)) [
  | inl y ↦ absurd (omega (arith, few, over, ap length (admins-all ns y)))
  | inr e ↦ rw e (admins-drop_oldest ns e)
]

length-evict_over : (k : ℕ) (ns : List Note) → length ns ≤ k → length (evict_over k ns) ≤ max_notes
unfolding evict_over
length-evict_over zero ns h = omega (arith, h)
length-evict_over (suc k) [] h = ground arith
length-evict_over (suc k) (n ∷ ns) h = elim (Bool-cases (ltb max_notes (length (n ∷ ns)))) [
  | inl y ↦ rw y (length-evict_over k (evict (n ∷ ns)) (omega (arith, h, length-evict n ns)))
  | inr e ↦ rw e (ground arith)
]

admins-evict_over :
    (k : ℕ) (ns : List Note) → length (admins ns) ≤ max_notes → admins (evict_over k ns) ≡ admins ns
unfolding evict_over
admins-evict_over zero ns few = refl
admins-evict_over (suc k) ns few = elim (Bool-cases (ltb max_notes (length ns))) [
  | inl y ↦
      let e = admins-evict ns few (ground arith) in
      rw y (admins-evict_over k (evict ns) (rw e few) ∙ e)
  | inr e ↦ rw e refl
]

-- A note that is added to a memory that does not have it leaves at most `maxNotes` notes, and the
-- admins' notes among them are all of those that there were, with the new one, as long as they
-- are at most `maxNotes`: only other notes make room. A note that the memory has changes nothing.
-- The answer is whether the note is in the memory that `add` leaves and was not before.
pub add-keeps_admins :
    (n : Note) (ns : List Note)
    → (has n.id ns ≡ true → add n ns ≡ (ns, false))
      × (has n.id ns ≡ false
          → (length (add n ns).0 ≤ max_notes)
            × (length (admins (n ∷ ns)) ≤ max_notes → admins (add n ns).0 ≡ admins (n ∷ ns))
            × ((add n ns).1 ≡ has n.id (add n ns).0))
unfolding add
add-keeps_admins n ns = (
  λ y. rw y refl,
  λ e. rw e (
    length-evict_over (length (n ∷ ns)) (n ∷ ns) (omega arith),
    λ few. admins-evict_over (length (n ∷ ns)) (n ∷ ns) few,
    refl,
  ),
)

evict_over_small : (k : ℕ) (ns : List Note) → length ns ≤ max_notes → evict_over k ns ≡ ns
unfolding evict_over
evict_over_small zero ns h = refl
evict_over_small (suc k) ns h = ground arith

evict_newest :
    (n : Note) (ns : List Note)
    → is_admin n.source ≡ false
    → all_admin ns ≡ true
    → evict (n ∷ ns) ≡ ns
unfolding evict
evict_newest n ns a y = rw (a, y) refl

-- A memory that is full of admins' notes takes no note of a session or of a review, and says so.
pub add_full :
    (n : Note) (ns : List Note)
    → is_admin n.source ≡ false
    → all_admin ns ≡ true
    → length ns ≡ max_notes
    → add n ns ≡ (ns, false)
unfolding add evict_over
add_full n ns a y full =
    let kept : evict_over (length ns) ns ≡ ns =
      evict_over_small (length ns) ns (omega (arith, full)) in
    let over : ltb max_notes (length (n ∷ ns)) ≡ true = ground (arith, full) in
    elim (Bool-cases (has n.id ns)) [
      | inl h ↦ rw h refl
      | inr h ↦ rw (h, over, evict_newest n ns a y, kept, h) refl
    ]
