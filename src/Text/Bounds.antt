-- ===== src/Text/Bounds.antt =====
-- The bounds and the cut positions of internal/text/text.go.
use arbetern.Base.{
  ℕ, zero, suc, ◌-◌, ◌≤◌, ◌≡◌, refl, inl, inr, true, List, [], ◌∷◌, ◌++◌, length, length-append,
  arith, leb, Bool-cases, ap,
}
use mathlib.Core.List.{append-nil}
use arbetern.Text.{
  ellipsis, rune_start, take, drop, starts_rune, back_to_rune, trim_to_rune, skip_to_rune,
  tail_from_rune, truncate, truncate_plain, truncate_start,
}

back_to_rune-le : (s : List ℕ) (n : ℕ) → back_to_rune s n ≤ n
unfolding back_to_rune
back_to_rune-le s zero = omega arith
back_to_rune-le s (suc n) = ground (arith, back_to_rune-le s n)

length-take-le : (n : ℕ) (s : List ℕ) → length (take n s) ≤ n
length-take-le zero s = omega arith
length-take-le (suc n) [] = omega arith
length-take-le (suc n) (c ∷ s) = omega (arith, length-take-le n s)

length-skip_to_rune : (s : List ℕ) → length (skip_to_rune s) ≤ length s
unfolding skip_to_rune
length-skip_to_rune [] = omega arith
length-skip_to_rune (c ∷ s) = ground (arith, length-skip_to_rune s)

length-drop : (n : ℕ) (s : List ℕ) → length (drop n s) ≡ length s - n
length-drop zero s = omega arith
length-drop (suc n) [] = omega arith
length-drop (suc n) (c ∷ s) = omega (arith, length-drop n s)

length-trim_to_rune : (s : List ℕ) (n : ℕ) → length (trim_to_rune s n) ≤ n
unfolding trim_to_rune
length-trim_to_rune s n = ground (arith, back_to_rune-le s n, length-take-le (back_to_rune s n) s)

length-tail_from_rune : (s : List ℕ) (n : ℕ) → length (tail_from_rune s n) ≤ n
unfolding tail_from_rune
length-tail_from_rune s n =
    ground (arith, length-skip_to_rune (drop (length s - n) s), length-drop (length s - n) s)

-- The three truncations never return more bytes than asked for, the ellipsis counted in, and
-- return a text that fits as it is.
pub truncate_bounds :
    (s : List ℕ) (max : ℕ)
    → (length (truncate s max) ≤ max)
      × (length (truncate_plain s max) ≤ max)
      × (length (truncate_start s max) ≤ max)
      × (1 ≤ max
          → length s ≤ max
          → (truncate s max ≡ s) × (truncate_plain s max ≡ s) × (truncate_start s max ≡ s))
unfolding truncate truncate_plain truncate_start
truncate_bounds s max = (
  ground (
    arith,
    length-trim_to_rune s max,
    length-trim_to_rune s (max - 3),
    length-append (trim_to_rune s (max - 3)) ellipsis,
  ),
  ground (arith, length-trim_to_rune s max),
  ground (
    arith,
    length-tail_from_rune s max,
    length-tail_from_rune s (max - 3),
    length-append ellipsis (tail_from_rune s (max - 3)),
  ),
  λ one fits. (ground arith, ground arith, ground arith),
)

-- The first byte of a text, if there is one, begins a rune.
abbrev pub BeginsRune : List ℕ → Type 0
BeginsRune [] = Unit
BeginsRune (c ∷ s) = rune_start c ≡ true

starts_rune-back_to_rune :
    (s : List ℕ) (n : ℕ) → BeginsRune s → starts_rune s (back_to_rune s n) ≡ true
unfolding back_to_rune
starts_rune-back_to_rune [] zero h = refl
starts_rune-back_to_rune (c ∷ s) zero h = h
starts_rune-back_to_rune s (suc n) h = ground (arith, starts_rune-back_to_rune s n h)

skip_to_rune-BeginsRune : (s : List ℕ) → BeginsRune (skip_to_rune s)
unfolding skip_to_rune
skip_to_rune-BeginsRune [] = tt
skip_to_rune-BeginsRune (c ∷ s) = elim (Bool-cases (rune_start c)) [
  | inl e ↦ rw e e
  | inr e ↦ rw e (skip_to_rune-BeginsRune s)
]

take-append-drop : (n : ℕ) (s : List ℕ) → take n s ++ drop n s ≡ s
take-append-drop zero s = refl
take-append-drop (suc n) [] = refl
take-append-drop (suc n) (c ∷ s) = ap (◌∷◌ c) (take-append-drop n s)

drop-length : (s : List ℕ) → drop (length s) s ≡ []
drop-length [] = refl
drop-length (c ∷ s) = drop-length s

starts_rune-length : (s : List ℕ) → starts_rune s (length s) ≡ true
starts_rune-length [] = refl
starts_rune-length (c ∷ s) = starts_rune-length s

-- A text that is cut is cut between two runes: what `trimToRune` keeps is a prefix, and what it
-- leaves out begins a rune.
pub trim_to_rune_cut :
    (s : List ℕ) (n : ℕ)
    → BeginsRune s
    → (k : ℕ) × (k ≤ length s) × (trim_to_rune s n ++ drop k s ≡ s) × (starts_rune s k ≡ true)
unfolding trim_to_rune
trim_to_rune_cut s n h = elim (Bool-cases (leb (length s) n)) [
  | inl e ↦ (length s, omega arith, rw (drop-length s, e) (append-nil s), starts_rune-length s)
  | inr e ↦ (
    back_to_rune s n,
    ground (arith, back_to_rune-le s n),
    rw e (take-append-drop _ s),
    starts_rune-back_to_rune s n h,
  )
]
