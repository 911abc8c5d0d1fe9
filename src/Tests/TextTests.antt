-- ===== src/Tests/TextTests.antt =====
-- Runs of the truncation of texts (internal/text/text.go).
use arbetern.Base.{ℕ, ◌≤◌, ◌≡◌, refl, List, [], ◌∷◌, length}
use arbetern.Text.{rune_start, trim_to_rune, truncate, truncate_plain, truncate_start}
use arbetern.Text.Bounds.{truncate_bounds}

-- `aéé`, in five bytes.
abbrev accents : List ℕ
accents = b'a' ∷ 0xc3 ∷ 0xa9 ∷ 0xc3 ∷ 0xa9 ∷ []

cut_inside_rune : truncate_plain accents 4 ≡ b'a' ∷ 0xc3 ∷ 0xa9 ∷ []
unfolding truncate_plain trim_to_rune rune_start
cut_inside_rune = refl

truncate_bounds_example :
    (length (truncate accents 4) ≤ 4)
    × (length (truncate_plain accents 4) ≤ 4)
    × (length (truncate_start accents 4) ≤ 4)
    × (1 ≤ 4
        → 5 ≤ 4
        → (truncate accents 4 ≡ accents)
          × (truncate_plain accents 4 ≡ accents)
          × (truncate_start accents 4 ≡ accents))
truncate_bounds_example = truncate_bounds accents 4
