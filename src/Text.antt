-- ===== src/Text.antt =====
-- The truncation of byte strings on rune boundaries of internal/text/text.go. A string is the list
-- of its bytes.
pub mod Bounds
use arbetern.Base.{
  ℕ, zero, suc, ◌+◌, ◌-◌, Bool, true, false, ◌&&◌, not, List, [], ◌∷◌, ◌++◌, length, ltb, leb, ◌==◌,
  if◌then◌else◌,
}
use arbetern.Base

-- The three bytes of `…` in UTF-8.
abbrev pub ellipsis : List ℕ
ellipsis = 0xe2 ∷ 0x80 ∷ 0xa6 ∷ []

-- utf8.RuneStart: any byte but a continuation byte.
unfoldable pub rune_start : ℕ → Bool
rune_start c = not (leb 0x80 c && leb c 0xbf)

abbrev pub take : ℕ → List ℕ → List ℕ
take zero xs = []
take (suc n) [] = []
take (suc n) (x ∷ xs) = x ∷ take n xs

abbrev pub drop : ℕ → List ℕ → List ℕ
drop zero xs = xs
drop (suc n) [] = []
drop (suc n) (x ∷ xs) = drop n xs

-- Whether the text may be cut before its position n, or n is its end.
abbrev pub starts_rune : List ℕ → ℕ → Bool
starts_rune s n = elim (drop n s) [ [] ↦ true | c ∷ _ ↦ rune_start c ]

-- The loop `for n > 0 && !utf8.RuneStart(s[n]) { n-- }`.
unfoldable pub back_to_rune : List ℕ → ℕ → ℕ
back_to_rune s zero = zero
back_to_rune s (suc n) =
    let back = back_to_rune s n in if starts_rune s (suc n) then suc n else back

unfoldable pub trim_to_rune : List ℕ → ℕ → List ℕ
unfolding back_to_rune
trim_to_rune s n = if leb (length s) n then s else take (back_to_rune s n) s

-- The loop `for i < len(s) && !utf8.RuneStart(s[i]) { i++ }`, on the bytes from s[i] on.
unfoldable pub skip_to_rune : List ℕ → List ℕ
skip_to_rune [] = []
skip_to_rune (c ∷ s) = let rest = skip_to_rune s in if rune_start c then c ∷ s else rest

unfoldable pub tail_from_rune : List ℕ → ℕ → List ℕ
unfolding skip_to_rune
tail_from_rune s n = if leb (length s) n then s else skip_to_rune (drop (length s - n) s)

unfoldable pub truncate : List ℕ → ℕ → List ℕ
truncate s max =
    if max == 0
    then []
    else if leb (length s) max
    then s
    else if leb max (length ellipsis)
    then trim_to_rune s max
    else trim_to_rune s (max - length ellipsis) ++ ellipsis

unfoldable pub truncate_plain : List ℕ → ℕ → List ℕ
truncate_plain s max = if max == 0 then [] else if leb (length s) max then s else trim_to_rune s max

unfoldable pub truncate_start : List ℕ → ℕ → List ℕ
truncate_start s max =
    if max == 0
    then []
    else if leb (length s) max
    then s
    else if leb max (length ellipsis)
    then tail_from_rune s max
    else ellipsis ++ tail_from_rune s (max - length ellipsis)
