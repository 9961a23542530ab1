-- ===== src/Std/Str.antt =====
-- Methods of `str`: `lines`, `split_whitespace`, `trim` and the like.
pub mod Split
pub mod Check
use voindns_desktop.Base.{
  ℕ, zero, suc, ◌+◌, ◌≡◌, refl, Bool, true, false, ◌&&◌, ◌||◌, not, List, [], ◌∷◌, ◌++◌, map, ltb,
  leb, ◌==◌, if◌then◌else◌, Text, text_eq,
}

-- `char::is_whitespace`
unfoldable pub is_whitespace : ℕ → Bool
is_whitespace c =
    (leb 9 c && leb c 13)
    || c == 32
    || c == 0x85
    || c == 0xa0
    || c == 0x1680
    || (leb 0x2000 c && leb c 0x200a)
    || c == 0x2028
    || c == 0x2029
    || c == 0x202f
    || c == 0x205f
    || c == 0x3000

unfoldable pub is_empty {ℓ} : {A : Type ℓ} → List A → Bool
is_empty [] = true
is_empty (x ∷ xs) = false

-- The text without one carriage return at its end.
unfoldable pub strip_cr : Text → Text
strip_cr [] = []
strip_cr (c ∷ []) = if c == 13 then [] else c ∷ []
strip_cr (c ∷ d ∷ s) = c ∷ strip_cr (d ∷ s)

-- `lines()`: a line ends in "\n" or "\r\n", the last one may lack it.
lines_from : Text → Text → List Text
unfolding strip_cr is_empty
lines_from line [] = if is_empty line then [] else line ∷ []
lines_from line (c ∷ s) = elim (c == 10) [
  | true ↦ strip_cr line ∷ lines_from [] s
  | false ↦ lines_from (line ++ c ∷ []) s
]

unfoldable pub lines : Text → List Text
unfolding lines_from
lines = lines_from []

-- `split_whitespace()`
words_from : Text → Text → List Text
unfolding is_empty
words_from word [] = if is_empty word then [] else word ∷ []
words_from word (c ∷ s) = elim (is_whitespace c) [
  | true ↦ let rest = words_from [] s in if is_empty word then rest else word ∷ rest
  | false ↦ words_from (word ++ c ∷ []) s
]

unfoldable pub split_whitespace : Text → List Text
unfolding words_from is_whitespace
split_whitespace = words_from []

-- `trim_start_matches`, with a test for the characters
unfoldable pub trim_start_by : (ℕ → Bool) → Text → Text
trim_start_by p [] = []
trim_start_by p (c ∷ s) = let rest = trim_start_by p s in if p c then rest else c ∷ s

-- Drops the white space at the end.
unfoldable pub trim_end : Text → Text
unfolding is_empty
trim_end [] = []
trim_end (c ∷ s) =
    let rest = trim_end s in if is_whitespace c && is_empty rest then [] else c ∷ rest

unfoldable pub trim : Text → Text
unfolding trim_start_by trim_end is_whitespace
trim s = trim_end (trim_start_by is_whitespace s)

unfoldable pub to_ascii_lower : ℕ → ℕ
to_ascii_lower c = if leb 65 c && leb c 90 then c + 32 else c

-- `eq_ignore_ascii_case`
unfoldable pub eq_ignore_ascii_case : Text → Text → Bool
unfolding to_ascii_lower text_eq
eq_ignore_ascii_case s t = text_eq (map to_ascii_lower s) (map to_ascii_lower t)

unfoldable pub starts_with : Text → Text → Bool
starts_with s [] = true
starts_with [] (d ∷ t) = false
starts_with (c ∷ s) (d ∷ t) = c == d && starts_with s t

unfoldable pub contains : Text → Text → Bool
unfolding starts_with
contains [] t = starts_with [] t
contains (c ∷ s) t = starts_with (c ∷ s) t || contains s t

-- `[…].join(sep)`
unfoldable pub join : Text → List Text → Text
join sep [] = []
join sep (s ∷ []) = s
join sep (s ∷ t ∷ rest) = s ++ (sep ++ join sep (t ∷ rest))
