-- ===== src/Std/Str/Check.antt =====
-- Boolean tests for lines and words.
use voindns_desktop.Base.{
  ◌≡◌, ◌≢◌, Bool, true, false, ◌&&◌, not, [], ◌∷◌, All, ◌==◌, Text, text_eq, text_eq_iff, arith,
}
use voindns_desktop.Std.Str.{is_whitespace, is_empty, strip_cr}
use voindns_desktop.Std.Str.Split.{IsLine, IsWord}

no_feed : Text → Bool
no_feed [] = true
no_feed (c ∷ l) = not (c == 10) && no_feed l

no_space : Text → Bool
no_space [] = true
no_space (c ∷ l) = not (is_whitespace c) && no_space l

no_feed-All : (l : Text) → no_feed l ≡ true → All (λ c. c ≢ 10) l
unfolding no_feed
no_feed-All [] h = tt
no_feed-All (c ∷ l) h = (ground arith, no_feed-All l (ground arith))

no_space-All : (l : Text) → no_space l ≡ true → All (λ c. is_whitespace c ≡ false) l
unfolding no_space
no_space-All [] h = tt
no_space-All (c ∷ l) h = (ground arith, no_space-All l (ground arith))

unfoldable pub is_line : Text → Bool
unfolding no_feed text_eq strip_cr
is_line l = no_feed l && text_eq (strip_cr l) l

unfoldable pub is_word : Text → Bool
unfolding no_space is_empty is_whitespace
is_word w = not (is_empty w) && no_space w

pub is_line-IsLine : (l : Text) → is_line l ≡ true → IsLine l
unfolding is_line
is_line-IsLine l h = (no_feed-All l (ground arith), (text_eq_iff (strip_cr l) l).0 (ground arith))

pub is_word-IsWord : (w : Text) → is_word w ≡ true → IsWord w
unfolding is_word
is_word-IsWord [] h = absurd (ground arith)
is_word-IsWord (c ∷ w) h = ((λ e. cc), no_space-All (c ∷ w) (ground arith))
