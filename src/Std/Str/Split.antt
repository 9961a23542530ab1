-- ===== src/Std/Str/Split.antt =====
-- Texts that are put together from lines and words are taken apart into them.
use voindns_desktop.Base.{
  ℕ, zero, suc, replicate, ◌≡◌, refl, sym, ap, ◌∙◌, ◌≢◌, true, false, List, [], ◌∷◌, ◌++◌,
  append_assoc, append-nil, arith, All, Text,
}
use voindns_desktop.Std.Str.{
  is_whitespace, strip_cr, lines, lines_from, split_whitespace, words_from, join,
}

-- The text holds no line feed, and no carriage return at its end.
abbrev pub IsLine : Text → Type 0
IsLine l = All (λ c. c ≢ 10) l × (strip_cr l ≡ l)

-- The text is not empty and holds no white space.
abbrev pub IsWord : Text → Type 0
IsWord w = (w ≢ []) × All (λ c. is_whitespace c ≡ false) w

-- Each line with a line feed behind it.
unfoldable pub unlines : List Text → Text
unlines [] = []
unlines (l ∷ ls) = l ++ 10 ∷ unlines ls

lines_from-append :
    (l cur s : Text) → All (λ c. c ≢ 10) l → lines_from cur (l ++ s) ≡ lines_from (cur ++ l) s
unfolding lines_from
lines_from-append [] cur s h = ap (λ x. lines_from x s) (sym (append-nil cur))
lines_from-append (c ∷ l) cur s h =
    ground (arith, lines_from-append l (cur ++ c ∷ []) s h.1, append_assoc cur (c ∷ []) l)

lines_from-feed : (cur s : Text) → lines_from cur (10 ∷ s) ≡ strip_cr cur ∷ lines_from [] s
unfolding lines_from
lines_from-feed cur s = refl

pub lines-unlines : (ls : List Text) → All IsLine ls → lines (unlines ls) ≡ ls
unfolding lines unlines
lines-unlines [] h = refl
lines-unlines (l ∷ ls) ((plain, whole), h) =
    lines_from-append l [] (10 ∷ unlines ls) plain
    ∙ lines_from-feed l (unlines ls)
    ∙ cc (whole, lines-unlines ls h)

words_from-append :
    (w cur s : Text)
    → All (λ c. is_whitespace c ≡ false) w
    → words_from cur (w ++ s) ≡ words_from (cur ++ w) s
unfolding words_from
words_from-append [] cur s h = ap (λ x. words_from x s) (sym (append-nil cur))
words_from-append (c ∷ w) cur s h =
    ground (arith, words_from-append w (cur ++ c ∷ []) s h.1, append_assoc cur (c ∷ []) w, h.0)

-- One white space character behind a word ends it.
words_from-space :
    (w s : Text) (c : ℕ)
    → w ≢ []
    → is_whitespace c ≡ true
    → words_from w (c ∷ s) ≡ w ∷ words_from [] s
unfolding words_from
words_from-space [] s c h space = absurd (h refl)
words_from-space (x ∷ w) s c h space = rw (space, words_from)

words_from-end : (w : Text) → w ≢ [] → words_from w [] ≡ w ∷ []
unfolding words_from
words_from-end [] h = absurd (h refl)
words_from-end (x ∷ w) h = refl

words_from-join :
    (ws : List Text) (c : ℕ)
    → is_whitespace c ≡ true
    → All IsWord ws
    → words_from [] (join (c ∷ []) ws) ≡ ws
unfolding join
words_from-join [] c space h = unfold words_from in refl
words_from-join (w ∷ []) c space ((full, plain), _) =
    ap (words_from []) (sym (append-nil w))
    ∙ words_from-append w [] [] plain
    ∙ words_from-end w full
words_from-join (w ∷ v ∷ ws) c space ((full, plain), h) =
    words_from-append w [] (c ∷ join (c ∷ []) (v ∷ ws)) plain
    ∙ words_from-space w (join (c ∷ []) (v ∷ ws)) c full space
    ∙ ap (λ l. w ∷ l) (words_from-join (v ∷ ws) c space h)

-- Words joined by a white space character are the words of the text.
pub split_whitespace-join :
    (ws : List Text) (c : ℕ)
    → is_whitespace c ≡ true
    → All IsWord ws
    → split_whitespace (join (c ∷ []) ws) ≡ ws
split_whitespace-join ws c space h = unfold split_whitespace in words_from-join ws c space h

words_from-skip :
    (s : Text) (c : ℕ) → is_whitespace c ≡ true → words_from [] (c ∷ s) ≡ words_from [] s
unfolding words_from
words_from-skip s c space = rw (space, words_from)

words_from-spaces :
    (k c : ℕ) (s : Text)
    → is_whitespace c ≡ true
    → words_from [] (replicate k c ++ s) ≡ words_from [] s
words_from-spaces zero c s space = refl
words_from-spaces (suc k) c s space =
    words_from-skip (replicate k c ++ s) c space ∙ words_from-spaces k c s space

-- A word with white space behind it is the first word.
pub split_whitespace-word :
    (w : Text) (c k : ℕ) (s : Text)
    → is_whitespace c ≡ true
    → IsWord w
    → split_whitespace (w ++ c ∷ (replicate k c ++ s)) ≡ w ∷ split_whitespace s
split_whitespace-word w c k s space (full, plain) =
    unfold split_whitespace in
    words_from-append w [] (c ∷ (replicate k c ++ s)) plain
    ∙ words_from-space w (replicate k c ++ s) c full space
    ∙ ap (λ l. w ∷ l) (words_from-spaces k c s space)

words_from-blanks : (k c : ℕ) → is_whitespace c ≡ true → words_from [] (replicate k c) ≡ []
words_from-blanks zero c space = unfold words_from in refl
words_from-blanks (suc k) c space =
    words_from-skip (replicate k c) c space ∙ words_from-blanks k c space

-- white space behind the last word
words_from-last :
    (w : Text) (k c : ℕ) → w ≢ [] → is_whitespace c ≡ true → words_from w (replicate k c) ≡ w ∷ []
words_from-last w zero c full space = words_from-end w full
words_from-last w (suc k) c full space =
    words_from-space w (replicate k c) c full space ∙ ap (λ l. w ∷ l) (words_from-blanks k c space)

-- Words joined by a white space character, with more white space behind them.
pub split_whitespace-padded :
    (ws : List Text) (c k b : ℕ)
    → is_whitespace c ≡ true
    → is_whitespace b ≡ true
    → All IsWord ws
    → split_whitespace (join (c ∷ []) ws ++ replicate k b) ≡ ws
unfolding join split_whitespace
split_whitespace-padded [] c k b space blank h = words_from-blanks k b blank
split_whitespace-padded (w ∷ []) c k b space blank ((full, plain), _) =
    words_from-append w [] (replicate k b) plain ∙ words_from-last w k b full blank
split_whitespace-padded (w ∷ v ∷ ws) c k b space blank ((full, plain), h) =
    ap (words_from []) (append_assoc w (c ∷ join (c ∷ []) (v ∷ ws)) (replicate k b))
    ∙ words_from-append w [] (c ∷ (join (c ∷ []) (v ∷ ws) ++ replicate k b)) plain
    ∙ words_from-space w (join (c ∷ []) (v ∷ ws) ++ replicate k b) c full space
    ∙ ap (λ l. w ∷ l) (split_whitespace-padded (v ∷ ws) c k b space blank h)
