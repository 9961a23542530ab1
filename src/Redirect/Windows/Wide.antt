-- ===== src/Redirect/Windows/Wide.antt =====
-- `wide`: the texts that are handed to the Windows API, in UTF-16 with a NUL behind them.
use voindns_desktop.Base.{
  ℕ, ◌+◌, ◌-◌, ◌*◌, ◌/◌, ◌%◌, ◌<◌, ◌≤◌, ◌≡◌, ◌⊎◌, refl, ◌∙◌, ap, ◌==◌, ltb, leb, ◌&&◌, Bool, Option,
  none, some, List, [], ◌∷◌, ◌++◌, append_assoc, All, All-append, Text, if◌then◌else◌, arith,
}

-- `char::encode_utf16`: one unit, or a pair of surrogates
abbrev pub encode_char : ℕ → List ℕ
encode_char c =
    if ltb c 65536 then c ∷ [] else (55296 + (c - 65536) / 1024) ∷ (56320 + (c - 65536) % 1024) ∷ []

unfoldable pub encode_utf16 : Text → List ℕ
encode_utf16 [] = []
encode_utf16 (c ∷ s) = encode_char c ++ encode_utf16 s

unfoldable pub wide : Text → List ℕ
unfolding encode_utf16
wide s = encode_utf16 s ++ 0 ∷ []

-- What a reader of a `PCWSTR` finds, up to the NUL; `high` is a high surrogate that was read.
abbrev is_high : ℕ → Bool
is_high u = leb 55296 u && ltb u 56320

unfoldable pub read_units : Option ℕ → List ℕ → Text
read_units none [] = []
read_units none (u ∷ us) =
    let plain = read_units none us in
    let paired = read_units (some u) us in
    if u == 0 then [] else if is_high u then paired else u ∷ plain
read_units (some high) [] = 65533 ∷ []
read_units (some high) (u ∷ us) = (65536 + (high - 55296) * 1024 + (u - 56320)) ∷ read_units none us

-- A scalar value other than NUL.
abbrev pub IsScalar : ℕ → Type 0
IsScalar c = (0 < c) × ((c < 55296) ⊎ ((57344 ≤ c) × (c < 1114112)))

read_units-char :
    (c : ℕ) (us : List ℕ)
    → IsScalar c
    → read_units none (encode_char c ++ us) ≡ c ∷ read_units none us
unfolding read_units
read_units-char c us (full, range) = ground (arith, full, range)

encode_char-lt : (c : ℕ) → IsScalar c → All (λ u. u < 65536) (encode_char c)
encode_char-lt c h = ground (arith, h)

encode_utf16-lt : (s : Text) → All IsScalar s → All (λ u. u < 65536) (encode_utf16 s)
unfolding encode_utf16
encode_utf16-lt [] h = tt
encode_utf16-lt (c ∷ s) (hc, h) =
    All-append (λ u. u < 65536) (encode_char c) (encode_utf16 s) (encode_char-lt c hc)
      (encode_utf16-lt s h)

read_units-encode_utf16 :
    (s : Text) (behind : List ℕ)
    → All IsScalar s
    → read_units none (encode_utf16 s ++ 0 ∷ behind) ≡ s
unfolding encode_utf16 read_units
read_units-encode_utf16 [] behind h = refl
read_units-encode_utf16 (c ∷ s) behind (hc, h) =
    ap (read_units none) (append_assoc (encode_char c) (encode_utf16 s) (0 ∷ behind))
    ∙ read_units-char c (encode_utf16 s ++ 0 ∷ behind) hc
    ∙ ap (λ l. c ∷ l) (read_units-encode_utf16 s behind h)

-- A text of scalar values without a NUL, encoded by wide, is read back as it is by a reader of
-- UTF-16 that stops at the NUL, whatever stands behind it in memory, and each of its units fits 16
-- bits.
pub read_units-wide :
    (s : Text) (behind : List ℕ)
    → All IsScalar s
    → (read_units none (wide s ++ behind) ≡ s) × All (λ u. u < 65536) (wide s)
unfolding wide
read_units-wide s behind h = (
  ap (read_units none) (append_assoc (encode_utf16 s) (0 ∷ []) behind)
      ∙ read_units-encode_utf16 s behind h,
  All-append (λ u. u < 65536) (encode_utf16 s) (0 ∷ []) (encode_utf16-lt s h) (omega arith, tt),
)
