-- ===== src/Std/Decimal.antt =====
-- Decimal numbers: `Display` of an unsigned integer, and `str::parse::<u16>`.
use voindns_desktop.Base.{
  ℕ, zero, suc, ◌+◌, ◌-◌, ◌*◌, ◌/◌, ◌%◌, ◌≤◌, ◌<◌, ◌≡◌, refl, Bool, ◌&&◌, [], ◌∷◌, arith, ltb, leb,
  ◌==◌, if◌then◌else◌, Text, codes, Result, ok, err, Bool-cases, inl, inr, ◌∙◌,
}

-- Digits in front of `rest`. A number has no more digits than its value, so `n` is enough fuel.
dec_digits : ℕ → ℕ → Text → Text
dec_digits zero n rest = (48 + n % 10) ∷ rest
dec_digits (suc fuel) n rest =
    let more = dec_digits fuel (n / 10) ((48 + n % 10) ∷ rest) in
    if ltb n 10 then (48 + n) ∷ rest else more

unfoldable pub to_decimal : ℕ → Text
unfolding dec_digits
to_decimal n = dec_digits n n []

pub data ParseIntError : Type 0 where
  empty invalid_digit pos_overflow : ParseIntError

abbrev pub is_digit : ℕ → Bool
is_digit c = leb 48 c && leb c 57

-- One pass over the digits; the accumulator stays below 2^16.
u16_digits : ℕ → Text → Result ParseIntError ℕ
u16_digits acc [] = ok acc
u16_digits acc (c ∷ cs) =
    let rest = u16_digits (acc * 10 + (c - 48)) cs in
    if is_digit c
    then if ltb (acc * 10 + (c - 48)) 65536 then rest else err pos_overflow
    else err invalid_digit

u16_signed : ℕ → Text → Result ParseIntError ℕ
unfolding u16_digits
u16_signed c [] = if is_digit c then ok (c - 48) else err invalid_digit
u16_signed c (d ∷ cs) = if c == b'+' then u16_digits 0 (d ∷ cs) else u16_digits 0 (c ∷ d ∷ cs)

-- `s.parse::<u16>()`: one leading `+` is allowed if digits follow.
unfoldable pub parse_u16 : Text → Result ParseIntError ℕ
unfolding u16_signed
parse_u16 [] = err empty
parse_u16 (c ∷ cs) = u16_signed c cs

-- `Display` of the error
unfoldable pub parse_int_message : ParseIntError → Text
parse_int_message empty = codes "cannot parse integer from empty string"
parse_int_message invalid_digit = codes "invalid digit found in string"
parse_int_message pos_overflow = codes "number too large to fit in target type"

u16_digits-dec_digits :
    (fuel n : ℕ) (rest : Text)
    → n ≤ fuel
    → n < 65536
    → u16_digits 0 (dec_digits fuel n rest) ≡ u16_digits n rest
unfolding u16_digits dec_digits
u16_digits-dec_digits zero n rest h k = ground arith
u16_digits-dec_digits (suc fuel) n rest h k =
    ground (arith, u16_digits-dec_digits fuel (n / 10) ((48 + n % 10) ∷ rest))

-- What is printed starts with a digit.
dec_digits-cons :
    (fuel n : ℕ) (rest : Text)
    → n ≤ fuel
    → (c : ℕ) × (cs : Text) × (dec_digits fuel n rest ≡ c ∷ cs) × (48 ≤ c)
unfolding dec_digits
dec_digits-cons zero n rest h = (48 + n % 10, rest, refl, omega arith)
dec_digits-cons (suc fuel) n rest h = elim (Bool-cases (ltb n 10)) [
  | inl small ↦ rw small (48 + n, rest, refl, omega arith)
  | inr large ↦ rw large (dec_digits-cons fuel (n / 10) ((48 + n % 10) ∷ rest) (ground arith))
]

u16_signed-digits : (c : ℕ) (cs : Text) → 48 ≤ c → u16_signed c cs ≡ u16_digits 0 (c ∷ cs)
unfolding u16_signed
u16_signed-digits c [] h = ground arith
u16_signed-digits c (d ∷ cs) h = ground arith

parse_u16-digits :
    (s : Text) (c : ℕ) (cs : Text) → s ≡ c ∷ cs → 48 ≤ c → parse_u16 s ≡ u16_digits 0 s
unfolding parse_u16
parse_u16-digits s c cs e h = rw e (u16_signed-digits c cs h)

-- A printed port is read back.
pub parse_u16-to_decimal : (n : ℕ) → n < 65536 → parse_u16 (to_decimal n) ≡ ok n
unfolding to_decimal u16_digits
parse_u16-to_decimal n h =
    let (c, cs, e, digit) = dec_digits-cons n n [] (omega arith) in
    parse_u16-digits _ c cs e digit ∙ u16_digits-dec_digits n n [] (omega arith) h

u16_digits-lt : (s : Text) (acc n : ℕ) → acc < 65536 → u16_digits acc s ≡ ok n → n < 65536
unfolding u16_digits
u16_digits-lt [] acc n k h = ground arith
u16_digits-lt (c ∷ cs) acc n k h = ground (arith, u16_digits-lt cs (acc * 10 + (c - 48)) n)

-- A port that is read fits 16 bits.
pub parse_u16-lt : (s : Text) (n : ℕ) → parse_u16 s ≡ ok n → n < 65536
unfolding parse_u16 u16_signed
parse_u16-lt [] n h = ground arith
parse_u16-lt (c ∷ []) n h = ground arith
parse_u16-lt (c ∷ d ∷ cs) n h =
    ground (arith, u16_digits-lt (d ∷ cs) 0 n, u16_digits-lt (c ∷ d ∷ cs) 0 n)
