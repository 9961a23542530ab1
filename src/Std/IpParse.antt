-- ===== src/Std/IpParse.antt =====
-- `str::parse::<IpAddr>`: the recursive descent of `core::net::parser`. A parser gives its value and
-- the rest of the text.
use voindns_desktop.Base.{
  ℕ, zero, suc, ◌+◌, ◌-◌, ◌*◌, Option, none, some, Bool, true, false, ◌&&◌, List, [], ◌∷◌, ◌++◌,
  ltb, leb, ◌==◌, if◌then◌else◌, length, replicate, Text,
}
use voindns_desktop.Std.Net.{IpAddr, v4, v6}

abbrev Parser : Type 0 → Type 0
Parser A = Text → Option (A × Text)

infixl 5 ◌>>=◌ ◌>>◌
abbrev ◌>>=◌ : {A B : Type 0} → Parser A → (A → Parser B) → Parser B
◌>>=◌ p f s = elim (p s) [ none ↦ none | some (a, rest) ↦ f a rest ]

abbrev ◌>>◌ : {A B : Type 0} → Parser A → Parser B → Parser B
p >> q = p >>= λ _. q

abbrev pure : {A : Type 0} → A → Parser A
pure a s = some (a, s)

read_given_char : ℕ → Parser (Unit {0})
read_given_char c [] = none
read_given_char c (d ∷ s) = if c == d then some (tt, s) else none

-- `char::to_digit`
to_digit : ℕ → ℕ → Option ℕ
to_digit radix c =
    let digit =
      if leb 48 c && leb c 57
      then c - 48
      else if leb 97 c && leb c 122
      then c - 87
      else if leb 65 c && leb c 90
      then c - 55
      else 99 in
    if ltb digit radix then some digit else none

-- The value and the number of the digits; no more than `room` digits may stand there.
read_digits : ℕ → ℕ → ℕ → ℕ → Parser (ℕ × ℕ)
read_digits radix room n count [] = some ((n, count), [])
read_digits radix zero n count (c ∷ s) = elim (to_digit radix c) [
  | none ↦ some ((n, count), c ∷ s)
  | some d ↦ none
]
read_digits radix (suc room) n count (c ∷ s) = elim (to_digit radix c) [
  | none ↦ some ((n, count), c ∷ s)
  | some d ↦ read_digits radix room (n * radix + d) (count + 1) s
]

starts_with_zero : Text → Bool
starts_with_zero [] = false
starts_with_zero (c ∷ s) = c == 48

-- `read_number(radix, Some(max_digits), allow_zero_prefix)` of a type whose values are below `bound`
read_number : ℕ → ℕ → Bool → ℕ → Parser ℕ
unfolding read_digits starts_with_zero to_digit
read_number radix max_digits allow_zero_prefix bound s = elim (read_digits radix max_digits 0 0 s) [
  | none ↦ none
  | some ((n, count), rest) ↦
      if leb bound n
      then none
      else if count == 0
      then none
      else if starts_with_zero s && ltb 1 count
      then (if allow_zero_prefix then some (n, rest) else none)
      else some (n, rest)
]

read_octet : Parser ℕ
unfolding read_number
read_octet = read_number 10 3 false 256

pub record V4 : Type 0 where
  pub a : ℕ
  pub b : ℕ
  pub c : ℕ
  pub d : ℕ

read_ipv4_addr : Parser V4
unfolding read_octet read_given_char
read_ipv4_addr = do
  a ← read_octet
  read_given_char 46
  b ← read_octet
  read_given_char 46
  c ← read_octet
  read_given_char 46
  d ← read_octet
  pure (record { a = a; b = b; c = c; d = d })

-- `read_separator(':', index, inner)`
read_separator : {A : Type 0} → ℕ → Parser A → Parser A
unfolding read_given_char
read_separator zero inner = inner
read_separator (suc i) inner = do read_given_char 58; inner

-- `read_groups`: the groups, whether an IPv4 address ended them, and the rest. `slots` is
-- `limit - i`.
read_groups : ℕ → ℕ → List ℕ → Text → List ℕ × Bool × Text
unfolding read_number read_separator read_ipv4_addr
read_groups zero i groups s = (groups, false, s)
read_groups (suc slots) i groups s =
    let group : List ℕ × Bool × Text = elim (read_separator i (read_number 16 4 true 65536) s) [
      | none ↦ (groups, false, s)
      | some (g, rest) ↦ read_groups slots (i + 1) (groups ++ g ∷ []) rest
    ] in
    if ltb 0 slots
    then (elim (read_separator i read_ipv4_addr s) [
      | none ↦ group
      | some (q, rest) ↦ (groups ++ (q.a * 256 + q.b) ∷ (q.c * 256 + q.d) ∷ [], true, rest)
    ])
    else group

-- Eight groups, read from both ends of the address.
from_groups : List ℕ → Option IpAddr
from_groups (s0 ∷ s1 ∷ s2 ∷ s3 ∷ s4 ∷ s5 ∷ s6 ∷ s7 ∷ []) = some (v6 s0 s1 s2 s3 s4 s5 s6 s7)
from_groups _ = none

-- The back part, behind `::`. It may hold what the front left of seven groups.
read_tail : List ℕ → Parser IpAddr
unfolding from_groups read_groups
read_tail head s =
    let (tail, _, rest) = read_groups (8 - (length head + 1)) 0 [] s in
    elim (from_groups (head ++ replicate (8 - length head - length tail) 0 ++ tail)) [
      | none ↦ none
      | some ip ↦ some (ip, rest)
    ]

read_ipv6_addr : Parser IpAddr
unfolding read_tail
read_ipv6_addr s =
    let (head, dotted, rest) = read_groups 8 0 [] s in
    if length head == 8
    then (elim (from_groups head) [ none ↦ none | some ip ↦ some (ip, rest) ])
    else if dotted
    then none
    else (do read_given_char 58; read_given_char 58; read_tail head) rest

read_ip_addr : Parser IpAddr
unfolding read_ipv4_addr read_ipv6_addr
read_ip_addr s = elim (read_ipv4_addr s) [
  | some (q, rest) ↦ some (v4 q.a q.b q.c q.d, rest)
  | none ↦ read_ipv6_addr s
]

whole : Option (IpAddr × Text) → Option IpAddr
whole none = none
whole (some (ip, [])) = some ip
whole (some (ip, c ∷ rest)) = none

-- `s.parse::<IpAddr>().ok()`
unfoldable pub parse_ip : Text → Option IpAddr
unfolding read_ip_addr whole
parse_ip s = whole (read_ip_addr s)
