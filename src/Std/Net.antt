-- ===== src/Std/Net.antt =====
-- `std::net`: addresses and their `Display`.
use voindns_desktop.Base.{
  ℕ, ◌+◌, ◌/◌, ◌%◌, ◌&&◌, List, [], ◌∷◌, ◌++◌, ltb, ◌==◌, if◌then◌else◌, take, drop, Text, codes,
}
use voindns_desktop.Std.Decimal.{to_decimal}

-- The octets of an IPv4 address; the eight 16-bit segments of an IPv6 address.
pub data IpAddr : Type 0 where
  v4 : ℕ → ℕ → ℕ → ℕ → IpAddr
  v6 : ℕ → ℕ → ℕ → ℕ → ℕ → ℕ → ℕ → ℕ → IpAddr

pub record SocketAddr : Type 0 where
  pub ip : IpAddr
  pub port : ℕ

-- `Ipv4Addr::LOCALHOST`
abbrev pub localhost : IpAddr
localhost = v4 127 0 0 1

abbrev dot : ℕ
dot = 46

abbrev colon : ℕ
colon = 58

display_v4 : ℕ → ℕ → ℕ → ℕ → Text
display_v4 a b c d =
    to_decimal a ++ dot ∷ (to_decimal b ++ dot ∷ (to_decimal c ++ dot ∷ to_decimal d))

hex_digit : ℕ → ℕ
hex_digit d = if ltb d 10 then 48 + d else 87 + d

-- `{:x}` of a 16-bit number: no leading zeros.
hex16 : ℕ → Text
unfolding hex_digit
hex16 n =
    let d0 = hex_digit (n % 16) ∷ [] in
    let d1 = hex_digit (n / 16 % 16) ∷ d0 in
    let d2 = hex_digit (n / 256 % 16) ∷ d1 in
    if ltb n 16
    then d0
    else if ltb n 256
    then d1
    else if ltb n 4096
    then d2
    else hex_digit (n / 4096) ∷ d2

hex_list : List ℕ → Text
unfolding hex16
hex_list [] = []
hex_list (s ∷ []) = hex16 s
hex_list (s ∷ t ∷ rest) = hex16 s ++ colon ∷ hex_list (t ∷ rest)

pub record Span : Type 0 where
  pub start : ℕ
  pub len : ℕ

-- The first longest run of zero segments, from segment `i` on.
zero_span : List ℕ → ℕ → Span → Span → Span
zero_span [] i current longest = longest
zero_span (s ∷ rest) i current longest =
    let run : Span =
      if s == 0
      then record { start = if current.len == 0 then i else current.start; len = current.len + 1 }
      else record { start = 0; len = 0 } in
    zero_span rest (i + 1) run (if ltb longest.len run.len then run else longest)

abbrev no_span : Span
no_span = record { start = 0; len = 0 }

display_segments : List ℕ → Text
unfolding zero_span hex_list
display_segments segments =
    let zeroes = zero_span segments 0 no_span no_span in
    if ltb 1 zeroes.len
    then hex_list (take zeroes.start segments)
      ++ (colon ∷ colon ∷ hex_list (drop (zeroes.start + zeroes.len) segments))
    else hex_list segments

-- `Display` of an address. An IPv4-mapped address ends in dotted form.
unfoldable pub display_ip : IpAddr → Text
unfolding display_v4 display_segments to_decimal codes
display_ip (v4 a b c d) = display_v4 a b c d
display_ip (v6 s0 s1 s2 s3 s4 s5 s6 s7) =
    if s0 == 0 && s1 == 0 && s2 == 0 && s3 == 0 && s4 == 0 && s5 == 65535
    then codes "::ffff:" ++ display_v4 (s6 / 256) (s6 % 256) (s7 / 256) (s7 % 256)
    else display_segments (s0 ∷ s1 ∷ s2 ∷ s3 ∷ s4 ∷ s5 ∷ s6 ∷ s7 ∷ [])

abbrev bracketed : IpAddr → Text → Text
bracketed (v4 a b c d) t = t
bracketed (v6 s0 s1 s2 s3 s4 s5 s6 s7) t = 91 ∷ (t ++ 93 ∷ [])

unfoldable pub display_addr : SocketAddr → Text
unfolding display_ip
display_addr a = bracketed a.ip (display_ip a.ip) ++ colon ∷ to_decimal a.port

-- `octets()`
unfoldable pub octets : IpAddr → List ℕ
octets (v4 a b c d) = a ∷ b ∷ c ∷ d ∷ []
octets (v6 s0 s1 s2 s3 s4 s5 s6 s7) =
    s0 / 256
    ∷ s0 % 256
    ∷ s1 / 256
    ∷ s1 % 256
    ∷ s2 / 256
    ∷ s2 % 256
    ∷ s3 / 256
    ∷ s3 % 256
    ∷ s4 / 256
    ∷ s4 % 256
    ∷ s5 / 256
    ∷ s5 % 256
    ∷ s6 / 256
    ∷ s6 % 256
    ∷ s7 / 256
    ∷ s7 % 256
    ∷ []
