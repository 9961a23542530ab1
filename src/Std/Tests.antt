-- ===== src/Std/Tests.antt =====
-- Runs of the library functions on concrete texts.
use voindns_desktop.Base.{◌≡◌, refl, codes, ok, err, some, none, [], ◌∷◌}
use voindns_desktop.Std.Decimal.{parse_u16, pos_overflow, invalid_digit, empty}
use voindns_desktop.Std.IpParse.{parse_ip}
use voindns_desktop.Std.Str.{lines, split_whitespace, trim}
use voindns_desktop.Std.Net.{v4, v6, localhost, display_ip, display_addr}

display_listen : display_addr (record { ip = localhost; port = 53 }) ≡ codes "127.0.0.1:53"
unfolding display_addr codes
display_listen = refl

display_v6_unspecified : display_ip (v6 0 0 0 0 0 0 0 1) ≡ codes "::1"
unfolding display_ip
display_v6_unspecified = refl

display_v6_runs : display_ip (v6 0x2001 0xdb8 0 0 1 0 0 0x10) ≡ codes "2001:db8::1:0:0:10"
unfolding display_ip
display_v6_runs = refl

parse_u16_runs :
    (parse_u16 (codes "8443") ≡ ok 8443)
    × (parse_u16 (codes "+07") ≡ ok 7)
    × (parse_u16 (codes "65536") ≡ err pos_overflow)
    × (parse_u16 (codes "-1") ≡ err invalid_digit)
    × (parse_u16 (codes "+") ≡ err invalid_digit)
    × (parse_u16 (codes "") ≡ err empty)
unfolding parse_u16 codes
parse_u16_runs = (refl, refl, refl, refl, refl, refl)

parse_ip_runs :
    (parse_ip (codes "192.168.0.1") ≡ some (v4 192 168 0 1))
    × (parse_ip (codes "2001:db8::1:0:0:10") ≡ some (v6 0x2001 0xdb8 0 0 1 0 0 0x10))
    × (parse_ip (codes "::") ≡ some (v6 0 0 0 0 0 0 0 0))
    × (parse_ip (codes "::ffff:1.2.3.4") ≡ some (v6 0 0 0 0 0 65535 258 772))
    × (parse_ip (codes "1:2:3:4:5:6:7:8") ≡ some (v6 1 2 3 4 5 6 7 8))
    × (parse_ip (codes "1:2:3:4:5:6:7::") ≡ some (v6 1 2 3 4 5 6 7 0))
unfolding parse_ip codes
parse_ip_runs = (refl, refl, refl, refl, refl, refl)

parse_ip_refuses :
    (parse_ip (codes "256.0.0.1") ≡ none)
    × (parse_ip (codes "01.0.0.1") ≡ none)
    × (parse_ip (codes "1.2.3.4 ") ≡ none)
    × (parse_ip (codes "1::2::3") ≡ none)
    × (parse_ip (codes "12345::") ≡ none)
    × (parse_ip (codes "") ≡ none)
unfolding parse_ip codes
parse_ip_refuses = (refl, refl, refl, refl, refl, refl)

lines_runs :
    (lines (codes "a\n\nb") ≡ codes "a" ∷ [] ∷ codes "b" ∷ [])
    × (split_whitespace (codes "  a  b ") ≡ codes "a" ∷ codes "b" ∷ [])
    × (trim (codes " a b  ") ≡ codes "a b")
unfolding lines split_whitespace trim codes
lines_runs = (refl, refl, refl)
