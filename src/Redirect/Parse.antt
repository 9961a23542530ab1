-- ===== src/Redirect/Parse.antt =====
-- crates/voidns-core/src/redirect/parse.rs
pub mod Routes
pub mod Names
pub mod Fixtures
mod Examples
use voindns_desktop.Base.{
  Option, none, some, Bool, true, false, not, List, [], ◌∷◌, map, drop, if◌then◌else◌, Text, codes,
  text_eq, ◌==◌,
}
use voindns_desktop.Std.Str.{
  lines, split_whitespace, trim, trim_start_by, is_empty, eq_ignore_ascii_case, contains, join,
}
use voindns_desktop.Std.IpParse.{parse_ip}

-- One line of the table, and what the loop does behind it. A line of less than two columns ends
-- the search.
unfoldable pub route_line : List Text → Option Text → Option Text
route_line [] rest = none
route_line (iface ∷ []) rest = none
route_line (iface ∷ dest ∷ cols) rest = if text_eq dest (codes "00000000") then some iface else rest

unfoldable pub route_loop : List Text → Option Text
unfolding route_line
route_loop [] = none
route_loop (line ∷ rest) = route_line (split_whitespace line) (route_loop rest)

unfoldable pub parse_default_route_iface : Text → Option Text
unfolding route_loop
parse_default_route_iface table = route_loop (drop 1 (lines table))

-- The name that a line of `netsh` gives, in front of those of the lines behind it.
unfoldable pub netsh_line : List Text → List Text → List Text
netsh_line (admin ∷ state ∷ kind ∷ n ∷ name) rest =
    if eq_ignore_ascii_case state (codes "connected")
    then join (codes " ") (n ∷ name) ∷ rest
    else rest
netsh_line _ rest = rest

unfoldable pub netsh_loop : List Text → List Text
unfolding netsh_line
netsh_loop [] = []
netsh_loop (line ∷ rest) = netsh_line (split_whitespace line) (netsh_loop rest)

unfoldable pub parse_netsh_interfaces : Text → List Text
unfolding netsh_loop
parse_netsh_interfaces stdout = netsh_loop (lines stdout)

-- `.filter(|l| keep(l))` of an iterator
unfoldable pub filter_by : (Text → Bool) → List Text → List Text
filter_by keep [] = []
filter_by keep (l ∷ ls) = let rest = filter_by keep ls in if keep l then l ∷ rest else rest

unfoldable pub parse_network_services : Text → List Text
unfolding filter_by
parse_network_services stdout =
    filter_by (λ l. not (is_empty l))
      (map (λ l. trim (trim_start_by (λ c. c == b'*') l)) (drop 1 (lines stdout)))

unfoldable pub is_ip : Text → Bool
is_ip l = elim (parse_ip l) [ none ↦ false | some ip ↦ true ]

unfoldable pub parse_dns_servers : Text → List Text
unfolding filter_by is_ip
parse_dns_servers stdout =
    if contains stdout (codes "aren't any DNS Servers")
    then []
    else filter_by is_ip (map trim (lines stdout))
