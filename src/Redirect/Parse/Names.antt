-- ===== src/Redirect/Parse/Names.antt =====
-- The output of `netsh` and of `networksetup`: the parsers on everything that is printed in their
-- format.
use voindns_desktop.Base.{
  ℕ, Bool-cases, inl, inr, zero, suc, ◌≡◌, refl, ◌∙◌, ap, ◌≢◌, Bool, true, false, not, List, [],
  ◌∷◌, ◌++◌, map, drop, All, replicate, if◌then◌else◌, Text, codes, ◌==◌,
}
use voindns_desktop.Std.Str.{
  join, lines, split_whitespace, trim, trim_start_by, is_empty, is_whitespace, eq_ignore_ascii_case,
  contains,
}
use voindns_desktop.Std.Str.Split.{
  IsLine, IsWord, unlines, lines-unlines, split_whitespace-join, split_whitespace-word,
}
use voindns_desktop.Redirect.Parse.{
  netsh_line, netsh_loop, parse_netsh_interfaces, filter_by, parse_network_services, is_ip,
  parse_dns_servers,
}

-- A row of the table of `netsh`: three columns with spaces behind them, and the words of the name.
pub record Row : Type 0 where
  pub admin : Text
  pub state : Text
  pub kind : Text
  pub name : List Text
  pub pad1 : ℕ
  pub pad2 : ℕ
  pub pad3 : ℕ

abbrev pub space : ℕ
space = 32

-- A column, a space, and more spaces.
abbrev pub column : Text → ℕ → Text → Text
column w pad rest = w ++ space ∷ (replicate pad space ++ rest)

abbrev pub row_line : Row → Text
row_line row =
    column row.admin row.pad1
      (column row.state row.pad2 (column row.kind row.pad3 (join (space ∷ []) row.name)))

abbrev pub IsRow : Row → Type 0
IsRow row =
    IsWord row.admin
    × IsWord row.state
    × IsWord row.kind
    × All IsWord row.name
    × (row.name ≢ [])
    × IsLine (row_line row)

-- The names of the rows whose state is "Connected" in any case of the letters.
unfoldable pub connected_names : List Row → List Text
connected_names [] = []
connected_names (row ∷ rows) =
    if eq_ignore_ascii_case row.state (codes "connected")
    then join (space ∷ []) row.name ∷ connected_names rows
    else connected_names rows

is_space : is_whitespace space ≡ true
is_space = unfold is_whitespace in refl

row_words :
    (row : Row)
    → IsRow row
    → split_whitespace (row_line row) ≡ row.admin ∷ row.state ∷ row.kind ∷ row.name
row_words row (ha, hs, hk, hn, full, line) =
    split_whitespace-word row.admin space row.pad1 _ is_space ha
    ∙ ap (λ l. row.admin ∷ l) (split_whitespace-word row.state space row.pad2 _ is_space hs)
    ∙ ap (λ l. row.admin ∷ row.state ∷ l)
        (split_whitespace-word row.kind space row.pad3 _ is_space hk)
    ∙ ap (λ l. row.admin ∷ row.state ∷ row.kind ∷ l)
        (split_whitespace-join row.name space is_space hn)

rows_are_lines : (rows : List Row) → All IsRow rows → All IsLine (map row_line rows)
rows_are_lines [] h = tt
rows_are_lines (row ∷ rows) ((_, _, _, _, _, line), h) = (line, rows_are_lines rows h)

netsh_row :
    (row : Row) (name : List Text) (rest : List Text)
    → name ≢ []
    → netsh_line (row.admin ∷ row.state ∷ row.kind ∷ name) rest ≡ (
        if eq_ignore_ascii_case row.state (codes "connected")
        then join (space ∷ []) name ∷ rest
        else rest)
unfolding netsh_line
netsh_row row [] rest h = absurd (h refl)
netsh_row row (n ∷ name) rest h = unfold codes in refl

netsh_loop-rows :
    (rows : List Row) → All IsRow rows → netsh_loop (map row_line rows) ≡ connected_names rows
unfolding netsh_loop connected_names
netsh_loop-rows [] h = refl
netsh_loop-rows (row ∷ rows) (hr, h) =
    rw (row_words row hr, netsh_loop-rows rows h)
      (netsh_row row row.name (connected_names rows) hr.4)

-- On a printed table of interfaces the result is the names of the connected ones, in order.
pub parse_netsh_interfaces-unlines :
    (rows : List Row)
    → All IsRow rows
    → parse_netsh_interfaces (unlines (map row_line rows)) ≡ connected_names rows
unfolding parse_netsh_interfaces
parse_netsh_interfaces-unlines rows h =
    ap netsh_loop (lines-unlines (map row_line rows) (rows_are_lines rows h))
    ∙ netsh_loop-rows rows h

-- A line of `networksetup -listallnetworkservices`: stars mark a disabled service.
pub record Service : Type 0 where
  pub stars : ℕ
  pub name : Text

abbrev pub service_line : Service → Text
service_line s = replicate s.stars b'*' ++ s.name

-- The name is not empty, does not begin with a star, and has no white space at its ends.
abbrev pub IsService : Service → Type 0
IsService s =
    (is_empty s.name ≡ false)
    × (trim_start_by (λ c. c == b'*') s.name ≡ s.name)
    × (trim s.name ≡ s.name)
    × IsLine (service_line s)

trim_stars :
    (k : ℕ) (name : Text)
    → trim_start_by (λ c. c == b'*') (replicate k b'*' ++ name)
      ≡ trim_start_by (λ c. c == b'*') name
unfolding trim_start_by
trim_stars zero name = refl
trim_stars (suc k) name = trim_stars k name

services_kept :
    (services : List Service)
    → All IsService services
    → filter_by
        (λ l. not (is_empty l))
        (map (λ l. trim (trim_start_by (λ c. c == b'*') l)) (map service_line services))
      ≡ map (λ s. s.name) services
unfolding filter_by
services_kept [] h = refl
services_kept (s ∷ services) ((full, plain, trimmed, line), h) =
    rw (trim_stars s.stars s.name, plain, trimmed, services_kept services h, full)

services_are_lines :
    (services : List Service) → All IsService services → All IsLine (map service_line services)
services_are_lines [] h = tt
services_are_lines (s ∷ services) ((_, _, _, line), h) = (line, services_are_lines services h)

-- Behind the header line, the result is the names of the services, disabled ones included.
pub parse_network_services-unlines :
    (header : Text) (services : List Service)
    → IsLine header
    → All IsService services
    → parse_network_services (unlines (header ∷ map service_line services))
      ≡ map (λ s. s.name) services
unfolding parse_network_services
parse_network_services-unlines header services hl hs =
    ap
      (λ ls.
        filter_by (λ l. not (is_empty l))
          (map (λ l. trim (trim_start_by (λ c. c == b'*') l)) (drop 1 ls)))
      (lines-unlines (header ∷ map service_line services) (hl, services_are_lines services hs))
    ∙ services_kept services hs

filter_by_holds :
    (keep : Text → Bool) (ls : List Text) → All (λ l. keep l ≡ true) (filter_by keep ls)
unfolding filter_by
filter_by_holds keep [] = tt
filter_by_holds keep (l ∷ ls) = elim (Bool-cases (keep l)) [
  | inl yes' ↦ rw (yes', filter_by) (yes', filter_by_holds keep ls)
  | inr no' ↦ rw (no', filter_by) (filter_by_holds keep ls)
]

filter_by-All : (ls : List Text) → All (λ l. is_ip l ≡ true) ls → filter_by is_ip ls ≡ ls
unfolding filter_by
filter_by-All [] h = refl
filter_by-All (l ∷ ls) (hl, h) = rw (hl, filter_by-All ls h)

map-trim-All : (ls : List Text) → All (λ l. trim l ≡ l) ls → map trim ls ≡ ls
map-trim-All [] h = refl
map-trim-All (l ∷ ls) (hl, h) = rw (hl, map-trim-All ls h)

-- Whatever the command printed, each server that is returned is an IP address.
pub parse_dns_servers-is_ip : (stdout : Text) → All (λ l. is_ip l ≡ true) (parse_dns_servers stdout)
unfolding parse_dns_servers
parse_dns_servers-is_ip stdout =
    elim (Bool-cases (contains stdout (codes "aren't any DNS Servers"))) [
      | inl unset ↦ rw unset tt
      | inr set' ↦ rw set' (filter_by_holds is_ip (map trim (lines stdout)))
    ]

-- Addresses that are printed one to a line are all returned, in order.
pub parse_dns_servers-unlines :
    (servers : List Text)
    → All IsLine servers
    → All (λ l. trim l ≡ l) servers
    → All (λ l. is_ip l ≡ true) servers
    → contains (unlines servers) (codes "aren't any DNS Servers") ≡ false
    → parse_dns_servers (unlines servers) ≡ servers
unfolding parse_dns_servers
parse_dns_servers-unlines servers hl ht hi h = rw h (
    ap (λ ls. filter_by is_ip (map trim ls)) (lines-unlines servers hl)
    ∙ ap (filter_by is_ip) (map-trim-All servers ht)
    ∙ filter_by-All servers hi)
