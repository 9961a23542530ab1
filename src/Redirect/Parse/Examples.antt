-- ===== src/Redirect/Parse/Examples.antt =====
-- The parsers on printed tables.
use voindns_desktop.Base.{◌≡◌, refl, [], ◌∷◌, map, codes}
use voindns_desktop.Std.Str.Split.{unlines}
use voindns_desktop.Std.Str.Check.{is_line, is_line-IsLine}
use voindns_desktop.Redirect.Parse.{parse_default_route_iface}
use voindns_desktop.Redirect.Parse.Routes as Routes
use voindns_desktop.Redirect.Parse.Routes.{first_default, parse_default_route_iface-unlines}
use voindns_desktop.Redirect.Parse.Fixtures.{lo, wlan0, table_header, lo-IsRow, wlan0-IsRow}

parse_default_route_iface-unlines_example :
    parse_default_route_iface (unlines (table_header ∷ map Routes.row_line (lo ∷ wlan0 ∷ [])))
    ≡ first_default (lo ∷ wlan0 ∷ [])
unfolding is_line codes
parse_default_route_iface-unlines_example =
    parse_default_route_iface-unlines table_header (lo ∷ wlan0 ∷ [])
      (is_line-IsLine table_header refl) (lo-IsRow, (wlan0-IsRow, tt))
