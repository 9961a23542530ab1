-- ===== src/Redirect/Parse/Fixtures.antt =====
-- Rows of a route table.
use voindns_desktop.Base.{refl, [], ◌∷◌, Text, codes}
use voindns_desktop.Std.Str.{join}
use voindns_desktop.Std.Str.Check.{is_line, is_word, is_line-IsLine, is_word-IsWord}
use voindns_desktop.Redirect.Parse.Routes as Routes

abbrev pub lo : Routes.Row
lo = record { iface = codes "lo"; dest = codes "0000007F"; cols = codes "00000000" ∷ []; pad = 107 }

abbrev pub wlan0 : Routes.Row
wlan0 = record {
  iface = codes "wlan0";
  dest = codes "00000000";
  cols = codes "0102A8C0" ∷ [];
  pad = 104;
}

abbrev pub table_header : Text
table_header = codes "Iface\tDestination\tGateway"

pub lo-IsRow : Routes.IsRow lo
unfolding is_line is_word codes join
lo-IsRow = (
  (
    is_word-IsWord lo.iface refl,
    (is_word-IsWord lo.dest refl, (is_word-IsWord (codes "00000000") refl, tt)),
  ),
  is_line-IsLine (Routes.row_line lo) refl,
)

pub wlan0-IsRow : Routes.IsRow wlan0
unfolding is_line is_word codes join
wlan0-IsRow = (
  (
    is_word-IsWord wlan0.iface refl,
    (is_word-IsWord wlan0.dest refl, (is_word-IsWord (codes "0102A8C0") refl, tt)),
  ),
  is_line-IsLine (Routes.row_line wlan0) refl,
)
