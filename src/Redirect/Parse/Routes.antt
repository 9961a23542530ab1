-- ===== src/Redirect/Parse/Routes.antt =====
-- `/proc/net/route`: the parser on tables of rows as the kernel prints them, columns with a tab
-- between them and blanks up to a fixed width.
use voindns_desktop.Base.{
  ℕ, ◌≡◌, refl, ◌∙◌, ap, Option, none, some, true, List, [], ◌∷◌, ◌++◌, replicate, map, drop, All,
  if◌then◌else◌, Text, codes, text_eq,
}
use voindns_desktop.Std.Str.{join, is_whitespace}
use voindns_desktop.Std.Str.Split.{IsLine, IsWord, unlines, lines-unlines, split_whitespace-padded}
use voindns_desktop.Redirect.Parse.{route_loop, parse_default_route_iface}

-- A row: the interface, the destination, the other columns, and the number of blanks behind them.
pub record Row : Type 0 where
  pub iface : Text
  pub dest : Text
  pub cols : List Text
  pub pad : ℕ

abbrev pub columns : Row → List Text
columns row = row.iface ∷ row.dest ∷ row.cols

abbrev pub tab : ℕ
tab = 9

abbrev pub blank : ℕ
blank = 32

-- The row as a line: its columns with a tab between them, and the blanks.
abbrev pub row_line : Row → Text
row_line row = join (tab ∷ []) (columns row) ++ replicate row.pad blank

abbrev pub IsRow : Row → Type 0
IsRow row = All IsWord (columns row) × IsLine (row_line row)

-- The interface of the first row with destination 0.0.0.0.
unfoldable pub first_default : List Row → Option Text
first_default [] = none
first_default (row ∷ rows) =
    if text_eq row.dest (codes "00000000") then some row.iface else first_default rows

route_loop-rows :
    (rows : List Row) → All IsRow rows → route_loop (map row_line rows) ≡ first_default rows
unfolding route_loop first_default
route_loop-rows [] h = refl
route_loop-rows (row ∷ rows) ((words, line), h) = rw (
  split_whitespace-padded (columns row) tab row.pad blank tab_space blank_space words,
  route_loop-rows rows h,
)
  where
    tab_space : is_whitespace tab ≡ true
    tab_space = unfold is_whitespace in refl

    blank_space : is_whitespace blank ≡ true
    blank_space = unfold is_whitespace in refl

rows_are_lines : (rows : List Row) → All IsRow rows → All IsLine (map row_line rows)
rows_are_lines [] h = tt
rows_are_lines (row ∷ rows) ((words, line), h) = (line, rows_are_lines rows h)

-- On a printed route table, whatever its header line, of rows of columns with tabs between them and
-- any number of blanks behind them, the result is the interface of the first row whose destination
-- is zero, and none if no row has it.
pub parse_default_route_iface-unlines :
    (header : Text) (rows : List Row)
    → IsLine header
    → All IsRow rows
    → parse_default_route_iface (unlines (header ∷ map row_line rows)) ≡ first_default rows
unfolding parse_default_route_iface
parse_default_route_iface-unlines header rows hl hr =
    ap (λ ls. route_loop (drop 1 ls))
      (lines-unlines (header ∷ map row_line rows) (hl, rows_are_lines rows hr))
    ∙ route_loop-rows rows hr
