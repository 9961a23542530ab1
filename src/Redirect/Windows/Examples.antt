-- ===== src/Redirect/Windows/Examples.antt =====
-- The Windows redirector on machines with one adapter.
use voindns_desktop.Base.{
  ◌≡◌, ◌<◌, All, inl, inr, arith, refl, none, [], ◌∷◌, ◌++◌, ok, err, anyhow, Text, codes,
  if◌then◌else◌, elem,
}
use voindns_desktop.Std.Net.{localhost, display_ip}
use voindns_desktop.Std.Str.{lines, split_whitespace, join, eq_ignore_ascii_case}
use voindns_desktop.Redirect.Parse.{parse_netsh_interfaces}
use voindns_desktop.Redirect.Windows.{
  WindowsApi, Windows, nothing, apply, restore, connected_interfaces, set_natives,
}
use voindns_desktop.Redirect.Windows.Api.{static}
use voindns_desktop.Redirect.Windows.Adapters.{windows_restore-apply}
use voindns_desktop.Redirect.Windows.Outcomes.{windows_apply-err}
use voindns_desktop.Redirect.Windows.Fixtures.{
  machine_with, one_adapter, one_adapter-Laws, start, all_clear,
}
use voindns_desktop.Redirect.Windows.Wide.{wide, read_units, read_units-wide}

start_interfaces : (connected_interfaces one_adapter start.machine).0 ≡ ok (codes "Ethernet" ∷ [])
unfolding connected_interfaces parse_netsh_interfaces eq_ignore_ascii_case codes lines
    split_whitespace join
start_interfaces = refl

start_natives :
    (set_natives one_adapter
      (display_ip localhost)
      (codes "Ethernet" ∷ [])
      (connected_interfaces one_adapter start.machine).1).0
    ≡ codes "Ethernet" ∷ []
unfolding set_natives
start_natives = refl

windows_restore-apply_example :
    ((apply one_adapter localhost start).0 ≡ ok tt)
    × ((b : Text)
        → (apply one_adapter localhost start).1.machine b
          ≡ (if elem b (codes "Ethernet" ∷ []) then static (display_ip localhost) else none))
    × ((b : Text)
        → (restore one_adapter (apply one_adapter localhost start).1).1.machine b
          ≡ (if elem b (codes "Ethernet" ∷ []) then none else none))
windows_restore-apply_example =
    windows_restore-apply one_adapter one_adapter-Laws localhost start (codes "Ethernet" ∷ [])
      (codes "Ethernet") [] start_interfaces start_natives
      (all_clear (codes "Ethernet" ∷ []) (apply one_adapter localhost start).1.machine)

-- no adapter is connected
abbrev no_adapter : WindowsApi
no_adapter = machine_with []

abbrev offline : Windows no_adapter
offline = record { applied = nothing; machine = λ b. none }

offline_fails :
    (apply no_adapter localhost offline).0
    ≡ err (anyhow (codes "no connected network interfaces found"))
unfolding apply connected_interfaces parse_netsh_interfaces lines
offline_fails = refl

windows_apply-err_example :
    restore no_adapter (apply no_adapter localhost offline).1
    ≡ (ok tt, (apply no_adapter localhost offline).1)
windows_apply-err_example =
    windows_apply-err no_adapter localhost offline
      (anyhow (codes "no connected network interfaces found")) offline_fails refl

-- one unit, and a pair of surrogates
abbrev smiling : Text
smiling = 65 ∷ 128512 ∷ []

read_units-wide_example :
    (read_units none (wide smiling ++ 66 ∷ 67 ∷ []) ≡ smiling) × All (λ u. u < 65536) (wide smiling)
read_units-wide_example =
    read_units-wide smiling (66 ∷ 67 ∷ [])
      ((omega arith, inl (omega arith)), ((omega arith, inr (omega arith, omega arith)), tt))
