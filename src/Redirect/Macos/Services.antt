-- ===== src/Redirect/Macos/Services.antt =====
-- The networksetup path of the macOS redirector, there and back.
mod Examples
use voindns_desktop.Base.{
  ◌≡◌, sym, true, false, Bool, ◌||◌, List, map, Result-cases, Result, anyhow, Text, text_eq,
  text_eq_iff, arith,
}
use voindns_desktop.Base.Io.{ignore}
use voindns_desktop.Redirect.Parse.Names.{service_line}
use voindns_desktop.Redirect.Macos.{Macos, nothing}
use voindns_desktop.Redirect.Macos.Shell.{printable, Distinct}

-- a service beside servers that can be printed
abbrev WithServers : Text × List Text → Type 0
WithServers (svc, servers) = printable servers ≡ true
