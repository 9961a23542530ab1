-- ===== src/Redirect/Macos/Examples.antt =====
-- The macOS redirector on machines with one network service.
use voindns_desktop.Base.{◌≡◌, refl, false, none, ok, err, anyhow, codes}
use voindns_desktop.Std.Net.{localhost}
use voindns_desktop.Redirect.Macos.{MacosApi, Macos, nothing, apply, restore}
use voindns_desktop.Redirect.Macos.Outcomes.{macos_apply-err}
use voindns_desktop.Redirect.Macos.Fixtures.{machine_that}

abbrev sandboxed : MacosApi
sandboxed = machine_that false

abbrev offline : Macos sandboxed
offline = record { applied = nothing; machine = λ p. none }

offline_fails : (apply sandboxed localhost offline).0 ≡ err (anyhow (codes "not found"))
unfolding apply
offline_fails = refl

macos_apply-err_example :
    restore sandboxed (apply sandboxed localhost offline).1
    ≡ (ok tt, (apply sandboxed localhost offline).1)
macos_apply-err_example =
    macos_apply-err sandboxed localhost offline (anyhow (codes "not found")) offline_fails refl
