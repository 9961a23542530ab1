-- ===== src/Redirect/Linux/Reverted/Examples.antt =====
-- The theorems on the systemd-resolved path at concrete machines.
use voindns_desktop.Base.{◌≡◌, refl, ap, ok, codes}
use voindns_desktop.Std.Net.{localhost}
use voindns_desktop.Redirect.Linux.{Linux, apply, restore}
use voindns_desktop.Redirect.Linux.Resolved.{servers, link}
use voindns_desktop.Redirect.Linux.Reverted.{RoundTrip, resolved_restore-apply, half_done_stays}
use voindns_desktop.Redirect.Linux.Reverted.Fixtures.{
  obeying_bus, obeying_bus-Laws, obeys, busy_error, busy_sets, busy_refuses, managed_disk-apply,
  busy_bus, busy_bus-Laws, stock_links, machine_on, machine_on-resolved, machine_on-iface,
}

resolved_restore-apply_example :
    RoundTrip obeying_bus obeying_bus-Laws localhost
      (machine_on obeying_bus stock_links)
      2
      (apply obeying_bus localhost (machine_on obeying_bus stock_links))
resolved_restore-apply_example =
    resolved_restore-apply obeying_bus obeying_bus-Laws localhost
      (machine_on obeying_bus stock_links) 2 (machine_on-resolved obeying_bus stock_links)
      (codes "wlan0", machine_on-iface obeying_bus stock_links, refl) (obeys _ stock_links)
      (obeys _ _) (obeys _ _)

abbrev busy : Linux busy_bus
busy = machine_on busy_bus stock_links

half_done_stays_example :
    ((apply busy_bus localhost busy).0 ≡ ok tt)
    × ((link busy_bus busy_bus-Laws (apply busy_bus localhost busy).1 2).dns ≡ servers localhost)
    × ((link busy_bus busy_bus-Laws (restore busy_bus (apply busy_bus localhost busy).1).1 2).dns
        ≡ servers localhost)
half_done_stays_example =
    half_done_stays busy_bus busy_bus-Laws localhost busy 2 busy_error
      (machine_on-resolved busy_bus stock_links)
      (codes "wlan0", machine_on-iface busy_bus stock_links, refl) (busy_sets stock_links)
      (busy_refuses _) (ap (λ t. t.0) managed_disk-apply)
