-- ===== src/Redirect/Select/Examples.antt =====
-- The redirector of each platform, before any connect.
use voindns_desktop.Base.{◌≡◌, refl, none, []}
use voindns_desktop.Controller.{new, disconnect}
use voindns_desktop.Controller.Fixtures.{one_port}
use voindns_desktop.Redirect.Linux.Fixtures.{logging_bus, fresh_disk}
use voindns_desktop.Redirect.Windows as Windows
use voindns_desktop.Redirect.Windows.{windows_redirector}
use voindns_desktop.Redirect.Windows.Fixtures as Win
use voindns_desktop.Redirect.Windows.Fixtures.{one_adapter}
use voindns_desktop.Redirect.Macos.Fixtures as Mac
use voindns_desktop.Redirect.Macos.Fixtures.{one_service}
use voindns_desktop.Redirect.Select.{windows, Host, Boxed, new_redirector}
use voindns_desktop.Redirect.Select.Fresh.{disconnect-new_redirector}

abbrev host : Host
host = record {
  bus_api = logging_bus;
  disk = fresh_disk;
  bus = [];
  windows_api = one_adapter;
  windows_machine = Win.start.machine;
  macos_api = one_service;
  macos_machine = Mac.start.machine;
}

abbrev boxed : Boxed
boxed = record {
  redirector = windows_redirector one_adapter;
  os = Windows.new one_adapter Win.start.machine;
}

disconnect-new_redirector_example :
    let r =
      (disconnect boxed.redirector one_port (new boxed.redirector one_port 53 boxed.os none)).1 in
    (r.redirector ≡ (boxed.redirector.flush_cache boxed.os).1) × (r.net ≡ none)
unfolding new_redirector
disconnect-new_redirector_example =
    disconnect-new_redirector windows host boxed one_port 53 none refl
