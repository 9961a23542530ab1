-- ===== src/Controller/Examples.antt =====
-- The theorems on the controller, from a fresh machine through a connect and a disconnect.
use voindns_desktop.Base.{codes, ◌≡◌, refl, none, true, false, [], ◌∷◌, ◌++◌, All, ok}
use voindns_desktop.Proto.{cloudflare, quad9, status_disconnected}
use voindns_desktop.Redirect.Contract.{Contract}
use voindns_desktop.Redirect.Linux.{linux_redirector, restore, flush_cache, set_link_default_route}
use voindns_desktop.Std.Net.{localhost}
use voindns_desktop.Redirect.Linux.Kept.{asks_proxy, resolved-Contract}
use voindns_desktop.Redirect.Linux.Reverted.Fixtures.{
  obeying_bus, obeying_bus-Laws, obeys, stock_links, stock_links-off, machine_on,
}
use voindns_desktop.Redirect.Linux.Fallback.{linux-Contract, routed_idle, restore_succeeds}
use voindns_desktop.Redirect.Linux.Fixtures.{logging_bus, fresh_machine, fresh_machine-IsFallback}
use voindns_desktop.Redirect.Macos.{macos_redirector}
use voindns_desktop.Redirect.Macos.Fixtures.{one_service, start}
use voindns_desktop.Redirect.Macos.Override.{points}
use voindns_desktop.Controller.Overrides.{linux_never_at_dead_proxy, windows_never_at_dead_proxy}
use voindns_desktop.Redirect.Windows.{windows_redirector}
use voindns_desktop.Redirect.Windows.Fixtures as Win
use voindns_desktop.Redirect.Windows.Fixtures.{one_adapter, one_adapter-Laws, one_set, all_clear}
use voindns_desktop.Redirect.Windows.Natives as Natives
use voindns_desktop.Redirect.Windows.Natives.{windows-Contract}
use voindns_desktop.Controller.{Controller, new, connect, disconnect, listen_addr, is_busy}
use voindns_desktop.Controller.Broadcast.{disconnect_lem}
use voindns_desktop.Controller.Coverage.{
  Covered, connects, disconnects, here, next, never_at_dead_proxy, connect-IsGuarded, new-IsGuarded,
}
use voindns_desktop.Controller.Fixtures.{one_port, one_port-Contract, c0, c1, c2}

abbrev C : Contract (linux_redirector logging_bus)
C = linux-Contract logging_bus

fresh_unrouted : C.routed fresh_machine ≡ false
fresh_unrouted = routed_idle logging_bus fresh_machine fresh_machine-IsFallback refl

-- A connect and then a disconnect, which can restore.
never_at_dead_proxy_example :
    All
      (Covered C one_port-Contract (listen_addr (linux_redirector logging_bus) one_port c2))
      c2.passed
    × (is_busy c2.status.state ≡ false → C.routed c2.redirector ≡ false)
never_at_dead_proxy_example =
    never_at_dead_proxy C one_port-Contract 53 fresh_machine none c2 fresh_machine-IsFallback
      fresh_unrouted
      (next (next here (connects cloudflare (λ idle. tt) refl)) (disconnects tt c1_restores refl))
  where
    c1_restores : (restore logging_bus c1.redirector).0 ≡ ok tt
    c1_restores =
        restore_succeeds logging_bus c1.redirector
          (connect-IsGuarded C one_port-Contract cloudflare c0 (λ idle. tt)
            (new-IsGuarded C one_port-Contract 53 fresh_machine none fresh_machine-IsFallback
              fresh_unrouted)).sound

disconnect_lem_example :
    let r = disconnect (linux_redirector logging_bus) one_port c1 in
    (r.0 ≡ status_disconnected)
    × (r.1.status ≡ status_disconnected)
    × (r.1.proxy ≡ none)
    × (r.1.tx ≡ c1.tx ++ (status_disconnected ∷ []))
    × (r.1.redirector ≡ (flush_cache logging_bus (restore logging_bus c1.redirector).1).1)
    × (r.1.port ≡ c1.port)
disconnect_lem_example = disconnect_lem (linux_redirector logging_bus) one_port c1

-- With systemd-resolved, a connect and a second one, which is refused.
abbrev LinkExample : Type 0
LinkExample = Controller (linux_redirector obeying_bus) one_port

abbrev f1 : LinkExample
f1 =
    (connect (linux_redirector obeying_bus) one_port cloudflare
      (new (linux_redirector obeying_bus) one_port 53 (machine_on obeying_bus stock_links) none)).1

abbrev f2 : LinkExample
f2 = (connect (linux_redirector obeying_bus) one_port quad9 f1).1

linux_never_at_dead_proxy_example :
    All
      (Covered
        (resolved-Contract obeying_bus obeying_bus-Laws 2)
        one_port-Contract
        (listen_addr (linux_redirector obeying_bus) one_port f2))
      f2.passed
    × (is_busy f2.status.state ≡ false
        → asks_proxy obeying_bus obeying_bus-Laws 2 f2.redirector ≡ false)
linux_never_at_dead_proxy_example =
    linux_never_at_dead_proxy obeying_bus obeying_bus-Laws one_port-Contract 2 53
      (machine_on obeying_bus stock_links) none f2 stock_links-off
      (next
        (next here
          (connects cloudflare (λ idle n at done. obeys (set_link_default_route n true) _) refl))
        (connects quad9 (λ idle n at done. obeys (set_link_default_route n true) _) refl))

-- The same on macOS.
abbrev MacExample : Type 0
MacExample = Controller (macos_redirector one_service) one_port

abbrev d1 : MacExample
d1 =
    (connect (macos_redirector one_service) one_port cloudflare
      (new (macos_redirector one_service) one_port 53 start none)).1

abbrev d2 : MacExample
d2 = (disconnect (macos_redirector one_service) one_port d1).1

-- And on Windows.
abbrev WinExample : Type 0
WinExample = Controller (windows_redirector one_adapter) one_port

abbrev e1 : WinExample
e1 =
    (connect (windows_redirector one_adapter) one_port cloudflare
      (new (windows_redirector one_adapter) one_port 53 Win.start none)).1

abbrev e2 : WinExample
e2 = (disconnect (windows_redirector one_adapter) one_port e1).1

windows_never_at_dead_proxy_example :
    All
      (Covered
        (windows-Contract one_adapter one_adapter-Laws (codes "Ethernet"))
        one_port-Contract
        (listen_addr (windows_redirector one_adapter) one_port e2))
      e2.passed
    × (is_busy e2.status.state ≡ false
        → Natives.points (e2.redirector.machine (codes "Ethernet")) ≡ false)
unfolding new
windows_never_at_dead_proxy_example =
    windows_never_at_dead_proxy one_adapter one_adapter-Laws one_port-Contract (codes "Ethernet") 53
      Win.start.machine none e2 refl
      (next (next here (connects cloudflare (λ idle. one_set localhost Win.start) refl)) (
        disconnects (all_clear (Natives.names_of e1.redirector.applied) e1.redirector.machine)
          (Natives.restore_succeeds one_adapter one_adapter-Laws (codes "Ethernet") e1.redirector)
          refl))
