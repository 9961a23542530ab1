-- ===== src/Controller/Overrides.antt =====
-- The controller on Linux with systemd-resolved, on macOS and on Windows.
use voindns_desktop.Base.{ℕ, ◌≡◌, false, All, Text}
use voindns_desktop.Redirect.Linux.{Bus, Linux, linux_redirector}
use voindns_desktop.Redirect.Linux.Links.{BusLaws}
use voindns_desktop.Redirect.Linux.Kept.{asks_proxy, resolved-Contract, unasked-IsRecorded}
use voindns_desktop.Redirect.Macos.{Macos}
use voindns_desktop.Redirect.Macos.Override.{points}
use voindns_desktop.Redirect.Windows as Windows
use voindns_desktop.Redirect.Windows.{WindowsApi, windows_redirector}
use voindns_desktop.Redirect.Windows.Api.{ApiLaws}
use voindns_desktop.Redirect.Windows.Natives as Natives
use voindns_desktop.Redirect.Windows.Natives.{windows-Contract}
use voindns_desktop.Controller.{ProxyServer, Controller, new, listen_addr, is_busy}
use voindns_desktop.Controller.Coverage.{ProxyContract, Covered, Reach, never_at_dead_proxy}

module _ (B : Bus) (L : BusLaws B) {P : ProxyServer} (D : ProxyContract P) where
  -- On Linux, over a bus as documented, for a proxy that keeps its contract and any link that does
  -- not have 127.0.0.1 among its DNS servers at first: from a new controller, after any connects in
  -- which SetLinkDefaultRoute succeeds on the link of the default route if SetLinkDNS has, and any
  -- disconnects whose restore succeeded, in every state that the machine passed, the link had
  -- 127.0.0.1 among its servers only while the proxy was listening on the controller's address, and
  -- it does not have it now unless the status is connecting or connected.
  pub linux_never_at_dead_proxy :
      (i port : ℕ) (os : Linux B) (net : P.Net) (c : Controller (linux_redirector B) P)
      → asks_proxy B L i os ≡ false
      → Reach (resolved-Contract B L i) D (new (linux_redirector B) P port os net) c
      → All (Covered (resolved-Contract B L i) D (listen_addr (linux_redirector B) P c)) c.passed
        × (is_busy c.status.state ≡ false → asks_proxy B L i c.redirector ≡ false)
  linux_never_at_dead_proxy i port os net c off r =
      never_at_dead_proxy (resolved-Contract B L i) D port os net c
        (unasked-IsRecorded B L i os off) off r

module _ (W : WindowsApi) (L : ApiLaws W) {P : ProxyServer} (D : ProxyContract P) where
  -- On Windows, over an API as documented, for a proxy that keeps its contract and any adapter
  -- whose static server is not 127.0.0.1 at first: from a new controller whose redirector has
  -- applied nothing, after any connects in which the native call sets one of the interfaces that
  -- are listed, if any, and any disconnects in which the native calls clear the adapters that were
  -- set, in every state that the machine passed, the adapter's server was 127.0.0.1 only while the
  -- proxy was listening on the controller's address, and it is not now unless the status is
  -- connecting or connected.
  pub windows_never_at_dead_proxy :
      (b : Text) (port : ℕ) (m : W.Machine) (net : P.Net) (c : Controller (windows_redirector W) P)
      → Natives.points (L.dns m b) ≡ false
      → Reach
          (windows-Contract W L b)
          D
          (new
            (windows_redirector W)
            P
            port
            (record { applied = Windows.nothing; machine = m })
            net)
          c
      → All (Covered (windows-Contract W L b) D (listen_addr (windows_redirector W) P c)) c.passed
        × (is_busy c.status.state ≡ false → Natives.points (L.dns c.redirector.machine b) ≡ false)
  windows_never_at_dead_proxy b port m net c off r =
      never_at_dead_proxy (windows-Contract W L b) D port
        (record { applied = Windows.nothing; machine = m }) net c (tt, λ on. absurd (cc (off, on)))
        off r
