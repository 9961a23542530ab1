-- ===== src/Proxy/Start/Release.antt =====
-- The sockets of the proxy: "Dropping or calling `DohProxy::stop` tears down the listeners and
-- releases the bound port."
use voindns_desktop.Base.{◌≡◌, ◌⊎◌, true, false, ◌&&◌, ◌||◌, Result, is_ok, ok, err, Error}
use voindns_desktop.Std.Net.{SocketAddr}
use voindns_desktop.Proxy.{NameServers}
use voindns_desktop.Proxy.Trust.{Tls}
use voindns_desktop.Proxy.Start.{Stack, DohProxy, stop}
use voindns_desktop.Proxy.Start.Laws.{ReleaseLaws}

module _ {N : NameServers} {T : Tls} (S : Stack N T) (client_config : Result Error T.ClientConfig)
    (L : ReleaseLaws S) where
  -- Every address is bound or free as it was.
  abbrev pub Same : S.Net → S.Net → Type 0
  Same net net' = (b : SocketAddr) → (L.udp net' b ≡ L.udp net b) × (L.tcp net' b ≡ L.tcp net b)

  abbrev StartResult : Type 0
  StartResult = Result Error (DohProxy S client_config) × S.Net

  -- How a start ends. A stop of what was started can fail; otherwise it releases everything.
  pub data Sockets (a : SocketAddr) (net : S.Net) (r : StartResult) : Type 0 where
    nothing_left : (e : Error) → r.0 ≡ err e → Same net r.1 → Sockets a net r
    listening :
        (p : DohProxy S client_config)
        → r.0 ≡ ok p
        → p.listen ≡ a
        → (L.udp r.1 a ≡ true) × (L.tcp r.1 a ≡ true)
        → (is_ok (stop S client_config p r.1).0 ≡ false) ⊎ Same net (stop S client_config p r.1).1
        → Sockets a net r

  -- The server holds what is bound beside the machine's own sockets.
  abbrev Holds : S.Net → S.Server → S.Net → Type 0
  Holds net0 server net =
      (b : SocketAddr)
      → ((L.owns_udp server b && L.udp net0 b) ≡ false)
        × (L.udp net b ≡ (L.owns_udp server b || L.udp net0 b))
        × ((L.owns_tcp server b && L.tcp net0 b) ≡ false)
        × (L.tcp net b ≡ (L.owns_tcp server b || L.tcp net0 b))
