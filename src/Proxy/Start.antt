-- ===== src/Proxy/Start.antt =====
-- `DohProxy::start` and `DohProxy::stop`, over hickory's resolver and server and tokio's sockets.
pub mod Laws
pub mod Release
use voindns_desktop.Base.{
  ℕ, ◌≡◌, Bool, true, ◌&&◌, List, [], ◌∷◌, ◌++◌, Result, Result-cases, inl, inr, ok, err, Error,
  anyhow, Text, codes, map_err, arith,
}
use voindns_desktop.Base.Io.{Io, with_err}
use voindns_desktop.Std.Net.{SocketAddr, display_addr}
use voindns_desktop.Proto.{UpstreamSel}
use voindns_desktop.Controller.{ProxyServer}
use voindns_desktop.Controller.Coverage.{ProxyContract}
use voindns_desktop.Proxy.{NameServers, ResolverOpts, upstream_name_servers, options}
use voindns_desktop.Proxy.Trust.{Tls}

-- hickory's resolver and server, and the sockets of the machine. `new_server` serves the root zone
-- by a forwarder to the resolver; `drop_server` is what dropping a server with its sockets does.
pub record Stack (N : NameServers) (T : Tls) : Type 1 where
  pub Net : Type 0
  pub Resolver : Type 0
  pub Server : Type 0
  pub Udp : Type 0
  pub Tcp : Type 0
  pub build : T.ClientConfig → List N.Config → ResolverOpts → Result Text Resolver
  pub new_server : Resolver → Server
  pub bind_udp : SocketAddr → Io Net Text Udp
  pub bind_tcp : SocketAddr → Io Net Text Tcp
  pub register_socket : Udp → Server → Server
  pub register_listener : Tcp → ℕ → ℕ → Server → Server
  pub drop_server : Server → Net → Net
  pub shutdown_gracefully : Server → Io Net Text Unit

-- seconds, and bytes
abbrev pub tcp_timeout : ℕ
tcp_timeout = 10

abbrev pub tcp_response_buf : ℕ
tcp_response_buf = 65535

module _ {N : NameServers} {T : Tls} (S : Stack N T)
    (client_config : Result Error T.ClientConfig) where
  pub record DohProxy : Type 0 where
    pub server : S.Server
    pub listen : SocketAddr

  -- `build_forward_zone`, where `client_config` is what `build_client_config` gives
  build_forward_zone : List N.Config → ResolverOpts → Result Error S.Resolver
  build_forward_zone name_servers opts = elim client_config [
    | err e ↦ err e
    | ok config ↦
        map_err (λ e. anyhow (codes "failed to build DoH resolver: " ++ e))
          (S.build config name_servers opts)
  ]

  new_resolver : UpstreamSel → Result Error S.Resolver
  unfolding build_forward_zone
  new_resolver upstream = elim (upstream_name_servers N upstream) [
    | err e ↦ err e
    | ok name_servers ↦ build_forward_zone name_servers options
  ]

  -- with the UDP socket registered
  bind_listener : SocketAddr → S.Server → Io S.Net Error DohProxy
  bind_listener listen server net =
      let (tcp, net1) = S.bind_tcp listen net in
      elim tcp [
        | err e ↦
            (err ((codes "bind TCP " ++ display_addr listen) ∷ e ∷ []), S.drop_server server net1)
        | ok t ↦ (
          ok (record {
            server = S.register_listener t tcp_timeout tcp_response_buf server;
            listen = listen;
          }),
          net1,
        )
      ]

  bind_sockets : SocketAddr → S.Server → Io S.Net Error DohProxy
  unfolding bind_listener
  bind_sockets listen server net =
      let (udp, net1) = S.bind_udp listen net in
      elim udp [
        | err e ↦
            (err ((codes "bind UDP " ++ display_addr listen) ∷ e ∷ []), S.drop_server server net1)
        | ok u ↦ bind_listener listen (S.register_socket u server) net1
      ]

  unfoldable pub start : SocketAddr → UpstreamSel → Io S.Net Error DohProxy
  unfolding new_resolver bind_sockets
  start listen upstream net = elim (new_resolver upstream) [
    | err e ↦ (err e, net)
    | ok resolver ↦ bind_sockets listen (S.new_server resolver) net
  ]

  unfoldable pub stop : DohProxy → Io S.Net Error Unit
  stop proxy =
      with_err (λ e. anyhow (codes "proxy shutdown error: " ++ e))
        (S.shutdown_gracefully proxy.server)

  -- The controller's interface, filled.
  abbrev pub doh_proxy : ProxyServer
  doh_proxy = record { Net = S.Net; Proxy = DohProxy; start = start; stop = stop }

  -- The documented behaviour of binding: `udp` and `tcp` tell whether an address is bound.
  pub record BindLaws : Type 0 where
    pub udp : S.Net → SocketAddr → Bool
    pub tcp : S.Net → SocketAddr → Bool
    pub udp-bind_udp :
        (a : SocketAddr) (net : S.Net) (u : S.Udp)
        → (S.bind_udp a net).0 ≡ ok u
        → udp (S.bind_udp a net).1 a ≡ true
    pub tcp-bind_tcp :
        (a : SocketAddr) (net : S.Net) (t : S.Tcp)
        → (S.bind_tcp a net).0 ≡ ok t
        → tcp (S.bind_tcp a net).1 a ≡ true
    pub udp-bind_tcp : (a b : SocketAddr) (net : S.Net) → udp (S.bind_tcp a net).1 b ≡ udp net b

  module _ (L : BindLaws) where
    bind_listener-ok :
        (a : SocketAddr) (server : S.Server) (net : S.Net) (p : DohProxy)
        → (bind_listener a server net).0 ≡ ok p
        → L.udp net a ≡ true
        → (L.udp (bind_listener a server net).1 a ≡ true)
          × (L.tcp (bind_listener a server net).1 a ≡ true)
          × (p.listen ≡ a)
    unfolding bind_listener
    bind_listener-ok a server net p h up = elim (Result-cases (S.bind_tcp a net).0) [
      | inr (e, f) ↦ absurd (ground (arith, f, h))
      | inl (t, f) ↦ ground (arith, f, h, up, L.udp-bind_tcp a a net, L.tcp-bind_tcp a net t f)
    ]

    bind_sockets-ok :
        (a : SocketAddr) (server : S.Server) (net : S.Net) (p : DohProxy)
        → (bind_sockets a server net).0 ≡ ok p
        → (L.udp (bind_sockets a server net).1 a ≡ true)
          × (L.tcp (bind_sockets a server net).1 a ≡ true)
          × (p.listen ≡ a)
    unfolding bind_sockets
    bind_sockets-ok a server net p h = elim (Result-cases (S.bind_udp a net).0) [
      | inr (e, f) ↦ absurd (ground (arith, f, h))
      | inl (u, f) ↦
          rw (f, bind_sockets)
            (bind_listener-ok a (S.register_socket u server) (S.bind_udp a net).1 p
              (rw (f, bind_sockets) at h) (L.udp-bind_udp a net u f))
    ]

    -- When DohProxy::start gives a proxy, over sockets that bind as documented, both the UDP and
    -- the TCP socket of the requested address are bound, and the proxy reports that address.
    pub start-ok :
        (a : SocketAddr) (u : UpstreamSel) (net : S.Net) (p : DohProxy)
        → (start a u net).0 ≡ ok p
        → (L.udp (start a u net).1 a ≡ true) × (L.tcp (start a u net).1 a ≡ true) × (p.listen ≡ a)
    unfolding start
    start-ok a u net p h = elim (Result-cases (new_resolver u)) [
      | inr (e, f) ↦ absurd (ground (arith, f, h))
      | inl (r, f) ↦ rw (f, start) (bind_sockets-ok a (S.new_server r) net p (rw (f, start) at h))
    ]

    abbrev pub doh_proxy-Contract : ProxyContract doh_proxy
    doh_proxy-Contract = record {
      listening = λ net a. L.udp net a && L.tcp net a;
      listening-start = λ a u net p h. let (up, tp, _) = start-ok a u net p h in rw (up, tp);
    }
