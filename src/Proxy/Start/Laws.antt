-- ===== src/Proxy/Start/Laws.antt =====
-- Sockets as tokio and hickory document them: bound, handed to a server, and dropped with it.
use voindns_desktop.Base.{◌≡◌, Bool, true, false, ◌&&◌, ◌||◌, not, ok, err, Text}
use voindns_desktop.Std.Net.{SocketAddr}
use voindns_desktop.Proxy.{NameServers}
use voindns_desktop.Proxy.Trust.{Tls}
use voindns_desktop.Proxy.Start.{Stack, tcp_timeout, tcp_response_buf}

-- What is documented of sockets that are bound, handed to a server and dropped with it: which
-- addresses are bound on the machine, and which of them by a socket and by a server.
pub record ReleaseLaws {N : NameServers} {T : Tls} (S : Stack N T) : Type 0 where
  pub udp : S.Net → SocketAddr → Bool
  pub tcp : S.Net → SocketAddr → Bool
  pub udp_of : S.Udp → SocketAddr → Bool
  pub tcp_of : S.Tcp → SocketAddr → Bool
  pub owns_udp : S.Server → SocketAddr → Bool
  pub owns_tcp : S.Server → SocketAddr → Bool
  pub owns-new_server :
      (r : S.Resolver) (b : SocketAddr)
      → (owns_udp (S.new_server r) b ≡ false) × (owns_tcp (S.new_server r) b ≡ false)
  pub owns-register_socket :
      (u : S.Udp) (s : S.Server) (b : SocketAddr)
      → (owns_udp (S.register_socket u s) b ≡ (udp_of u b || owns_udp s b))
        × (owns_tcp (S.register_socket u s) b ≡ owns_tcp s b)
  pub owns-register_listener :
      (t : S.Tcp) (s : S.Server) (b : SocketAddr)
      → (owns_udp (S.register_listener t tcp_timeout tcp_response_buf s) b ≡ owns_udp s b)
        × (owns_tcp (S.register_listener t tcp_timeout tcp_response_buf s) b
            ≡ (tcp_of t b || owns_tcp s b))
  -- a bind takes an address that was free
  pub bind_udp_ok :
      (a : SocketAddr) (net : S.Net) (u : S.Udp) (b : SocketAddr)
      → (S.bind_udp a net).0 ≡ ok u
      → (udp_of u a ≡ true)
        × ((udp_of u b && udp net b) ≡ false)
        × (udp (S.bind_udp a net).1 b ≡ (udp_of u b || udp net b))
        × (tcp (S.bind_udp a net).1 b ≡ tcp net b)
  pub bind_udp_err :
      (a : SocketAddr) (net : S.Net) (e : Text) (b : SocketAddr)
      → (S.bind_udp a net).0 ≡ err e
      → (udp (S.bind_udp a net).1 b ≡ udp net b) × (tcp (S.bind_udp a net).1 b ≡ tcp net b)
  pub bind_tcp_ok :
      (a : SocketAddr) (net : S.Net) (t : S.Tcp) (b : SocketAddr)
      → (S.bind_tcp a net).0 ≡ ok t
      → (tcp_of t a ≡ true)
        × ((tcp_of t b && tcp net b) ≡ false)
        × (tcp (S.bind_tcp a net).1 b ≡ (tcp_of t b || tcp net b))
        × (udp (S.bind_tcp a net).1 b ≡ udp net b)
  pub bind_tcp_err :
      (a : SocketAddr) (net : S.Net) (e : Text) (b : SocketAddr)
      → (S.bind_tcp a net).0 ≡ err e
      → (udp (S.bind_tcp a net).1 b ≡ udp net b) × (tcp (S.bind_tcp a net).1 b ≡ tcp net b)
  pub drop_server :
      (s : S.Server) (net : S.Net) (b : SocketAddr)
      → (udp (S.drop_server s net) b ≡ (udp net b && not (owns_udp s b)))
        × (tcp (S.drop_server s net) b ≡ (tcp net b && not (owns_tcp s b)))
  pub shutdown_gracefully :
      (s : S.Server) (net : S.Net) (b : SocketAddr)
      → (S.shutdown_gracefully s net).0 ≡ ok tt
      → (udp (S.shutdown_gracefully s net).1 b ≡ (udp net b && not (owns_udp s b)))
        × (tcp (S.shutdown_gracefully s net).1 b ≡ (tcp net b && not (owns_tcp s b)))
