-- ===== src/Proxy/Examples.antt =====
-- The theorems on the proxy at a concrete bundle and on concrete sockets.
use voindns_desktop.Base.{
  ◌&&◌, not, Bool, true, false, ◌≡◌, ◌⊎◌, refl, Option, none, List, [], ◌∷◌, ◌++◌, Result, ok, err,
  Text, codes,
}
use voindns_desktop.Std.Net.{SocketAddr, localhost}
use voindns_desktop.Proto.{UpstreamSel, custom}
use voindns_desktop.Proxy.{NameServers}
use voindns_desktop.Proxy.Start.{Stack}
use voindns_desktop.Proxy.Trust.{Tls, extra_roots, Added, extra_roots-Added}

-- A store is the list of its certificates, a bundle is one certificate.
abbrev list_tls : Tls
list_tls = record {
  Cert = Text;
  RootStore = List Text;
  ClientConfig = List Text;
  builtin_roots = codes "root" ∷ [];
  certs = λ pem. ok pem ∷ [];
  add = λ cert roots. ok (roots ++ cert ∷ []);
  debug_path = λ path. path;
  with_root_certificates = λ roots. ok roots;
}

abbrev found_bundle : Result Text Text
found_bundle = ok (codes "private")

extra_roots-Added_example :
    ((pem : Text) × (found_bundle ≡ ok pem)
      × Added list_tls
          (list_tls.certs pem)
          list_tls.builtin_roots
          (codes "root" ∷ codes "private" ∷ []))
    ⊎ ((e : Text) × (found_bundle ≡ err e)
        × (◌≡◌ {A = Option Text} none none)
        × (codes "root" ∷ codes "private" ∷ [] ≡ list_tls.builtin_roots))
unfolding extra_roots
extra_roots-Added_example =
    extra_roots-Added list_tls none found_bundle (codes "root" ∷ codes "private" ∷ []) refl

-- A configuration is the name of its server.
abbrev named_servers : NameServers
named_servers = record {
  Config = Text;
  Connection = Text;
  cloudflare_https = codes "cloudflare" ∷ [];
  google_https = codes "google" ∷ [];
  quad9_https = codes "quad9" ∷ [];
  https = λ ip hostname path. hostname;
  connections = λ config. [];
  with_connections = λ connections config. config;
  set_port = λ port connection. connection;
}

abbrev bad_custom : UpstreamSel
bad_custom = custom (codes "1.1.1") (codes "dns.test") (codes "/") 443

abbrev listen_at : SocketAddr
listen_at = record { ip = localhost; port = 53 }

-- A machine with one port for each protocol, and servers that know which of them they hold.
bind_free : Bool → Result Text (Unit {0})
bind_free true = err (codes "address in use")
bind_free false = ok tt

abbrev one_port : Stack named_servers list_tls
one_port = record {
  Net = Bool × Bool;
  Resolver = List Text;
  Server = Bool × Bool;
  Udp = Unit {0};
  Tcp = Unit {0};
  build = λ config servers opts. ok servers;
  new_server = λ resolver. (false, false);
  bind_udp = λ a net. (bind_free net.0, (true, net.1));
  bind_tcp = λ a net. (bind_free net.1, (net.0, true));
  register_socket = λ socket server. (true, server.1);
  register_listener = λ listener timeout size server. (server.0, true);
  drop_server = λ server net. ((net.0 && not server.0), (net.1 && not server.1));
  shutdown_gracefully = λ server net. (ok tt, ((net.0 && not server.0), (net.1 && not server.1)));
}
