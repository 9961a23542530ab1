-- ===== src/Proxy.antt =====
-- crates/voidns-core/src/proxy.rs: the local DNS to DoH proxy, over hickory, rustls and tokio.
pub mod Trust
pub mod Forwarder
pub mod Start
pub mod Upstreams
mod Examples
use voindns_desktop.Base.{
  ℕ, Option, none, some, Bool, true, false, List, [], ◌∷◌, ◌++◌, map, Result, ok, err, Error,
  anyhow, context, map_err, ok_or, Text, codes, ◌>>=◌,
}
use voindns_desktop.Std.Net.{IpAddr, SocketAddr, display_addr}
use voindns_desktop.Std.IpParse.{parse_ip}
use voindns_desktop.Proto.{UpstreamSel, voidns, cloudflare, google, quad9, custom}

-- The options that `DohProxy::start` sets; times are in seconds.
pub record ResolverOpts : Type 0 where
  pub cache_size : ℕ
  pub positive_min_ttl : Option ℕ
  pub positive_max_ttl : Option ℕ
  pub negative_min_ttl : Option ℕ
  pub negative_max_ttl : Option ℕ
  pub try_tcp_on_error : Bool
  pub num_concurrent_reqs : ℕ
  pub preserve_intermediates : Bool
  pub use_hosts_file : Bool

-- hickory's name server configurations.
pub record NameServers : Type 1 where
  pub Config : Type 0
  pub Connection : Type 0
  pub cloudflare_https : List Config
  pub google_https : List Config
  pub quad9_https : List Config
  -- `NameServerConfig::https`
  pub https : IpAddr → Text → Option Text → Config
  pub connections : Config → List Connection
  pub with_connections : List Connection → Config → Config
  pub set_port : ℕ → Connection → Connection

abbrev pub voidns_doh_ip : Text
voidns_doh_ip = codes "1.1.1.1"

abbrev pub voidns_doh_host : Text
voidns_doh_host = codes "cloudflare-dns.com"

abbrev pub voidns_doh_path : Text
voidns_doh_path = codes "/dns-query"

-- `Display` of `AddrParseError`
abbrev pub bad_ip : Text
bad_ip = codes "invalid IP address syntax"

-- `ip.parse().context(message)`
abbrev pub ip_of : Text → Text → Result Error IpAddr
ip_of message ip = context message (ok_or (anyhow bad_ip) (parse_ip ip))

module _ (N : NameServers) where
  unfoldable pub upstream_name_servers : UpstreamSel → Result Error (List N.Config)
  upstream_name_servers cloudflare = ok N.cloudflare_https
  upstream_name_servers google = ok N.google_https
  upstream_name_servers quad9 = ok N.quad9_https
  upstream_name_servers voidns = do
    ip ← ip_of (codes "voidns DoH IP") voidns_doh_ip
    ok (N.https ip voidns_doh_host (some voidns_doh_path) ∷ [])
  upstream_name_servers (custom ip hostname path port) = do
    addr ← ip_of (codes "custom DoH bootstrap IP") ip
    let ns = N.https addr hostname (some path)
    ok (N.with_connections (map (N.set_port port) (N.connections ns)) ns ∷ [])

-- What `DohProxy::start` sets.
unfoldable pub options : ResolverOpts
options = record {
  cache_size = 1024;
  positive_min_ttl = some 5;
  positive_max_ttl = some 3600;
  negative_min_ttl = some 5;
  negative_max_ttl = some 300;
  try_tcp_on_error = true;
  num_concurrent_reqs = 2;
  preserve_intermediates = true;
  use_hosts_file = false;
}
