-- ===== src/Controller.antt =====
-- crates/voidns-core/src/controller.rs: the Connect/Disconnect state machine.
pub mod Outcome
pub mod Invariant
pub mod Broadcast
pub mod Coverage
pub mod Overrides
pub mod Fixtures
mod Examples
use voindns_desktop.Base.{
  ℕ, Option, none, some, Bool, true, false, List, [], ◌∷◌, ◌++◌, Result, ok, err, Error, Text,
  display_chain, if◌then◌else◌,
}
use voindns_desktop.Base.Io.{Io, ignore}
use voindns_desktop.Std.Net.{SocketAddr, localhost, display_addr}
use voindns_desktop.Proto.{
  UpstreamSel, label, Status, ConnState, disconnected, connecting, connected, status_disconnected,
}
use voindns_desktop.Redirect.{DnsRedirector}

-- `DohProxy::start` and `DohProxy::stop`, over the state of the machine's sockets.
pub record ProxyServer : Type 1 where
  pub Net : Type 0
  pub Proxy : Type 0
  pub start : SocketAddr → UpstreamSel → Io Net Error Proxy
  pub stop : Proxy → Io Net Error Unit

abbrev pub is_busy : ConnState → Bool
is_busy connected = true
is_busy connecting = true
is_busy disconnected = false
is_busy ConnState.error = false

-- `error_status`
unfoldable pub error_status : Error → Status
error_status e = record {
  state = ConnState.error;
  upstream = none;
  listen = none;
  error = some (display_chain e);
}

module _ (R : DnsRedirector) (P : ProxyServer) where
  -- `tx` lists what was handed to the broadcast channel, the newest last. `net` is the machine's,
  -- and `passed` is the model's: the states of the machine after each call so far, the newest
  -- first.
  pub record Controller : Type 0 where
    pub status : Status
    pub proxy : Option P.Proxy
    pub redirector : R.Os
    pub port : ℕ
    pub tx : List Status
    pub net : P.Net
    pub passed : List (R.Os × P.Net)

  -- `Controller::new`, where `new_redirector` gave `os`
  unfoldable pub new : ℕ → R.Os → P.Net → Controller
  new port os net = record {
    status = status_disconnected;
    proxy = none;
    redirector = os;
    port = port;
    tx = [];
    net = net;
    passed = [];
  }

  -- `Controller::set`
  pub set : Status → Controller → Controller
  set s c = record c { status = s; tx = c.tx ++ s ∷ [] }

  with_os : R.Os → Controller → Controller
  with_os os c = record c { redirector = os; passed = (os, c.net) ∷ c.passed }

  with_net : P.Net → Controller → Controller
  with_net net c = record c { net = net; passed = (c.redirector, net) ∷ c.passed }

  abbrev pub listen_addr : Controller → SocketAddr
  listen_addr c = record { ip = localhost; port = c.port }

  abbrev pub connecting_status : UpstreamSel → Status
  connecting_status upstream = record {
    state = connecting;
    upstream = some (label upstream);
    listen = none;
    error = none;
  }

  abbrev pub connected_status : UpstreamSel → SocketAddr → Status
  connected_status upstream listen = record {
    state = connected;
    upstream = some (label upstream);
    listen = some (display_addr listen);
    error = none;
  }

  finish : Status → Controller → Status × Controller
  unfolding set
  finish s c = let c' = set s c in (c'.status, c')

  after_apply : UpstreamSel → P.Proxy → Result Error (Unit {0}) → Controller → Status × Controller
  unfolding finish with_os with_net error_status
  after_apply upstream proxy (err e) c =
      finish (error_status e) (with_net (ignore (P.stop proxy) c.net) c)
  after_apply upstream proxy (ok _) c =
      let c1 = with_os (ignore R.flush_cache c.redirector) c in
      finish (connected_status upstream (listen_addr c)) (record c1 { proxy = some proxy })

  after_start : UpstreamSel → Result Error P.Proxy → Controller → Status × Controller
  unfolding after_apply
  after_start upstream (err e) c = finish (error_status e) c
  after_start upstream (ok proxy) c =
      let (applied, os) = R.apply localhost c.redirector in
      after_apply upstream proxy applied (with_os os c)

  -- `Controller::connect` behind its guard
  start_connect : UpstreamSel → Controller → Status × Controller
  unfolding after_start
  start_connect upstream c =
      let (started, net) = P.start (listen_addr c) upstream c.net in
      after_start upstream started (with_net net c)

  unfoldable pub connect : UpstreamSel → Controller → Status × Controller
  unfolding start_connect
  connect upstream c =
      if is_busy c.status.state
      then (c.status, c)
      else start_connect upstream (set (connecting_status upstream) c)

  -- `if let Some(proxy) = self.proxy.take()`
  stop_proxy : Option P.Proxy → Controller → Controller
  unfolding with_net
  stop_proxy none c = c
  stop_proxy (some proxy) c = with_net (ignore (P.stop proxy) c.net) (record c { proxy = none })

  unfoldable pub disconnect : Controller → Status × Controller
  unfolding with_os stop_proxy finish
  disconnect c =
      let c1 = with_os (ignore R.restore c.redirector) c in
      let c2 = stop_proxy c1.proxy c1 in
      finish status_disconnected (with_os (ignore R.flush_cache c2.redirector) c2)
