-- ===== src/Controller/Fixtures.antt =====
-- A proxy on a machine with one port, and controllers over it.
use voindns_desktop.Base.{
  ℕ, ◌≡◌, ◌==◌, Option, none, some, Bool, true, false, Result, ok, err, Error, anyhow, codes, arith,
}
use voindns_desktop.Proto.{cloudflare}
use voindns_desktop.Redirect.Linux.{linux_redirector}
use voindns_desktop.Redirect.Linux.Fixtures.{logging_bus, fresh_machine}
use voindns_desktop.Controller.{ProxyServer, Controller, new, connect, disconnect}
use voindns_desktop.Controller.Coverage.{ProxyContract}

-- The port that is listened on, if any.
unfoldable pub start_on : Option ℕ → ℕ → Result Error ℕ × Option ℕ
start_on none port = (ok port, some port)
start_on (some used) port = (err (anyhow (codes "bind UDP")), some used)

abbrev pub one_port : ProxyServer
one_port = record {
  Net = Option ℕ;
  Proxy = ℕ;
  start = λ a u net. start_on net a.port;
  stop = λ p net. (ok tt, none);
}

abbrev pub listens : Option ℕ → ℕ → Bool
listens none port = false
listens (some used) port = used == port

pub listens-start :
    (net : Option ℕ) (port p : ℕ)
    → (start_on net port).0 ≡ ok p
    → listens (start_on net port).1 port ≡ true
unfolding start_on
listens-start none port p h = ground arith
listens-start (some used) port p h = cc

abbrev pub one_port-Contract : ProxyContract one_port
one_port-Contract = record {
  listening = λ net a. listens net a.port;
  listening-start = λ a u net p h. listens-start net a.port p h;
}

abbrev pub Example : Type 0
Example = Controller (linux_redirector logging_bus) one_port

-- A new controller, one that has connected, and one that has disconnected again.
abbrev pub c0 : Example
c0 = new (linux_redirector logging_bus) one_port 53 fresh_machine none

abbrev pub c1 : Example
c1 = (connect (linux_redirector logging_bus) one_port cloudflare c0).1

abbrev pub c2 : Example
c2 = (disconnect (linux_redirector logging_bus) one_port c1).1
