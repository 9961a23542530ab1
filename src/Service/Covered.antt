-- ===== src/Service/Covered.antt =====
-- The DNS over the whole life of the service: whatever its clients do, through its shutdown and behind
-- it.
mod Examples
use voindns_desktop.Base.{
  ℕ, zero, suc, ◌<◌, arith, Bool-cases, true, ◌≡◌, ◌⊎◌, inl, inr, refl, ap, Option, none, some,
  Result, is_ok, Error, [], false, All, ok, Text,
}
use voindns_desktop.Proto.{Command, UpstreamSel, Event, Status, status_disconnected}
use voindns_desktop.Redirect.{DnsRedirector}
use voindns_desktop.Redirect.Contract.{Contract}
use voindns_desktop.Controller.{
  ProxyServer, Controller, new, listen_addr, is_busy, connect, disconnect,
}
use voindns_desktop.Controller.Invariant.{IsValid, new-IsValid, disconnect-IsValid, idle_proxy}
use voindns_desktop.Controller.Broadcast.{disconnect_lem}
use voindns_desktop.Controller.Coverage.{
  ProxyContract, Covered, IsGuarded, connect-IsGuarded, disconnect-IsGuarded, new-IsGuarded,
}
use voindns_desktop.Ipc.Wire.{Wire, Codec}
use voindns_desktop.Std.Net.{localhost}
use voindns_desktop.Ipc.Server.{Channel, Server, Reach}
use voindns_desktop.Ipc.Server.Turns.{Reach_keeps, serve-IsValid}
use voindns_desktop.Service.Daemon.{
  daemon_port, Served, stop_daemon, shutdown, Late, at_once, later, Late-Reach, RunDaemon,
  not_created, not_listening, shut_down,
}

module _ {R : DnsRedirector} {P : ProxyServer} (C : Contract R) (D : ProxyContract P)
    (applies : (os : R.Os) → C.IsSound os → C.routed os ≡ false → C.Applies localhost os)
    (restores : (os : R.Os) → C.IsSound os → C.Restores os × ((R.restore os).0 ≡ ok tt)) (W : Wire)
    (Ch : Channel) (commands : Codec Command) (events : Codec Event) where
  connected-IsGuarded :
      (u : UpstreamSel) (c : Controller R P) → IsGuarded C D c → IsGuarded C D (connect R P u c).1
  connected-IsGuarded u c g =
      connect-IsGuarded C D u c (λ idle. applies c.redirector g.sound (g.off idle)) g

  disconnected-IsGuarded :
      (c : Controller R P) → IsGuarded C D c → IsGuarded C D (disconnect R P c).1
  disconnected-IsGuarded c g =
      let (works, succeeds) = restores c.redirector g.sound in
      disconnect-IsGuarded C D c g works succeeds

  -- What the serving keeps, and so do the turns that are taken behind the shutdown.
  abbrev IsKept : Controller R P → Type 0
  IsKept c = IsGuarded C D c × IsValid R P c

  reached-IsKept :
      {s t : Server R P W Ch commands events}
      → Reach R P W Ch commands events s t
      → IsKept s.controller
      → IsKept t.controller
  reached-IsKept r (g, v) = (
    Reach_keeps R P W Ch commands events (IsGuarded C D) connected-IsGuarded disconnected-IsGuarded
        r g,
    serve-IsValid R P W Ch commands events r v,
  )

  stopped-IsKept :
      (env : Option Text) (os : R.Os) (net : P.Net) (c : Controller R P)
      → C.IsSound os
      → C.routed os ≡ false
      → Served R P W Ch commands events env os net c
      → IsKept (stop_daemon R P shutdown c).1
  unfolding stop_daemon
  stopped-IsKept env os net c sound off s =
      let start : IsKept (new R P (daemon_port env) os net) = (
        new-IsGuarded C D (daemon_port env) os net sound off,
        new-IsValid R P (daemon_port env) os net,
      ) in
      let (g, _) = reached-IsKept s.reached start in
      (rw s.same (disconnected-IsGuarded s.last.controller g), disconnect-IsValid R P c)

  -- without a turn behind the shutdown, the status is "disconnected"
  busy_behind :
      (c : Controller R P) (s end : Server R P W Ch commands events) (k : ℕ)
      → Late R P W Ch commands events s k end
      → s.controller.status ≡ status_disconnected
      → is_busy end.controller.status.state ≡ true
      → 0 < k
  busy_behind c s end zero at_once idle busy = absurd (ground (arith, idle, busy))
  busy_behind c s end (suc k) (later l st h) idle busy = omega arith

  -- What is left of a daemon whose machine was off the proxy, when so many turns of its clients
  -- were taken behind the shutdown's disconnect.
  abbrev pub EndsOff : Result Error (Unit {0}) → ℕ → Option (Controller R P) → Type 0
  EndsOff r late none = is_ok r ≡ false
  EndsOff r late (some c) =
      All (Covered C D (listen_addr R P c)) c.passed
      × (((C.routed c.redirector ≡ false) × (c.proxy ≡ none))
          ⊎ ((is_busy c.status.state ≡ true) × (0 < late)))
      × ((r ≡ ok tt) ⊎ (c.passed ≡ []))

  -- Over a redirector and a proxy that keep their contracts, when every redirection and every
  -- restore of a sound redirector does what the contract asks of its calls, and the restores
  -- succeed, on a machine whose DNS does not point at the proxy: however run_daemon ends, and
  -- whatever its clients have sent, over any connections and in any interleaving of their turns,
  -- those included that its tasks take behind the shutdown's disconnect, in every state that the
  -- machine passed the DNS pointed at the proxy only while the proxy was listening; in the end the
  -- DNS is off the proxy and no proxy is held, unless such a late turn was taken and the status is
  -- connecting or connected; an end that is not a success has touched nothing.
  pub RunDaemon-EndsOff :
      (env : Option Text) (net : P.Net) (created : Result Error R.Os)
      → ((os : R.Os) → created ≡ ok os → C.IsSound os × (C.routed os ≡ false))
      → (listening : Result Error (Unit {0})) (r : Result Error (Unit {0})) (late : ℕ)
        (left : Option (Controller R P))
      → RunDaemon R P W Ch commands events env net created listening r late left
      → EndsOff r late left
  unfolding stop_daemon new
  RunDaemon-EndsOff env net created start listening r late left (not_created e failed) = refl
  RunDaemon-EndsOff env net created start listening r late left (not_listening os e made failed) =
      (tt, inl ((start os made).1, refl), inr refl)
  RunDaemon-EndsOff env net created start listening r late left
        (shut_down os c made when s k end l) =
      let (sound, off) = start os made in
      let (g, v) =
        reached-IsKept (Late-Reach R P W Ch commands events l)
          (stopped-IsKept env os net c sound off s) in
      let (_, idle, _, _, _, _) = disconnect_lem R P c in
      (
        g.past,
        elim (Bool-cases (is_busy end.controller.status.state)) [
          | inr idle' ↦ inl (g.off idle', idle_proxy _ _ _ _ v idle')
          | inl busy ↦ inr (busy, busy_behind c _ end k l idle busy)
        ],
        inl refl,
      )
