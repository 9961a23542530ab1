-- ===== src/Service/Daemon.antt =====
-- crates/voidns-service/src/main.rs, `run_daemon`: the port, the serving, and the shutdown.
use voindns_desktop.Base.{
  ℕ, suc, ◌<◌, ◌≡◌, ◌⊎◌, Option, none, some, Result, ok, err, Error, Text, arith, [], Result-cases,
  inl, inr,
}
use voindns_desktop.Std.Decimal.{parse_u16, parse_u16-lt}
use voindns_desktop.Proto.{Command, Event, default_proxy_port, status_disconnected}
use voindns_desktop.Redirect.{DnsRedirector}
use voindns_desktop.Controller.{ProxyServer, Controller, new, disconnect}
use voindns_desktop.Controller.Broadcast.{disconnect_lem}
use voindns_desktop.Controller.Invariant.{IsValid, new-IsValid}
use voindns_desktop.Ipc.Server.Turns.{serve-IsValid}
use voindns_desktop.Ipc.Wire.{Wire, Codec}
use voindns_desktop.Ipc.Server.{Channel, Server, Step, accept, turn, Reach, here, next}

-- `VOIDNS_PORT`, if it is set and reads as a port
unfoldable pub daemon_port : Option Text → ℕ
daemon_port none = default_proxy_port
daemon_port (some s) = elim (parse_u16 s) [ ok n ↦ n | err e ↦ default_proxy_port ]

-- Whatever the environment holds, the port of the daemon fits 16 bits.
pub daemon_port-lt : (env : Option Text) → daemon_port env < 65536
unfolding daemon_port
daemon_port-lt none = omega arith
daemon_port-lt (some s) = elim (Result-cases (parse_u16 s)) [
  | inl (n, e) ↦ ground (arith, e, parse_u16-lt s n e)
  | inr (m, e) ↦ ground (arith, e)
]

-- Which branch of the `select!` ended the serving.
pub data Stop : Type 0 where
  server_ended : Result Error (Unit {0}) → Stop
  shutdown : Stop

module _ (R : DnsRedirector) (P : ProxyServer) where
  -- The end of `run_daemon`, from the controller that the serving has left.
  unfoldable pub stop_daemon : Stop → Controller R P → Result Error (Unit {0}) × Controller R P
  stop_daemon (server_ended res) c = (res, c)
  stop_daemon shutdown c = (ok tt, (disconnect R P c).1)

  -- The run of a daemon up to its end: `new_redirector` gave `os`, and `c` is what is left of the
  -- controller when the serving stops.
  pub record Served (W : Wire) (Ch : Channel) (commands : Codec Command) (events : Codec Event)
      (env : Option Text) (os : R.Os) (net : P.Net) (c : Controller R P) : Type 0 where
    pub last : Server R P W Ch commands events
    pub reached :
        Reach R P W Ch commands events
          (record { controller = new R P (daemon_port env) os net; conns = [] })
          last
    pub same : c ≡ last.controller

module _ (R : DnsRedirector) (P : ProxyServer) (W : Wire) (Ch : Channel) (commands : Codec Command)
    (events : Codec Event) where
  -- no connection is accepted
  abbrev pub IsTurn :
      {s t : Server R P W Ch commands events} → Step R P W Ch commands events s t → Type 0
  IsTurn (accept conn fresh e) = ⊥
  IsTurn (turn i k conn n c found served e) = Unit

  -- The tasks that `serve` has spawned go on when its loop has ended: so many more of their turns. A
  -- turn that the end of the process cuts off is not among them.
  pub data Late (s : Server R P W Ch commands events)
      : ℕ → Server R P W Ch commands events → Type 0 where
    at_once : Late s 0 s
    later :
        {k : ℕ} {t u : Server R P W Ch commands events}
        → Late s k t
        → (st : Step R P W Ch commands events t u) → IsTurn st
        → Late s (suc k) u

  pub Late-Reach :
      {s : Server R P W Ch commands events} {k : ℕ} {t : Server R P W Ch commands events}
      → Late s k t
      → Reach R P W Ch commands events s t
  Late-Reach at_once = here
  Late-Reach (later l st h) = next (Late-Reach l) st

module _ (R : DnsRedirector) (P : ProxyServer) (W : Wire) (Ch : Channel) (commands : Codec Command)
    (events : Codec Event) (env : Option Text) (net : P.Net) where
  -- The ways in which `run_daemon` ends, with its result, the turns that its tasks have still taken
  -- behind the shutdown's `disconnect` when the process ends, and what is left of the controller:
  -- `created` is what `new_redirector` gave, and `listening` what came of the part of `serve` in
  -- front of its loop, which does not end.
  pub data RunDaemon (created : Result Error R.Os) (listening : Result Error (Unit {0}))
      : Result Error (Unit {0}) → ℕ → Option (Controller R P) → Type 0 where
    not_created : (e : Error) → created ≡ err e → RunDaemon created listening (err e) 0 none
    not_listening :
        (os : R.Os) (e : Error)
        → created ≡ ok os
        → listening ≡ err e
        → RunDaemon created listening
            (stop_daemon R P (server_ended (err e)) (new R P (daemon_port env) os net)).0
            0
            (some (stop_daemon R P (server_ended (err e)) (new R P (daemon_port env) os net)).1)
    -- the signal may come in front of the loop too
    shut_down :
        (os : R.Os) (c : Controller R P)
        → created ≡ ok os
        → (listening ≡ ok tt) ⊎ (c ≡ new R P (daemon_port env) os net)
        → (s : Served R P W Ch commands events env os net c)
        → (k : ℕ) (end : Server R P W Ch commands events)
        → Late R P W Ch commands events
            (record s.last { controller = (stop_daemon R P shutdown c).1 })
            k
            end
        → RunDaemon created listening (stop_daemon R P shutdown c).0 k (some end.controller)

module _ (R : DnsRedirector) (P : ProxyServer) (W : Wire) (Ch : Channel) (commands : Codec Command)
    (events : Codec Event) where
  -- A daemon that is shut down, whatever its clients did: the controller was well-formed when the
  -- signal came, and in the end its status is "disconnected", no proxy is left, and the redirector
  -- was restored from where the clients had brought it.
  pub stop_daemon-shutdown :
      (env : Option Text) (os : R.Os) (net : P.Net) (c : Controller R P)
      → Served R P W Ch commands events env os net c
      → IsValid R P c
        × ((stop_daemon R P shutdown c).1.status ≡ status_disconnected)
        × ((stop_daemon R P shutdown c).1.proxy ≡ none)
        × ((stop_daemon R P shutdown c).1.redirector ≡ (R.flush_cache (R.restore c.redirector).1).1)
  unfolding stop_daemon
  stop_daemon-shutdown env os net c s =
      let (_, idle, off, _, back, _) = disconnect_lem R P c in
      (
        rw s.same (
            serve-IsValid R P W Ch commands events s.reached
              (new-IsValid R P (daemon_port env) os net)),
        idle,
        off,
        back,
      )
