-- ===== src/Ipc/Server.antt =====
-- crates/voidns-core/src/ipc.rs, "server": a connection is served in turns, each of which takes one
-- branch of the `select!`. Commands hold the controller's lock, so they do not overlap.
pub mod Turns
pub mod Replies
pub mod Subscribers
pub mod Dropped
pub mod Refinement
pub mod Current
mod Examples
use voindns_desktop.Base.{
  ℕ, Option, none, some, List, [], ◌∷◌, Result, ok, err, Error, get_elem?, set, take, drop, ◌++◌,
  ◌≡◌, suc, zero,
}
use voindns_desktop.Proto.{
  Command, connect, disconnect, get_status, subscribe, ping, Event, status, pong, Status,
}
use voindns_desktop.Redirect.{DnsRedirector}
use voindns_desktop.Controller as Core
use voindns_desktop.Controller.{ProxyServer, Controller}
use voindns_desktop.Ipc.Wire.{Wire, Codec}
use voindns_desktop.Ipc.Frame.{write_msg, read_msg}

-- `broadcast::error::RecvError`
pub data RecvError : Type 0 where
  closed : RecvError
  lagged : ℕ → RecvError

-- The receiving half of `tokio::sync::broadcast`, over all that was ever sent. `recv` is `none`
-- while there is nothing to receive.
pub record Channel : Type 1 where
  pub Receiver : Type 0
  pub subscribe : List Status → Receiver
  pub recv : Receiver → List Status → Option (Result RecvError Status × Receiver)

module _ (R : DnsRedirector) (P : ProxyServer) (Ch : Channel) where
  -- `dispatch`: the reply, the controller, and the subscription
  unfoldable pub dispatch :
      Command → Controller R P → Option Ch.Receiver → Event × Controller R P × Option Ch.Receiver
  dispatch ping c sub = (pong, c, sub)
  dispatch get_status c sub = (status c.status, c, sub)
  dispatch subscribe c sub = (status c.status, c, some (Ch.subscribe c.tx))
  dispatch (connect u) c sub = let (s, c') = Core.connect R P u c in (status s, c', sub)
  dispatch disconnect c sub = let (s, c') = Core.disconnect R P c in (status s, c', sub)

-- `rx.recv().await.ok()`
abbrev received : {A B : Type 0} → Result RecvError A × B → Option A × Option B
received (ok s, rx) = (some s, some rx)
received (err e, rx) = (none, some rx)

-- `recv_opt`: `none` means that it does not return.
unfoldable pub recv_opt :
    (Ch : Channel) → Option Ch.Receiver → List Status → Option (Option Status × Option Ch.Receiver)
recv_opt Ch none tx = none
recv_opt Ch (some rx) tx = elim (Ch.recv rx tx) [ none ↦ none | some r ↦ some (received r) ]

-- Which branch of the `select!` completes first. When it is `update`, the read that was under way
-- is dropped, with the bytes that it had taken.
pub data Turn : Type 0 where
  incoming : Turn
  update : ℕ → Turn

module _ (W : Wire) (Ch : Channel) where
  -- The locals of `handle_conn`.
  pub record Conn : Type 0 where
    pub r : W.Reader
    pub w : W.Writer
    pub subscription : Option Ch.Receiver

  -- How a turn ends: with another turn, or with the return of `handle_conn`.
  pub data Next : Type 0 where
    again : Conn → Next
    returned : Result Error (Unit {0}) → Next

module _ (R : DnsRedirector) (P : ProxyServer) (W : Wire) (Ch : Channel) (commands : Codec Command)
    (events : Codec Event) where
  -- `write_msg(&mut w, &event).await?`
  reply : Event → Conn W Ch → Next W Ch
  reply event conn =
      let (written, w) = write_msg W events event conn.w in
      elim written [ ok _ ↦ again (record conn { w = w }) | err e ↦ returned (err e) ]

  serve_command :
      Result Error (Option Command) → Conn W Ch → Controller R P → Next W Ch × Controller R P
  unfolding reply
  serve_command (err e) conn c = (returned (err e), c)
  serve_command (ok none) conn c = (returned (ok tt), c)
  serve_command (ok (some cmd)) conn c =
      let (event, c', sub) = dispatch R P Ch cmd c conn.subscription in
      (reply event (record conn { subscription = sub }), c')

  forward : Option Status → Conn W Ch → Next W Ch
  unfolding reply
  forward none conn = again conn
  forward (some s) conn = reply (status s) conn

  -- One pass of the loop of `handle_conn`; `none` if the branch does not complete.
  unfoldable pub handle_conn :
      Turn → Conn W Ch → Controller R P → Option (Next W Ch × Controller R P)
  unfolding serve_command forward
  handle_conn incoming conn c =
      let (msg, r) = read_msg W commands conn.r in
      some (serve_command msg (record conn { r = r }) c)
  handle_conn (update taken) conn c = elim (recv_opt Ch conn.subscription c.tx) [
    | none ↦ none
    | some (s, sub) ↦
        some (forward s (record conn { r = W.abandon taken conn.r; subscription = sub }), c)
  ]

  pub record Server : Type 0 where
    pub controller : Controller R P
    pub conns : List (Conn W Ch)

  unfoldable pub resume : ℕ → Next W Ch → List (Conn W Ch) → List (Conn W Ch)
  resume i (again conn) conns = set conns i conn
  resume i (returned e) conns = take i conns ++ drop (suc i) conns

  -- The loop of `serve`, and the turns of the tasks that it has spawned, in any order.
  pub data Step (s : Server) (s' : Server) : Type 0 where
    accept :
        (conn : Conn W Ch)
        → conn.subscription ≡ none
        → s' ≡ record s { conns = conn ∷ s.conns }
        → Step s s'
    turn :
        (i : ℕ) (t : Turn) (conn : Conn W Ch) (n : Next W Ch) (c : Controller R P)
        → get_elem? s.conns i ≡ some conn
        → handle_conn t conn s.controller ≡ some (n, c)
        → s' ≡ record { controller = c; conns = resume i n s.conns }
        → Step s s'

  pub data Reach (s : Server) : Server → Type 0 where
    here : Reach s s
    next : {t u : Server} → Reach s t → Step t u → Reach s u
