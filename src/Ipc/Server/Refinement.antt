-- ===== src/Ipc/Server/Refinement.antt =====
-- The service as its clients may think of it: off, on with an upstream, or failed with a message.
use mathlib.Core.Option.{some-injective}
use voindns_desktop.Base.{
  ℕ, ◌≡◌, ◌∙◌, refl, sym, ap, ◌⊎◌, inl, inr, Option, none, some, true, false, List, [], ◌∷◌, Error,
  Result, ok, err, arith,
}
use voindns_desktop.Proto.{
  UpstreamSel, Command, connect, disconnect, get_status, subscribe, ping, Event, Status,
  status_disconnected,
}
use voindns_desktop.Redirect.{DnsRedirector}
use voindns_desktop.Controller as Core
use voindns_desktop.Controller.{
  ProxyServer, Controller, connected_status, error_status, listen_addr, is_busy, new,
}
use voindns_desktop.Controller.Outcome.{
  Outcome, refused, no_proxy, no_redirect, done, connect-Outcome,
}
use voindns_desktop.Controller.Broadcast.{disconnect_lem}
use voindns_desktop.Ipc.Wire.{Wire, Codec}
use voindns_desktop.Ipc.Server.{
  Channel, Server, Step, accept, turn, Reach, here, next, Turn, incoming, update, Conn, Next,
  dispatch, serve_command, handle_conn,
}
use voindns_desktop.Ipc.Frame.{read_msg}

pub data Service : Type 0 where
  off : Service
  on : UpstreamSel → Service
  failed : Error → Service

abbrev IsDown : Service → Type 0
IsDown off = Unit
IsDown (on u) = ⊥
IsDown (failed e) = Unit

-- What a turn does to it, by the command that the turn takes from its connection, if any.
pub data Does : Option Command → Service → Service → Type 0 where
  turns_on : (u : UpstreamSel) (a : Service) → IsDown a → Does (some (connect u)) a (on u)
  fails :
      (u : UpstreamSel) (e : Error) (a : Service) → IsDown a → Does (some (connect u)) a (failed e)
  -- it stays with the upstream that it has
  refuses : (u v : UpstreamSel) → Does (some (connect u)) (on v) (on v)
  turns_off : (a : Service) → Does (some disconnect) a off
  tells : (a : Service) → Does (some get_status) a a
  subscribes : (a : Service) → Does (some subscribe) a a
  answers : (a : Service) → Does (some ping) a a
  stays : (a : Service) → Does none a a

-- The last command is the first of the list.
pub data History (a : Service) : List (Option Command) → Service → Type 0 where
  start : History a [] a
  then_ :
      {cmds : List (Option Command)} {b : Service} {cmd : Option Command} {c : Service}
      → History a cmds b
      → Does cmd b c
      → History a (cmd ∷ cmds) c

abbrev command_in : Result Error (Option Command) → Option Command
command_in (ok cmd) = cmd
command_in (err e) = none

module _ (R : DnsRedirector) (P : ProxyServer) where
  -- The controller looks to its clients like the abstract service, and holds a proxy if that is on.
  abbrev pub Represents : Service → Controller R P → Type 0
  Represents off c = (c.status ≡ status_disconnected) × (c.proxy ≡ none)
  Represents (on u) c =
      (p : P.Proxy) × (c.status ≡ connected_status R P u (listen_addr R P c)) × (c.proxy ≡ some p)
  Represents (failed e) c = (c.status ≡ error_status e) × (c.proxy ≡ none)

  abbrev Simulates : Option Command → Service → Controller R P → Type 0
  Simulates cmd a c = (a' : Service) × Does cmd a a' × Represents a' c

  connect_idle :
      (u : UpstreamSel) (c : Controller R P) {r : Status × Controller R P}
      → Outcome R P u c r
      → is_busy c.status.state ≡ false
      → c.proxy ≡ none
      → ((p : P.Proxy) × (r.1.status ≡ connected_status R P u (listen_addr R P r.1))
          × (r.1.proxy ≡ some p))
        ⊎ ((e : Error) × (r.1.status ≡ error_status e) × (r.1.proxy ≡ none))
  connect_idle u c (refused busy e) idle empty = absurd (cc (busy, idle))
  connect_idle u c (no_proxy m idle s e) idle' empty = inr (m, rw e refl, rw e empty)
  connect_idle u c (no_redirect p m idle s a e) idle' empty = inr (m, rw e refl, rw e empty)
  connect_idle u c (done p idle s a e) idle' empty = inl (p, rw e refl, rw e refl)

  connect_busy :
      (u : UpstreamSel) (c : Controller R P) {r : Status × Controller R P}
      → Outcome R P u c r
      → is_busy c.status.state ≡ true
      → r.1 ≡ c
  connect_busy u c (refused busy e) b = ap (λ t. t.1) e
  connect_busy u c (no_proxy m idle s e) b = absurd (cc (b, idle))
  connect_busy u c (no_redirect p m idle s a e) b = absurd (cc (b, idle))
  connect_busy u c (done p idle s a e) b = absurd (cc (b, idle))

  connect-Simulates :
      (u : UpstreamSel) (a : Service) (c : Controller R P)
      → Represents a c
      → Simulates (some (connect u)) a (Core.connect R P u c).1
  unfolding error_status
  connect-Simulates u off c (shown, empty) =
      elim (connect_idle u c (connect-Outcome R P u c) (ap (λ (s : Status). is_busy s.state) shown)
        empty) [
          | inl h ↦ (on u, turns_on u off tt, h)
          | inr (e, now, none_held) ↦ (failed e, fails u e off tt, (now, none_held))
        ]
  connect-Simulates u (failed e0) c (shown, empty) =
      elim (connect_idle u c (connect-Outcome R P u c) (ap (λ (s : Status). is_busy s.state) shown)
        empty) [
          | inl h ↦ (on u, turns_on u (failed e0) tt, h)
          | inr (e, now, none_held) ↦ (failed e, fails u e (failed e0) tt, (now, none_held))
        ]
  connect-Simulates u (on u0) c (p, shown, held) =
      let same =
        connect_busy u c (connect-Outcome R P u c) (ap (λ (s : Status). is_busy s.state) shown) in
      (on u0, refuses u u0, rw same (p, shown, held))

  -- What a command does to the controller.
  abbrev execute : Option Command → Controller R P → Controller R P
  execute none c = c
  execute (some ping) c = c
  execute (some get_status) c = c
  execute (some subscribe) c = c
  execute (some (connect u)) c = (Core.connect R P u c).1
  execute (some disconnect) c = (Core.disconnect R P c).1

  execute-Simulates :
      (cmd : Option Command) (a : Service) (c : Controller R P)
      → Represents a c
      → Simulates cmd a (execute cmd c)
  execute-Simulates none a c h = (a, stays a, h)
  execute-Simulates (some ping) a c h = (a, answers a, h)
  execute-Simulates (some get_status) a c h = (a, tells a, h)
  execute-Simulates (some subscribe) a c h = (a, subscribes a, h)
  execute-Simulates (some (connect u)) a c h = connect-Simulates u a c h
  execute-Simulates (some disconnect) a c h =
      let (_, shown, empty, _, _, _) = disconnect_lem R P c in (off, turns_off a, (shown, empty))

  pub new-Represents : (port : ℕ) (os : R.Os) (net : P.Net) → Represents off (new R P port os net)
  unfolding new
  new-Represents port os net = (refl, refl)

  module _ (W : Wire) (Ch : Channel) (commands : Codec Command) (events : Codec Event) where
    -- The command that a turn takes from its connection.
    abbrev pub command_of : Turn → Conn W Ch → Option Command
    command_of incoming conn = command_in (read_msg W commands conn.r).0
    command_of (update taken) conn = none

    abbrev command_at :
        {s t : Server R P W Ch commands events} → Step R P W Ch commands events s t → Option Command
    command_at (accept conn fresh e) = none
    command_at (turn i k conn n c found served e) = command_of k conn

    -- The commands of a run, the last one first.
    abbrev pub log :
        {s t : Server R P W Ch commands events}
        → Reach R P W Ch commands events s t
        → List (Option Command)
    log here = []
    log (next r st) = command_at st ∷ log r

    serve_command-execute :
        (msg : Result Error (Option Command)) (conn : Conn W Ch) (c : Controller R P)
        → (serve_command R P W Ch commands events msg conn c).1 ≡ execute (command_in msg) c
    unfolding serve_command dispatch
    serve_command-execute (err e) conn c = refl
    serve_command-execute (ok none) conn c = refl
    serve_command-execute (ok (some ping)) conn c = refl
    serve_command-execute (ok (some get_status)) conn c = refl
    serve_command-execute (ok (some subscribe)) conn c = refl
    serve_command-execute (ok (some (connect u))) conn c = refl
    serve_command-execute (ok (some disconnect)) conn c = refl

    handle_conn-execute :
        (t : Turn) (conn : Conn W Ch) (c c' : Controller R P) (n : Next W Ch)
        → handle_conn R P W Ch commands events t conn c ≡ some (n, c')
        → c' ≡ execute (command_of t conn) c
    unfolding handle_conn
    handle_conn-execute incoming conn c c' n h =
        let (msg, r) = read_msg W commands conn.r in
        sym (ap (λ p. p.1) (some-injective _ _ h))
        ∙ serve_command-execute msg (record conn { r = r }) c
    handle_conn-execute (update k) conn c c' n h = ground arith

    Step-Simulates :
        (a : Service) (s t : Server R P W Ch commands events)
        → (st : Step R P W Ch commands events s t) → Represents a s.controller
        → Simulates (command_at st) a t.controller
    Step-Simulates a s t (accept conn fresh e) h = rw e (a, stays a, h)
    Step-Simulates a s t (turn i k conn n c found served e) h = rw e (
        rw (handle_conn-execute k conn s.controller c n served)
          (execute-Simulates (command_of k conn) a s.controller h))

    -- The service keeps to an abstract one that is off, on with an upstream, or failed: when the
    -- controller represents an abstract state, then after any steps of the server, in any
    -- interleaving of its connections, it represents one that the abstract service reaches by a
    -- move for each command that the turns took from their connections, in their order: a connect
    -- turns a service that is off or failed on with its upstream, or to failed, and leaves one that
    -- is on with the upstream that it has, a disconnect turns it off, and all else leaves it.
    pub serve_refines :
        {s t : Server R P W Ch commands events} (a : Service)
        → (r : Reach R P W Ch commands events s t) → Represents a s.controller
        → (b : Service) × History a (log r) b × Represents b t.controller
    serve_refines a here h = (a, start, h)
    serve_refines a (next r st) h =
        let (b, past, hb) = serve_refines a r h in
        let (d, does, hd) = Step-Simulates b _ _ st hb in (d, then_ past does, hd)
