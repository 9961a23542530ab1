-- ===== src/Ipc/Server/Turns.antt =====
-- What clients can do to the controller, through any connections and in any order of turns.
use mathlib.Core.Path.{subst}
use mathlib.Core.Option.{some-injective}
use voindns_desktop.Base.{◌≡◌, refl, ap, Option, none, some, Result, ok, err, Error, arith}
use voindns_desktop.Proto.{Command, connect, disconnect, get_status, subscribe, ping, Event}
use voindns_desktop.Redirect.{DnsRedirector}
use voindns_desktop.Controller as Core
use voindns_desktop.Controller.{ProxyServer, Controller}
use voindns_desktop.Controller.Invariant.{IsValid, connect-IsValid, disconnect-IsValid}
use voindns_desktop.Ipc.Wire.{Wire, Codec}
use voindns_desktop.Ipc.Frame.{read_msg}
use voindns_desktop.Ipc.Server.{
  Channel, dispatch, Turn, incoming, update, Conn, Next, handle_conn, serve_command, Server, Step,
  accept, turn, Reach, here, next,
}

module _ (R : DnsRedirector) (P : ProxyServer) where
  -- What one turn can do to the controller.
  pub data Effect (c : Controller R P) (c' : Controller R P) : Type 0 where
    untouched : c' ≡ c → Effect c c'
    connects : (u : _) → c' ≡ (Core.connect R P u c).1 → Effect c c'
    disconnects : c' ≡ (Core.disconnect R P c).1 → Effect c c'

  dispatch-Effect :
      (Ch : Channel) (cmd : Command) (c : Controller R P) (sub : Option Ch.Receiver)
      → Effect c (dispatch R P Ch cmd c sub).1
  unfolding dispatch
  dispatch-Effect Ch ping c sub = untouched refl
  dispatch-Effect Ch get_status c sub = untouched refl
  dispatch-Effect Ch subscribe c sub = untouched refl
  dispatch-Effect Ch (connect u) c sub = connects u refl
  dispatch-Effect Ch disconnect c sub = disconnects refl

module _ (R : DnsRedirector) (P : ProxyServer) (W : Wire) (Ch : Channel) (commands : Codec Command)
    (events : Codec Event) where
  serve_command-Effect :
      (msg : Result Error (Option Command)) (conn : Conn W Ch) (c : Controller R P)
      → Effect R P c (serve_command R P W Ch commands events msg conn c).1
  unfolding serve_command
  serve_command-Effect (err e) conn c = untouched refl
  serve_command-Effect (ok none) conn c = untouched refl
  serve_command-Effect (ok (some cmd)) conn c = dispatch-Effect R P Ch cmd c conn.subscription

  pub handle_conn-Effect :
      (t : Turn) (conn : Conn W Ch) (c c' : Controller R P) (n : Next W Ch)
      → handle_conn R P W Ch commands events t conn c ≡ some (n, c')
      → Effect R P c c'
  unfolding handle_conn
  handle_conn-Effect incoming conn c c' n h =
      let (msg, r) = read_msg W commands conn.r in
      subst (λ x. Effect R P c x) (ap (λ p. p.1) (some-injective _ _ h))
        (serve_command-Effect msg (record conn { r = r }) c)
  handle_conn-Effect (update k) conn c c' n h = untouched (ground arith)

  module _ (Q : Controller R P → Type 0)
      (on_connect : (u : _) (c : Controller R P) → Q c → Q (Core.connect R P u c).1)
      (on_disconnect : (c : Controller R P) → Q c → Q (Core.disconnect R P c).1) where
    Effect_keeps : (c c' : Controller R P) → Effect R P c c' → Q c → Q c'
    Effect_keeps c c' (untouched e) q = rw e q
    Effect_keeps c c' (connects u e) q = rw e (on_connect u c q)
    Effect_keeps c c' (disconnects e) q = rw e (on_disconnect c q)

    Step_keeps :
        (s t : Server R P W Ch commands events)
        → Step R P W Ch commands events s t
        → Q s.controller
        → Q t.controller
    Step_keeps s t (accept conn fresh e) q = rw e q
    Step_keeps s t (turn i k conn n c found served e) q =
        rw e (Effect_keeps s.controller c (handle_conn-Effect k conn s.controller c n served) q)

    pub Reach_keeps :
        {s t : Server R P W Ch commands events}
        → Reach R P W Ch commands events s t
        → Q s.controller
        → Q t.controller
    Reach_keeps here q = q
    Reach_keeps (next r st) q = Step_keeps _ _ st (Reach_keeps r q)

  -- Whatever the connections send, however their turns interleave and however they fail, a
  -- well-formed controller stays well-formed.
  pub serve-IsValid :
      {s t : Server R P W Ch commands events}
      → Reach R P W Ch commands events s t
      → IsValid R P s.controller
      → IsValid R P t.controller
  serve-IsValid r v =
      Reach_keeps (IsValid R P) (connect-IsValid R P) (λ c _. disconnect-IsValid R P c) r v
