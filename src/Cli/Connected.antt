-- ===== src/Cli/Connected.antt =====
-- `voidns connect …`, `voidns-service connect …` and the GUI's button, from the arguments through
-- the service to what the user is told.
pub mod Fixtures
mod Examples
use voindns_desktop.Base.{
  ◌≡◌, refl, sym, ◌∙◌, ap, ◌<◌, ◌^◌, ◌↔◌, ◌⊎◌, inl, inr, Result-cases, true, false, List, ◌∷◌, ◌++◌,
  length, some, Result, ok, err, Error, IoError, from_io, map_err, Text, codes, text_eq, arith,
}
use voindns_desktop.Std.Net.{localhost}
use voindns_desktop.Proto.{UpstreamSel, Command, connect, Event, status, Status, connected}
use voindns_desktop.Redirect.{DnsRedirector}
use voindns_desktop.Controller as Core
use voindns_desktop.Controller.{ProxyServer, Controller, listen_addr, is_busy}
use voindns_desktop.Controller.Broadcast.{tx-connect, connect-connected}
use voindns_desktop.Ipc.Wire.{Wire, WireLaws, Codec, IsLossless, Bytes}
use voindns_desktop.Ipc.Frame.{write_msg, read_msg}
use voindns_desktop.Ipc.Server.{Channel, incoming, Conn, again, handle_conn, dispatch}
use voindns_desktop.Ipc.Client.{one_shot}
use voindns_desktop.Ipc.Client.Exchange.{IsSmall, one_shot-handle_conn}
use voindns_desktop.Cli as Cli
use voindns_desktop.Cli.{success, failure}
use voindns_desktop.Cli.Frame as CliFrame
use voindns_desktop.Cli.Agreement.{
  spec, HasPort, parse_upstream-spec, service_code, cli_code, ctl-run, IsSuccess, run-IsSuccess,
}
use voindns_desktop.Gui as Gui
use voindns_desktop.Gui.Frame as GuiFrame
use voindns_desktop.Service as Service
use voindns_desktop.Service.Program as Program

module _ (W : Wire) (commands : Codec Command) (events : Codec Event) where
  -- On an open connection the three clients make the same exchange.
  pub one_shot-agree :
      (r : W.Reader) (w : W.Writer) (cmd : Command)
      → (CliFrame.one_shot W commands events (ok (r, w)) cmd
          ≡ one_shot W commands events (ok (r, w)) cmd)
        × (map_err from_io (GuiFrame.one_shot W commands events (ok (r, w)) cmd)
            ≡ one_shot W commands events (ok (r, w)) cmd)
  unfolding CliFrame.one_shot CliFrame.write_msg CliFrame.read_msg GuiFrame.one_shot
      GuiFrame.write_msg GuiFrame.read_msg one_shot write_msg read_msg
  one_shot-agree r w cmd = (ground arith, ground arith)

abbrev pub connect_args : Text → UpstreamSel → List Text → List Text
connect_args program u extra = program ∷ codes "connect" ∷ (spec u ++ extra)

request-connect :
    (program : Text) (u : UpstreamSel) (extra : List Text)
    → HasPort u
    → Cli.request (connect_args program u extra) ≡ ok (Cli.send (connect u))
unfolding Cli.request codes text_eq
request-connect program u extra port = rw ((parse_upstream-spec u extra port).0, Cli.request) refl

code_is_success : (code : Cli.ExitCode) → (code ≡ success) ↔ (cli_code (ok code) ≡ 0)
code_is_success success = (λ h. refl, λ h. refl)
code_is_success failure = (λ h. absurd cc, λ h. absurd (omega arith))

main_run :
    (reply : Command → Result Error Event) (args : List Text) (cmd : Command)
    → Cli.request args ≡ ok (Cli.send cmd)
    → ((Cli.main reply args).0 ≡ success) ↔ (cli_code (Cli.run cmd (reply cmd)).result ≡ 0)
unfolding Cli.main Cli.dispatch
main_run reply args cmd asked = elim (Result-cases (Cli.run cmd (reply cmd)).result) [
  | inl (code, e) ↦ rw (asked, Cli.main, Cli.dispatch, e) (code_is_success code)
  | inr (x, e) ↦ rw (asked, Cli.main, Cli.dispatch, e) (λ h. absurd cc, λ h. absurd (omega arith))
]

-- A connect is a success exactly when the answer is the status "connected".
IsSuccess-connect :
    (u : UpstreamSel) (s : Status) → IsSuccess (connect u) (ok (status s)) ↔ (s.state ≡ connected)
IsSuccess-connect u s = (λ h. h.1 refl, λ e. (λ e'. absurd cc, λ _. e))

run_status :
    (u : UpstreamSel) (s : Status) (reply : Result Error Event)
    → reply ≡ ok (status s)
    → (cli_code (Cli.run (connect u) reply).result ≡ 0) ↔ (s.state ≡ connected)
run_status u s reply e = rw e (
  λ h. (IsSuccess-connect u s).0 ((run-IsSuccess (connect u) (ok (status s))).0 h),
  λ h. (run-IsSuccess (connect u) (ok (status s))).1 ((IsSuccess-connect u s).1 h),
)

mode-connect :
    (program : Text) (u : UpstreamSel) (extra : List Text)
    → HasPort u
    → Service.mode (connect_args program u extra) ≡ ok (Service.control (connect u))
unfolding Service.mode codes text_eq
mode-connect program u extra port = rw ((parse_upstream-spec u extra port).1, Service.mode) refl

-- The service's program, told to connect, makes that exchange and does not start the daemon.
service-connect :
    {A : Type 0} (reply : Command → Result Error Event) (daemon : A → Result Error (Unit {0}) × A)
    (program : Text) (u : UpstreamSel) (extra : List Text) (a : A)
    → HasPort u
    → Program.main (ok tt) reply daemon (connect_args program u extra) a
      ≡ (Service.ctl (connect u) (reply (connect u)), a)
unfolding Program.main Program.block_on
service-connect reply daemon program u extra a port =
    rw (mode-connect program u extra port, Program.main) refl

shown :
    (u : UpstreamSel) (s : Status) (reply : Command → Result IoError Event)
    → map_err from_io (reply (connect u)) ≡ ok (status s)
    → Gui.connect_command reply u ≡ ok s
unfolding Gui.connect_command
shown u s reply e = elim (Result-cases (reply (connect u))) [
  | inl (event, got) ↦
      let same : event ≡ status s = (let h = rw got at e in cc) in
      rw (got, Gui.connect_command, same) refl
  | inr (x, got) ↦ absurd (let h = rw got at e in cc)
]

module _ (R : DnsRedirector) (P : ProxyServer) (W : Wire) (L : WireLaws W) (Ch : Channel)
    (commands : Codec Command) (events : Codec Event) where
  -- Whichever client asks for an upstream with a 16-bit port: with lossless codecs whose texts stay
  -- under 4 GiB, when the write of a connect succeeds, its bytes arrive first on the service's
  -- connection, a turn of handle_conn there goes on, and the bytes of its reply arrive first at the
  -- client, then voidns, with arguments that name the upstream, exits with code 0 exactly when the
  -- controller is left connected; so does voidns-service with these arguments, once its runtime is
  -- built, and it starts no daemon; the GUI shows the status of that controller; and it is left
  -- connected exactly when it was, or it was not busy, the proxy started and the redirection
  -- succeeded.
  pub clients_connect :
      IsLossless commands
      → IsLossless events
      → IsSmall commands
      → IsSmall events
      → {A : Type 0} (daemon : A → Result Error (Unit {0}) × A) (a : A) (program : Text)
        (u : UpstreamSel) (extra : List Text) (r : W.Reader) (w : W.Writer) (conn conn' : Conn W Ch)
        (c c' : Controller R P) (request more answer behind : Bytes)
      → HasPort u
      → (write_msg W commands (connect u) w).0 ≡ ok tt
      → L.sent (write_msg W commands (connect u) w).1 ≡ L.sent w ++ request
      → L.pending conn.r ≡ request ++ more
      → handle_conn R P W Ch commands events incoming conn c ≡ some (again conn', c')
      → L.sent conn'.w ≡ L.sent conn.w ++ answer
      → L.pending r ≡ answer ++ behind
      → (((Cli.main
              (CliFrame.one_shot W commands events (ok (r, w)))
              (connect_args program u extra)).0
            ≡ success)
          ↔ (c'.status.state ≡ connected))
        × ((service_code
                (Program.main
                  (ok tt)
                  (one_shot W commands events (ok (r, w)))
                  daemon
                  (connect_args program u extra)
                  a).0.ended
              ≡ 0)
            ↔ (c'.status.state ≡ connected))
        × ((Program.main
              (ok tt)
              (one_shot W commands events (ok (r, w)))
              daemon
              (connect_args program u extra)
              a).1
            ≡ a)
        × (Gui.connect_command (GuiFrame.one_shot W commands events (ok (r, w))) u ≡ ok c'.status)
        × ((c'.status.state ≡ connected) ↔ (
            (c.status.state ≡ connected)
            ⊎ ((is_busy c.status.state ≡ false)
                × ((p : P.Proxy) × ((P.start (listen_addr R P c) u c.net).0 ≡ ok p))
                × ((R.apply localhost c.redirector).0 ≡ ok tt))))
  unfolding dispatch
  clients_connect lc le sc se daemon a program u extra r w conn conn' c c' request more answer
        behind port written put arrived served answered returned =
      let (reply, same, _) =
        one_shot-handle_conn R P W L Ch commands events lc le sc se (connect u) r w conn conn' c c'
          request more answer behind written put arrived served answered returned in
      let (answers, _, _) = tx-connect R P u c in
      let left : c'.status ≡ (Core.connect R P u c).0 = ap (λ d. d.status) same ∙ sym answers in
      let told = reply ∙ ap (λ s. ok (status s)) (sym left) in
      let (cli, gui) = one_shot-agree W commands events r w (connect u) in
      let (to, from) =
        main_run (CliFrame.one_shot W commands events (ok (r, w))) (connect_args program u extra)
          (connect u) (request-connect program u extra port) in
      let prog =
        service-connect (one_shot W commands events (ok (r, w))) daemon program u extra a port in
      let (to', from') = run_status u c'.status _ (cli ∙ told) in
      (
        (λ h. to' (to h), λ h. from (from' h)),
        rw (ap (λ x. x.0) prog) (
            rw (ctl-run (connect u) (one_shot W commands events (ok (r, w)) (connect u))).1
              (run_status u c'.status _ told)),
        ap (λ x. x.1) prog,
        shown u c'.status _ (gui ∙ told),
        rw left (connect-connected R P u c),
      )
