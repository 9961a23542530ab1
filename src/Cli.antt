-- ===== src/Cli.antt =====
-- crates/voidns-cli/src/main.rs: the command-line client.
pub mod Frame
pub mod Endpoint
pub mod Agreement
pub mod Connected
use voindns_desktop.Base.{
  ℕ, Option, none, some, Bool, true, false, ◌&&◌, ◌||◌, not, List, [], ◌∷◌, ◌++◌, Result, ok, err,
  Error, anyhow, context, map_err, ok_or, display_chain, Text, codes, text_eq, if◌then◌else◌,
  get_elem?, ◌>>=◌,
}
use voindns_desktop.Std.Decimal.{parse_u16, parse_int_message}
use voindns_desktop.Proto.{
  UpstreamSel, voidns, cloudflare, google, quad9, custom, Command, connect, disconnect, get_status,
  ping, ConnState, Status, Event, status, pong,
}
use voindns_desktop.Service.{arg, debug_state, or_dash, is_connect, is_error, is_connected}

abbrev pub usage : Text
usage =
    codes
      "usage:\n  voidns connect <cloudflare|google|quad9|voidns|custom <ip> <hostname> <path> <port>>\n  voidns disconnect\n  voidns status\n  voidns ping"

unfoldable pub parse_custom : List Text → Result Error UpstreamSel
parse_custom args = do
  ip ← arg (codes "custom: missing <ip>") args 1
  hostname ← arg (codes "custom: missing <hostname>") args 2
  path ← arg (codes "custom: missing <path>") args 3
  port ← arg (codes "custom: missing <port>") args 4
  n ←
      context (codes "custom: invalid <port>")
        (map_err (λ e. anyhow (parse_int_message e)) (parse_u16 port))
  ok (custom ip hostname path n)

unfoldable pub parse_upstream : List Text → Result Error UpstreamSel
unfolding parse_custom
parse_upstream [] = err (anyhow (codes "connect: missing upstream\n\n" ++ usage))
parse_upstream (name ∷ rest) =
    if text_eq name (codes "cloudflare")
    then ok cloudflare
    else if text_eq name (codes "google")
    then ok google
    else if text_eq name (codes "quad9")
    then ok quad9
    else if text_eq name (codes "voidns")
    then ok voidns
    else if text_eq name (codes "custom")
    then parse_custom (name ∷ rest)
    else err (anyhow (codes "connect: missing upstream\n\n" ++ usage))

-- `ExitCode`
pub data ExitCode : Type 0 where
  success failure : ExitCode

-- What is printed to standard output and to standard error, and the result.
pub record Run : Type 0 where
  pub stdout : List Text
  pub stderr : List Text
  pub result : Result Error ExitCode

unfoldable pub status_line : Status → Text
status_line s =
    codes "state="
    ++ (debug_state s.state
        ++ (codes " upstream="
            ++ (or_dash s.upstream
                ++ (codes " listen="
                    ++ (or_dash s.listen ++ (codes " error=" ++ or_dash s.error))))))

unfoldable pub run_event : Bool → Event → Run
unfolding status_line
run_event connecting (status s) =
    let bad = is_error s.state || (connecting && not (is_connected s.state)) in
    record {
      stdout = status_line s ∷ [];
      stderr = [];
      result = ok (if bad then failure else success);
    }
run_event connecting pong = record { stdout = codes "pong" ∷ []; stderr = []; result = ok success }
run_event connecting (Event.error message) = record {
  stdout = [];
  stderr = (codes "error: " ++ message) ∷ [];
  result = ok failure;
}

-- `run`, where `reply` is what `one_shot(&cmd)` gave
unfoldable pub run : Command → Result Error Event → Run
unfolding run_event
run cmd (ok event) = run_event (is_connect cmd) event
run cmd (err e) = record { stdout = []; stderr = []; result = err e }

-- What the arguments ask for.
pub data Request : Type 0 where
  send : Command → Request
  print_usage : Request

-- the `match` of `dispatch`; `args` has the program's name first
unfoldable pub request : List Text → Result Error Request
unfolding parse_upstream
request [] = ok print_usage
request (program ∷ []) = ok print_usage
request (program ∷ verb ∷ rest) =
    if text_eq verb (codes "connect")
    then (do upstream ← parse_upstream rest; ok (send (connect upstream)))
    else if text_eq verb (codes "disconnect")
    then ok (send disconnect)
    else if text_eq verb (codes "status")
    then ok (send get_status)
    else if text_eq verb (codes "ping")
    then ok (send ping)
    else if text_eq verb (codes "-h")
        || text_eq verb (codes "--help")
        || text_eq verb (codes "help")
    then ok print_usage
    else err (anyhow (codes "unknown command `" ++ (verb ++ (codes "`\n\n" ++ usage))))

-- `dispatch`, with the service's reply to each command
unfoldable pub dispatch : (Command → Result Error Event) → List Text → Run
unfolding request run
dispatch one_shot args = elim (request args) [
  | err e ↦ record { stdout = []; stderr = []; result = err e }
  | ok print_usage ↦ record { stdout = usage ∷ []; stderr = []; result = ok success }
  | ok (send cmd) ↦ run cmd (one_shot cmd)
]

-- `main`: the exit code, and standard error with the message of an error that came up
unfoldable pub main : (Command → Result Error Event) → List Text → ExitCode × Run
unfolding dispatch
main one_shot args =
    let r = dispatch one_shot args in
    elim r.result [
      | ok code ↦ (code, r)
      | err e ↦
          (failure, record r { stderr = r.stderr ++ (codes "error: " ++ display_chain e) ∷ [] })
    ]
