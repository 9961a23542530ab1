-- ===== src/Service.antt =====
-- crates/voidns-service/src/main.rs: the arguments, the control commands and the daemon.
pub mod Daemon
pub mod Launch
pub mod Scm
pub mod Shutdown
pub mod Covered
pub mod Program
mod Examples
use voindns_desktop.Base.{
  ℕ, zero, suc, Option, none, some, Bool, true, false, ◌&&◌, ◌||◌, not, List, [], ◌∷◌, ◌++◌, Result,
  ok, err, Error, anyhow, context, map_err, ok_or, Text, codes, text_eq, if◌then◌else◌, get_elem?,
  drop, ◌>>=◌,
}
use voindns_desktop.Std.Decimal.{parse_u16, parse_int_message}
use voindns_desktop.Proto.{
  UpstreamSel, voidns, cloudflare, google, quad9, custom, Command, connect, disconnect, get_status,
  subscribe, ping, ConnState, disconnected, connecting, connected, Status, Event, status, pong,
  default_proxy_port,
}

-- `args.get(i).context(message)?`
abbrev pub arg : Text → List Text → ℕ → Result Error Text
arg message args i = ok_or (anyhow message) (get_elem? args i)

-- the fields of `UpstreamSel::Custom`, read in the order in which they are written
unfoldable pub parse_custom : List Text → Result Error UpstreamSel
parse_custom args = do
  ip ← arg (codes "custom: missing <ip>") args 1
  hostname ← arg (codes "custom: missing <hostname>") args 2
  path ← arg (codes "custom: missing <path>") args 3
  port ← arg (codes "custom: missing <port>") args 4
  n ←
      context (codes "custom: invalid <port>")
        (map_err (λ e. anyhow (parse_int_message e)) (parse_u16 port))
  ok (custom ip hostname path n)

abbrev pub usage : Text
usage =
    codes
      "usage: voidns-service connect <cloudflare|google|quad9|voidns|custom <ip> <hostname> <path> <port>>"

unfoldable pub parse_upstream : List Text → Result Error UpstreamSel
unfolding parse_custom
parse_upstream [] = err (anyhow usage)
parse_upstream (name ∷ rest) =
    if text_eq name (codes "cloudflare")
    then ok cloudflare
    else if text_eq name (codes "google")
    then ok google
    else if text_eq name (codes "quad9")
    then ok quad9
    else if text_eq name (codes "voidns")
    then ok voidns
    else if text_eq name (codes "custom")
    then parse_custom (name ∷ rest)
    else err (anyhow usage)

-- `{:?}` of the state
unfoldable pub debug_state : ConnState → Text
debug_state disconnected = codes "Disconnected"
debug_state connecting = codes "Connecting"
debug_state connected = codes "Connected"
debug_state ConnState.error = codes "Error"

abbrev pub or_dash : Option Text → Text
or_dash none = codes "-"
or_dash (some t) = t

-- the line that reports a status
unfoldable pub status_line : Status → Text
status_line s =
    codes "state="
    ++ (debug_state s.state
        ++ (codes " upstream="
            ++ (or_dash s.upstream
                ++ (codes " listen="
                    ++ (or_dash s.listen ++ (codes " error=" ++ or_dash s.error))))))

abbrev pub is_connect : Command → Bool
is_connect (connect u) = true
is_connect disconnect = false
is_connect get_status = false
is_connect subscribe = false
is_connect ping = false

abbrev pub is_error : ConnState → Bool
is_error disconnected = false
is_error connecting = false
is_error connected = false
is_error ConnState.error = true

abbrev pub is_connected : ConnState → Bool
is_connected disconnected = false
is_connected connecting = false
is_connected connected = true
is_connected ConnState.error = false

-- How a program ends: by returning from `main`, or by `std::process::exit`.
pub data Ended : Type 0 where
  returned : Result Error (Unit {0}) → Ended
  exited : ℕ → Ended

-- What it has printed to standard output and to standard error by then.
pub record Run : Type 0 where
  pub stdout : List Text
  pub stderr : List Text
  pub ended : Ended

unfoldable pub ctl_event : Bool → Event → Run
unfolding status_line
ctl_event connecting' (status s) = record {
  stdout = status_line s ∷ [];
  stderr = [];
  ended =
      if is_error s.state || (connecting' && not (is_connected s.state))
      then exited 1
      else returned (ok tt);
}
ctl_event connecting' pong = record {
  stdout = codes "pong" ∷ [];
  stderr = [];
  ended = returned (ok tt);
}
ctl_event connecting' (Event.error message) = record {
  stdout = [];
  stderr = (codes "error: " ++ message) ∷ [];
  ended = exited 1;
}

-- `ctl`, where `reply` is what `ipc::one_shot(&cmd)` gave
unfoldable pub ctl : Command → Result Error Event → Run
unfolding ctl_event
ctl cmd (ok event) = ctl_event (is_connect cmd) event
ctl cmd (err e) = record { stdout = []; stderr = []; ended = returned (err e) }

-- What the arguments ask for.
pub data Mode : Type 0 where
  control : Command → Mode
  run : Mode

-- the `match` of `main`; `args` has the program's name first
unfoldable pub mode : List Text → Result Error Mode
unfolding parse_upstream
mode [] = ok run
mode (program ∷ []) = ok run
mode (program ∷ verb ∷ rest) =
    if text_eq verb (codes "connect")
    then (do upstream ← parse_upstream rest; ok (control (connect upstream)))
    else if text_eq verb (codes "disconnect")
    then ok (control disconnect)
    else if text_eq verb (codes "status")
    then ok (control get_status)
    else ok run
