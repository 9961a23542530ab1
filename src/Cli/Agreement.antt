-- ===== src/Cli/Agreement.antt =====
-- The CLI beside the service: the frames, the arguments, and how a command ends.
use voindns_desktop.Base.{
  ℕ, ◌<◌, ◌≡◌, ◌≢◌, refl, ◌↔◌, true, List, [], ◌∷◌, ◌++◌, Result, ok, err, Error, from_io, arith,
  Text, codes, text_eq,
}
use voindns_desktop.Base.Io.{with_err}
use voindns_desktop.Std.Decimal.{to_decimal, parse_u16-to_decimal}
use voindns_desktop.Proto.{
  UpstreamSel, voidns, cloudflare, google, quad9, custom, Command, Event, status, pong, ConnState,
  connected,
}
use voindns_desktop.Ipc.Wire.{Wire, Codec}
use voindns_desktop.Ipc.Frame as Core
use voindns_desktop.Cli as Cli
use voindns_desktop.Cli.{success, failure}
use voindns_desktop.Cli.Frame as Frame
use voindns_desktop.Service as Service
use voindns_desktop.Service.{returned, exited}

module _ (W : Wire) {T : Type 0} (c : Codec T) where
  -- The CLI writes a message exactly as the service's side does, with the same errors: the same
  -- calls, so the same bytes on the connection.
  pub write_msg-eq-core :
      (msg : T) (w : W.Writer)
      → with_err from_io (Frame.write_msg W c msg) w ≡ Core.write_msg W c msg w
  unfolding Frame.write_msg Core.write_msg
  write_msg-eq-core msg w = ground arith

  -- Reading a message is the same in the CLI as on the service's side on every connection, whatever
  -- arrives on it.
  pub read_msg-eq-core :
      (r : W.Reader) → with_err from_io (Frame.read_msg W c) r ≡ Core.read_msg W c r
  unfolding Frame.read_msg Core.read_msg
  read_msg-eq-core r = ground arith

parse_custom_eq : (args : List Text) → Service.parse_custom args ≡ Cli.parse_custom args
unfolding Service.parse_custom Cli.parse_custom
parse_custom_eq args = refl

-- The CLI and voidns-service connect accept the same arguments, and read the same upstream from
-- them; only the message of a refusal differs.
pub parse_upstream_agree :
    (args : List Text) (u : UpstreamSel)
    → (Service.parse_upstream args ≡ ok u) ↔ (Cli.parse_upstream args ≡ ok u)
unfolding Service.parse_upstream Cli.parse_upstream
parse_upstream_agree [] u = (λ h. cc, λ h. cc)
parse_upstream_agree (name ∷ rest) u = ground (arith, parse_custom_eq (name ∷ rest))

-- The arguments that name an upstream.
unfoldable pub spec : UpstreamSel → List Text
spec voidns = codes "voidns" ∷ []
spec cloudflare = codes "cloudflare" ∷ []
spec google = codes "google" ∷ []
spec quad9 = codes "quad9" ∷ []
spec (custom ip hostname path port) = codes "custom" ∷ ip ∷ hostname ∷ path ∷ to_decimal port ∷ []

abbrev pub HasPort : UpstreamSel → Type 0
HasPort (custom ip hostname path port) = port < 65536
HasPort voidns = Unit
HasPort cloudflare = Unit
HasPort google = Unit
HasPort quad9 = Unit

-- Every upstream with a 16-bit port can be given on the command line, and is read back as it is;
-- arguments behind it are ignored.
pub parse_upstream-spec :
    (u : UpstreamSel) (extra : List Text)
    → HasPort u
    → (Cli.parse_upstream (spec u ++ extra) ≡ ok u)
      × (Service.parse_upstream (spec u ++ extra) ≡ ok u)
unfolding Cli.parse_upstream Service.parse_upstream spec codes text_eq
parse_upstream-spec voidns extra h = (refl, refl)
parse_upstream-spec cloudflare extra h = (refl, refl)
parse_upstream-spec google extra h = (refl, refl)
parse_upstream-spec quad9 extra h = (refl, refl)
parse_upstream-spec (custom ip hostname path port) extra h =
    (rw (parse_u16-to_decimal port h), rw (parse_u16-to_decimal port h))

-- The exit code of the service's binary, and of the CLI.
abbrev pub service_code : Service.Ended → ℕ
service_code (returned (ok _)) = 0
service_code (returned (err e)) = 1
service_code (exited n) = n

abbrev pub cli_code : Result Error Cli.ExitCode → ℕ
cli_code (ok success) = 0
cli_code (ok failure) = 1
cli_code (err e) = 1

-- For the same command and the same reply, or failure of the exchange, voidns-service and the CLI
-- print the same lines to standard output and end with the same exit code.
pub ctl-run :
    (cmd : Command) (reply : Result Error Event)
    → ((Service.ctl cmd reply).stdout ≡ (Cli.run cmd reply).stdout)
      × (service_code (Service.ctl cmd reply).ended ≡ cli_code (Cli.run cmd reply).result)
unfolding Service.ctl Cli.run
ctl-run cmd (ok (status s)) = ground arith
ctl-run cmd (ok pong) = (refl, refl)
ctl-run cmd (ok (Event.error message)) = (refl, refl)
ctl-run cmd (err e) = (refl, refl)

-- What a script may take for success: a pong, or a status that is not an error and, for a connect,
-- is "connected".
abbrev pub IsSuccess : Command → Result Error Event → Type 0
IsSuccess cmd (ok (status s)) =
    (s.state ≢ ConnState.error) × (Service.is_connect cmd ≡ true → s.state ≡ connected)
IsSuccess cmd (ok pong) = Unit
IsSuccess cmd (ok (Event.error message)) = ⊥
IsSuccess cmd (err e) = ⊥

-- The CLI ends with exit code 0 exactly on a pong, or on a status that is not an error and, for a
-- connect, is "connected".
pub run-IsSuccess :
    (cmd : Command) (reply : Result Error Event)
    → (cli_code (Cli.run cmd reply).result ≡ 0) ↔ IsSuccess cmd reply
unfolding Cli.run
run-IsSuccess cmd (ok (status s)) = ground arith
run-IsSuccess cmd (ok pong) = (λ h. tt, λ h. refl)
run-IsSuccess cmd (ok (Event.error message)) = (λ h. absurd (omega arith), λ h. absurd h)
run-IsSuccess cmd (err e) = (λ h. absurd (omega arith), λ h. absurd h)
