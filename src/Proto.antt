-- ===== src/Proto.antt =====
-- crates/voidns-proto/src/lib.rs: the types that the GUI, the CLI and the service exchange.
use voindns_desktop.Base.{ℕ, Option, none, Text, codes}

-- `DEFAULT_PROXY_PORT`
abbrev pub default_proxy_port : ℕ
default_proxy_port = 53

-- `IPC_PIPE_NAME`, `IPC_SOCK_PATH`
abbrev pub ipc_pipe_name : Text
ipc_pipe_name = codes "voidns-service"

abbrev pub ipc_sock_path : Text
ipc_sock_path = codes "/run/voidns/control.sock"

pub data UpstreamSel : Type 0 where
  voidns cloudflare google quad9 : UpstreamSel
  -- ip, hostname, path, port
  custom : Text → Text → Text → ℕ → UpstreamSel

-- `UpstreamSel::label`
unfoldable pub label : UpstreamSel → Text
label voidns = codes "voidns"
label cloudflare = codes "Cloudflare"
label google = codes "Google"
label quad9 = codes "Quad9"
label (custom ip hostname path port) = hostname

pub data Command : Type 0 where
  connect : UpstreamSel → Command
  disconnect get_status subscribe ping : Command

pub data ConnState : Type 0 where
  disconnected connecting connected error : ConnState

pub record Status : Type 0 where
  pub state : ConnState
  pub upstream : Option Text
  pub listen : Option Text
  pub error : Option Text

-- `Status::disconnected`
abbrev pub status_disconnected : Status
status_disconnected = record {
  state = ConnState.disconnected;
  upstream = none;
  listen = none;
  error = none;
}

pub data Event : Type 0 where
  status : Status → Event
  pong : Event
  error : Text → Event
