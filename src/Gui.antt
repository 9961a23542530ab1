-- ===== src/Gui.antt =====
-- crates/gui/src-tauri/src: the unprivileged client of the GUI.
pub mod Frame
pub mod Endpoint
pub mod Stream
pub mod Agreement
pub mod Live
pub mod Reconnect
pub mod Window
mod Examples
use voindns_desktop.Base.{
  Option, none, some, Bool, true, false, List, [], ◌∷◌, ◌++◌, Result, ok, err, IoError, Text, codes,
}
use voindns_desktop.Proto.{
  UpstreamSel, Command, connect, disconnect, get_status, Event, status, pong, Status,
}

-- `into_status` (lib.rs)
unfoldable pub into_status : Result IoError Event → Result Text Status
into_status (ok (status s)) = ok s
into_status (ok (Event.error message)) = err message
into_status (ok pong) = err (codes "unexpected reply from service")
into_status (err e) = err (codes "voidns-service unreachable: " ++ e.message)

-- The commands that the webview invokes (lib.rs), with the service's reply to each command.
module _ (one_shot : Command → Result IoError Event) where
  unfoldable pub connect_command : UpstreamSel → Result Text Status
  unfolding into_status
  connect_command upstream = into_status (one_shot (connect upstream))

  unfoldable pub disconnect_command : Result Text Status
  unfolding into_status
  disconnect_command = into_status (one_shot disconnect)

  unfoldable pub get_status_command : Result Text Status
  unfolding into_status
  get_status_command = into_status (one_shot get_status)
