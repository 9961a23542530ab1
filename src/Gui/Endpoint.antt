-- ===== src/Gui/Endpoint.antt =====
-- crates/gui/src-tauri/src/ipc.rs: the endpoint that the GUI connects to.
use voindns_desktop.Base.{Option, none, some, Result, ok, err, Text, IoError}
use voindns_desktop.Base.Io.{Io}
use voindns_desktop.Std.Platform.{Platform, windows, unix}
use voindns_desktop.Proto.{Command, Event, ipc_pipe_name, ipc_sock_path}
use voindns_desktop.Ipc.Wire.{Wire, Codec}
use voindns_desktop.Ipc.Socket.{Socket}
use voindns_desktop.Gui.Frame.{one_shot}

unfoldable pub default_name : Platform → Text
default_name windows = ipc_pipe_name
default_name unix = ipc_sock_path

-- `VOIDNS_SOCK`, or the default
unfoldable pub name_text : Platform → Option Text → Text
unfolding default_name
name_text platform none = default_name platform
name_text platform (some s) = s

module _ {W : Wire} (H : Socket W) where
  -- the kind of name is the platform's
  unfoldable pub to_name : Platform → Text → Result IoError H.Name
  to_name windows name = H.to_ns_name name
  to_name unix name = H.to_fs_name name

  unfoldable pub endpoint_name : Platform → Option Text → Result IoError H.Name
  unfolding to_name name_text
  endpoint_name platform sock = to_name platform (name_text platform sock)

  -- `one_shot`, from its first line on
  unfoldable pub send :
      Codec Command → Codec Event → Platform → Option Text → Command → Io H.State IoError Event
  unfolding endpoint_name
  send commands events platform sock cmd s = elim (endpoint_name platform sock) [
    | err e ↦ (err (e), s)
    | ok name ↦ let (conn, s') = H.connect name s in (one_shot W commands events conn cmd, s')
  ]
