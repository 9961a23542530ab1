-- ===== src/Ipc/Endpoint.antt =====
-- The endpoint of the service: its name, and how `serve` takes it.
pub mod Meeting
mod Examples
use voindns_desktop.Base.{Option, none, some, Result, ok, err, Error, Text, IoError, from_io}
use voindns_desktop.Base.Io.{Io, ignore}
use voindns_desktop.Std.Platform.{Platform, windows, unix}
use voindns_desktop.Proto.{Command, Event, ipc_pipe_name, ipc_sock_path}
use voindns_desktop.Ipc.Wire.{Wire, Codec}
use voindns_desktop.Ipc.Client.{one_shot}
use voindns_desktop.Ipc.Socket.{Socket, read_write_for_all}

unfoldable pub default_name : Platform → Text
default_name windows = ipc_pipe_name
default_name unix = ipc_sock_path

-- `std::env::var("VOIDNS_SOCK")`, or what stands for it
abbrev pub or_default : Option Text → Text → Text
or_default none default = default
or_default (some s) default = s

module _ {W : Wire} (H : Socket W) where
  unfoldable pub endpoint_name : Platform → Option Text → Result IoError H.Name
  endpoint_name windows sock = H.to_ns_name (or_default sock (default_name windows))
  endpoint_name unix sock = H.to_fs_name (or_default sock (default_name unix))

  create_parent : Option Text → H.State → H.State
  create_parent none s = s
  create_parent (some d) s = ignore (H.create_dir_all d) s

  unfoldable pub prepare_unix_path : Option Text → H.State → H.State
  unfolding create_parent
  prepare_unix_path sock s =
      let path = or_default sock ipc_sock_path in
      ignore (H.remove_file path) (create_parent (H.parent path) s)

  unfoldable pub relax_socket_perms : Option Text → H.State → H.State
  relax_socket_perms sock s =
      ignore (H.set_mode (or_default sock ipc_sock_path) read_write_for_all) s

  -- the calls that only systems other than Windows make
  abbrev pub unless_windows : Platform → (H.State → H.State) → H.State → H.State
  unless_windows windows f s = s
  unless_windows unix f s = f s

  -- what `serve` does before its loop
  unfoldable pub listen : Platform → Option Text → Io H.State Error H.Listener
  unfolding prepare_unix_path relax_socket_perms
  listen platform sock s =
      let s1 = unless_windows platform (prepare_unix_path sock) s in
      elim (endpoint_name platform sock) [
        | err e ↦ (err (from_io e), s1)
        | ok name ↦
            let (made, s2) = H.create name s1 in
            elim made [
              | err e ↦ (err (from_io e), s2)
              | ok l ↦ (ok l, unless_windows platform (relax_socket_perms sock) s2)
            ]
      ]

  -- `LocalSocketStream::connect(endpoint_name()?).await?`
  unfoldable pub connection : Platform → Option Text → Io H.State IoError (W.Reader × W.Writer)
  connection platform sock s = elim (endpoint_name platform sock) [
    | err e ↦ (err e, s)
    | ok name ↦ H.connect name s
  ]

  -- `one_shot`, from its first line on
  unfoldable pub send :
      Codec Command → Codec Event → Platform → Option Text → Command → Io H.State Error Event
  unfolding connection
  send commands events platform sock cmd s =
      let (conn, s') = connection platform sock s in (one_shot W commands events conn cmd, s')
