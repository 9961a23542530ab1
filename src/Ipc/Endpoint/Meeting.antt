-- ===== src/Ipc/Endpoint/Meeting.antt =====
-- The service and its clients meet.
use voindns_desktop.Base.{◌≡◌, refl, Option, none, some, Text}
use voindns_desktop.Std.Platform.{Platform, windows, unix}
use voindns_desktop.Ipc.Wire.{Wire}
use voindns_desktop.Ipc.Client as Client
use voindns_desktop.Ipc.Socket.{Socket, SocketLaws}
use voindns_desktop.Ipc.Endpoint.{endpoint_name, prepare_unix_path, default_name}
use voindns_desktop.Cli.Endpoint as Cli
use voindns_desktop.Cli.Frame as CliFrame
use voindns_desktop.Gui.Endpoint as Gui
use voindns_desktop.Gui.Frame as GuiFrame

module _ {W : Wire} (H : Socket W) where
  -- The three programs name the same endpoint.
  pub endpoint_name-agree :
      (platform : Platform) (sock : Option Text)
      → (Cli.endpoint_name H platform sock ≡ endpoint_name H platform sock)
        × (Gui.endpoint_name H platform sock ≡ endpoint_name H platform sock)
  unfolding endpoint_name default_name Cli.endpoint_name Cli.to_name Cli.name_text Cli.default_name
      Gui.endpoint_name Gui.to_name Gui.name_text Gui.default_name
  endpoint_name-agree windows none = (refl, refl)
  endpoint_name-agree windows (some s) = (refl, refl)
  endpoint_name-agree unix none = (refl, refl)
  endpoint_name-agree unix (some s) = (refl, refl)

  module _ (L : SocketLaws H) where
    abbrev prepared : Option Text → H.State → H.State
    prepared sock s = prepare_unix_path H sock s
