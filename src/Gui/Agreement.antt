-- ===== src/Gui/Agreement.antt =====
-- The three programs speak the same frames.
use voindns_desktop.Base.{◌≡◌, ◌∙◌, ap, Result, Option, IoError, from_io, map_err}
use voindns_desktop.Base.Io.{with_err}
use voindns_desktop.Ipc.Wire.{Wire, Codec}
use voindns_desktop.Ipc.Frame as Core
use voindns_desktop.Cli.Frame as Cli
use voindns_desktop.Cli.Agreement.{read_msg-eq-core, write_msg-eq-core}
use voindns_desktop.Gui.Frame as Gui
use voindns_desktop.Gui.Frame.{frame-eq-cli}

module _ (W : Wire) {T : Type 0} (c : Codec T) where
  -- On every connection, the CLI and the GUI write and read a message exactly as the service does,
  -- with the same errors in its form.
  pub frames-eq-core :
      (msg : T) (w : W.Writer) (r : W.Reader)
      → (with_err from_io (Cli.write_msg W c msg) w ≡ Core.write_msg W c msg w)
        × (with_err from_io (Gui.write_msg W c msg) w ≡ Core.write_msg W c msg w)
        × (with_err from_io (Cli.read_msg W c) r ≡ Core.read_msg W c r)
        × (with_err from_io (Gui.read_msg W c) r ≡ Core.read_msg W c r)
  frames-eq-core msg w r = (
    write_msg-eq-core W c msg w,
    ap (λ (t : Result IoError (Unit {0}) × W.Writer). (map_err from_io t.0, t.1))
          ((frame-eq-cli W c).0 msg w)
        ∙ write_msg-eq-core W c msg w,
    read_msg-eq-core W c r,
    ap (λ (t : Result IoError (Option T) × W.Reader). (map_err from_io t.0, t.1))
          ((frame-eq-cli W c).1 r)
        ∙ read_msg-eq-core W c r,
  )
