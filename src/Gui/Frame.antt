-- ===== src/Gui/Frame.antt =====
-- crates/gui/src-tauri/src/ipc.rs, the framing and `one_shot`
use voindns_desktop.Base.{
  ℕ, ◌%◌, ◌^◌, ◌≡◌, refl, Option, none, some, length, Result, ok, err, IoError, io_other, is_eof,
  map_err, ok_or, arith, codes, if◌then◌else◌,
}
use voindns_desktop.Base.Io.{Io, pure, lift, ◌>>=◌, ◌>>◌}
use voindns_desktop.Proto.{Command, Event}
use voindns_desktop.Ipc.Wire.{Wire, Codec}
use voindns_desktop.Cli.Frame as Cli

module _ (W : Wire) {T : Type 0} (c : Codec T) where
  unfoldable pub write_msg : T → Io W.Writer IoError Unit
  write_msg msg = do
    buf ← lift (map_err io_other (c.to_vec msg))
    W.write_u32 (length buf % 2 ^ 32)
    W.write_all buf
    W.flush
    pure tt

  read_body : ℕ → Io W.Reader IoError (Option T)
  read_body len = do
    buf ← W.read_exact len
    v ← lift (map_err io_other (c.from_slice buf))
    pure (some v)

  after_len : Result IoError ℕ × W.Reader → Result IoError (Option T) × W.Reader
  unfolding read_body
  after_len (ok len, r) = read_body len r
  after_len (err e, r) = if is_eof e.kind then (ok none, r) else (err e, r)

  unfoldable pub read_msg : Io W.Reader IoError (Option T)
  unfolding after_len
  read_msg r = after_len (W.read_u32 r)

module _ (W : Wire) (commands : Codec Command) (events : Codec Event) where
  exchange : W.Reader → W.Writer → Command → Result IoError Event
  unfolding write_msg read_msg
  exchange r w cmd = elim (write_msg W commands cmd w).0 [
    | err e ↦ err e
    | ok _ ↦ elim (read_msg W events r).0 [
      | err e ↦ err e
      | ok reply ↦ ok_or (io_other (codes "service closed connection without replying")) reply
    ]
  ]

  unfoldable pub one_shot : Result IoError (W.Reader × W.Writer) → Command → Result IoError Event
  unfolding exchange
  one_shot (ok (r, w)) cmd = exchange r w cmd
  one_shot (err e) cmd = err e

module _ (W : Wire) {T : Type 0} (c : Codec T) where
  -- The GUI and the CLI make the same calls on a connection, with the same results, to write and to
  -- read a message.
  pub frame-eq-cli :
      ((msg : T) (w : W.Writer) → write_msg W c msg w ≡ Cli.write_msg W c msg w)
      × ((r : W.Reader) → read_msg W c r ≡ Cli.read_msg W c r)
  unfolding write_msg read_msg Cli.write_msg Cli.read_msg
  frame-eq-cli = ((λ msg w. refl), λ r. ground arith)
