-- ===== src/Cli/Frame.antt =====
-- crates/voidns-cli/src/main.rs: the IPC client.
use voindns_desktop.Base.{
  ℕ, ◌%◌, ◌^◌, Option, none, some, length, Result, ok, err, IoError, io_other, Error, is_eof,
  anyhow, from_io, map_err, ok_or, codes, if◌then◌else◌, [], ◌∷◌,
}
use voindns_desktop.Base.Io.{Io, pure, lift, ◌>>=◌, ◌>>◌}
use voindns_desktop.Proto.{Command, Event}
use voindns_desktop.Ipc.Wire.{Wire, Codec}

module _ (W : Wire) {T : Type 0} (c : Codec T) where
  unfoldable pub write_msg : T → Io W.Writer IoError Unit
  write_msg msg = do
    buf ← lift (map_err io_other (c.to_vec msg))
    W.write_u32 (length buf % 2 ^ 32)
    W.write_all buf
    W.flush
    pure tt

  read_body : ℕ → Io W.Reader IoError (Option T)
  read_body len = do
    buf ← W.read_exact len
    v ← lift (map_err io_other (c.from_slice buf))
    pure (some v)

  after_len : Result IoError ℕ × W.Reader → Result IoError (Option T) × W.Reader
  unfolding read_body
  after_len (ok len, r) = read_body len r
  after_len (err e, r) = if is_eof e.kind then (ok none, r) else (err e, r)

  unfoldable pub read_msg : Io W.Reader IoError (Option T)
  unfolding after_len
  read_msg r = after_len (W.read_u32 r)

-- `one_shot`, where `connected` is the result of `LocalSocketStream::connect`
module _ (W : Wire) (commands : Codec Command) (events : Codec Event) where
  exchange : W.Reader → W.Writer → Command → Result Error Event
  unfolding write_msg read_msg
  exchange r w cmd = elim (map_err from_io (write_msg W commands cmd w).0) [
    | err e ↦ err e
    | ok _ ↦ elim (map_err from_io (read_msg W events r).0) [
      | err e ↦ err e
      | ok reply ↦ ok_or (anyhow (codes "service closed connection without replying")) reply
    ]
  ]

  unfoldable pub one_shot : Result IoError (W.Reader × W.Writer) → Command → Result Error Event
  unfolding exchange
  one_shot (ok (r, w)) cmd = exchange r w cmd
  one_shot (err e) cmd =
      err (codes "voidns-service unreachable (is it installed and running?)" ∷ e.message ∷ [])
