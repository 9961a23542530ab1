-- ===== src/Ipc/Frame.antt =====
-- crates/voidns-core/src/ipc.rs, "framing": a u32 big-endian length, then JSON.
pub mod RoundTrip
pub mod Truncation
pub mod Wrapped
mod Examples
pub mod Progress
use voindns_desktop.Base.{
  ℕ, ◌%◌, ◌^◌, Option, none, some, length, ok, err, Result, IoError, Error, is_eof, anyhow, from_io,
  map_err, if◌then◌else◌,
}
use voindns_desktop.Base.Io.{Io, pure, lift, with_err, ◌>>=◌, ◌>>◌}
use voindns_desktop.Ipc.Wire.{Wire, Codec}

module _ (W : Wire) {T : Type 0} (c : Codec T) where
  unfoldable pub write_msg : T → Io W.Writer Error Unit
  write_msg msg = do
    buf ← lift (map_err anyhow (c.to_vec msg))
    with_err from_io (W.write_u32 (length buf % 2 ^ 32))
    with_err from_io (W.write_all buf)
    with_err from_io W.flush
    pure tt

  -- the part of `read_msg` behind the length
  read_body : ℕ → Io W.Reader Error (Option T)
  read_body len = do
    buf ← with_err from_io (W.read_exact len)
    msg ← lift (map_err anyhow (c.from_slice buf))
    pure (some msg)

  after_len : Result IoError ℕ × W.Reader → Result Error (Option T) × W.Reader
  unfolding read_body
  after_len (ok len, r) = read_body len r
  after_len (err e, r) = if is_eof e.kind then (ok none, r) else (err (from_io e), r)

  -- An end of file inside the length counts as the peer having closed.
  unfoldable pub read_msg : Io W.Reader Error (Option T)
  unfolding after_len
  read_msg r = after_len (W.read_u32 r)
