-- ===== src/Ipc/Client.antt =====
-- crates/voidns-core/src/ipc.rs, "client". A connection is its two halves; what the service will
-- have sent on it is the reader's.
pub mod Exchange
pub mod Next
use voindns_desktop.Base.{
  ℕ, zero, suc, Option, none, some, Result, ok, err, Error, IoError, from_io, anyhow, map_err,
  ok_or, codes, ◌>>=◌,
}
use voindns_desktop.Proto.{Command, subscribe, Event, status, pong, Status}
use voindns_desktop.Ipc.Wire.{Wire, Codec}
use voindns_desktop.Ipc.Frame.{write_msg, read_msg}

module _ (W : Wire) (commands : Codec Command) (events : Codec Event) where
  -- `connected` is the result of `LocalSocketStream::connect`.
  unfoldable pub one_shot : Result IoError (W.Reader × W.Writer) → Command → Result Error Event
  one_shot connected cmd = do
    (r, w) ← map_err from_io connected
    _ ← (write_msg W commands cmd w).0
    reply ← (read_msg W events r).0
    ok_or (anyhow (codes "service closed connection without replying")) reply

  -- `Subscription::open`: the stream to read from
  unfoldable pub open_subscription : Result IoError (W.Reader × W.Writer) → Result Error W.Reader
  open_subscription connected = do
    (r, w) ← map_err from_io connected
    _ ← (write_msg W commands subscribe w).0
    ok r

-- What one pass of the loop of `Subscription::next` makes of a message; `none` is `continue`.
unfoldable pub next_result : Result Error (Option Event) → Option (Result Error (Option Status))
next_result (ok (some (status s))) = some (ok (some s))
next_result (ok (some pong)) = none
next_result (ok (some (Event.error message))) = none
next_result (ok none) = some (ok none)
next_result (err e) = some (err e)

module _ (W : Wire) (events : Codec Event) where
  -- `Subscription::next`; the fuel bounds the passes, and `none` means that it ran out.
  unfoldable pub next : ℕ → W.Reader → Option (Result Error (Option Status)) × W.Reader
  unfolding next_result
  next zero r = (none, r)
  next (suc fuel) r =
      let (msg, r') = read_msg W events r in
      elim (next_result msg) [ some result ↦ (some result, r') | none ↦ next fuel r' ]
