-- ===== src/Gui/Stream.antt =====
-- crates/gui/src-tauri/src/ipc.rs, `subscribe_once`: what reaches the webview.
use voindns_desktop.Base.{
  ℕ, zero, suc, ◌<◌, ◌^◌, ◌≡◌, refl, sym, ◌∙◌, ap, Option, none, some, List, [], ◌∷◌, ◌++◌,
  append_assoc, append-nil, length, Result, ok, err, IoError, unexpected_eof, from_io, map_err,
  arith,
}
use voindns_desktop.Base.Io.{with_err}
use voindns_desktop.Proto.{Command, subscribe, Event, status, pong, Status}
use voindns_desktop.Ipc.Wire.{Wire, WireLaws, Codec, IsLossless, Bytes}
use voindns_desktop.Ipc.Frame as Core
use voindns_desktop.Ipc.Frame.Progress.{read_msg-progress}
use voindns_desktop.Ipc.Frame.RoundTrip.{frame, read_msg-frame}
use voindns_desktop.Ipc.Frame.Truncation.{read_msg_short}
use voindns_desktop.Ipc.Client.Next.{Encoded}
use voindns_desktop.Cli.Agreement.{read_msg-eq-core}
use voindns_desktop.Gui.Frame.{write_msg, read_msg, frame-eq-cli}

-- What one message means for the loop: an event to emit, nothing, or its end.
pub data Pass : Type 0 where
  emit : Status → Pass
  skip : Pass
  finish : Result IoError (Unit {0}) → Pass

unfoldable pub pass : Result IoError (Option Event) → Pass
pass (ok (some (status s))) = emit s
pass (ok (some pong)) = skip
pass (ok (some (Event.error message))) = skip
pass (ok none) = finish (ok tt)
pass (err e) = finish (err e)

module _ (W : Wire) (events : Codec Event) where
  -- The loop, with the statuses emitted so far; `none` means that the fuel ran out.
  unfoldable pub stream_loop :
      ℕ → W.Reader → List Status → Option (List Status × Result IoError (Unit {0}))
  unfolding pass
  stream_loop zero r emitted = none
  stream_loop (suc fuel) r emitted =
      let (msg, r') = read_msg W events r in
      elim (pass msg) [
        | emit s ↦ stream_loop fuel r' (emitted ++ s ∷ [])
        | skip ↦ stream_loop fuel r' emitted
        | finish result ↦ some (emitted, result)
      ]

module _ (W : Wire) (commands : Codec Command) (events : Codec Event) where
  unfoldable pub subscribe_once :
      ℕ → Result IoError (W.Reader × W.Writer) → Option (List Status × Result IoError (Unit {0}))
  unfolding stream_loop
  subscribe_once fuel (err e) = some ([], err e)
  subscribe_once fuel (ok (r, w)) = elim (write_msg W commands subscribe w).0 [
    | err e ↦ some ([], err e)
    | ok _ ↦ stream_loop W events fuel r []
  ]

-- The statuses among the events of a stream, in order.
unfoldable pub statuses : List Event → List Status
statuses [] = []
statuses (status s ∷ es) = s ∷ statuses es
statuses (pong ∷ es) = statuses es
statuses (Event.error message ∷ es) = statuses es

data PassCases (x : Result IoError (Option Event)) : Type 0 where
  ends : (result : Result IoError (Unit {0})) → pass x ≡ finish result → PassCases x
  emits : (s : Status) → pass x ≡ emit s → x ≡ ok (some (status s)) → PassCases x
  skips : (e : Event) → pass x ≡ skip → x ≡ ok (some e) → PassCases x

pass-cases : (x : Result IoError (Option Event)) → PassCases x
unfolding pass
pass-cases (ok (some (status s))) = emits s refl refl
pass-cases (ok (some pong)) = skips pong refl refl
pass-cases (ok (some (Event.error message))) = skips (Event.error message) refl refl
pass-cases (ok none) = ends (ok tt) refl
pass-cases (err e) = ends (err e) refl

module _ (W : Wire) (L : WireLaws W) (events : Codec Event) where
  read_msg-core : (r : W.Reader) → with_err from_io (read_msg W events) r ≡ Core.read_msg W events r
  read_msg-core r =
      ap (λ (t : Result IoError (Option Event) × W.Reader). (map_err from_io t.0, t.1))
        ((frame-eq-cli W events).1 r)
      ∙ read_msg-eq-core W events r

  ok_of_map_err :
      (x : Result IoError (Option Event)) (y : Option Event) → map_err from_io x ≡ ok y → x ≡ ok y
  ok_of_map_err (ok z) y h = ground (arith, h)
  ok_of_map_err (err e) y h = cc

  got_of_core :
      (r : W.Reader) (y : Option Event)
      → (Core.read_msg W events r).0 ≡ ok y
      → (read_msg W events r).0 ≡ ok y
  got_of_core r y h = ok_of_map_err (read_msg W events r).0 y (ap (λ t. t.0) (read_msg-core r) ∙ h)

  rest_of_core : (r : W.Reader) → (read_msg W events r).1 ≡ (Core.read_msg W events r).1
  rest_of_core r = ap (λ t. t.1) (read_msg-core r)

  loop_emit :
      (fuel : ℕ) (r : W.Reader) (emitted : List Status) (s : Status)
      → pass (read_msg W events r).0 ≡ emit s
      → stream_loop W events (suc fuel) r emitted
        ≡ stream_loop W events fuel (read_msg W events r).1 (emitted ++ s ∷ [])
  unfolding stream_loop
  loop_emit fuel r emitted s h = rw (h, stream_loop)

  loop_skip :
      (fuel : ℕ) (r : W.Reader) (emitted : List Status)
      → pass (read_msg W events r).0 ≡ skip
      → stream_loop W events (suc fuel) r emitted
        ≡ stream_loop W events fuel (read_msg W events r).1 emitted
  unfolding stream_loop
  loop_skip fuel r emitted h = rw (h, stream_loop)

  loop_finish :
      (fuel : ℕ) (r : W.Reader) (emitted : List Status) (result : Result IoError (Unit {0}))
      → pass (read_msg W events r).0 ≡ finish result
      → stream_loop W events (suc fuel) r emitted ≡ some (emitted, result)
  unfolding stream_loop
  loop_finish fuel r emitted result h = rw (h, stream_loop)

  -- a frame in front of the stream is read, and the rest is left
  frame_step :
      IsLossless events
      → (e : Event) (b tail : Bytes) (r : W.Reader) → events.to_vec e ≡ ok b
      → length b < 2 ^ 32
      → L.pending r ≡ frame b ++ tail
      → (L.ending r).kind ≡ unexpected_eof
      → ((read_msg W events r).0 ≡ ok (some e))
        × (L.pending (read_msg W events r).1 ≡ tail)
        × ((L.ending (read_msg W events r).1).kind ≡ unexpected_eof)
  frame_step lossless e b tail r enc small arrived closed =
      let (got, left, same) = read_msg-frame W L events lossless e b tail r enc small arrived in
      (
        got_of_core r (some e) got,
        ap L.pending (rest_of_core r) ∙ left,
        ap (λ x. (L.ending x).kind) (rest_of_core r) ∙ ap (λ (x : IoError). x.kind) same ∙ closed,
      )

  -- A stream that consists of whole frames of a lossless codec and then ends cleanly is emitted to
  -- the webview status by status, in order and complete, and the connection is then over without an
  -- error, with fuel for more passes than there are frames.
  pub stream_loop-Encoded :
      IsLossless events
      → (es : List Event) (bs : Bytes) (fuel : ℕ) (r : W.Reader) (emitted : List Status)
      → Encoded events es bs
      → L.pending r ≡ bs
      → (L.ending r).kind ≡ unexpected_eof
      → length es < fuel
      → stream_loop W events fuel r emitted ≡ some (emitted ++ statuses es, ok tt)
  unfolding pass statuses
  stream_loop-Encoded lossless es bs zero r emitted enc arrived closed h = absurd (omega arith)
  stream_loop-Encoded lossless [] bs (suc fuel) r emitted nil arrived closed h =
      let short : length (L.pending r) < 4 = rw (arrived ∙ nil) (omega arith) in
      let got = got_of_core r none (read_msg_short W L events r short ∙ rw closed) in
      loop_finish fuel r emitted (ok tt) (ap pass got)
      ∙ ap (λ l. some (l, ok tt)) (sym (append-nil emitted))
  stream_loop-Encoded lossless (status s ∷ es) bs (suc fuel) r emitted
        (b, tail, enc, small, shape, more) arrived closed h =
      let (got, left, end) =
        frame_step lossless (status s) b tail r enc small (arrived ∙ shape) closed in
      loop_emit fuel r emitted s (ap pass got)
      ∙ stream_loop-Encoded lossless es tail fuel (read_msg W events r).1 (emitted ++ s ∷ []) more
          left end (omega arith)
      ∙ ap (λ l. some (l, ok tt)) (append_assoc emitted (s ∷ []) (statuses es))
  stream_loop-Encoded lossless (pong ∷ es) bs (suc fuel) r emitted
        (b, tail, enc, small, shape, more) arrived closed h =
      let (got, left, end) =
        frame_step lossless (pong) b tail r enc small (arrived ∙ shape) closed in
      loop_skip fuel r emitted (ap pass got)
      ∙ stream_loop-Encoded lossless es tail fuel (read_msg W events r).1 emitted more left end
          (omega arith)
  stream_loop-Encoded lossless (Event.error m ∷ es) bs (suc fuel) r emitted
        (b, tail, enc, small, shape, more) arrived closed h =
      let (got, left, end) =
        frame_step lossless (Event.error m) b tail r enc small (arrived ∙ shape) closed in
      loop_skip fuel r emitted (ap pass got)
      ∙ stream_loop-Encoded lossless es tail fuel (read_msg W events r).1 emitted more left end
          (omega arith)

  pass-progress :
      (fuel : ℕ) (r : W.Reader) (e : Event)
      → (read_msg W events r).0 ≡ ok (some e)
      → length (L.pending r) < suc fuel
      → length (L.pending (read_msg W events r).1) < fuel
  pass-progress fuel r e got h =
      let core : (Core.read_msg W events r).0 ≡ ok (some e) =
        sym (ap (λ t. t.0) (read_msg-core r)) ∙ ap (map_err from_io) got in
      let less = read_msg-progress W L events r e core in rw (rest_of_core r) (omega arith)

  -- On every connection, whatever arrives on it, the loop of subscribe_once ends: as many passes as
  -- the stream has bytes, and one, are enough.
  pub stream_loop_total :
      (fuel : ℕ) (r : W.Reader) (emitted : List Status)
      → length (L.pending r) < fuel
      → (out : List Status × Result IoError (Unit {0})) × (stream_loop W events fuel r emitted
          ≡ some out)
  stream_loop_total zero r emitted h = absurd (omega arith)
  stream_loop_total (suc fuel) r emitted h = elim (pass-cases (read_msg W events r).0) [
    | ends result p ↦ ((emitted, result), loop_finish fuel r emitted result p)
    | emits s p got ↦ rw (loop_emit fuel r emitted s p) (
        stream_loop_total fuel (read_msg W events r).1 (emitted ++ s ∷ [])
          (pass-progress fuel r (status s) got h))
    | skips e p got ↦
        rw (loop_skip fuel r emitted p)
          (stream_loop_total fuel (read_msg W events r).1 emitted (pass-progress fuel r e got h))
  ]
