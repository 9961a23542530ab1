-- ===== src/Gui/Reconnect.antt =====
-- crates/gui/src-tauri/src/ipc.rs, `subscribe_forever`: connection after connection. What is awaited
-- in between, two seconds, does not show in the model.
use voindns_desktop.Base.{
  ℕ, zero, suc, ◌+◌, ◌≤◌, ◌<◌, ◌≡◌, refl, sym, ◌∙◌, ap, Option, none, some, List, [], ◌∷◌, ◌++◌,
  append_assoc, append-nil, length, Result, Result-cases, inl, inr, ok, err, IoError,
  unexpected_eof, ◌-◌, arith, length-append, ◌%◌, ◌^◌,
}
use voindns_desktop.Proto.{Command, subscribe, Event, Status}
use voindns_desktop.Ipc.Wire.{Wire, WireLaws, Codec, IsLossless, Bytes, to_be}
use voindns_desktop.Ipc.Frame.RoundTrip.{frame}
use voindns_desktop.Ipc.Client.Next.{Encoded}
use voindns_desktop.Gui.Frame.{write_msg}
use voindns_desktop.Gui.Stream.{subscribe_once, statuses, stream_loop-Encoded, stream_loop_total}

-- Two runs one behind the other; what the first returns is dropped.
abbrev followed :
    {A : Type 0} → Option (List Status) → Option (List Status × A) → Option (List Status)
followed none next = none
followed (some earlier) none = none
followed (some earlier) (some (emitted, result)) = some (earlier ++ emitted)

-- a frame has a byte at least
length-Encoded :
    (events : Codec Event) (es : List Event) (bs : Bytes)
    → Encoded events es bs
    → length es ≤ length bs
length-Encoded events [] bs nil = omega arith
length-Encoded events (e ∷ es) bs (b, tail, enc, small, shape, more) =
    let rest = length-Encoded events es tail more in
    let count : length bs ≡ length (frame b ++ tail) = ap length shape in
    omega (
      arith,
      rest,
      count,
      length-append (frame b) tail,
      length-append (to_be (length b % 2 ^ 32)) b,
    )

module _ (W : Wire) (commands : Codec Command) (events : Codec Event) where
  -- The statuses emitted by so many passes of the loop. `connect n` is what connecting gives in pass
  -- `n`, and `fuel n` bounds the messages of that connection; `none` means that a bound was too small.
  unfoldable pub subscribe_forever :
      (ℕ → ℕ) → (ℕ → Result IoError (W.Reader × W.Writer)) → ℕ → Option (List Status)
  subscribe_forever fuel connect zero = some []
  subscribe_forever fuel connect (suc n) =
      followed (subscribe_forever fuel connect n)
        (subscribe_once W commands events (fuel n) (connect n))

  module _ (L : WireLaws W) where
    -- Each connection that is made has fewer bytes than its fuel.
    abbrev pub Suffices : (ℕ → ℕ) → (ℕ → Result IoError (W.Reader × W.Writer)) → Type 0
    Suffices fuel connect =
        (n : ℕ) (r : W.Reader) (w : W.Writer)
        → connect n ≡ ok (r, w)
        → length (L.pending r) < fuel n

    subscribe_once_total :
        (fuel : ℕ) (conn : Result IoError (W.Reader × W.Writer))
        → ((r : W.Reader) (w : W.Writer) → conn ≡ ok (r, w) → length (L.pending r) < fuel)
        → (out : List Status × Result IoError (Unit {0})) × (subscribe_once W commands events fuel
              conn
            ≡ some out)
    unfolding subscribe_once
    subscribe_once_total fuel (err e) h = (([], err e), refl)
    subscribe_once_total fuel (ok (r, w)) h =
        elim (Result-cases (write_msg W commands subscribe w).0) [
          | inr (e, f) ↦ (([], err e), rw (f, subscribe_once) refl)
          | inl (u, f) ↦
              rw (f, subscribe_once) (stream_loop_total W L events fuel r [] (h r w refl))
        ]

    subscribe_forever_total :
        (fuel : ℕ → ℕ) (connect : ℕ → Result IoError (W.Reader × W.Writer)) (n : ℕ)
        → Suffices fuel connect
        → (out : List Status) × (subscribe_forever fuel connect n ≡ some out)
    unfolding subscribe_forever
    subscribe_forever_total fuel connect zero h = ([], refl)
    subscribe_forever_total fuel connect (suc n) h =
        let (earlier, e) = subscribe_forever_total fuel connect n h in
        let ((emitted, result), e') = subscribe_once_total (fuel n) (connect n) (h n) in
        (earlier ++ emitted, rw (e, e'))

    subscribe_forever_later :
        (fuel : ℕ → ℕ) (connect : ℕ → Result IoError (W.Reader × W.Writer)) (n : ℕ)
        (out : List Status)
        → Suffices fuel connect
        → subscribe_forever fuel connect n ≡ some out
        → (more : List Status) × (subscribe_forever fuel connect (suc n) ≡ some (out ++ more))
    unfolding subscribe_forever
    subscribe_forever_later fuel connect n out h e =
        let ((emitted, result), e') = subscribe_once_total (fuel n) (connect n) (h n) in
        (emitted, rw (e, e'))

    -- what has been emitted stays in front
    subscribe_forever_grows :
        (fuel : ℕ → ℕ) (connect : ℕ → Result IoError (W.Reader × W.Writer)) (n k m : ℕ)
        (out : List Status)
        → Suffices fuel connect
        → n + k ≡ m
        → subscribe_forever fuel connect n ≡ some out
        → (more : List Status) × (subscribe_forever fuel connect m ≡ some (out ++ more))
    subscribe_forever_grows fuel connect n zero m out h total e = (
      [],
      ap (subscribe_forever fuel connect) (omega (arith, total))
          ∙ e
          ∙ ap some (sym (append-nil out)),
    )
    subscribe_forever_grows fuel connect n (suc k) m out h total e =
        let (next, e') = subscribe_forever_later fuel connect n out h e in
        let (rest, e'') =
          subscribe_forever_grows fuel connect (suc n) k m (out ++ next) h (omega (arith, total))
            e' in
        (next ++ rest, e'' ∙ ap some (append_assoc out next rest))

    subscribe_once-connected :
        IsLossless events
        → (fuel : ℕ) (conn : Result IoError (W.Reader × W.Writer)) (r : W.Reader) (w : W.Writer)
          (es : List Event) (bs : Bytes)
        → conn ≡ ok (r, w)
        → length (L.pending r) < fuel
        → (write_msg W commands subscribe w).0 ≡ ok tt
        → Encoded events es bs
        → L.pending r ≡ bs
        → (L.ending r).kind ≡ unexpected_eof
        → subscribe_once W commands events fuel conn ≡ some (statuses es, ok tt)
    unfolding subscribe_once statuses
    subscribe_once-connected lossless fuel conn r w es bs up enough wrote enc arrived closed =
        rw (up, wrote, subscribe_once)
          (stream_loop-Encoded W L events lossless es bs fuel r [] enc arrived closed
            (omega (arith, length-Encoded events es bs enc, ap length arrived, enough)))

    -- With fuel that suffices for every connection, each pass of subscribe_forever ends; and when
    -- the connection of some pass carries whole frames of a lossless codec and then ends cleanly,
    -- the statuses among them are emitted behind what was emitted before, whatever the passes
    -- before and after it meet.
    pub subscribe_forever_recovers :
        IsLossless events
        → (fuel : ℕ → ℕ) (connect : ℕ → Result IoError (W.Reader × W.Writer)) (k n : ℕ)
          (r : W.Reader) (w : W.Writer) (es : List Event) (bs : Bytes)
        → Suffices fuel connect
        → k < n
        → connect k ≡ ok (r, w)
        → (write_msg W commands subscribe w).0 ≡ ok tt
        → Encoded events es bs
        → L.pending r ≡ bs
        → (L.ending r).kind ≡ unexpected_eof
        → (before after : List Status) × (subscribe_forever fuel connect k ≡ some before)
          × (subscribe_forever fuel connect n ≡ some ((before ++ statuses es) ++ after))
    unfolding subscribe_forever
    subscribe_forever_recovers lossless fuel connect k n r w es bs h later up wrote enc arrived
          closed =
        let (before, e) = subscribe_forever_total fuel connect k h in
        let pass =
          subscribe_once-connected lossless (fuel k) (connect k) r w es bs up (h k r w up) wrote enc
            arrived closed in
        let now : subscribe_forever fuel connect (suc k) ≡ some (before ++ statuses es) =
          rw (e, pass) in
        let (after, e') =
          subscribe_forever_grows fuel connect (suc k) (n - suc k) n (before ++ statuses es) h
            (omega (arith, later)) now in
        (before, after, e, e')
