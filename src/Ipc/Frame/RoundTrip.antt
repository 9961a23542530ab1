-- ===== src/Ipc/Frame/RoundTrip.antt =====
-- A frame that was written is read back, and leaves what follows it.
use mathlib.Core.List.{append_cancel_left}
use voindns_desktop.Base.{
  ℕ, ◌%◌, ◌^◌, ◌≤◌, ◌<◌, ◌≡◌, sym, ◌∙◌, ap, some, ◌++◌, length, take, drop, arith, append_assoc,
  take-append, drop-append, length-append, ok, Result-cases, inl, inr,
}
use voindns_desktop.Ipc.Wire.{Wire, WireLaws, Codec, IsLossless, Bytes, to_be, from_be-to_be}
use voindns_desktop.Ipc.Frame.{write_msg, read_msg}

-- The bytes of a frame around a JSON text.
abbrev pub frame : Bytes → Bytes
frame b = to_be (length b % 2 ^ 32) ++ b

module _ (W : Wire) (L : WireLaws W) {T : Type 0} (c : Codec T) where
  -- A successful write has put exactly one frame on the connection.
  pub write_msg-frame :
      (msg : T) (w : W.Writer)
      → (write_msg W c msg w).0 ≡ ok tt
      → (b : Bytes) × (c.to_vec msg ≡ ok b) × (L.sent (write_msg W c msg w).1 ≡ L.sent w ++ frame b)
  unfolding write_msg
  write_msg-frame msg w h = elim (Result-cases (c.to_vec msg)) [
    | inl (b, e) ↦
        let w1 = (W.write_u32 (length b % 2 ^ 32) w).1 in
        let w2 = (W.write_all b w1).1 in
        (
          b,
          e,
          ground (
            arith,
            e,
            h,
            L.write_u32_sent (length b % 2 ^ 32) w,
            L.write_all_sent b w1,
            L.flush_sent w2,
            append_assoc (L.sent w) (to_be (length b % 2 ^ 32)) b,
          ),
        )
    | inr (m, e) ↦ absurd (ground (arith, e, h))
  ]

  -- The length that `write_u32` puts in front is the length that `read_u32` returns.
  pub read_u32-to_be :
      (r : W.Reader) (n : ℕ) (rest : Bytes)
      → n < 2 ^ 32
      → L.pending r ≡ to_be n ++ rest
      → ((W.read_u32 r).0 ≡ ok n)
        × (L.pending (W.read_u32 r).1 ≡ rest)
        × (L.ending (W.read_u32 r).1 ≡ L.ending r)
  read_u32-to_be r n rest small arrived =
      let (value, left, same) = L.read_u32_full r _ _ _ _ rest arrived in
      (value ∙ ap ok (from_be-to_be n small), left, same)

  pub read_exact-append :
      (r : W.Reader) (b rest : Bytes)
      → L.pending r ≡ b ++ rest
      → ((W.read_exact (length b) r).0 ≡ ok b)
        × (L.pending (W.read_exact (length b) r).1 ≡ rest)
        × (L.ending (W.read_exact (length b) r).1 ≡ L.ending r)
  read_exact-append r b rest arrived =
      let fits : length b ≤ length (L.pending r) =
        rw arrived (omega (arith, length-append {0} b rest)) in
      let (value, left, same) = L.read_exact_full r (length b) fits in
      (
        value ∙ ap ok (ap (take (length b)) arrived ∙ take-append b rest),
        left ∙ ap (drop (length b)) arrived ∙ drop-append b rest,
        same,
      )

  -- A frame that has arrived whole is read as its message; what follows it stays unread.
  pub read_msg-frame :
      IsLossless c
      → (msg : T) (b rest : Bytes) (r : W.Reader) → c.to_vec msg ≡ ok b
      → length b < 2 ^ 32
      → L.pending r ≡ frame b ++ rest
      → ((read_msg W c r).0 ≡ ok (some msg))
        × (L.pending (read_msg W c r).1 ≡ rest)
        × (L.ending (read_msg W c r).1 ≡ L.ending r)
  unfolding read_msg
  read_msg-frame lossless msg b rest r e small arrived =
      let n : ℕ = length b in
      let wraps : n % 2 ^ 32 ≡ n = omega arith in
      let (len, behind, same) = read_u32-to_be r n (b ++ rest) small (rw wraps at arrived) in
      let (body, left, same') = read_exact-append (W.read_u32 r).1 b rest behind in
      ground (arith, len, body, left, same, same', lossless.from_slice-to_vec msg b e)

  -- What a successful write_msg added to the connection is read back by read_msg as the message
  -- that was written, whatever was sent before and follows after, if the codec is lossless and the
  -- JSON text is shorter than 4 GiB.
  pub read_msg-write_msg :
      IsLossless c
      → (msg : T) (w : W.Writer) (r : W.Reader) (added rest : Bytes)
      → ((b : Bytes) → c.to_vec msg ≡ ok b → length b < 2 ^ 32)
      → (write_msg W c msg w).0 ≡ ok tt
      → L.sent (write_msg W c msg w).1 ≡ L.sent w ++ added
      → L.pending r ≡ added ++ rest
      → ((read_msg W c r).0 ≡ ok (some msg))
        × (L.pending (read_msg W c r).1 ≡ rest)
        × (L.ending (read_msg W c r).1 ≡ L.ending r)
  read_msg-write_msg lossless msg w r added rest small written put arrived =
      let (b, e, sent) = write_msg-frame msg w written in
      let same : added ≡ frame b = append_cancel_left (L.sent w) added (frame b) (sym put ∙ sent) in
      read_msg-frame lossless msg b rest r e (small b e) (arrived ∙ ap (λ l. l ++ rest) same)
