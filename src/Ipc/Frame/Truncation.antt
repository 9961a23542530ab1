-- ===== src/Ipc/Frame/Truncation.antt =====
-- A connection that ends in the middle of a frame.
use voindns_desktop.Base.{
  ℕ, zero, suc, ◌⊎◌, inl, inr, ◌%◌, ◌^◌, ◌≤◌, ◌<◌, ◌≡◌, none, ◌++◌, length, take, arith,
  length-take_lt, ok, err, is_eof, from_io, ltb, ◌&&◌, if◌then◌else◌,
}
use voindns_desktop.Ipc.Wire.{Wire, WireLaws, Codec, Bytes, to_be}
use voindns_desktop.Ipc.Frame.{read_msg}
use voindns_desktop.Ipc.Frame.RoundTrip.{frame, read_u32-to_be}

module _ (W : Wire) (L : WireLaws W) {T : Type 0} (c : Codec T) where
  pub read_msg_short :
      (r : W.Reader)
      → length (L.pending r) < 4
      → (read_msg W c r).0
        ≡ (if is_eof (L.ending r).kind then ok none else err (from_io (L.ending r)))
  unfolding read_msg
  read_msg_short r h = ground (arith, L.read_u32_short r h)

  read_msg_cut_body :
      (r : W.Reader) (n j : ℕ) (b : Bytes)
      → n < 2 ^ 32
      → L.pending r ≡ to_be n ++ take j b
      → j < n
      → j ≤ length b
      → (read_msg W c r).0 ≡ err (from_io (L.ending r))
  unfolding read_msg
  read_msg_cut_body r n j b small arrived h k =
      let (len, behind, same) = read_u32-to_be W L c r n (take j b) small arrived in
      ground (
        arith,
        len,
        same,
        L.read_exact_short (W.read_u32 r).1 n (rw behind (rw (length-take_lt j b k) h)),
      )

  -- the first bytes of a frame: a part of the length, or the length and a part of the text
  read_msg_cut :
      (b : Bytes) (k : ℕ) (r : W.Reader)
      → length b < 2 ^ 32
      → k < length (frame b)
      → L.pending r ≡ take k (frame b)
      → ((k < 4) × (length (L.pending r) < 4))
        ⊎ ((4 ≤ k) × ((read_msg W c r).0 ≡ err (from_io (L.ending r))))
  read_msg_cut b zero r small h arrived = inl (omega arith, rw arrived (omega arith))
  read_msg_cut b (suc zero) r small h arrived = inl (omega arith, rw arrived (omega arith))
  read_msg_cut b (suc (suc zero)) r small h arrived = inl (omega arith, rw arrived (omega arith))
  read_msg_cut b (suc (suc (suc zero))) r small h arrived =
      inl (omega arith, rw arrived (omega arith))
  read_msg_cut b (suc (suc (suc (suc j)))) r small h arrived =
      let n : ℕ = length b % 2 ^ 32 in
      inr (omega arith, read_msg_cut_body r n j b (omega arith) arrived (omega arith) (omega arith))

  -- A frame that is cut off is never taken for a message: inside the length an end of file reads as
  -- a closed connection, and anywhere else, or on another failure, the read is an error.
  pub read_msg-take :
      (b : Bytes) (k : ℕ) (r : W.Reader)
      → length b < 2 ^ 32
      → k < length (frame b)
      → L.pending r ≡ take k (frame b)
      → (read_msg W c r).0
        ≡ (if ltb k 4 && is_eof (L.ending r).kind then ok none else err (from_io (L.ending r)))
  read_msg-take b k r small h arrived = elim (read_msg_cut b k r small h arrived) [
    | inl (few, short) ↦ ground (arith, read_msg_short r short)
    | inr (many, failed) ↦ ground arith
  ]
