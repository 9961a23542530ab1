-- ===== src/Ipc/Frame/Wrapped.antt =====
-- The length of a frame is a `u32`: what becomes of a text of any length.
use mathlib.Core.List.{append_cancel_left}
use voindns_desktop.Base.{
  ℕ, ◌%◌, ◌^◌, ◌≡◌, sym, ◌∙◌, ap, some, ◌++◌, length, take, drop, arith, append_assoc,
  length-take_lt, take-append-drop, ok, err, anyhow, Text,
}
use voindns_desktop.Ipc.Wire.{Wire, WireLaws, Codec, Bytes}
use voindns_desktop.Ipc.Frame.{write_msg, read_msg}
use voindns_desktop.Ipc.Frame.RoundTrip.{frame, write_msg-frame, read_u32-to_be, read_exact-append}

-- The length that is announced.
abbrev pub announced : Bytes → ℕ
announced b = length b % 2 ^ 32

module _ (W : Wire) (L : WireLaws W) {T : Type 0} (c : Codec T) where
  read_frame :
      (b rest : Bytes) (r : W.Reader)
      → L.pending r ≡ frame b ++ rest
      → ((m : T) → c.from_slice (take (announced b) b) ≡ ok m → (read_msg W c r).0 ≡ ok (some m))
        × ((e : Text)
            → c.from_slice (take (announced b) b) ≡ err e
            → (read_msg W c r).0 ≡ err (anyhow e))
        × (L.pending (read_msg W c r).1 ≡ drop (announced b) b ++ rest)
  unfolding read_msg
  read_frame b rest r arrived =
      let n : ℕ = announced b in
      let fits : length (take n b) ≡ n = length-take_lt n b (omega arith) in
      let (len, behind, _) = read_u32-to_be W L c r n (b ++ rest) (omega arith) arrived in
      let split : b ++ rest ≡ take n b ++ (drop n b ++ rest) =
        ap (λ l. l ++ rest) (sym (take-append-drop n b))
        ∙ append_assoc (take n b) (drop n b) rest in
      let (body, left, _) =
        read_exact-append W L c (W.read_u32 r).1 (take n b) (drop n b ++ rest) (behind ∙ split) in
      (
        λ m parsed. ground (arith, len, rw fits at body, parsed),
        λ e refused. ground (arith, len, rw fits at body, refused),
        ground (arith, len, rw fits at body, rw fits at left),
      )

  -- A JSON text of any length, 4 GiB and more included, that a successful write_msg has put on the
  -- connection: read_msg parses the bytes of it that its length modulo 2^32 counts, gives that
  -- message or that error, and takes what is left of the text for the next frame.
  pub read_msg-wrapped :
      (msg : T) (w : W.Writer) (r : W.Reader) (b added rest : Bytes)
      → c.to_vec msg ≡ ok b
      → (write_msg W c msg w).0 ≡ ok tt
      → L.sent (write_msg W c msg w).1 ≡ L.sent w ++ added
      → L.pending r ≡ added ++ rest
      → ((m : T) → c.from_slice (take (announced b) b) ≡ ok m → (read_msg W c r).0 ≡ ok (some m))
        × ((e : Text)
            → c.from_slice (take (announced b) b) ≡ err e
            → (read_msg W c r).0 ≡ err (anyhow e))
        × (L.pending (read_msg W c r).1 ≡ drop (announced b) b ++ rest)
  read_msg-wrapped msg w r b added rest text written put arrived =
      let (b', e, sent) = write_msg-frame W L c msg w written in
      let eq : b' ≡ b = cc in
      let same : added ≡ frame b =
        append_cancel_left (L.sent w) added (frame b)
          (sym put ∙ sent ∙ ap (λ t. L.sent w ++ frame t) eq) in
      read_frame b rest r (arrived ∙ ap (λ l. l ++ rest) same)
