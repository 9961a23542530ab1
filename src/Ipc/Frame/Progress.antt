-- ===== src/Ipc/Frame/Progress.antt =====
-- A message that is read takes its length at least from the connection.
use voindns_desktop.Base.{
  ℕ, zero, suc, ◌≤◌, ◌<◌, ◌≡◌, ◌≢◌, inl, inr, refl, ap, some, List, [], ◌∷◌, length, drop, ok,
  arith, leb, Bool-cases,
}
use voindns_desktop.Ipc.Wire.{Wire, WireLaws, Codec, Bytes, from_be}
use voindns_desktop.Ipc.Frame.{read_msg}

length-drop_le {ℓ} : {A : Type ℓ} (n : ℕ) (xs : List A) → length (drop n xs) ≤ length xs
length-drop_le zero xs = omega arith
length-drop_le (suc n) [] = omega arith
length-drop_le (suc n) (x ∷ xs) = omega (arith, length-drop_le n xs)

module _ (W : Wire) (L : WireLaws W) {T : Type 0} (c : Codec T) where
  read_msg-full :
      (r : W.Reader) (m : T) (x1 x2 x3 x4 : ℕ) (rest : Bytes)
      → L.pending r ≡ x1 ∷ x2 ∷ x3 ∷ x4 ∷ rest
      → (read_msg W c r).0 ≡ ok (some m)
      → length (L.pending (read_msg W c r).1) ≤ length rest
  unfolding read_msg
  read_msg-full r m x1 x2 x3 x4 rest arrived got =
      let n = from_be x1 x2 x3 x4 in
      let (len, behind, _) = L.read_u32_full r x1 x2 x3 x4 rest arrived in
      let r1 = (W.read_u32 r).1 in
      elim (Bool-cases (leb n (length (L.pending r1)))) [
        | inl fits ↦ ground (
          arith,
          len,
          got,
          ap (length {0}) behind,
          L.read_exact_full r1 n,
          length-drop_le n (L.pending r1),
          fits,
        )
        | inr short ↦ absurd (ground (arith, len, got, L.read_exact_short r1 n, short))
      ]

  read_msg-short :
      (r : W.Reader) (m : T) → length (L.pending r) < 4 → (read_msg W c r).0 ≢ ok (some m)
  unfolding read_msg
  read_msg-short r m h got = ground (arith, L.read_u32_short r h)

  split_progress :
      (p : Bytes) (r : W.Reader) (m : T)
      → L.pending r ≡ p
      → (read_msg W c r).0 ≡ ok (some m)
      → length (L.pending (read_msg W c r).1) < length p
  split_progress [] r m e got = absurd (read_msg-short r m (rw e (omega arith)) got)
  split_progress (a ∷ []) r m e got = absurd (read_msg-short r m (rw e (omega arith)) got)
  split_progress (a ∷ b ∷ []) r m e got = absurd (read_msg-short r m (rw e (omega arith)) got)
  split_progress (a ∷ b ∷ d ∷ []) r m e got = absurd (read_msg-short r m (rw e (omega arith)) got)
  split_progress (a ∷ b ∷ d ∷ f ∷ rest) r m e got =
      omega (arith, read_msg-full r m a b d f rest e got)

  pub read_msg-progress :
      (r : W.Reader) (m : T)
      → (read_msg W c r).0 ≡ ok (some m)
      → length (L.pending (read_msg W c r).1) < length (L.pending r)
  read_msg-progress r m got = split_progress (L.pending r) r m refl got
