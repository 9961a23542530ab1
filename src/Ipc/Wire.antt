-- ===== src/Ipc/Wire.antt =====
-- What the framing relies on and does not implement: the byte transport (tokio's `AsyncReadExt` and
-- `AsyncWriteExt` over a local socket) and the JSON form of a message (serde_json).
use voindns_desktop.Base.{
  ℕ, ◌+◌, ◌*◌, ◌/◌, ◌%◌, ◌^◌, ◌≤◌, ◌<◌, ◌≡◌, List, [], ◌∷◌, ◌++◌, length, take, drop, Result, ok,
  err, IoError, Text, arith,
}
use voindns_desktop.Base.Io.{Io}

abbrev pub Bytes : Type 0
Bytes = List ℕ

-- The big-endian bytes of a 32-bit number.
abbrev pub to_be : ℕ → Bytes
to_be n = n / 2 ^ 24 % 256 ∷ n / 2 ^ 16 % 256 ∷ n / 2 ^ 8 % 256 ∷ n % 256 ∷ []

abbrev pub from_be : ℕ → ℕ → ℕ → ℕ → ℕ
from_be a b c d = a * 2 ^ 24 + b * 2 ^ 16 + c * 2 ^ 8 + d

pub from_be-to_be :
    (n : ℕ)
    → n < 2 ^ 32
    → from_be (n / 2 ^ 24 % 256) (n / 2 ^ 16 % 256) (n / 2 ^ 8 % 256) (n % 256) ≡ n
from_be-to_be n h = omega arith

-- Two ends of a connection, with tokio's calls on them.
pub record Wire : Type 1 where
  pub Reader : Type 0
  pub Writer : Type 0
  pub read_u32 : Io Reader IoError ℕ
  pub read_exact : ℕ → Io Reader IoError Bytes
  pub write_u32 : ℕ → Io Writer IoError Unit
  pub write_all : Bytes → Io Writer IoError Unit
  pub flush : Io Writer IoError Unit
  -- the reader after a read was dropped that had taken so many bytes
  pub abandon : ℕ → Reader → Reader

-- The documented behaviour of those calls. `pending` is what the peer has sent before it closed or
-- the transport failed, `ending` the error that a read past it reports, `sent` what a writer has
-- put on the connection. No law says that a write succeeds.
pub record WireLaws (W : Wire) : Type 0 where
  pub pending : W.Reader → Bytes
  pub ending : W.Reader → IoError
  pub sent : W.Writer → Bytes
  pub read_u32_full :
      (r : W.Reader) (a b c d : ℕ) (rest : Bytes)
      → pending r ≡ a ∷ b ∷ c ∷ d ∷ rest
      → ((W.read_u32 r).0 ≡ ok (from_be a b c d))
        × (pending (W.read_u32 r).1 ≡ rest)
        × (ending (W.read_u32 r).1 ≡ ending r)
  pub read_u32_short : (r : W.Reader) → length (pending r) < 4 → (W.read_u32 r).0 ≡ err (ending r)
  pub read_exact_full :
      (r : W.Reader) (n : ℕ)
      → n ≤ length (pending r)
      → ((W.read_exact n r).0 ≡ ok (take n (pending r)))
        × (pending (W.read_exact n r).1 ≡ drop n (pending r))
        × (ending (W.read_exact n r).1 ≡ ending r)
  pub read_exact_short :
      (r : W.Reader) (n : ℕ) → length (pending r) < n → (W.read_exact n r).0 ≡ err (ending r)
  pub write_u32_sent :
      (n : ℕ) (w : W.Writer)
      → (W.write_u32 n w).0 ≡ ok tt
      → sent (W.write_u32 n w).1 ≡ sent w ++ to_be n
  pub write_all_sent :
      (b : Bytes) (w : W.Writer)
      → (W.write_all b w).0 ≡ ok tt
      → sent (W.write_all b w).1 ≡ sent w ++ b
  pub flush_sent : (w : W.Writer) → sent (W.flush w).1 ≡ sent w
  pub abandon_pending : (k : ℕ) (r : W.Reader) → pending (W.abandon k r) ≡ drop k (pending r)
  pub abandon_ending : (k : ℕ) (r : W.Reader) → ending (W.abandon k r) ≡ ending r

-- `serde_json::to_vec` and `serde_json::from_slice` at the type of a message, with the text of
-- the error.
pub record Codec (T : Type 0) : Type 0 where
  pub to_vec : T → Result Text Bytes
  pub from_slice : Bytes → Result Text T

-- What is serialised is read back.
pub record IsLossless {T : Type 0} (c : Codec T) : Type 0 where
  pub from_slice-to_vec : (m : T) (b : Bytes) → c.to_vec m ≡ ok b → c.from_slice b ≡ ok m
