-- ===== src/Ipc/Fixtures.antt =====
-- A connection over lists of bytes, and codecs of the two kinds of message.
pub mod Codecs
pub mod Broadcast
use voindns_desktop.Base.{
  ℕ, zero, suc, ◌+◌, ◌≤◌, ◌<◌, ◌^◌, ◌≡◌, refl, sym, ◌∙◌, ap, Option, none, some, Bool, true, false,
  List, [], ◌∷◌, ◌++◌, append-nil, length, take, drop, take-append, drop-append, get_elem?, Result,
  ok, err, ◌>>=◌, Text, codes, IoError, unexpected_eof, ltb, leb, if◌then◌else◌, arith, Bool-cases,
  inl, inr,
}
use voindns_desktop.Proto.{
  UpstreamSel, voidns, cloudflare, google, quad9, custom, Command, connect, disconnect, get_status,
  subscribe, ping, ConnState, disconnected, connecting, connected, Status, Event, status, pong,
}
use voindns_desktop.Ipc.Wire.{Wire, WireLaws, Codec, IsLossless, Bytes, to_be, from_be}
use voindns_desktop.Ipc.Server.{Channel}

-- What is still to be read, and how it ends.
pub record Pipe : Type 0 where
  pub bytes : Bytes
  pub last : IoError

unfoldable pub take_u32 : Bytes → IoError → Result IoError ℕ × Pipe
take_u32 (a ∷ b ∷ c ∷ d ∷ rest) e = (ok (from_be a b c d), record { bytes = rest; last = e })
take_u32 _ e = (err e, record { bytes = []; last = e })

unfoldable pub take_exact : ℕ → Bytes → IoError → Result IoError Bytes × Pipe
take_exact n bs e =
    if leb n (length bs)
    then (ok (take n bs), record { bytes = drop n bs; last = e })
    else (err e, record { bytes = []; last = e })

abbrev pub list_wire : Wire
list_wire = record {
  Reader = Pipe;
  Writer = Bytes;
  read_u32 = λ r. take_u32 r.bytes r.last;
  read_exact = λ n r. take_exact n r.bytes r.last;
  write_u32 = λ n w. (ok tt, w ++ to_be n);
  write_all = λ b w. (ok tt, w ++ b);
  flush = λ w. (ok tt, w);
  abandon = λ k r. record { bytes = drop k r.bytes; last = r.last };
}

pub take_u32_full :
    (bs : Bytes) (e : IoError) (a b c d : ℕ) (rest : Bytes)
    → bs ≡ a ∷ b ∷ c ∷ d ∷ rest
    → ((take_u32 bs e).0 ≡ ok (from_be a b c d))
      × ((take_u32 bs e).1.bytes ≡ rest)
      × ((take_u32 bs e).1.last ≡ e)
unfolding take_u32
take_u32_full bs e a b c d rest h = rw h (refl, refl, refl)

pub take_u32_short : (bs : Bytes) (e : IoError) → length bs < 4 → (take_u32 bs e).0 ≡ err e
unfolding take_u32
take_u32_short [] e h = refl
take_u32_short (a ∷ []) e h = refl
take_u32_short (a ∷ b ∷ []) e h = refl
take_u32_short (a ∷ b ∷ c ∷ []) e h = refl
take_u32_short (a ∷ b ∷ c ∷ d ∷ rest) e h = absurd (omega arith)

pub take_exact_full :
    (n : ℕ) (bs : Bytes) (e : IoError)
    → n ≤ length bs
    → ((take_exact n bs e).0 ≡ ok (take n bs))
      × ((take_exact n bs e).1.bytes ≡ drop n bs)
      × ((take_exact n bs e).1.last ≡ e)
unfolding take_exact
take_exact_full n bs e h = ground arith

pub take_exact_short :
    (n : ℕ) (bs : Bytes) (e : IoError) → length bs < n → (take_exact n bs e).0 ≡ err e
unfolding take_exact
take_exact_short n bs e h = ground arith

abbrev pub list_wire-Laws : WireLaws list_wire
list_wire-Laws = record {
  pending = λ r. r.bytes;
  ending = λ r. r.last;
  sent = λ w. w;
  read_u32_full = λ r a b c d rest h. take_u32_full r.bytes r.last a b c d rest h;
  read_u32_short = λ r h. take_u32_short r.bytes r.last h;
  read_exact_full = λ r n h. take_exact_full n r.bytes r.last h;
  read_exact_short = λ r n h. take_exact_short n r.bytes r.last h;
  write_u32_sent = λ n w h. refl;
  write_all_sent = λ b w h. refl;
  flush_sent = λ w. refl;
  abandon_pending = λ k r. refl;
  abandon_ending = λ k r. refl;
}

-- The peer closes behind these bytes.
abbrev pub closing : Bytes → Pipe
closing bs = record {
  bytes = bs;
  last = record { kind = unexpected_eof; message = codes "early eof" };
}

-- Positions in what was sent.
abbrev pub list_channel : Channel
list_channel = record {
  Receiver = ℕ;
  subscribe = λ tx. length tx;
  recv = λ n tx. elim (get_elem? tx n) [ none ↦ none | some s ↦ some (ok s, suc n) ];
}
