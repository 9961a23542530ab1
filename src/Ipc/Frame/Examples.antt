-- ===== src/Ipc/Frame/Examples.antt =====
-- A frame whose text has 4 GiB and three bytes.
use voindns_desktop.Base.{
  ◌≡◌, refl, ◌^◌, ◌+◌, [], ◌∷◌, ◌++◌, replicate, take, drop, ok, err, some, anyhow, Text,
}
use voindns_desktop.Ipc.Wire.{Codec, Bytes}
use voindns_desktop.Ipc.Frame.{write_msg, read_msg}
use voindns_desktop.Ipc.Frame.RoundTrip.{frame}
use voindns_desktop.Ipc.Frame.Wrapped.{announced, read_msg-wrapped}
use voindns_desktop.Ipc.Fixtures.{list_wire, list_wire-Laws, closing}

huge_text : Bytes
huge_text = replicate (2 ^ 32 + 3) 32

-- A message with that text; its reader keeps the bytes that it is given.
abbrev huge : Codec Bytes
huge = record { to_vec = λ m. ok huge_text; from_slice = λ b. ok b }

write_huge : write_msg list_wire huge [] [] ≡ (ok tt, frame huge_text)
unfolding write_msg
write_huge = refl

read_msg-wrapped_example :
    ((m : Bytes)
      → huge.from_slice (take (announced huge_text) huge_text) ≡ ok m
      → (read_msg list_wire huge (closing (frame huge_text ++ 7 ∷ []))).0 ≡ ok (some m))
    × ((e : Text)
        → huge.from_slice (take (announced huge_text) huge_text) ≡ err e
        → (read_msg list_wire huge (closing (frame huge_text ++ 7 ∷ []))).0 ≡ err (anyhow e))
    × ((read_msg list_wire huge (closing (frame huge_text ++ 7 ∷ []))).1.bytes
        ≡ drop (announced huge_text) huge_text ++ 7 ∷ [])
read_msg-wrapped_example =
    read_msg-wrapped list_wire list_wire-Laws huge [] [] (closing (frame huge_text ++ 7 ∷ []))
      huge_text (frame huge_text) (7 ∷ []) refl (rw write_huge) (rw write_huge) refl
