-- ===== src/Ipc/Client/Next.antt =====
-- `Subscription::next` on a stream of events.
use voindns_desktop.Base.{
  ℕ, zero, suc, ◌<◌, ◌^◌, ◌≡◌, inl, inr, refl, ◌∙◌, ap, Option, none, some, List, [], ◌∷◌, ◌++◌,
  append_assoc, append-nil, All, length, Result, ok, err, Error, arith, Option-cases,
}
use voindns_desktop.Proto.{Event, status, pong, Status}
use voindns_desktop.Ipc.Wire.{Wire, WireLaws, Codec, IsLossless, Bytes}
use voindns_desktop.Ipc.Frame.{read_msg}
use voindns_desktop.Ipc.Frame.Progress.{read_msg-progress}
use voindns_desktop.Ipc.Frame.RoundTrip.{frame, read_msg-frame}
use voindns_desktop.Ipc.Client.{next, next_result}

-- The bytes `bs` are the frames of these messages, one behind the other.
abbrev pub Encoded : {T : Type 0} → Codec T → List T → Bytes → Type 0
Encoded c [] bs = bs ≡ []
Encoded c (m ∷ ms) bs =
    (b : Bytes) × (tail : Bytes) × (c.to_vec m ≡ ok b)
    × (length b < 2 ^ 32)
    × (bs ≡ frame b ++ tail)
    × Encoded c ms tail

abbrev pub IsOther : Event → Type 0
IsOther (status s) = ⊥
IsOther pong = Unit
IsOther (Event.error message) = Unit

module _ (W : Wire) (L : WireLaws W) (events : Codec Event) where
  next_again :
      (fuel : ℕ) (r : W.Reader)
      → next_result (read_msg W events r).0 ≡ none
      → next W events (suc fuel) r ≡ next W events fuel (read_msg W events r).1
  unfolding next
  next_again fuel r h = rw (h, next)

  next_done :
      (fuel : ℕ) (r : W.Reader) (x : Result Error (Option Status))
      → next_result (read_msg W events r).0 ≡ some x
      → next W events (suc fuel) r ≡ (some x, (read_msg W events r).1)
  unfolding next
  next_done fuel r x h = rw (h, next)

  next_result-none :
      (x : Result Error (Option Event)) → next_result x ≡ none → (e : Event) × (x ≡ ok (some e))
  unfolding next_result
  next_result-none (ok (some (status s))) h = cc
  next_result-none (ok (some pong)) h = (pong, refl)
  next_result-none (ok (some (Event.error message))) h = (Event.error message, refl)
  next_result-none (ok none) h = cc
  next_result-none (err e) h = cc

  -- Subscription::next returns on every stream that ends or fails: as many passes as the stream has
  -- bytes, and one, are enough.
  pub next_total :
      (fuel : ℕ) (r : W.Reader)
      → length (L.pending r) < fuel
      → (x : Result Error (Option Status)) × ((next W events fuel r).0 ≡ some x)
  next_total zero r h = absurd (omega arith)
  next_total (suc fuel) r h = elim (Option-cases (next_result (read_msg W events r).0)) [
    | inl more ↦
        let (e, got) = next_result-none (read_msg W events r).0 more in
        let less = read_msg-progress W L events r e got in
        rw (next_again fuel r more) (next_total fuel (read_msg W events r).1 (omega arith))
    | inr (x, done) ↦ (x, ap (λ t. t.0) (next_done fuel r x done))
  ]

  other_continues : (e : Event) → IsOther e → next_result (ok (some e)) ≡ none
  unfolding next_result
  other_continues (status s) h = absurd h
  other_continues pong h = refl
  other_continues (Event.error message) h = refl

  -- Subscription::next, on a stream that begins with replies and then a status, in frames of a
  -- lossless codec: with fuel for more passes than there are replies, they are skipped, the status
  -- is returned, and what follows it stays unread.
  pub next-Encoded :
      IsLossless events
      → (others : List Event) (s : Status) (bs rest : Bytes) (fuel : ℕ) (r : W.Reader)
      → All IsOther others
      → Encoded events (others ++ status s ∷ []) bs
      → L.pending r ≡ bs ++ rest
      → length others < fuel
      → ((next W events fuel r).0 ≡ some (ok (some s)))
        × (L.pending (next W events fuel r).1 ≡ rest)
  unfolding next_result
  next-Encoded lossless others s bs rest zero r skip enc arrived h = absurd (omega arith)
  next-Encoded lossless [] s bs rest (suc fuel) r skip (b, tail, e, small, shape, nil) arrived h =
      let only : L.pending r ≡ frame b ++ rest =
        arrived ∙ ap (λ l. l ++ rest) (shape ∙ ap (λ t. frame b ++ t) nil ∙ append-nil (frame b)) in
      let (got, left, _) = read_msg-frame W L events lossless (status s) b rest r e small only in
      rw (next_done fuel r (ok (some s)) (ap next_result got)) (refl, left)
  next-Encoded lossless (o ∷ os) s bs rest (suc fuel) r (skip, skips)
        (b, tail, e, small, shape, more) arrived h =
      let first : L.pending r ≡ frame b ++ (tail ++ rest) =
        arrived ∙ ap (λ l. l ++ rest) shape ∙ append_assoc (frame b) tail rest in
      let (got, left, _) = read_msg-frame W L events lossless o b (tail ++ rest) r e small first in
      rw (next_again fuel r (ap next_result got ∙ other_continues o skip)) (
        next-Encoded lossless os s tail rest fuel (read_msg W events r).1 skips more left
          (omega arith))
