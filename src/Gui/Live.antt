-- ===== src/Gui/Live.antt =====
-- From the controller's broadcast to the webview.
use mathlib.Core.List.{append_cancel_left}
use voindns_desktop.Base.{
  ℕ, zero, suc, ◌+◌, ◌≤◌, ◌<◌, ◌≡◌, refl, sym, ◌∙◌, ap, some, List, [], ◌∷◌, ◌++◌, length, drop,
  map, ok, arith, unexpected_eof,
}
use voindns_desktop.Proto.{Command, Event, status, Status}
use voindns_desktop.Redirect.{DnsRedirector}
use voindns_desktop.Controller.{ProxyServer, Controller}
use voindns_desktop.Ipc.Wire.{Wire, WireLaws, Codec, IsLossless, Bytes}
use voindns_desktop.Ipc.Client.Exchange.{IsSmall}
use voindns_desktop.Ipc.Server.{Channel, Conn}
use voindns_desktop.Ipc.Server.Subscribers.{ChannelLaws, capacity, Sending, updates-Encoded}
use voindns_desktop.Gui.Stream.{stream_loop, statuses, stream_loop-Encoded}

statuses-map : (xs : List Status) → statuses (map status xs) ≡ xs
unfolding statuses
statuses-map [] = refl
statuses-map (x ∷ xs) = ap (λ l. x ∷ l) (statuses-map xs)

length-map_status : (xs : List Status) → length (map status xs) ≡ length xs
length-map_status [] = refl
length-map_status (x ∷ xs) = ap suc (length-map_status xs)

length-drop : (i : ℕ) (xs : List Status) → i ≤ length xs → length (drop i xs) + i ≡ length xs
length-drop zero xs h = omega arith
length-drop (suc i) [] h = absurd (omega arith)
length-drop (suc i) (x ∷ xs) h = omega (arith, length-drop i xs)

module _ {R : DnsRedirector} {P : ProxyServer} (W : Wire) (L : WireLaws W) {Ch : Channel}
    (K : ChannelLaws Ch) (commands : Codec Command) (events : Codec Event) where
  -- From the broadcast to the webview: when a subscribed connection, behind by at most the
  -- channel's capacity, is sent its updates, and what it was sent arrives at the GUI before the
  -- connection ends cleanly, then the webview is shown exactly the statuses that were broadcast
  -- since the receiver's position, in order, for a lossless codec whose texts stay under 4 GiB.
  pub stream_loop-broadcast :
      IsLossless events
      → IsSmall events
      → (c : Controller R P) (k i : ℕ) (conn conn' : Conn W Ch) (rx : Ch.Receiver)
      → conn.subscription ≡ some rx
      → K.position rx ≡ i
      → i + k ≡ length c.tx
      → k ≤ capacity
      → Sending R P W Ch commands events c k conn conn'
      → (sent : Bytes) (r : W.Reader) (fuel : ℕ) → L.sent conn'.w ≡ L.sent conn.w ++ sent
      → L.pending r ≡ sent
      → (L.ending r).kind ≡ unexpected_eof
      → k < fuel
      → stream_loop W events fuel r [] ≡ some (drop i c.tx, ok tt)
  stream_loop-broadcast lossless small c k i conn conn' rx subscribed at behind few turns sent r
        fuel put arrived closed enough =
      let (bytes, put', enc) =
        updates-Encoded R P W Ch commands events K L small c k i conn conn' rx subscribed at behind
          few turns in
      let same : sent ≡ bytes = append_cancel_left (L.sent conn.w) sent bytes (sym put ∙ put') in
      let count : length (map status (drop i c.tx)) < fuel =
        omega (arith, length-map_status (drop i c.tx), length-drop i c.tx) in
      stream_loop-Encoded W L events lossless (map status (drop i c.tx)) bytes fuel r [] enc
        (arrived ∙ same) closed count
      ∙ ap (λ l. some (l, ok tt)) (statuses-map (drop i c.tx))
