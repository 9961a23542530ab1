-- ===== src/Ipc/Server/Subscribers.antt =====
-- What a subscribed connection is sent.
use voindns_desktop.Base.{
  ℕ, zero, suc, ◌+◌, ◌≤◌, ◌<◌, ◌≡◌, refl, sym, ◌∙◌, ap, some, List, [], ◌∷◌, ◌++◌, append_assoc,
  append-nil, length, get_elem?, drop, map, ok, arith,
}
use voindns_desktop.Proto.{Command, Event, status, Status}
use voindns_desktop.Redirect.{DnsRedirector}
use voindns_desktop.Controller.{ProxyServer, Controller}
use voindns_desktop.Ipc.Wire.{Wire, WireLaws, Codec, Bytes}
use voindns_desktop.Ipc.Frame.{write_msg}
use voindns_desktop.Ipc.Frame.RoundTrip.{frame, write_msg-frame}
use voindns_desktop.Ipc.Client.Exchange.{IsSmall}
use voindns_desktop.Ipc.Client.Next.{Encoded}
use voindns_desktop.Ipc.Server.{Channel, recv_opt, update, Conn, again, handle_conn}

-- `broadcast::channel(16)`
abbrev pub capacity : ℕ
capacity = 16

-- The documented behaviour of a broadcast channel of that capacity: a receiver begins behind what
-- was sent before it, and one that is behind by no more than the capacity receives the next value.
pub record ChannelLaws (Ch : Channel) : Type 0 where
  pub position : Ch.Receiver → ℕ
  pub position-subscribe : (tx : List Status) → position (Ch.subscribe tx) ≡ length tx
  pub recv_next :
      (rx : Ch.Receiver) (tx : List Status) (s : Status)
      → get_elem? tx (position rx) ≡ some s
      → length tx ≤ position rx + capacity
      → (rx' : Ch.Receiver) × (Ch.recv rx tx ≡ some (ok s, rx'))
        × (position rx' ≡ suc (position rx))

pub get_elem?-drop {ℓ} :
    {A : Type ℓ} (xs : List A) (i : ℕ)
    → i < length xs
    → (x : A) × (get_elem? xs i ≡ some x) × (drop i xs ≡ x ∷ drop (suc i) xs)
get_elem?-drop [] i h = absurd (omega arith)
get_elem?-drop (x ∷ xs) zero h = (x, refl, refl)
get_elem?-drop (x ∷ xs) (suc i) h = get_elem?-drop xs i (omega arith)

pub drop-length {ℓ} : {A : Type ℓ} (xs : List A) → drop (length xs) xs ≡ []
drop-length [] = refl
drop-length (x ∷ xs) = drop-length xs

module _ (R : DnsRedirector) (P : ProxyServer) (W : Wire) (Ch : Channel) (commands : Codec Command)
    (events : Codec Event) where
  -- So many turns of a connection that a status update wins, each of which goes on.
  abbrev pub Sending : Controller R P → ℕ → Conn W Ch → Conn W Ch → Type 0
  Sending c zero conn conn' = conn' ≡ conn
  Sending c (suc k) conn conn' =
      (taken : ℕ) × (conn1 : Conn W Ch) × (handle_conn R P W Ch commands events (update taken) conn
          c
        ≡ some (again conn1, c))
      × Sending c k conn1 conn'

  update_sends :
      (taken : ℕ) (conn conn1 : Conn W Ch) (c : Controller R P) (rx rx' : Ch.Receiver) (s : Status)
      → conn.subscription ≡ some rx
      → Ch.recv rx c.tx ≡ some (ok s, rx')
      → handle_conn R P W Ch commands events (update taken) conn c ≡ some (again conn1, c)
      → ((write_msg W events (status s) conn.w).0 ≡ ok tt)
        × (conn1.w ≡ (write_msg W events (status s) conn.w).1)
        × (conn1.subscription ≡ some rx')
  unfolding handle_conn recv_opt
  update_sends taken conn conn1 c rx rx' s subscribed got went = ground arith

  module _ (K : ChannelLaws Ch) where
    module _ (L : WireLaws W) where
      -- The turns put the frames of the statuses since the position on the connection.
      pub updates-Encoded :
          IsSmall events
          → (c : Controller R P) (k i : ℕ) (conn conn' : Conn W Ch) (rx : Ch.Receiver)
          → conn.subscription ≡ some rx
          → K.position rx ≡ i
          → i + k ≡ length c.tx
          → k ≤ capacity
          → Sending c k conn conn'
          → (bytes : Bytes) × (L.sent conn'.w ≡ L.sent conn.w ++ bytes)
            × Encoded events (map status (drop i c.tx)) bytes
      updates-Encoded small c zero i conn conn' rx subscribed at behind few e =
          let at_end : drop i c.tx ≡ [] = ap (λ j. drop j c.tx) (omega arith) ∙ drop-length c.tx in
          ([], rw e (sym (append-nil (L.sent conn.w))), rw at_end refl)
      updates-Encoded small c (suc k) i conn conn' rx subscribed at behind few
            (taken, conn1, went, more) =
          let (s, here', there) = get_elem?-drop c.tx i (omega arith) in
          let (rx', got, moved) =
            K.recv_next rx c.tx s (ap (get_elem? c.tx) at ∙ here') (omega arith) in
          let (wrote, ew, resubscribed) =
            update_sends taken conn conn1 c rx rx' s subscribed got went in
          let (b, enc, sent) = write_msg-frame W L events (status s) conn.w wrote in
          let (tail, rest_sent, rest) =
            updates-Encoded small c k (suc i) conn1 conn' rx' resubscribed (moved ∙ ap suc at)
              (omega arith) (omega arith) more in
          (
            frame b ++ tail,
            rest_sent
                ∙ ap (λ l. l ++ tail) (ap L.sent ew ∙ sent)
                ∙ append_assoc (L.sent conn.w) (frame b) tail,
            rw there (b, tail, enc, small (status s) b enc, refl, rest),
          )

    -- the next update can be sent, unless the write fails
    update_enabled :
        (c : Controller R P) (taken : ℕ) (conn : Conn W Ch) (rx : Ch.Receiver)
        → conn.subscription ≡ some rx
        → K.position rx < length c.tx
        → length c.tx ≤ K.position rx + capacity
        → ((s : Status)
            → get_elem? c.tx (K.position rx) ≡ some s
            → (write_msg W events (status s) conn.w).0 ≡ ok tt)
        → (conn1 : Conn W Ch) × (rx' : Ch.Receiver) × (handle_conn R P W Ch commands events
              (update taken)
              conn
              c
            ≡ some (again conn1, c))
          × (conn1.subscription ≡ some rx')
          × (K.position rx' ≡ suc (K.position rx))
    unfolding handle_conn recv_opt
    update_enabled c taken conn rx subscribed behind near writes =
        let (s, here', there) = get_elem?-drop c.tx (K.position rx) behind in
        let (rx', got, moved) = K.recv_next rx c.tx s here' near in
        let wrote = writes s here' in
        (
          record conn {
            r = W.abandon taken conn.r;
            w = (write_msg W events (status s) conn.w).1;
            subscription = some rx';
          },
          rx',
          ground (arith, got, wrote),
          refl,
          moved,
        )

    -- the turns that it takes to catch up can be taken
    updates_run :
        (c : Controller R P) (k : ℕ) (conn : Conn W Ch) (rx : Ch.Receiver)
        → conn.subscription ≡ some rx
        → K.position rx + k ≡ length c.tx
        → k ≤ capacity
        → ((i : ℕ) (s : Status) (w : W.Writer)
            → get_elem? c.tx i ≡ some s
            → (write_msg W events (status s) w).0 ≡ ok tt)
        → (conn' : Conn W Ch) × (rx' : Ch.Receiver) × Sending c k conn conn'
          × (conn'.subscription ≡ some rx')
          × (K.position rx' ≡ length c.tx)
    updates_run c zero conn rx subscribed behind few writes =
        (conn, rx, refl, subscribed, omega (arith, behind))
    updates_run c (suc k) conn rx subscribed behind few writes =
        let (conn1, rx1, went, resubscribed, moved) =
          update_enabled c 0 conn rx subscribed (omega (arith, behind)) (omega (arith, behind, few))
            (λ s h. writes (K.position rx) s conn.w h) in
        let (conn', rx', more, done, end) =
          updates_run c k conn1 rx1 resubscribed (omega (arith, behind, moved)) (omega (arith, few))
            writes in
        (conn', rx', (0, conn1, went, more), done, end)

    -- A subscribed connection that is behind by at most the channel's capacity catches up: over a
    -- transport and a channel as documented, for texts under 4 GiB, if the statuses that were
    -- broadcast can be written, as many turns that an update wins as there are statuses to send can
    -- be taken; the receiver is then behind the last one, and what was put on the connection is the
    -- frames of the statuses since the receiver's position, in order.
    pub updates_run-Encoded :
        (L : WireLaws W)
        → IsSmall events
        → (c : Controller R P) (k : ℕ) (conn : Conn W Ch) (rx : Ch.Receiver)
        → conn.subscription ≡ some rx
        → K.position rx + k ≡ length c.tx
        → k ≤ capacity
        → ((i : ℕ) (s : Status) (w : W.Writer)
            → get_elem? c.tx i ≡ some s
            → (write_msg W events (status s) w).0 ≡ ok tt)
        → (conn' : Conn W Ch) × (rx' : Ch.Receiver) × (bytes : Bytes) × Sending c k conn conn'
          × (conn'.subscription ≡ some rx')
          × (K.position rx' ≡ length c.tx)
          × (L.sent conn'.w ≡ L.sent conn.w ++ bytes)
          × Encoded events (map status (drop (K.position rx) c.tx)) bytes
    updates_run-Encoded L small c k conn rx subscribed behind few writes =
        let (conn', rx', went, kept, end) = updates_run c k conn rx subscribed behind few writes in
        let (bytes, sent, holds) =
          updates-Encoded L small c k (K.position rx) conn conn' rx subscribed refl behind few
            went in
        (conn', rx', bytes, went, kept, end, sent, holds)
