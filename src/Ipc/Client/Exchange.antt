-- ===== src/Ipc/Client/Exchange.antt =====
-- A command, from the client's call through the service's turn to the client's result.
use voindns_desktop.Base.{◌≡◌, ◌++◌, ◌<◌, ◌^◌, ap, sym, ◌∙◌, length, some, ok}
use voindns_desktop.Proto.{Command, Event}
use voindns_desktop.Redirect.{DnsRedirector}
use voindns_desktop.Controller.{ProxyServer, Controller}
use voindns_desktop.Ipc.Wire.{Wire, WireLaws, Codec, IsLossless, Bytes}
use voindns_desktop.Ipc.Frame.{write_msg}
use voindns_desktop.Ipc.Frame.RoundTrip.{read_msg-write_msg}
use voindns_desktop.Ipc.Server.{Channel, dispatch, incoming, Conn, again, handle_conn}
use voindns_desktop.Ipc.Server.Replies.{handle_conn-again}
use voindns_desktop.Ipc.Client.{one_shot}

-- Every JSON text of the type is shorter than 4 GiB.
abbrev pub IsSmall : {T : Type 0} → Codec T → Type 0
IsSmall {T} c = (m : T) (b : Bytes) → c.to_vec m ≡ ok b → length b < 2 ^ 32

module _ (R : DnsRedirector) (P : ProxyServer) (W : Wire) (L : WireLaws W) (Ch : Channel)
    (commands : Codec Command) (events : Codec Event) where
  -- With lossless codecs whose texts stay under 4 GiB: when the client's write of a command
  -- succeeds, its bytes arrive first on the service's connection, a turn of handle_conn there finds
  -- them and goes on, and the bytes of its reply arrive first at the client, then one_shot returns
  -- the event that dispatch gave for the command, the controller is the one that dispatch left, and
  -- the service has read no byte behind the request.
  pub one_shot-handle_conn :
      IsLossless commands
      → IsLossless events
      → IsSmall commands
      → IsSmall events
      → (cmd : Command) (r : W.Reader) (w : W.Writer) (conn conn' : Conn W Ch)
        (c c' : Controller R P) (request more answer behind : Bytes)
      → (write_msg W commands cmd w).0 ≡ ok tt
      → L.sent (write_msg W commands cmd w).1 ≡ L.sent w ++ request
      → L.pending conn.r ≡ request ++ more
      → handle_conn R P W Ch commands events incoming conn c ≡ some (again conn', c')
      → L.sent conn'.w ≡ L.sent conn.w ++ answer
      → L.pending r ≡ answer ++ behind
      → (one_shot W commands events (ok (r, w)) cmd
          ≡ ok (dispatch R P Ch cmd c conn.subscription).0)
        × (c' ≡ (dispatch R P Ch cmd c conn.subscription).1)
        × (L.pending conn'.r ≡ more)
  unfolding one_shot
  one_shot-handle_conn lc le sc se cmd r w conn conn' c c' request more answer behind written put
        arrived served answered returned =
      let (got, left, _) =
        read_msg-write_msg W L commands lc cmd w conn.r request more (sc cmd) written put arrived in
      let (same, wrote, ew, er, _) =
        handle_conn-again R P W Ch commands events cmd conn conn' c c' got served in
      let event = (dispatch R P Ch cmd c conn.subscription).0 in
      let (seen, _, _) =
        read_msg-write_msg W L events le event conn.w r answer behind (se event) wrote
          (ap L.sent (sym ew) ∙ answered) returned in
      (rw (written, seen), same, rw er left)
