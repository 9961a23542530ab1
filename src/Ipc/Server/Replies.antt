-- ===== src/Ipc/Server/Replies.antt =====
-- What a connection's turn writes back.
use voindns_desktop.Base.{◌≡◌, some, ok, arith}
use voindns_desktop.Proto.{Command, Event}
use voindns_desktop.Redirect.{DnsRedirector}
use voindns_desktop.Controller.{ProxyServer, Controller}
use voindns_desktop.Ipc.Wire.{Wire, Codec}
use voindns_desktop.Ipc.Frame.{write_msg, read_msg}
use voindns_desktop.Ipc.Server.{Channel, dispatch, incoming, Conn, again, handle_conn, reply}

module _ (R : DnsRedirector) (P : ProxyServer) (W : Wire) (Ch : Channel) (commands : Codec Command)
    (events : Codec Event) where
  reply-again :
      (event : Event) (conn conn' : Conn W Ch)
      → reply R P W Ch commands events event conn ≡ again conn'
      → ((write_msg W events event conn.w).0 ≡ ok tt)
        × (conn' ≡ record conn { w = (write_msg W events event conn.w).1 })
  unfolding reply
  reply-again event conn conn' h = ground arith

  -- A turn that finds a command answers it with what `dispatch` gives.
  pub handle_conn-again :
      (cmd : Command) (conn conn' : Conn W Ch) (c c' : Controller R P)
      → (read_msg W commands conn.r).0 ≡ ok (some cmd)
      → handle_conn R P W Ch commands events incoming conn c ≡ some (again conn', c')
      → let (event, c1, sub) = dispatch R P Ch cmd c conn.subscription in
        (c' ≡ c1)
        × ((write_msg W events event conn.w).0 ≡ ok tt)
        × (conn'.w ≡ (write_msg W events event conn.w).1)
        × (conn'.r ≡ (read_msg W commands conn.r).1)
        × (conn'.subscription ≡ sub)
  unfolding handle_conn
  handle_conn-again cmd conn conn' c c' got h = ground (arith, got, h)
