-- ===== src/Ipc/Server/Dropped.antt =====
-- A status update that wins the `select!` while a command is being read.
use voindns_desktop.Base.{
  ℕ, ◌<◌, ◌≡◌, ◌∙◌, ap, some, ◌∷◌, ◌++◌, length, drop, err, Error, from_io, arith,
}
use voindns_desktop.Proto.{Command, Event}
use voindns_desktop.Redirect.{DnsRedirector}
use voindns_desktop.Controller.{ProxyServer, Controller}
use voindns_desktop.Ipc.Wire.{Wire, WireLaws, Codec, Bytes, from_be}
use voindns_desktop.Ipc.Frame.{read_msg}
use voindns_desktop.Ipc.Frame.RoundTrip.{frame}
use voindns_desktop.Ipc.Server.{
  Channel, incoming, update, Conn, again, returned, handle_conn, recv_opt,
}

module _ (W : Wire) (L : WireLaws W) {T : Type 0} (c : Codec T) where
  -- a length that goes beyond what is sent
  read_msg_long :
      (r : W.Reader) (x0 x1 x2 x3 : ℕ) (rest : Bytes)
      → L.pending r ≡ x0 ∷ x1 ∷ x2 ∷ x3 ∷ rest
      → length rest < from_be x0 x1 x2 x3
      → (read_msg W c r).0 ≡ err (from_io (L.ending r))
  unfolding read_msg
  read_msg_long r x0 x1 x2 x3 rest arrived long =
      let (value, left, same) = L.read_u32_full r x0 x1 x2 x3 rest arrived in
      let r1 = (W.read_u32 r).1 in
      let short : length (L.pending r1) < from_be x0 x1 x2 x3 = rw left long in
      ground (arith, value, L.read_exact_short r1 (from_be x0 x1 x2 x3) short, same)

module _ (R : DnsRedirector) (P : ProxyServer) (W : Wire) (L : WireLaws W) (Ch : Channel)
    (commands : Codec Command) (events : Codec Event) where
  update_reader :
      (taken : ℕ) (conn conn1 : Conn W Ch) (c : Controller R P)
      → handle_conn R P W Ch commands events (update taken) conn c ≡ some (again conn1, c)
      → conn1.r ≡ W.abandon taken conn.r
  unfolding handle_conn recv_opt
  update_reader taken conn conn1 c went = ground arith

  incoming_fails :
      (conn : Conn W Ch) (c : Controller R P) (e : Error)
      → (read_msg W commands conn.r).0 ≡ err e
      → handle_conn R P W Ch commands events incoming conn c ≡ some (returned (err e), c)
  unfolding handle_conn
  incoming_fails conn c e h = ground (arith, h)

  -- When a status update wins the select! after the length of a command's frame was read, and the
  -- first four bytes of its JSON text, read as a length, exceed what follows them, then the next
  -- read fails and ends the connection without a reply.
  pub update_drops_command :
      (conn conn1 : Conn W Ch) (c : Controller R P) (x0 x1 x2 x3 : ℕ) (b rest : Bytes)
      → L.pending conn.r ≡ frame (x0 ∷ x1 ∷ x2 ∷ x3 ∷ b) ++ rest
      → length (b ++ rest) < from_be x0 x1 x2 x3
      → handle_conn R P W Ch commands events (update 4) conn c ≡ some (again conn1, c)
      → handle_conn R P W Ch commands events incoming conn1 c
        ≡ some (returned (err (from_io (L.ending conn.r))), c)
  update_drops_command conn conn1 c x0 x1 x2 x3 b rest arrived long went =
      let same = update_reader 4 conn conn1 c went in
      let left : L.pending conn1.r ≡ x0 ∷ x1 ∷ x2 ∷ x3 ∷ (b ++ rest) =
        ap L.pending same ∙ L.abandon_pending 4 conn.r ∙ ap (drop 4) arrived in
      let failed = read_msg_long W L commands conn1.r x0 x1 x2 x3 (b ++ rest) left long in
      incoming_fails conn1 c _ (
        failed
        ∙ ap (λ r. err (from_io (L.ending r))) same
        ∙ ap (λ e. err (from_io e)) (L.abandon_ending 4 conn.r))
