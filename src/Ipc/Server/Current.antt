-- ===== src/Ipc/Server/Current.antt =====
-- What the broadcasts tell of the controller: the last of them is where it is.
use voindns_desktop.Base.{ℕ, ◌≡◌, refl, sym, ◌∙◌, ap, inl, inr, Bool-cases, List, [], ◌∷◌, ◌++◌}
use voindns_desktop.Proto.{UpstreamSel, Command, Event, Status, status_disconnected}
use voindns_desktop.Redirect.{DnsRedirector}
use voindns_desktop.Controller as Core
use voindns_desktop.Controller.{ProxyServer, Controller, new, is_busy, connecting_status}
use voindns_desktop.Controller.Broadcast.{tx-connect, disconnect_lem}
use voindns_desktop.Ipc.Wire.{Wire, Codec}
use voindns_desktop.Ipc.Server.{Channel, Conn, Server, Reach}
use voindns_desktop.Ipc.Server.Turns.{Reach_keeps}

-- The last status of a list, or the given one.
abbrev pub last_or : Status → List Status → Status
last_or s [] = s
last_or s (t ∷ ts) = last_or t ts

last_or-append :
    (s : Status) (xs : List Status) (t : Status) (ys : List Status)
    → last_or s (xs ++ t ∷ ys) ≡ last_or t ys
last_or-append s [] t ys = refl
last_or-append s (x ∷ xs) t ys = last_or-append x xs t ys

module _ (R : DnsRedirector) (P : ProxyServer) where
  abbrev IsCurrent : Controller R P → Type 0
  IsCurrent c = last_or status_disconnected c.tx ≡ c.status

  connect-IsCurrent :
      (u : UpstreamSel) (c : Controller R P) → IsCurrent c → IsCurrent (Core.connect R P u c).1
  connect-IsCurrent u c current =
      let (answers, refused, announced) = tx-connect R P u c in
      elim (Bool-cases (is_busy c.status.state)) [
        | inl busy ↦ rw (refused busy) current
        | inr idle ↦
            ap (last_or status_disconnected) (announced idle)
            ∙ last_or-append status_disconnected c.tx (connecting_status R P u)
                ((Core.connect R P u c).0 ∷ [])
            ∙ answers
      ]

  disconnect-IsCurrent : (c : Controller R P) → IsCurrent c → IsCurrent (Core.disconnect R P c).1
  disconnect-IsCurrent c current =
      let (_, idle, _, sent, _, _) = disconnect_lem R P c in
      ap (last_or status_disconnected) sent
      ∙ last_or-append status_disconnected c.tx status_disconnected []
      ∙ sym idle

  module _ (W : Wire) (Ch : Channel) (commands : Codec Command) (events : Codec Event) where
    -- From a new controller, after any steps of the server, in any interleaving of its connections,
    -- the last status that was broadcast is the controller's, "disconnected" if none was: a
    -- subscriber that has caught up knows where the controller is.
    pub serve-IsCurrent :
        (port : ℕ) (os : R.Os) (net : P.Net) (conns : List (Conn W Ch))
        (t : Server R P W Ch commands events)
        → Reach R P W Ch commands events
            (record { controller = new R P port os net; conns = conns })
            t
        → last_or status_disconnected t.controller.tx ≡ t.controller.status
    unfolding new
    serve-IsCurrent port os net conns t r =
        Reach_keeps R P W Ch commands events IsCurrent connect-IsCurrent disconnect-IsCurrent r refl
