-- ===== src/Controller/Invariant.antt =====
-- The well-formedness of a controller, and what the two commands leave behind.
use voindns_desktop.Base.{ℕ, Option, none, some, ◌≡◌, refl, display_chain, Text, arith, false}
use voindns_desktop.Std.Net.{SocketAddr, display_addr}
use voindns_desktop.Proto.{
  UpstreamSel, label, Status, ConnState, disconnected, connecting, connected, status_disconnected,
}
use voindns_desktop.Redirect.{DnsRedirector}
use voindns_desktop.Controller.Outcome.{
  Outcome, refused, no_proxy, no_redirect, done, connect-Outcome,
}
use voindns_desktop.Controller.{
  ProxyServer, Controller, new, connect, disconnect, listen_addr, is_busy, error_status,
}

-- Which of the optional parts go with a state. `connecting` is never seen from outside.
abbrev pub Fits : {A : Type 0} → ConnState → Status → Option A → SocketAddr → Type 0
Fits {A} disconnected s proxy listen = (s ≡ status_disconnected) × (proxy ≡ none)
Fits {A} connecting s proxy listen = ⊥
Fits {A} connected s proxy listen =
    (name : Text) × (p : A) × (s.upstream ≡ some name)
    × (s.listen ≡ some (display_addr listen))
    × (s.error ≡ none)
    × (proxy ≡ some p)
Fits {A} ConnState.error s proxy listen =
    (message : Text) × (s.upstream ≡ none)
    × (s.listen ≡ none)
    × (s.error ≡ some message)
    × (proxy ≡ none)

module _ (R : DnsRedirector) (P : ProxyServer) where
  -- The status shown to clients agrees with what the controller holds.
  abbrev pub IsValid : Controller R P → Type 0
  IsValid c = Fits c.status.state c.status c.proxy (listen_addr R P c)

pub idle_proxy :
    {A : Type 0} (k : ConnState) (s : Status) (proxy : Option A) (listen : SocketAddr)
    → Fits k s proxy listen
    → is_busy k ≡ false
    → proxy ≡ none
idle_proxy disconnected s proxy listen v h = v.1
idle_proxy connecting s proxy listen v h = absurd v
idle_proxy connected s proxy listen v h = cc
idle_proxy ConnState.error s proxy listen v h = v.4

module _ (R : DnsRedirector) (P : ProxyServer) where
  Outcome-IsValid :
      (u : UpstreamSel) (c : Controller R P) {r : Status × Controller R P}
      → Outcome R P u c r
      → IsValid R P c
      → IsValid R P r.1
  unfolding error_status
  Outcome-IsValid u c (refused busy e) v = rw e v
  Outcome-IsValid u c (no_proxy m idle s e) v =
      rw e (display_chain m, refl, refl, refl, idle_proxy c.status.state c.status c.proxy _ v idle)
  Outcome-IsValid u c (no_redirect p m idle s a e) v =
      rw e (display_chain m, refl, refl, refl, idle_proxy c.status.state c.status c.proxy _ v idle)
  Outcome-IsValid u c (done p idle s a e) v = rw e (label u, p, refl, refl, refl, refl)

  -- connect keeps a controller well-formed: the optional fields of the status are those of its
  -- state, and a proxy is held exactly when the state is "connected".
  pub connect-IsValid :
      (u : UpstreamSel) (c : Controller R P) → IsValid R P c → IsValid R P (connect R P u c).1
  connect-IsValid u c v = Outcome-IsValid u c (connect-Outcome R P u c) v

  pub disconnect-IsValid : (c : Controller R P) → IsValid R P (disconnect R P c).1
  unfolding disconnect
  disconnect-IsValid c = ground arith

  pub new-IsValid : (port : ℕ) (os : R.Os) (net : P.Net) → IsValid R P (new R P port os net)
  unfolding new
  new-IsValid port os net = (refl, refl)
