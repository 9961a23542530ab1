-- ===== src/Controller/Coverage.antt =====
-- The proxy and the redirection in time: where the DNS points while a command is under way. The comment
-- in `Controller::disconnect` asks for no window in which the system points at a dead port.
use voindns_desktop.Base.{ℕ, ◌≡◌, refl, ◌∙◌, Option, none, some, Bool, true, false, All, ok, arith}
use voindns_desktop.Std.Net.{SocketAddr, localhost}
use voindns_desktop.Proto.{UpstreamSel, Status, status_disconnected}
use voindns_desktop.Redirect.{DnsRedirector}
use voindns_desktop.Redirect.Contract.{Contract}
use voindns_desktop.Controller.{
  ProxyServer, Controller, new, connect, disconnect, listen_addr, is_busy, error_status, stop_proxy,
  with_os, finish,
}
use voindns_desktop.Controller.Outcome.{
  Outcome, refused, no_proxy, no_redirect, done, connect-Outcome,
}

-- A proxy that has started listens on its address. Nothing is said of a stopped one.
pub record ProxyContract (P : ProxyServer) : Type 0 where
  pub listening : P.Net → SocketAddr → Bool
  pub listening-start :
      (a : SocketAddr) (u : UpstreamSel) (net : P.Net) (p : P.Proxy)
      → (P.start a u net).0 ≡ ok p
      → listening (P.start a u net).1 a ≡ true

module _ {R : DnsRedirector} {P : ProxyServer} (C : Contract R) (D : ProxyContract P) where
  -- The system is off the proxy, or the proxy listens on `a`.
  abbrev pub Covered : SocketAddr → R.Os × P.Net → Type 0
  Covered a (os, net) = C.routed os ≡ true → D.listening net a ≡ true

  pub record IsGuarded (c : Controller R P) : Type 0 where
    pub sound : C.IsSound c.redirector
    pub off : is_busy c.status.state ≡ false → C.routed c.redirector ≡ false
    pub live : is_busy c.status.state ≡ true → D.listening c.net (listen_addr R P c) ≡ true
    pub past : All (Covered (listen_addr R P c)) c.passed

  off_covers :
      (a : SocketAddr) (os : R.Os) (net : P.Net) → C.routed os ≡ false → Covered a (os, net)
  off_covers a os net h on = ground arith

  Outcome-IsGuarded :
      (u : UpstreamSel) (c : Controller R P) {r : Status × Controller R P}
      → Outcome R P u c r
      → (is_busy c.status.state ≡ false → C.Applies localhost c.redirector)
      → IsGuarded c
      → IsGuarded r.1
  unfolding error_status
  Outcome-IsGuarded u c (refused busy e) works g = rw e g
  Outcome-IsGuarded u c (no_proxy m idle s e) works g = rw e (record {
    sound = g.sound;
    off = λ _. g.off idle;
    live = λ busy. cc;
    past = (off_covers _ _ _ (g.off idle), g.past);
  })
  Outcome-IsGuarded u c (no_redirect p m idle s a e) works g =
      let off =
        C.routed-apply_err localhost c.redirector m g.sound (g.off idle) (works idle) a
        ∙ g.off idle in
      rw e (record {
        sound = C.apply-IsSound localhost c.redirector g.sound (g.off idle) (works idle);
        off = λ _. off;
        live = λ busy. cc;
        past =
            (off_covers _ _ _ off, (off_covers _ _ _ off, (off_covers _ _ _ (g.off idle), g.past)));
      })
  Outcome-IsGuarded u c (done p idle s a e) works g =
      let up = D.listening-start (listen_addr R P c) u c.net p s in
      rw e (record {
        sound =
            C.flush_cache-IsSound _
              (C.apply-IsSound localhost c.redirector g.sound (g.off idle) (works idle));
        off = λ idle'. cc;
        live = λ _. up;
        past = ((λ _. up), ((λ _. up), (off_covers _ _ _ (g.off idle), g.past)));
      })

  -- Through every step of `connect` the system's DNS points at the proxy only while it listens.
  pub connect-IsGuarded :
      (u : UpstreamSel) (c : Controller R P)
      → (is_busy c.status.state ≡ false → C.Applies localhost c.redirector)
      → IsGuarded c
      → IsGuarded (connect R P u c).1
  connect-IsGuarded u c works g = Outcome-IsGuarded u c (connect-Outcome R P u c) works g

  -- The system is off the proxy, and was never on a dead one.
  record IsOff (a : SocketAddr) (c : Controller R P) : Type 0 where
    sound : C.IsSound c.redirector
    off : C.routed c.redirector ≡ false
    past : All (Covered a) c.passed
    same : listen_addr R P c ≡ a

  stop_proxy-IsOff :
      (a : SocketAddr) (p : Option P.Proxy) (c : Controller R P)
      → IsOff a c
      → IsOff a (stop_proxy R P p c)
  unfolding stop_proxy
  stop_proxy-IsOff a none c h = h
  stop_proxy-IsOff a (some p) c h = record {
    sound = h.sound;
    off = h.off;
    past = (off_covers _ _ _ h.off, h.past);
    same = h.same;
  }

  with_os-IsOff :
      (a : SocketAddr) (os : R.Os) (c : Controller R P)
      → C.IsSound os
      → C.routed os ≡ false
      → All (Covered a) c.passed
      → listen_addr R P c ≡ a
      → IsOff a (with_os R P os c)
  unfolding with_os
  with_os-IsOff a os c sound off past same = record {
    sound = sound;
    off = off;
    past = (off_covers _ _ _ off, past);
    same = same;
  }

  IsOff-finish :
      (a : SocketAddr) (c : Controller R P)
      → IsOff a c
      → IsGuarded (finish R P status_disconnected c).1
  unfolding finish
  IsOff-finish a c h = record {
    sound = h.sound;
    off = λ _. h.off;
    live = λ busy. cc;
    past = rw h.same h.past;
  }

  -- A `disconnect` whose restore succeeds has no such window either.
  pub disconnect-IsGuarded :
      (c : Controller R P)
      → IsGuarded c
      → C.Restores c.redirector
      → (R.restore c.redirector).0 ≡ ok tt
      → IsGuarded (disconnect R P c).1
  unfolding disconnect
  disconnect-IsGuarded c g works restored =
      let a = listen_addr R P c in
      let c1 = with_os R P (R.restore c.redirector).1 c in
      let c2 = stop_proxy R P c.proxy c1 in
      let h1 =
        with_os-IsOff a (R.restore c.redirector).1 c
          (C.restore-IsSound c.redirector g.sound works restored)
          (C.routed-restore c.redirector g.sound works restored) g.past refl in
      let h2 = stop_proxy-IsOff a c.proxy c1 h1 in
      IsOff-finish a _ (
        with_os-IsOff a (R.flush_cache c2.redirector).1 c2 (C.flush_cache-IsSound _ h2.sound)
          (C.routed-flush_cache _ h2.sound ∙ h2.off) h2.past h2.same)

  -- One command of a client that holds the controller's lock.
  pub data Step (c : Controller R P) (c' : Controller R P) : Type 0 where
    connects :
        (u : UpstreamSel)
        → (is_busy c.status.state ≡ false → C.Applies localhost c.redirector)
        → c' ≡ (connect R P u c).1
        → Step c c'
    disconnects :
        C.Restores c.redirector
        → (R.restore c.redirector).0 ≡ ok tt
        → c' ≡ (disconnect R P c).1
        → Step c c'

  pub data Reach (c : Controller R P) : Controller R P → Type 0 where
    here : Reach c c
    next : {d e : Controller R P} → Reach c d → Step d e → Reach c e

  Step-IsGuarded : (c d : Controller R P) → Step c d → IsGuarded c → IsGuarded d
  Step-IsGuarded c d (connects u works e) g = rw e (connect-IsGuarded u c works g)
  Step-IsGuarded c d (disconnects works restored e) g =
      rw e (disconnect-IsGuarded c g works restored)

  pub new-IsGuarded :
      (port : ℕ) (os : R.Os) (net : P.Net)
      → C.IsSound os
      → C.routed os ≡ false
      → IsGuarded (new R P port os net)
  unfolding new
  new-IsGuarded port os net sound off = record {
    sound = sound;
    off = λ _. off;
    live = λ busy. cc;
    past = tt;
  }

  Reach-IsGuarded : {c d : Controller R P} → IsGuarded c → Reach c d → IsGuarded d
  Reach-IsGuarded g here = g
  Reach-IsGuarded g (next r s) = Step-IsGuarded _ _ s (Reach-IsGuarded g r)

  -- For a redirector and a proxy that keep their contracts, from a new controller on a machine
  -- whose DNS does not point at the proxy, after any connects and any disconnects, of which the
  -- redirections and the restores do what the contract asks of their calls, and the restores
  -- succeed: in every state that the machine passed, during the commands too, the DNS pointed at
  -- the proxy only while the proxy was listening on the controller's address, and it does not point
  -- there now unless the status is connecting or connected.
  pub never_at_dead_proxy :
      (port : ℕ) (os : R.Os) (net : P.Net) (c : Controller R P)
      → C.IsSound os
      → C.routed os ≡ false
      → Reach (new R P port os net) c
      → All (Covered (listen_addr R P c)) c.passed
        × (is_busy c.status.state ≡ false → C.routed c.redirector ≡ false)
  never_at_dead_proxy port os net c sound off r =
      let g = Reach-IsGuarded (new-IsGuarded port os net sound off) r in (g.past, g.off)
