-- ===== src/Controller/Outcome.antt =====
-- The ways in which `Controller::connect` can go, each with all that it leaves behind.
use voindns_desktop.Base.{
  some, ◌≡◌, true, false, [], ◌∷◌, ◌++◌, append_assoc, ok, err, Error, Bool-cases, Result-cases,
  inl, inr,
}
use voindns_desktop.Base.Io.{ignore}
use voindns_desktop.Std.Net.{localhost}
use voindns_desktop.Proto.{UpstreamSel, Status}
use voindns_desktop.Redirect.{DnsRedirector}
use voindns_desktop.Controller.{
  ProxyServer, Controller, connect, listen_addr, connecting_status, connected_status, is_busy,
  error_status,
}

module _ (R : DnsRedirector) (P : ProxyServer) (u : UpstreamSel) (c : Controller R P) where
  -- The machine after the proxy's start, and after the redirection.
  abbrev pub net1 : P.Net
  net1 = (P.start (listen_addr R P c) u c.net).1

  abbrev pub os1 : R.Os
  os1 = (R.apply localhost c.redirector).1

  abbrev pub os2 : R.Os
  os2 = ignore R.flush_cache os1

  -- What a failed start leaves: nothing but the sockets was touched.
  abbrev pub start_failed : Error → Controller R P
  start_failed e = record c {
    status = error_status e;
    tx = c.tx ++ (connecting_status R P u ∷ error_status e ∷ []);
    net = net1;
    passed = (c.redirector, net1) ∷ c.passed;
  }

  abbrev pub apply_failed : P.Proxy → Error → Controller R P
  apply_failed p e =
      let net2 = ignore (P.stop p) net1 in
      record c {
        status = error_status e;
        tx = c.tx ++ (connecting_status R P u ∷ error_status e ∷ []);
        redirector = os1;
        net = net2;
        passed = (os1, net2) ∷ (os1, net1) ∷ (c.redirector, net1) ∷ c.passed;
      }

  abbrev pub established : P.Proxy → Controller R P
  established p =
      let done = connected_status R P u (listen_addr R P c) in
      record c {
        status = done;
        proxy = some p;
        tx = c.tx ++ (connecting_status R P u ∷ done ∷ []);
        redirector = os2;
        net = net1;
        passed = (os2, net1) ∷ (os1, net1) ∷ (c.redirector, net1) ∷ c.passed;
      }

  pub data Outcome (r : Status × Controller R P) : Type 0 where
    refused : is_busy c.status.state ≡ true → r ≡ (c.status, c) → Outcome r
    no_proxy :
        (e : Error)
        → is_busy c.status.state ≡ false
        → (P.start (listen_addr R P c) u c.net).0 ≡ err e
        → r ≡ (error_status e, start_failed e)
        → Outcome r
    no_redirect :
        (p : P.Proxy) (e : Error)
        → is_busy c.status.state ≡ false
        → (P.start (listen_addr R P c) u c.net).0 ≡ ok p
        → (R.apply localhost c.redirector).0 ≡ err e
        → r ≡ (error_status e, apply_failed p e)
        → Outcome r
    done :
        (p : P.Proxy)
        → is_busy c.status.state ≡ false
        → (P.start (listen_addr R P c) u c.net).0 ≡ ok p
        → (R.apply localhost c.redirector).0 ≡ ok tt
        → r ≡ (connected_status R P u (listen_addr R P c), established p)
        → Outcome r

  -- Every call of connect ends in one of four ways, under exactly the stated results of the proxy
  -- and of the redirector, each with all that it leaves behind: refused while busy, proxy not
  -- started, redirection failed with the proxy stopped again, or connected.
  pub connect-Outcome : Outcome (connect R P u c)
  unfolding connect
  connect-Outcome = elim (Bool-cases (is_busy c.status.state)) [
    | inl busy ↦ refused busy (rw busy)
    | inr idle ↦ elim (Result-cases (P.start (listen_addr R P c) u c.net).0) [
      | inr (e, failed) ↦ no_proxy e idle failed (rw (idle, failed, append_assoc))
      | inl (p, started) ↦ elim (Result-cases (R.apply localhost c.redirector).0) [
        | inr (e, failed) ↦
            no_redirect p e idle started failed (rw (idle, started, failed, append_assoc))
        | inl (_, applied) ↦ done p idle started applied (rw (idle, started, applied, append_assoc))
      ]
    ]
  ]
