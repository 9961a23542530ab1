-- ===== src/Controller/Broadcast.antt =====
-- What the commands answer and what they broadcast.
use voindns_desktop.Base.{
  true, false, ◌≡◌, refl, ◌↔◌, ◌⊎◌, inl, inr, [], ◌∷◌, ◌++◌, ok, arith, none,
}
use voindns_desktop.Std.Net.{localhost}
use voindns_desktop.Proto.{UpstreamSel, Status, connected, status_disconnected}
use voindns_desktop.Redirect.{DnsRedirector}
use voindns_desktop.Controller.{
  ProxyServer, Controller, connect, disconnect, listen_addr, connecting_status, is_busy,
  error_status,
}
use voindns_desktop.Controller.Outcome.{
  Outcome, refused, no_proxy, no_redirect, done, connect-Outcome,
}

module _ (R : DnsRedirector) (P : ProxyServer) where
  Announced : UpstreamSel → Controller R P → Status × Controller R P → Type 0
  Announced u c r =
      (r.0 ≡ r.1.status)
      × ((is_busy c.status.state ≡ true) → r.1 ≡ c)
      × ((is_busy c.status.state ≡ false) → r.1.tx ≡ c.tx ++ (connecting_status R P u ∷ r.0 ∷ []))

  Outcome-Announced :
      (u : UpstreamSel) (c : Controller R P) {r : Status × Controller R P}
      → Outcome R P u c r
      → Announced u c r
  unfolding Announced
  Outcome-Announced u c (refused busy e) = rw e (refl, (λ _. refl), λ idle. cc)
  Outcome-Announced u c (no_proxy m idle s e) = rw e (refl, (λ busy. cc), λ _. refl)
  Outcome-Announced u c (no_redirect p m idle s a e) = rw e (refl, (λ busy. cc), λ _. refl)
  Outcome-Announced u c (done p idle s a e) = rw e (refl, (λ busy. cc), λ _. refl)

  -- connect answers with the status that it leaves. A controller that is connecting or connected is
  -- left as it is; otherwise two statuses are broadcast, "connecting" with the upstream's label and
  -- then the answer.
  pub tx-connect :
      (u : UpstreamSel) (c : Controller R P)
      → let r = connect R P u c in
        (r.0 ≡ r.1.status)
        × ((is_busy c.status.state ≡ true) → r.1 ≡ c)
        × ((is_busy c.status.state ≡ false) → r.1.tx ≡ c.tx ++ (connecting_status R P u ∷ r.0 ∷ []))
  unfolding Announced
  tx-connect u c = Outcome-Announced u c (connect-Outcome R P u c)

  Outcome-connected :
      (u : UpstreamSel) (c : Controller R P) {r : Status × Controller R P}
      → Outcome R P u c r
      → (r.0.state ≡ connected) ↔ (
          (c.status.state ≡ connected)
          ⊎ ((is_busy c.status.state ≡ false)
              × ((p : P.Proxy) × ((P.start (listen_addr R P c) u c.net).0 ≡ ok p))
              × ((R.apply localhost c.redirector).0 ≡ ok tt)))
  unfolding error_status
  Outcome-connected u c (refused busy e) =
      rw e ((λ h. inl h), λ h. elim h [ inl k ↦ k | inr (idle, _, _) ↦ absurd (cc) ])
  Outcome-connected u c (no_proxy m idle s e) =
      rw e (
        (λ h. cc),
        λ h. elim h [ inl k ↦ absurd (ground arith) | inr (_, (p, s'), _) ↦ absurd (cc) ],
      )
  Outcome-connected u c (no_redirect p m idle s a e) =
      rw e ((λ h. cc), λ h. elim h [ inl k ↦ absurd (ground arith) | inr (_, _, a') ↦ absurd (cc) ])
  Outcome-connected u c (done p idle s a e) = rw e ((λ _. inr (idle, (p, s), a)), λ _. refl)

  -- disconnect always ends and answers "disconnected", holds no proxy and broadcasts that one
  -- status, whatever the restore, the stop and the flush returned. The redirector has been restored
  -- and then flushed once, and the port is kept.
  pub disconnect_lem :
      (c : Controller R P)
      → let r = disconnect R P c in
        (r.0 ≡ status_disconnected)
        × (r.1.status ≡ status_disconnected)
        × (r.1.proxy ≡ none)
        × (r.1.tx ≡ c.tx ++ (status_disconnected ∷ []))
        × (r.1.redirector ≡ (R.flush_cache (R.restore c.redirector).1).1)
        × (r.1.port ≡ c.port)
  unfolding disconnect
  disconnect_lem c = ground arith

  -- A controller answers "connected" to connect exactly when it was connected before, or it is not
  -- busy, the proxy starts and the redirection succeeds. So an error status can always be retried.
  pub connect-connected :
      (u : UpstreamSel) (c : Controller R P)
      → ((connect R P u c).0.state ≡ connected) ↔ (
          (c.status.state ≡ connected)
          ⊎ ((is_busy c.status.state ≡ false)
              × ((p : P.Proxy) × ((P.start (listen_addr R P c) u c.net).0 ≡ ok p))
              × ((R.apply localhost c.redirector).0 ≡ ok tt)))
  connect-connected u c = Outcome-connected u c (connect-Outcome R P u c)

  -- without a proxy the sockets are left alone
  pub disconnect-net : (c : Controller R P) → c.proxy ≡ none → (disconnect R P c).1.net ≡ c.net
  unfolding disconnect
  disconnect-net c e = ground (arith, e)
