-- ===== src/Redirect/Select/Fresh.antt =====
-- A redirector that has applied nothing leaves the system's DNS alone.
use mathlib.Core.Path.{subst}
use voindns_desktop.Base.{ℕ, ◌≡◌, refl, ◌∙◌, ap, ok, Result, Error}
use voindns_desktop.Controller.{ProxyServer, new, disconnect}
use voindns_desktop.Controller.Broadcast.{disconnect_lem, disconnect-net}
use voindns_desktop.Redirect.Linux as Linux
use voindns_desktop.Redirect.Linux.Idempotent.{restore_idle}
use voindns_desktop.Redirect.Windows as Windows
use voindns_desktop.Redirect.Windows.Outcomes as Win
use voindns_desktop.Redirect.Macos.Outcomes as Mac
use voindns_desktop.Redirect.Macos as Macos
use voindns_desktop.Redirect.Select.{
  TargetOs, linux, windows, macos, other, Host, Boxed, new_redirector,
}

ok_inj : {a b : Boxed} → ◌≡◌ {A = Result Error Boxed} (ok a) (ok b) → a ≡ b
ok_inj e = cc

restore_new :
    (t : TargetOs) (h : Host) (b : Boxed)
    → new_redirector t h ≡ ok b
    → b.redirector.restore b.os ≡ (ok tt, b.os)
unfolding new_redirector Linux.new Windows.new Macos.new
restore_new linux h b e =
    subst (λ (x : Boxed). x.redirector.restore x.os ≡ (ok tt, x.os)) (ok_inj e)
      (restore_idle h.bus_api (Linux.new h.bus_api h.disk h.bus) refl)
restore_new windows h b e =
    subst (λ (x : Boxed). x.redirector.restore x.os ≡ (ok tt, x.os)) (ok_inj e)
      (Win.restore_new h.windows_api h.windows_machine)
restore_new macos h b e =
    subst (λ (x : Boxed). x.redirector.restore x.os ≡ (ok tt, x.os)) (ok_inj e)
      (Mac.restore_new h.macos_api h.macos_machine)
restore_new other h b e = absurd cc

-- On Linux, Windows and macOS, a new controller over the redirector of the platform that is told to
-- disconnect has done one thing to the machine, the flush of its resolver's cache: no DNS setting
-- was written and no socket was touched.
pub disconnect-new_redirector :
    (t : TargetOs) (h : Host) (b : Boxed) (P : ProxyServer) (port : ℕ) (net : P.Net)
    → new_redirector t h ≡ ok b
    → let r = (disconnect b.redirector P (new b.redirector P port b.os net)).1 in
      (r.redirector ≡ (b.redirector.flush_cache b.os).1) × (r.net ≡ net)
unfolding new
disconnect-new_redirector t h b P port net e =
    let (_, _, _, _, back, _) = disconnect_lem b.redirector P (new b.redirector P port b.os net) in
    (
      back
          ∙ ap (λ (x : Result Error Unit × b.redirector.Os). (b.redirector.flush_cache x.1).1)
              (restore_new t h b e),
      disconnect-net b.redirector P (new b.redirector P port b.os net) refl,
    )
