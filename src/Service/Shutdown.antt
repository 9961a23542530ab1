-- ===== src/Service/Shutdown.antt =====
-- A daemon under the Service Control Manager that is told to stop.
use voindns_desktop.Base.{
  ℕ, suc, ◌<◌, ◌≤◌, ◌≡◌, ◌↔◌, refl, ◌∙◌, ap, Option, none, some, List, [], ◌∷◌, ◌++◌, append_assoc,
  Result, ok, Error, Text, arith,
}
use voindns_desktop.Proto.{Command, Event, status_disconnected}
use voindns_desktop.Redirect.{DnsRedirector}
use voindns_desktop.Controller.{ProxyServer, Controller}
use voindns_desktop.Ipc.Wire.{Wire, Codec}
use voindns_desktop.Ipc.Server.{Channel}
use voindns_desktop.Service.Daemon as Daemon
use voindns_desktop.Service.Daemon.{Stop, server_ended, stop_daemon, stop_daemon-shutdown, Served}
use voindns_desktop.Service.Scm.{
  ServiceControl, stop, shutdown, interrogate, other, ServiceStatus, running, stopped,
  event_handler, deliver, Scm, report_stopped, serve_service, run_service,
}

-- Among the controls is one that asks the service to end.
abbrev pub Asked : List ServiceControl → Type 0
Asked [] = ⊥
Asked (stop ∷ cs) = Unit
Asked (shutdown ∷ cs) = Unit
Asked (interrogate ∷ cs) = Asked cs
Asked (other code ∷ cs) = Asked cs

-- Which branch of the daemon's `select!` can be taken, when these controls have been delivered and
-- the server has ended as given. The channel's sender is the handler's, which is registered for good,
-- so that a receive waits for a message.
pub data Ends (controls : List ServiceControl) (server : Option (Result Error (Unit {0})))
    : Stop → Type 0 where
  by_server :
      (res : Result Error (Unit {0})) → server ≡ some res → Ends controls server (server_ended res)
  by_signal : 0 < deliver controls 0 → Ends controls server Daemon.shutdown

deliver-grows : (cs : List ServiceControl) (waiting : ℕ) → waiting ≤ deliver cs waiting
unfolding deliver event_handler
deliver-grows [] waiting = omega arith
deliver-grows (stop ∷ cs) waiting = omega (arith, deliver-grows cs (suc waiting))
deliver-grows (shutdown ∷ cs) waiting = omega (arith, deliver-grows cs (suc waiting))
deliver-grows (interrogate ∷ cs) waiting = deliver-grows cs waiting
deliver-grows (other code ∷ cs) waiting = deliver-grows cs waiting

Asked-deliver : (cs : List ServiceControl) → Asked cs → 0 < deliver cs 0
unfolding deliver event_handler
Asked-deliver [] h = elim h [ ]
Asked-deliver (stop ∷ cs) h = omega (arith, deliver-grows cs 1)
Asked-deliver (shutdown ∷ cs) h = omega (arith, deliver-grows cs 1)
Asked-deliver (interrogate ∷ cs) h = Asked-deliver cs h
Asked-deliver (other code ∷ cs) h = Asked-deliver cs h

deliver-Asked : (cs : List ServiceControl) → 0 < deliver cs 0 → Asked cs
unfolding deliver event_handler
deliver-Asked [] h = absurd (omega (arith, h))
deliver-Asked (stop ∷ cs) h = tt
deliver-Asked (shutdown ∷ cs) h = tt
deliver-Asked (interrogate ∷ cs) h = deliver-Asked cs h
deliver-Asked (other code ∷ cs) h = deliver-Asked cs h

ended-Asked : (cs : List ServiceControl) → Ends cs none Daemon.shutdown → Asked cs
ended-Asked cs (by_signal h) = deliver-Asked cs h

-- the branch of a server that goes on is never taken
goes_on :
    (cs : List ServiceControl) (res : Result Error (Unit {0})) → ¬ Ends cs none (server_ended res)
goes_on cs res (by_server res' h) = cc

-- What is documented of a Service Control Manager that does as it is asked; `log` has the statuses
-- that were reported to it.
pub record Cooperates (S : Scm) : Type 0 where
  pub log : S.State → List ServiceStatus
  pub handle : S.Handle
  pub registered : (s : S.State) → (S.register s).0 ≡ ok handle
  pub register-log : (s : S.State) → log (S.register s).1 ≡ log s
  pub reported : (st : ServiceStatus) (s : S.State) → (S.set_service_status handle st s).0 ≡ ok tt
  pub report-log :
      (st : ServiceStatus) (s : S.State)
      → log (S.set_service_status handle st s).1 ≡ log s ++ st ∷ []
  pub built : (s : S.State) → (S.build_runtime s).0 ≡ ok tt
  pub build-log : (s : S.State) → log (S.build_runtime s).1 ≡ log s

-- What is reported of a service that runs, and of one that has ended.
abbrev pub as_running : ServiceStatus
as_running = record { current_state = running; controls_accepted = stop ∷ shutdown ∷ [] }

abbrev pub as_stopped : ServiceStatus
as_stopped = record { current_state = stopped; controls_accepted = [] }

abbrev pub reports : List ServiceStatus
reports = as_running ∷ as_stopped ∷ []

module _ (S : Scm) (K : Cooperates S) {A : Type 0} (daemon : A → Result Error (Unit {0}) × A) where
  run_service-done :
      (a : A) (s : S.State)
      → let s1 = (S.register s).1 in
        let s2 = (S.set_service_status K.handle as_running s1).1 in
        let s3 = (S.build_runtime s2).1 in
        run_service S daemon (a, s)
        ≡ ((daemon a).0, ((daemon a).1, (S.set_service_status K.handle as_stopped s3).1))
  unfolding run_service serve_service report_stopped
  run_service-done a s =
      let s1 = (S.register s).1 in
      let s2 = (S.set_service_status K.handle as_running s1).1 in
      let s3 = (S.build_runtime s2).1 in
      rw
        (
          K.registered s,
          K.reported as_running s1,
          K.built s2,
          K.reported as_stopped s3,
          run_service,
          serve_service,
          report_stopped,
        )
        refl

  -- the log goes through the four calls
  run_service-reports :
      (a : A) (s : S.State)
      → ((run_service S daemon (a, s)).0 ≡ (daemon a).0)
        × ((run_service S daemon (a, s)).1.0 ≡ (daemon a).1)
        × (K.log (run_service S daemon (a, s)).1.1 ≡ K.log s ++ reports)
  run_service-reports a s =
      let s1 = (S.register s).1 in
      let s2 = (S.set_service_status K.handle as_running s1).1 in
      let s3 = (S.build_runtime s2).1 in
      rw (run_service-done a s) (
        refl,
        refl,
        K.report-log as_stopped s3
            ∙ ap (λ l. l ++ as_stopped ∷ []) (K.build-log s2 ∙ K.report-log as_running s1)
            ∙ append_assoc (K.log s1) (as_running ∷ []) (as_stopped ∷ [])
            ∙ ap (λ l. l ++ reports) (K.register-log s),
      )

module _ (R : DnsRedirector) (P : ProxyServer) (W : Wire) (Ch : Channel) (commands : Codec Command)
    (events : Codec Event) (S : Scm) (K : Cooperates S) where
  -- Under a Service Control Manager that does as it is asked, and while the server goes on: the
  -- daemon's shutdown branch can be taken exactly when a Stop or a Shutdown is among the controls
  -- that were delivered, and its other branch cannot; over a controller that the serving has left,
  -- whatever its clients did, a run that ends by the shutdown succeeds, reports Running and then
  -- Stopped, and its disconnect leaves the status "disconnected", no proxy, and the redirector
  -- restored and flushed.
  pub run_service-stopped :
      (env : Option Text) (os : R.Os) (net : P.Net) (c : Controller R P)
      → Served R P W Ch commands events env os net c
      → (controls : List ServiceControl) (s : S.State)
      → let x = run_service S (stop_daemon R P Daemon.shutdown) (c, s) in
        (Asked controls ↔ Ends controls none Daemon.shutdown)
        × ¬ ((res : Result Error (Unit {0})) × Ends controls none (server_ended res))
        × (x.0 ≡ ok tt)
        × (x.1.0.status ≡ status_disconnected)
        × (x.1.0.proxy ≡ none)
        × (x.1.0.redirector ≡ (R.flush_cache (R.restore c.redirector).1).1)
        × (K.log x.1.1 ≡ K.log s ++ reports)
  unfolding stop_daemon
  run_service-stopped env os net c served controls s =
      let (same, left, logged) = run_service-reports S K (stop_daemon R P Daemon.shutdown) c s in
      let (_, idle, off, back) =
        stop_daemon-shutdown R P W Ch commands events env os net c served in
      (
        ((λ h. by_signal (Asked-deliver controls h)), ended-Asked controls),
        (λ (res, h). absurd (goes_on controls res h)),
        same,
        ap (λ (x : Controller R P). x.status) left ∙ idle,
        ap (λ (x : Controller R P). x.proxy) left ∙ off,
        ap (λ (x : Controller R P). x.redirector) left ∙ back,
        logged,
      )
