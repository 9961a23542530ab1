-- ===== src/Service/Examples.antt =====
-- The theorems on the daemon at a concrete run.
use voindns_desktop.Base.{
  ℕ, suc, ◌≡◌, ◌↔◌, ◌⊎◌, refl, none, some, Bool, true, false, List, [], ◌∷◌, ◌++◌, Result, ok, err,
  Error, if◌then◌else◌, codes,
}
use voindns_desktop.Proto.{status_disconnected}
use voindns_desktop.Redirect.Linux.{linux_redirector, restore, flush_cache}
use voindns_desktop.Redirect.Linux.Fixtures.{logging_bus, fresh_machine}
use voindns_desktop.Controller.Fixtures.{one_port, c0}
use voindns_desktop.Ipc.Server.{here}
use voindns_desktop.Ipc.Fixtures.{list_wire, list_channel}
use voindns_desktop.Ipc.Fixtures.Codecs.{commands, events}
use voindns_desktop.Service.Daemon.{daemon_port, stop_daemon, shutdown, server_ended}
use voindns_desktop.Service.Scm.{ServiceStatus, stop, interrogate, Scm, run_service}
use voindns_desktop.Service.Shutdown.{Asked, Ends, Cooperates, reports, run_service-stopped}
use voindns_desktop.Service.Launch.{
  Dispatch, refused, AsService, InForeground, NotRun, run-Dispatch,
}

-- A Service Control Manager that keeps what is reported to it, and was asked to launch the process
-- or not.
abbrev manager : Bool → Scm
manager launched = record {
  State = List ServiceStatus;
  Failure = ℕ;
  Handle = Unit;
  start = λ main x. if launched then (ok tt, main x) else (err 1063, x);
  register = λ s. (ok tt, s);
  set_service_status = λ h st s. (ok tt, s ++ st ∷ []);
  build_runtime = λ s. (ok tt, s);
  raw_os_error = λ code. some code;
  display = λ code. codes "the process was not launched";
}

abbrev manager-Cooperates : Cooperates (manager true)
manager-Cooperates = record {
  log = λ s. s;
  handle = tt;
  registered = λ s. refl;
  register-log = λ s. refl;
  reported = λ st s. refl;
  report-log = λ st s. refl;
  built = λ s. refl;
  build-log = λ s. refl;
}

run_service-stopped_example :
    let x =
      run_service
        (manager true)
        (stop_daemon (linux_redirector logging_bus) one_port shutdown)
        (c0, []) in
    (Asked (interrogate ∷ stop ∷ []) ↔ Ends (interrogate ∷ stop ∷ []) none shutdown)
    × ¬ ((res : Result Error (Unit {0})) × Ends (interrogate ∷ stop ∷ []) none (server_ended res))
    × (x.0 ≡ ok tt)
    × (x.1.0.status ≡ status_disconnected)
    × (x.1.0.proxy ≡ none)
    × (x.1.0.redirector ≡ (flush_cache logging_bus (restore logging_bus c0.redirector).1).1)
    × (x.1.1 ≡ [] ++ reports)
unfolding daemon_port
run_service-stopped_example =
    run_service-stopped (linux_redirector logging_bus) one_port list_wire list_channel commands
      events (manager true) manager-Cooperates none fresh_machine none c0
      (record { last = record { controller = c0; conns = [] }; reached = here; same = refl })
      (interrogate ∷ stop ∷ []) []

dispatches :
    {A : Type 0}
    → (main : A × List ServiceStatus → A × List ServiceStatus) (x : A × List ServiceStatus)
    → Dispatch (manager false) main x
dispatches main x = refused 1063 refl

-- a daemon that counts its runs
abbrev counting : ℕ → Result Error (Unit {0}) × ℕ
counting n = (ok tt, suc n)

run-Dispatch_example :
    AsService (manager false) counting counting (0, [])
    ⊎ (InForeground (manager false) counting counting (0, [])
        ⊎ NotRun (manager false) counting counting (0, []))
run-Dispatch_example =
    run-Dispatch (manager false) counting (record { dispatch = λ main x. dispatches main x })
      counting (0, [])
