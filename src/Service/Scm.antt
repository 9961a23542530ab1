-- ===== src/Service/Scm.antt =====
-- crates/voidns-service/src/winservice.rs, and `run` of main.rs: the daemon under the Service Control
-- Manager of Windows, and in the foreground.
use voindns_desktop.Base.{
  ℕ, suc, ◌==◌, Option, none, some, Bool, true, false, List, [], ◌∷◌, ◌++◌, Result, ok, err, Error,
  anyhow, Text, codes, if◌then◌else◌,
}
use voindns_desktop.Std.Platform.{Platform, windows, unix}

-- What the handler tells of the controls of `windows_service`; the other ones have their code.
pub data ServiceControl : Type 0 where
  stop shutdown interrogate : ServiceControl
  other : ℕ → ServiceControl

pub data HandlerResult : Type 0 where
  no_error not_implemented : HandlerResult

pub data ServiceState : Type 0 where
  running stopped : ServiceState

-- The fields of the reported `ServiceStatus` that differ between two reports.
pub record ServiceStatus : Type 0 where
  pub current_state : ServiceState
  pub controls_accepted : List ServiceControl

-- `event_handler`, with the number of messages that wait in the channel to the daemon
unfoldable pub event_handler : ServiceControl → ℕ → HandlerResult × ℕ
event_handler stop waiting = (no_error, suc waiting)
event_handler shutdown waiting = (no_error, suc waiting)
event_handler interrogate waiting = (no_error, waiting)
event_handler (other code) waiting = (not_implemented, waiting)

-- the controls that the SCM delivers, one after the other
unfoldable pub deliver : List ServiceControl → ℕ → ℕ
deliver [] waiting = waiting
deliver (c ∷ cs) waiting = deliver cs (event_handler c waiting).1

-- The crate `windows_service` and the runtime of tokio, over the state that the SCM keeps of the
-- service. `start` runs the given main function when the SCM has launched the process.
pub record Scm : Type 1 where
  pub State : Type 0
  pub Failure : Type 0
  pub Handle : Type 0
  pub start :
      {A : Type 0} → (A × State → A × State) → A × State → Result Failure (Unit {0}) × (A × State)
  pub register : State → Result Failure Handle × State
  pub set_service_status : Handle → ServiceStatus → State → Result Failure (Unit {0}) × State
  pub build_runtime : State → Result Error (Unit {0}) × State
  -- the code of a `Winapi` error, as `raw_os_error` gives it
  pub raw_os_error : Failure → Option ℕ
  pub display : Failure → Text

-- `e.raw_os_error() == Some(1063)`
abbrev pub is_not_launched : Option ℕ → Bool
is_not_launched none = false
is_not_launched (some code) = code == 1063

module _ (S : Scm) {A : Type 0} (daemon : A → Result Error (Unit {0}) × A) where
  -- the end of `run_service`: the daemon has ended with `result`
  unfoldable pub report_stopped :
      S.Handle → Result Error (Unit {0}) × A → S.State → Result Error (Unit {0}) × (A × S.State)
  report_stopped handle (result, a) s =
      let (reported, s') =
        S.set_service_status handle (record { current_state = stopped; controls_accepted = [] })
          s in
      elim reported [ err e ↦ (err (anyhow (S.display e)), (a, s')) | ok _ ↦ (result, (a, s')) ]

  -- the middle of it: `Running` is reported, and the daemon is driven
  unfoldable pub serve_service : S.Handle → A → S.State → Result Error (Unit {0}) × (A × S.State)
  unfolding report_stopped
  serve_service handle a s =
      let (reported, s') =
        S.set_service_status handle
          (record { current_state = running; controls_accepted = stop ∷ shutdown ∷ [] }) s in
      elim reported [
        | err e ↦ (err (anyhow (S.display e)), (a, s'))
        | ok _ ↦
            let (built, s'') = S.build_runtime s' in
            elim built [ err e ↦ (err e, (a, s'')) | ok _ ↦ report_stopped handle (daemon a) s'' ]
      ]

  unfoldable pub run_service : A × S.State → Result Error (Unit {0}) × (A × S.State)
  unfolding serve_service
  run_service (a, s) =
      let (registered, s') = S.register s in
      elim registered [
        | err e ↦ (err (anyhow (S.display e)), (a, s'))
        | ok handle ↦ serve_service handle a s'
      ]

  -- what went wrong goes to the log only
  abbrev pub service_main : A × S.State → A × S.State
  service_main x = (run_service x).1

  unfoldable pub try_run_as_service : A × S.State → Result Error Bool × (A × S.State)
  try_run_as_service x =
      let (started, x') = S.start service_main x in
      elim started [
        | ok _ ↦ (ok true, x')
        | err e ↦
            if is_not_launched (S.raw_os_error e)
            then (ok false, x')
            else (err (anyhow (codes "service dispatcher failed: " ++ S.display e)), x')
      ]

  -- `run`; `foreground` is `block_on(run_daemon(ctrl_c))`
  unfoldable pub run :
      Platform
      → (A → Result Error (Unit {0}) × A)
      → A × S.State
      → Result Error (Unit {0}) × (A × S.State)
  unfolding try_run_as_service
  run unix foreground (a, s) = let (result, a') = foreground a in (result, (a', s))
  run windows foreground x =
      let (tried, (a, s)) = try_run_as_service x in
      elim tried [
        | err e ↦ (err e, (a, s))
        | ok ran ↦
            let (result, a') = foreground a in if ran then (ok tt, (a, s)) else (result, (a', s))
      ]
