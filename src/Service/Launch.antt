-- ===== src/Service/Launch.antt =====
-- `run` of main.rs: as a service or in the foreground, never both.
use voindns_desktop.Base.{
  ℕ, ◌≡◌, ◌≢◌, ◌⊎◌, inl, inr, ap, ==_iff, Bool-cases, Option, none, some, Bool, true, false, ◌++◌,
  Result, ok, err, Error, anyhow, codes,
}
use voindns_desktop.Std.Platform.{windows, unix}
use voindns_desktop.Service.Scm.{
  Scm, is_not_launched, run_service, service_main, try_run_as_service, run,
}

-- What `service_dispatcher::start` did with a main function: it ran it to its end, or it failed before
-- it called it.
pub data Dispatch (S : Scm) {A : Type 0} (main : A × S.State → A × S.State) (x : A × S.State)
    : Type 0 where
  ran : S.start main x ≡ (ok tt, main x) → Dispatch S main x
  refused : (e : S.Failure) → S.start main x ≡ (err e, x) → Dispatch S main x

-- it is documented to do one or the other
pub record IsDispatcher (S : Scm) : Type 1 where
  pub dispatch :
      {A : Type 0} → (main : A × S.State → A × S.State) (x : A × S.State) → Dispatch S main x

is_not_launched-some : (code : Option ℕ) → is_not_launched code ≡ true → code ≡ some 1063
is_not_launched-some none h = absurd cc
is_not_launched-some (some code) h = ap some ((==_iff code 1063).0 h)

not_launched-ne : (code : Option ℕ) → is_not_launched code ≡ false → code ≢ some 1063
not_launched-ne code f e = absurd (let h = rw e at f in cc)

module _ (S : Scm) {A : Type 0} (daemon : A → Result Error (Unit {0}) × A) where
  abbrev pub failed : S.Failure → Error
  failed e = anyhow (codes "service dispatcher failed: " ++ S.display e)

  -- The run as a service: its daemon alone, and the process ends without an error.
  abbrev pub AsService : (A → Result Error (Unit {0}) × A) → A × S.State → Type 0
  AsService foreground x = run S daemon windows foreground x ≡ (ok tt, (run_service S daemon x).1)

  -- The run in the foreground, as on a system without the SCM.
  abbrev pub InForeground : (A → Result Error (Unit {0}) × A) → A × S.State → Type 0
  InForeground foreground x =
      (e : S.Failure) × ((S.start (service_main S daemon) x).0 ≡ err e)
      × (S.raw_os_error e ≡ some 1063)
      × (run S daemon windows foreground x ≡ run S daemon unix foreground x)

  -- No run: the failure of the dispatcher is the result.
  abbrev pub NotRun : (A → Result Error (Unit {0}) × A) → A × S.State → Type 0
  NotRun foreground x =
      (e : S.Failure) × ((S.start (service_main S daemon) x).0 ≡ err e)
      × (S.raw_os_error e ≢ some 1063)
      × (run S daemon windows foreground x ≡ (err (failed e), x))

  try_ran :
      (x : A × S.State)
      → S.start (service_main S daemon) x ≡ (ok tt, service_main S daemon x)
      → try_run_as_service S daemon x ≡ (ok true, service_main S daemon x)
  unfolding try_run_as_service
  try_ran x h = rw (ap (λ t. t.0) h, try_run_as_service) (ap (λ t. (ok true, t.1)) h)

  try_not_launched :
      (x : A × S.State) (e : S.Failure)
      → S.start (service_main S daemon) x ≡ (err e, x)
      → is_not_launched (S.raw_os_error e) ≡ true
      → try_run_as_service S daemon x ≡ (ok false, x)
  unfolding try_run_as_service
  try_not_launched x e h t =
      rw (ap (λ t. t.0) h, try_run_as_service, t) (ap (λ t. (ok false, t.1)) h)

  try_failed :
      (x : A × S.State) (e : S.Failure)
      → S.start (service_main S daemon) x ≡ (err e, x)
      → is_not_launched (S.raw_os_error e) ≡ false
      → try_run_as_service S daemon x ≡ (err (failed e), x)
  unfolding try_run_as_service
  try_failed x e h f =
      rw (ap (λ t. t.0) h, try_run_as_service, f) (ap (λ t. (err (failed e), t.1)) h)

  -- `run` after the attempt to be a service
  abbrev tried :
      (A → Result Error (Unit {0}) × A)
      → Result Error Bool × (A × S.State)
      → Result Error (Unit {0}) × (A × S.State)
  tried foreground (err e, x) = (err e, x)
  tried foreground (ok true, x) = (ok tt, x)
  tried foreground (ok false, x) = run S daemon unix foreground x

  run-tried :
      (foreground : A → Result Error (Unit {0}) × A) (x : A × S.State)
      (t : Result Error Bool × (A × S.State))
      → try_run_as_service S daemon x ≡ t
      → run S daemon windows foreground x ≡ tried foreground t
  unfolding run
  run-tried foreground x (err e, y) h =
      rw (ap (λ t. t.0) h, run) (ap (λ t. tried foreground (err e, t.1)) h)
  run-tried foreground x (ok true, y) h =
      rw (ap (λ t. t.0) h, run) (ap (λ t. tried foreground (ok true, t.1)) h)
  run-tried foreground x (ok false, y) h =
      rw (ap (λ t. t.0) h, run) (ap (λ t. tried foreground (ok false, t.1)) h)

  -- On Windows, with a dispatcher that either runs the service to its end or fails before it: run
  -- is the service alone, and succeeds; or, when the failure is error 1063, the foreground daemon
  -- as on Unix; or, when the failure is another, it fails with the dispatcher's message and has run
  -- nothing.
  pub run-Dispatch :
      IsDispatcher S
      → (foreground : A → Result Error (Unit {0}) × A) (x : A × S.State)
      → AsService foreground x ⊎ (InForeground foreground x ⊎ NotRun foreground x)
  run-Dispatch dispatcher foreground x = elim (dispatcher.dispatch (service_main S daemon) x) [
    | ran h ↦ inl (run-tried foreground x (ok true, service_main S daemon x) (try_ran x h))
    | refused e h ↦ elim (Bool-cases (is_not_launched (S.raw_os_error e))) [
      | inl t ↦ inr (
          inl (
            e,
            ap (λ t. t.0) h,
            is_not_launched-some (S.raw_os_error e) t,
            run-tried foreground x (ok false, x) (try_not_launched x e h t),
          ))
      | inr f ↦ inr (
          inr (
            e,
            ap (λ t. t.0) h,
            not_launched-ne (S.raw_os_error e) f,
            run-tried foreground x (err (failed e), x) (try_failed x e h f),
          ))
    ]
  ]
