-- ===== src/Redirect/Windows/Outcomes.antt =====
-- What the Windows redirector remembers.
use voindns_desktop.Base.{◌≡◌, refl, ok, err, Error, Result, List, [], ◌∷◌, Text, arith}
use voindns_desktop.Std.Net.{IpAddr, display_ip}
use voindns_desktop.Redirect.Windows.{
  WindowsApi, Windows, nothing, apply, restore, with_interfaces, after_natives, after_netsh,
  connected_interfaces, set_natives, netsh_sets,
}

module _ (W : WindowsApi) where
  after_netsh-err :
      (ifaces : List Text) (os : Windows W) (r : Result Error (Unit {0}) × W.Machine) (e : Error)
      → (after_netsh W ifaces os r).0 ≡ err e
      → (after_netsh W ifaces os r).1.applied ≡ os.applied
  unfolding after_netsh
  after_netsh-err ifaces os (ok _, m) e h = cc
  after_netsh-err ifaces os (err x, m) e h = refl

  after_natives-err :
      (server : Text) (ifaces : List Text) (os : Windows W) (r : List Text × W.Machine) (e : Error)
      → (after_natives W server ifaces os r).0 ≡ err e
      → (after_natives W server ifaces os r).1.applied ≡ os.applied
  unfolding after_natives
  after_natives-err server ifaces os ([], m) e h =
      after_netsh-err ifaces os (netsh_sets W server ifaces m) e h
  after_natives-err server ifaces os (n ∷ ns, m) e h = cc

  with_interfaces-err :
      (proxy : IpAddr) (os : Windows W) (r : Result Error (List Text) × W.Machine) (e : Error)
      → (with_interfaces W proxy os r).0 ≡ err e
      → (with_interfaces W proxy os r).1.applied ≡ os.applied
  unfolding with_interfaces
  with_interfaces-err proxy os (err x, m) e h = refl
  with_interfaces-err proxy os (ok [], m) e h = refl
  with_interfaces-err proxy os (ok (i ∷ is), m) e h =
      after_natives-err (display_ip proxy) (i ∷ is) os (set_natives W (display_ip proxy) (i ∷ is) m)
        e h

  -- An apply on Windows that fails, on a redirector that had applied nothing, records nothing,
  -- whatever it has set by then: a restore after it changes nothing and reports success.
  pub windows_apply-err :
      (proxy : IpAddr) (os : Windows W) (e : Error)
      → (apply W proxy os).0 ≡ err e
      → os.applied ≡ nothing
      → restore W (apply W proxy os).1 ≡ (ok tt, (apply W proxy os).1)
  unfolding apply restore
  windows_apply-err proxy os e failed off =
      let kept = with_interfaces-err proxy os (connected_interfaces W os.machine) e failed in
      ground (arith, kept, off)

  pub restore_new :
      (m : W.Machine)
      → restore W (record { applied = nothing; machine = m })
        ≡ (ok tt, record { applied = nothing; machine = m })
  unfolding restore
  restore_new m = refl
