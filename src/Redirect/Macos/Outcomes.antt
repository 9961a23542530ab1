-- ===== src/Redirect/Macos/Outcomes.antt =====
-- What the macOS redirector remembers.
use voindns_desktop.Base.{◌≡◌, refl, ok, err, Error, Result, List, Text, arith}
use voindns_desktop.Std.Net.{IpAddr}
use voindns_desktop.Redirect.Macos.{
  MacosApi, Macos, nothing, apply, apply_native, apply_shell, after_shell, after_native, restore,
}

module _ (M : MacosApi) where
  after_shell-err :
      (os : Macos M) (r : Result Error (List (Text × List Text)) × M.Machine) (e : Error)
      → (after_shell M os r).0 ≡ err e
      → (after_shell M os r).1.applied ≡ os.applied
  unfolding after_shell
  after_shell-err os (ok saved, m) e h = cc
  after_shell-err os (err x, m) e h = refl

  after_native-err :
      (proxy : IpAddr) (os : Macos M) (r : Result Error (List Text) × M.Machine) (e : Error)
      → (after_native M proxy os r).0 ≡ err e
      → (after_native M proxy os r).1.applied ≡ os.applied
  unfolding after_native
  after_native-err proxy os (ok paths, m) e h = cc
  after_native-err proxy os (err x, m) e h = after_shell-err os (apply_shell M proxy m) e h

  -- An apply on macOS that fails, on a redirector that had applied nothing, records nothing,
  -- whatever it has set by then: a restore after it changes nothing and reports success.
  pub macos_apply-err :
      (proxy : IpAddr) (os : Macos M) (e : Error)
      → (apply M proxy os).0 ≡ err e
      → os.applied ≡ nothing
      → restore M (apply M proxy os).1 ≡ (ok tt, (apply M proxy os).1)
  unfolding apply restore
  macos_apply-err proxy os e failed off =
      let kept = after_native-err proxy os (apply_native M proxy os.machine) e failed in
      ground (arith, kept, off)

  pub restore_new :
      (m : M.Machine)
      → restore M (record { applied = nothing; machine = m })
        ≡ (ok tt, record { applied = nothing; machine = m })
  unfolding restore
  restore_new m = refl
