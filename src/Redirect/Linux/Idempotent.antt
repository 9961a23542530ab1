-- ===== src/Redirect/Linux/Idempotent.antt =====
-- "Restore the pre-connect DNS state. Idempotent."
use voindns_desktop.Base.{◌≡◌, refl, ◌∙◌, ap, ok, arith}
use voindns_desktop.Redirect.Linux.{
  Bus, Active, idle, resolved, resolv_conf_file, Linux, restore, restore_from, on_disk,
}

module _ (B : Bus) where
  restore_from-active : (a : Active B) (os : Linux B) → (restore_from B a os).1.active ≡ os.active
  unfolding restore_from
  restore_from-active idle os = refl
  restore_from-active (resolved i) os = refl
  restore_from-active resolv_conf_file os = refl

  pub restore_idle : (os : Linux B) → os.active ≡ idle → restore B os ≡ (ok tt, os)
  unfolding restore restore_from
  restore_idle os e = ground (arith, e)

  -- After a restore of the Linux redirector, successful or not, another one succeeds and does
  -- nothing.
  pub restore-restore : (os : Linux B) → restore B (restore B os).1 ≡ (ok tt, (restore B os).1)
  restore-restore os =
      restore_idle (restore B os).1 (unfold restore in restore_from-active os.active _)

  -- A redirector that works through resolv.conf makes no call on systemd-resolved when it restores:
  -- what an earlier, half-done attempt there has set stays.
  pub restore_file-bus :
      (os : Linux B) → os.active ≡ resolv_conf_file → (restore B os).1.bus ≡ os.bus
  unfolding restore
  restore_file-bus os e =
      ap (λ a. (restore_from B a (record os { active = idle })).1.bus) e
      ∙ (unfold restore_from on_disk in refl)
