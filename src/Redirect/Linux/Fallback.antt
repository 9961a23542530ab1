-- ===== src/Redirect/Linux/Fallback.antt =====
-- `LinuxRedirector` on a machine without systemd-resolved, where it works through
-- `/etc/resolv.conf`, fills the contract that the controller relies on.
use mathlib.Core.Path.{subst}
use voindns_desktop.Base.{
  ◌≡◌, refl, sym, ◌∙◌, ap, Option, none, some, Bool, false, Result, ok, err, Text, codes, text_eq,
  text_eq_refl, Error,
}
use voindns_desktop.Std.Net.{IpAddr, localhost}
use voindns_desktop.Std.Fs.{file, Disk, put_node, read}
use voindns_desktop.Std.Fs.Laws.{read_plain, exists_of_none}
use voindns_desktop.Redirect.Contract.{Contract}
use voindns_desktop.Redirect.Linux.{
  resolv_conf, resolv_backup, resolved_stub, managed, resolvconf_apply, Bus, Active, idle, resolved,
  resolv_conf_file, Linux, resolved_active, fall_back, apply, restore, restore_from, flush_cache,
  linux_redirector,
}
use voindns_desktop.Redirect.Linux.ResolvConf.{
  IsWritable, conf-ne-backup, backup-ne-conf, apply_saves, apply_keeps, restore_backup,
}

-- The system's resolver is sent to the proxy.
abbrev pub names_proxy : Option Text → Bool
names_proxy none = false
names_proxy (some c) = text_eq c (managed localhost)

-- What the two files hold while the redirector is in this state.
abbrev pub Holds : {B : Bus} → Active B → Disk → Type 0
Holds idle d =
    (c : Text) × (d.nodes resolv_conf ≡ some (file c))
    × (d.nodes resolv_backup ≡ none)
    × (text_eq c (managed localhost) ≡ false)
Holds resolv_conf_file d =
    (c : Text) × (m : Text) × (d.nodes resolv_conf ≡ some (file m))
    × (d.nodes resolv_backup ≡ some (file c))
    × (text_eq c (managed localhost) ≡ false)
Holds (resolved i) d = ⊥

module _ (B : Bus) where
  pub record IsFallback (os : Linux B) : Type 0 where
    pub holds : Holds os.active os.disk
    pub writable : IsWritable os.disk
    pub no_stub : os.disk.nodes resolved_stub ≡ none

  abbrev pub routed : Linux B → Bool
  routed os = names_proxy (read resolv_conf os.disk)

  stub-ne :
      (text_eq resolved_stub resolv_conf ≡ false) × (text_eq resolved_stub resolv_backup ≡ false)
  unfolding codes text_eq
  stub-ne = (refl, refl)

  not_active : (os : Linux B) → IsFallback os → resolved_active B os ≡ false
  unfolding resolved_active
  not_active os s =
      exists_of_none os.disk resolved_stub (read_plain os.disk resolved_stub none s.no_stub tt)

  -- the disk behind a rewrite
  rewritten :
      (ip : IpAddr) (a : Active B) (d : Disk)
      → Holds a d
      → IsWritable d
      → (c : Text) × (d1 : Disk) × (resolvconf_apply ip d
          ≡ (ok tt, put_node resolv_conf (some (file (managed ip))) d1))
        × (d1.nodes resolv_backup ≡ some (file c))
        × (text_eq c (managed localhost) ≡ false)
        × IsWritable d1
        × (d1.nodes resolved_stub ≡ d.nodes resolved_stub)
  rewritten ip idle d (c, conf, fresh, plain) w = (
    c,
    put_node resolv_backup (some (file c)) d,
    apply_saves d ip w c (read_plain d resolv_conf (some (file c)) conf tt) fresh,
    rw (text_eq_refl resolv_backup),
    plain,
    w,
    rw stub-ne.1,
  )
  rewritten ip resolv_conf_file d (c, m, conf, saved, plain) w =
      (c, d, apply_keeps d ip w c saved, saved, plain, w, refl)
  rewritten ip (resolved i) d h w = absurd h

  -- the state behind `apply`
  applied_os :
      (ip : IpAddr) (os : Linux B)
      → IsFallback os
      → (os1 : Linux B) × (apply B ip os ≡ (ok tt, os1)) × IsFallback os1
  unfolding apply fall_back
  applied_os ip os s =
      let (c, d1, e, saved, plain, w1, stub) = rewritten ip os.active os.disk s.holds s.writable in
      let d2 = put_node resolv_conf (some (file (managed ip))) d1 in
      (
        record os { active = resolv_conf_file; disk = d2 },
        rw (not_active os s, e),
        record {
          holds = (c, managed ip, rw (text_eq_refl resolv_conf), rw backup-ne-conf saved, plain);
          writable = w1;
          no_stub = rw stub-ne.0 (stub ∙ s.no_stub);
        },
      )

  restored_from :
      (a : Active B) (os : Linux B)
      → Holds a os.disk
      → os.active ≡ idle
      → IsWritable os.disk
      → os.disk.nodes resolved_stub ≡ none
      → (os1 : Linux B) × (restore_from B a os ≡ (ok tt, os1))
        × IsFallback os1
        × (os1.active ≡ idle)
  unfolding restore_from
  restored_from idle os h off w stub =
      (os, refl, record { holds = rw off h; writable = w; no_stub = stub }, off)
  restored_from resolv_conf_file os (c, m, conf, saved, plain) off w stub =
      let d2 = put_node resolv_backup none (put_node resolv_conf (some (file c)) os.disk) in
      let e = restore_backup os.disk c (some (file m)) saved conf tt w in
      (
        record os { disk = d2 },
        ap (λ (t : Result Error Unit × Disk). (t.0, record os { disk = t.1 })) e,
        record {
          holds = rw off (
            c,
            rw (conf-ne-backup, text_eq_refl resolv_conf),
            rw (text_eq_refl resolv_backup),
            plain,
          );
          writable = w;
          no_stub = rw (stub-ne.1, stub-ne.0) stub;
        },
        off,
      )
  restored_from (resolved i) os h off w stub = absurd h

  restored_os :
      (os : Linux B)
      → IsFallback os
      → (os1 : Linux B) × (restore B os ≡ (ok tt, os1)) × IsFallback os1 × (os1.active ≡ idle)
  unfolding restore
  restored_os os s =
      restored_from os.active (record os { active = idle }) s.holds refl s.writable s.no_stub

  flushed_os : (os : Linux B) → IsFallback os → flush_cache B os ≡ (ok tt, os)
  unfolding flush_cache
  flushed_os os s = rw (not_active os s)

  idle_unrouted :
      (a : Active B) (d : Disk) → Holds a d → a ≡ idle → names_proxy (read resolv_conf d) ≡ false
  idle_unrouted idle d (c, conf, fresh, plain) e =
      rw (read_plain d resolv_conf (some (file c)) conf tt) plain
  idle_unrouted resolv_conf_file d h e = cc
  idle_unrouted (resolved i) d h e = absurd h

  pub apply-IsFallback : (ip : IpAddr) (os : Linux B) → IsFallback os → IsFallback (apply B ip os).1
  apply-IsFallback ip os s =
      let (os1, e, s1) = applied_os ip os s in
      subst IsFallback (sym (ap (λ (t : Result Error Unit × Linux B). t.1) e)) s1

  pub restore-IsFallback : (os : Linux B) → IsFallback os → IsFallback (restore B os).1
  restore-IsFallback os s =
      let (os1, e, s1, _) = restored_os os s in
      subst IsFallback (sym (ap (λ (t : Result Error Unit × Linux B). t.1) e)) s1

  pub flush_cache-IsFallback : (os : Linux B) → IsFallback os → IsFallback (flush_cache B os).1
  flush_cache-IsFallback os s =
      subst IsFallback (sym (ap (λ (t : Result Error Unit × Linux B). t.1) (flushed_os os s))) s

  -- `apply` does not fail here.
  pub routed-apply :
      (ip : IpAddr) (os : Linux B) (e : Error)
      → IsFallback os
      → (apply B ip os).0 ≡ err e
      → routed (apply B ip os).1 ≡ routed os
  routed-apply ip os e s failed =
      let (os1, done, _) = applied_os ip os s in
      absurd (cc (failed, ap (λ (t : Result Error Unit × Linux B). t.0) done))

  pub routed-restored : (os : Linux B) → IsFallback os → routed (restore B os).1 ≡ false
  routed-restored os s =
      let (os1, e, s1, off) = restored_os os s in
      ap (λ (t : Result Error Unit × Linux B). routed t.1) e
      ∙ idle_unrouted os1.active os1.disk s1.holds off

  pub routed_idle : (os : Linux B) → IsFallback os → os.active ≡ idle → routed os ≡ false
  routed_idle os s off = idle_unrouted os.active os.disk s.holds off

  pub restore_succeeds : (os : Linux B) → IsFallback os → (restore B os).0 ≡ ok tt
  restore_succeeds os s =
      let (os1, e, _, _) = restored_os os s in ap (λ (t : Result Error Unit × Linux B). t.0) e

  pub routed-flushed : (os : Linux B) → IsFallback os → routed (flush_cache B os).1 ≡ routed os
  routed-flushed os s = ap (λ (t : Result Error Unit × Linux B). routed t.1) (flushed_os os s)

  -- The contract of the controller, for the calls on such a machine.
  abbrev pub linux-Contract : Contract (linux_redirector B)
  linux-Contract = record {
    routed = routed;
    IsSound = IsFallback;
    Applies = λ ip os. Unit;
    Restores = λ os. Unit;
    apply-IsSound = λ ip os s _ _. apply-IsFallback ip os s;
    restore-IsSound = λ os s _ _. restore-IsFallback os s;
    flush_cache-IsSound = flush_cache-IsFallback;
    routed-apply_err = λ ip os e s _ _ h. routed-apply ip os e s h;
    routed-restore = λ os s _ _. routed-restored os s;
    routed-flush_cache = routed-flushed;
  }
