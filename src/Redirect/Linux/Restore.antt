-- ===== src/Redirect/Linux/Restore.antt =====
-- Disconnecting after connecting, on the `/etc/resolv.conf` path.
use voindns_desktop.Base.{
  ◌≡◌, sym, ◌∙◌, ap, none, some, Result, ok, arith, if◌then◌else◌, Text, text_eq, text_eq_refl,
  text_eq_iff, Error, Bool-cases, inl, inr,
}
use voindns_desktop.Std.Net.{IpAddr}
use voindns_desktop.Std.Fs.{Node, file, Disk, put_node, read}
use voindns_desktop.Redirect.Linux.{
  resolv_conf, resolv_backup, managed, resolvconf_apply, resolvconf_restore,
}
use voindns_desktop.Redirect.Linux.ResolvConf.{
  IsWritable, with_nodes, conf-ne-backup, backup-ne-conf, apply_saves, apply_keeps, apply_creates,
  restore_backup, restore_nothing,
}

-- The disk after a rewrite, and after a rewrite and a restore.
abbrev pub applied : IpAddr → Disk → Disk
applied proxy d = (resolvconf_apply proxy d).1

abbrev pub restored : IpAddr → Disk → Disk
restored proxy d = (resolvconf_restore (applied proxy d)).1

final_node :
    (d : Disk) (c : Text) (m : Node) (p : Text)
    → d.nodes resolv_backup ≡ none
    → (put_node resolv_backup none
          (put_node resolv_conf (some (file c)) (with_nodes (some m) (some (file c)) d))).nodes
        p
      ≡ (if text_eq p resolv_conf then some (file c) else d.nodes p)
final_node d c m p fresh = elim (Bool-cases (text_eq p resolv_backup)) [
  | inl same ↦
      rw ((text_eq_iff p resolv_backup).0 same)
        (rw (text_eq_refl resolv_backup, backup-ne-conf) (sym fresh))
  | inr other ↦ rw other (ground arith)
]

module _ (proxy : IpAddr) (d : Disk) (w : IsWritable d) where
  restore_saved :
      (c : Text) (d1 : Disk)
      → resolvconf_apply proxy d ≡ (ok tt, d1)
      → d1.nodes resolv_backup ≡ some (file c)
      → d1.nodes resolv_conf ≡ some (file (managed proxy))
      → IsWritable d1
      → resolvconf_restore (applied proxy d)
        ≡ (ok tt, put_node resolv_backup none (put_node resolv_conf (some (file c)) d1))
  restore_saved c d1 e saved conf w1 =
      rw (ap (λ (t : Result Error Unit × Disk). resolvconf_restore t.1) e)
        (restore_backup d1 c (some (file (managed proxy))) saved conf tt w1)

  -- With both files writable, a readable resolv.conf, a regular file or a link, and no backup: the
  -- rewrite succeeds and resolv.conf then names the proxy alone; the restore succeeds, resolv.conf
  -- is then a regular file with the content that was read before, and every other path is as it
  -- was, the backup's included.
  pub resolvconf_restore-apply :
      (c : Text)
      → read resolv_conf d ≡ some c
      → d.nodes resolv_backup ≡ none
      → ((resolvconf_apply proxy d).0 ≡ ok tt)
        × ((applied proxy d).nodes resolv_conf ≡ some (file (managed proxy)))
        × ((resolvconf_restore (applied proxy d)).0 ≡ ok tt)
        × ((p : Text)
            → (restored proxy d).nodes p
              ≡ (if text_eq p resolv_conf then some (file c) else d.nodes p))
  resolvconf_restore-apply c got fresh =
      let e = apply_saves d proxy w c got fresh in
      let d1 = with_nodes (some (file (managed proxy))) (some (file c)) d in
      let r =
        restore_saved c d1 e (rw (backup-ne-conf, text_eq_refl resolv_backup))
          (rw (text_eq_refl resolv_conf)) w in
      (
        ap (λ t. t.0) e,
        ap (λ (t : Result Error Unit × Disk). t.1.nodes resolv_conf) e
            ∙ rw (text_eq_refl resolv_conf),
        ap (λ t. t.0) r,
        λ p.
            ap (λ (t : Result Error Unit × Disk). t.1.nodes p) r
            ∙ final_node d c (file (managed proxy)) p fresh,
      )

  -- With both files writable and a backup that an earlier run left behind: whatever resolv.conf
  -- holds now, a rewrite and a restore bring back the content of that backup, and remove it.
  pub resolvconf_restore-old_backup :
      (b : Text)
      → d.nodes resolv_backup ≡ some (file b)
      → ((resolvconf_restore (applied proxy d)).0 ≡ ok tt)
        × ((restored proxy d).nodes resolv_conf ≡ some (file b))
        × ((restored proxy d).nodes resolv_backup ≡ none)
  resolvconf_restore-old_backup b old =
      let e = apply_keeps d proxy w b old in
      let d1 = put_node resolv_conf (some (file (managed proxy))) d in
      let r = restore_saved b d1 e (rw backup-ne-conf old) (rw (text_eq_refl resolv_conf)) w in
      (
        ap (λ t. t.0) r,
        ap (λ (t : Result Error Unit × Disk). t.1.nodes resolv_conf) r
            ∙ rw (conf-ne-backup, text_eq_refl resolv_conf),
        ap (λ (t : Result Error Unit × Disk). t.1.nodes resolv_backup) r
            ∙ rw (text_eq_refl resolv_backup),
      )

  -- With both files writable, no resolv.conf and no backup, the restore after a rewrite reports
  -- success, and the file that names the proxy stays.
  pub resolvconf_restore-absent :
      d.nodes resolv_conf ≡ none
      → d.nodes resolv_backup ≡ none
      → ((resolvconf_restore (applied proxy d)).0 ≡ ok tt)
        × ((restored proxy d).nodes resolv_conf ≡ some (file (managed proxy)))
  resolvconf_restore-absent gone fresh =
      let e = apply_creates d proxy w gone in
      let d1 = put_node resolv_conf (some (file (managed proxy))) d in
      let r = restore_nothing d1 (rw backup-ne-conf fresh) in
      (
        ap (λ (t : Result Error Unit × Disk). (resolvconf_restore t.1).0) e ∙ ap (λ t. t.0) r,
        ap (λ (t : Result Error Unit × Disk). (resolvconf_restore t.1).1.nodes resolv_conf) e
            ∙ ap (λ (t : Result Error Unit × Disk). t.1.nodes resolv_conf) r
            ∙ rw (text_eq_refl resolv_conf),
      )
