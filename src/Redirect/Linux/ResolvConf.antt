-- ===== src/Redirect/Linux/ResolvConf.antt =====
-- The `/etc/resolv.conf` fallback: what a rewrite and a restore leave on the disk.
use voindns_desktop.Base.{
  ◌≡◌, refl, ap, fun_ext, Option, none, some, false, Result, ok, arith, Text, codes, text_eq,
  text_eq_refl,
}
use voindns_desktop.Std.Net.{IpAddr}
use voindns_desktop.Std.Fs.{Node, file, symlink, Disk, put_node, read}
use voindns_desktop.Std.Fs.Laws.{
  IsPlain, read_plain, exists_of_read, exists_of_none, write_plain, remove_lem, copy_plain,
}
use voindns_desktop.Redirect.Linux.{
  resolv_conf, resolv_backup, managed, backup, replace_conf, resolvconf_apply, resolvconf_restore,
}

pub conf-ne-backup : text_eq resolv_conf resolv_backup ≡ false
unfolding codes text_eq
conf-ne-backup = refl

pub backup-ne-conf : text_eq resolv_backup resolv_conf ≡ false
unfolding codes text_eq
backup-ne-conf = refl

-- Both files can be written.
abbrev pub IsWritable : Disk → Type 0
IsWritable d = (d.readonly resolv_conf ≡ false) × (d.readonly resolv_backup ≡ false)

-- The disk with these two nodes.
abbrev pub with_nodes : Option Node → Option Node → Disk → Disk
with_nodes conf bak d = put_node resolv_conf conf (put_node resolv_backup bak d)

module _ (d : Disk) (w : IsWritable d) where
  -- with a readable resolv.conf and no backup, the content is saved
  backup_saves :
      (c : Text)
      → read resolv_conf d ≡ some c
      → d.nodes resolv_backup ≡ none
      → backup d ≡ (ok tt, put_node resolv_backup (some (file c)) d)
  unfolding backup
  backup_saves c got fresh = rw (
    exists_of_read d resolv_conf c got,
    exists_of_none d resolv_backup (read_plain d resolv_backup none fresh tt),
    copy_plain d resolv_backup resolv_conf c none got fresh tt w.1,
  )

  -- an older backup is kept
  backup_keeps : (b : Text) → d.nodes resolv_backup ≡ some (file b) → backup d ≡ (ok tt, d)
  unfolding backup
  backup_keeps b old =
      rw (exists_of_read d resolv_backup b (read_plain d resolv_backup (some (file b)) old tt))
        (ground arith)

  backup_skips : d.nodes resolv_conf ≡ none → backup d ≡ (ok tt, d)
  unfolding backup
  backup_skips gone =
      rw (exists_of_none d resolv_conf (read_plain d resolv_conf none gone tt)) (ground arith)

put_put : (p : Text) (a b : Option Node) (d : Disk) → put_node p a (put_node p b d) ≡ put_node p a d
put_put p a b d =
    ap (λ (f : Text → Option Node). record d { nodes = f }) (fun_ext λ q. ground arith)

-- The statements of `resolvconf_apply` behind the backup, on the node that they find.
replaced :
    (proxy : IpAddr) (n : Option Node) (d : Disk)
    → d.nodes resolv_conf ≡ n
    → IsWritable d
    → replace_conf proxy n d ≡ (ok tt, put_node resolv_conf (some (file (managed proxy))) d)
unfolding replace_conf
replaced proxy none d e w = rw (write_plain d resolv_conf none (managed proxy) e tt w.0)
replaced proxy (some (file c)) d e w =
    rw (write_plain d resolv_conf (some (file c)) (managed proxy) e tt w.0)
replaced proxy (some (symlink t)) d e w =
    let gone : (put_node resolv_conf none d).nodes resolv_conf ≡ none =
      rw (text_eq_refl resolv_conf) in
    rw (
      remove_lem d resolv_conf (symlink t) e w.0,
      write_plain (put_node resolv_conf none d) resolv_conf none (managed proxy) gone tt w.0,
      put_put,
    )

module _ (d : Disk) (proxy : IpAddr) where
  apply_from :
      (d1 : Disk)
      → backup d ≡ (ok tt, d1)
      → IsWritable d1
      → resolvconf_apply proxy d ≡ (ok tt, put_node resolv_conf (some (file (managed proxy))) d1)
  unfolding resolvconf_apply
  apply_from d1 e w = rw (e, replaced proxy (d1.nodes resolv_conf) d1 refl w)

  module _ (w : IsWritable d) where
    -- What the rewrite leaves: the managed file, and the old content in the backup.
    pub apply_saves :
        (c : Text)
        → read resolv_conf d ≡ some c
        → d.nodes resolv_backup ≡ none
        → resolvconf_apply proxy d
          ≡ (ok tt, with_nodes (some (file (managed proxy))) (some (file c)) d)
    apply_saves c got fresh =
        apply_from (put_node resolv_backup (some (file c)) d) (backup_saves d w c got fresh) w

    pub apply_keeps :
        (b : Text)
        → d.nodes resolv_backup ≡ some (file b)
        → resolvconf_apply proxy d ≡ (ok tt, put_node resolv_conf (some (file (managed proxy))) d)
    apply_keeps b old = apply_from d (backup_keeps d w b old) w

    pub apply_creates :
        d.nodes resolv_conf ≡ none
        → resolvconf_apply proxy d ≡ (ok tt, put_node resolv_conf (some (file (managed proxy))) d)
    apply_creates gone = apply_from d (backup_skips d w gone) w

-- A restore puts the backup's content back and removes the backup.
pub restore_backup :
    (d : Disk) (b : Text) (n : Option Node)
    → d.nodes resolv_backup ≡ some (file b)
    → d.nodes resolv_conf ≡ n
    → IsPlain n
    → IsWritable d
    → resolvconf_restore d
      ≡ (ok tt, put_node resolv_backup none (put_node resolv_conf (some (file b)) d))
unfolding resolvconf_restore
restore_backup d b n saved at plain w =
    let got = read_plain d resolv_backup (some (file b)) saved tt in
    let d1 = put_node resolv_conf (some (file b)) d in
    let still : d1.nodes resolv_backup ≡ some (file b) = rw backup-ne-conf saved in
    rw
      (
        exists_of_read d resolv_backup b got,
        copy_plain d resolv_conf resolv_backup b n got at plain w.0,
      )
      (ap (λ (t : Result Text Unit × Disk). (ok tt, t.1))
        (remove_lem d1 resolv_backup (file b) still w.1))

-- Without a backup a restore does nothing.
pub restore_nothing : (d : Disk) → d.nodes resolv_backup ≡ none → resolvconf_restore d ≡ (ok tt, d)
unfolding resolvconf_restore
restore_nothing d gone =
    rw (exists_of_none d resolv_backup (read_plain d resolv_backup none gone tt))
