-- ===== src/Redirect/Linux/Examples.antt =====
-- The theorems on `LinuxRedirector` at concrete machines.
use voindns_desktop.Base.{◌≡◌, refl, none, some, ok, Text, codes, text_eq, if◌then◌else◌}
use voindns_desktop.Std.Net.{localhost}
use voindns_desktop.Std.Fs.{file, Disk, read, follow}
use voindns_desktop.Redirect.Linux.{
  resolv_conf, resolv_backup, managed, resolvconf_apply, resolvconf_restore,
}
use voindns_desktop.Redirect.Linux.Restore.{
  applied, restored, resolvconf_restore-apply, resolvconf_restore-absent,
}
use voindns_desktop.Redirect.Linux.Fixtures.{disk_of, quad9_conf, fresh_disk}

fresh_disk-read : read resolv_conf fresh_disk ≡ some quad9_conf
unfolding read follow codes text_eq
fresh_disk-read = refl

fresh_disk-backup : fresh_disk.nodes resolv_backup ≡ none
unfolding codes text_eq
fresh_disk-backup = refl

resolvconf_restore-apply_example :
    ((resolvconf_apply localhost fresh_disk).0 ≡ ok tt)
    × ((applied localhost fresh_disk).nodes resolv_conf ≡ some (file (managed localhost)))
    × ((resolvconf_restore (applied localhost fresh_disk)).0 ≡ ok tt)
    × ((p : Text)
        → (restored localhost fresh_disk).nodes p
          ≡ (if text_eq p resolv_conf then some (file quad9_conf) else fresh_disk.nodes p))
resolvconf_restore-apply_example =
    resolvconf_restore-apply localhost fresh_disk (refl, refl) quad9_conf fresh_disk-read
      fresh_disk-backup

abbrev empty_disk : Disk
empty_disk = disk_of none none

empty_disk-conf : empty_disk.nodes resolv_conf ≡ none
unfolding codes text_eq
empty_disk-conf = refl

empty_disk-backup : empty_disk.nodes resolv_backup ≡ none
unfolding codes text_eq
empty_disk-backup = refl

resolvconf_restore-absent_example :
    ((resolvconf_restore (applied localhost empty_disk)).0 ≡ ok tt)
    × ((restored localhost empty_disk).nodes resolv_conf ≡ some (file (managed localhost)))
resolvconf_restore-absent_example =
    resolvconf_restore-absent localhost empty_disk (refl, refl) empty_disk-conf empty_disk-backup
