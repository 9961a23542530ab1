-- ===== src/Redirect/Linux.antt =====
-- crates/voidns-core/src/redirect/linux.rs
pub mod ResolvConf
pub mod Restore
pub mod Idempotent
pub mod Fallback
pub mod Links
pub mod Resolved
pub mod Reverted
pub mod Kept
pub mod Fixtures
mod Examples
use voindns_desktop.Base.{
  ℕ, Option, none, some, Bool, true, false, ◌&&◌, not, List, [], ◌∷◌, ◌++◌, Result, ok, err, Error,
  anyhow, context, map_err, ok_or, Text, codes, if◌then◌else◌,
}
use voindns_desktop.Base.Io.{Io, pure, lift, with_err, ignore, ◌>>=◌, ◌>>◌}
use voindns_desktop.Std.Net.{IpAddr, v4, v6, display_ip, octets}
use voindns_desktop.Std.Fs.{Disk, Node, file, symlink, exists, read, copy, remove_file, write}
use voindns_desktop.Redirect.{DnsRedirector}
use voindns_desktop.Redirect.Parse.{parse_default_route_iface}

abbrev pub resolved_stub : Text
resolved_stub = codes "/run/systemd/resolve/stub-resolv.conf"

abbrev pub resolv_conf : Text
resolv_conf = codes "/etc/resolv.conf"

abbrev pub resolv_backup : Text
resolv_backup = codes "/etc/resolv.conf.voidns.bak"

abbrev pub route_table : Text
route_table = codes "/proc/net/route"

-- `.context(message)` on a call
abbrev pub in_context : {S A : Type 0} → Text → Io S Text A → Io S Error A
in_context message = with_err (λ e. message ∷ e ∷ [])

-- What the file holds while DNS goes to `proxy`.
pub managed : IpAddr → Text
managed proxy = codes "# voidns managed\nnameserver " ++ (display_ip proxy ++ codes "\n")

-- `resolvconf_apply`, a step for each of its statements
backup : Io Disk Error Unit
backup d =
    if exists resolv_conf d && not (exists resolv_backup d)
    then in_context (codes "backup resolv.conf") (copy resolv_conf resolv_backup) d
    else (ok tt, d)

unlink_node : Option Node → Io Disk Error Unit
unlink_node none d = (ok tt, d)
unlink_node (some (file content)) d = (ok tt, d)
unlink_node (some (symlink target)) d =
    in_context (codes "unlink resolv.conf symlink") (remove_file resolv_conf) d

-- the rest, where `n` is what `symlink_metadata` found
replace_conf : IpAddr → Option Node → Io Disk Error Unit
unfolding unlink_node
replace_conf proxy n = do
  unlink_node n
  in_context (codes "write resolv.conf") (write resolv_conf (managed proxy))

pub resolvconf_apply : IpAddr → Io Disk Error Unit
resolvconf_apply proxy = do backup; (λ d. replace_conf proxy (d.nodes resolv_conf) d)

pub resolvconf_restore : Io Disk Error Unit
resolvconf_restore d =
    if exists resolv_backup d
    then (do
      in_context (codes "restore resolv.conf") (copy resolv_backup resolv_conf)
      (λ d'. (ok tt, ignore (remove_file resolv_backup) d')))
        d
    else (ok tt, d)

-- The calls on systemd-resolved. An interface index is the 32 bits of the `i32`.
pub data Method : Type 0 where
  set_link_dns : ℕ → List (ℕ × List ℕ) → Method
  set_link_default_route : ℕ → Bool → Method
  revert_link : ℕ → Method
  flush_caches : Method

pub method_name : Method → Text
method_name (set_link_dns i addrs) = codes "SetLinkDNS"
method_name (set_link_default_route i enable) = codes "SetLinkDefaultRoute"
method_name (revert_link i) = codes "RevertLink"
method_name flush_caches = codes "FlushCaches"

-- zbus and nix: connecting to the bus, the proxy object, a call of it, and `if_nametoindex`, with
-- the texts of their errors.
pub record Bus : Type 1 where
  pub State : Type 0
  pub system : Io State Text Unit
  pub new_proxy : Io State Text Unit
  pub call : Method → Io State Text Unit
  pub if_nametoindex : Text → Result Text ℕ

abbrev pub address_family : IpAddr → ℕ
address_family (v4 a b c d) = 2
address_family (v6 a b c d e f g h) = 10

module _ (B : Bus) where
  pub manager_call : Method → Io B.State Error Unit
  unfolding method_name
  manager_call method = do
    in_context (codes "connect system bus") B.system
    in_context (codes "resolve1 proxy") B.new_proxy
    with_err (λ e. anyhow (method_name method ++ (codes ": " ++ e))) (B.call method)

  pub data Active : Type 0 where
    idle : Active
    resolved : ℕ → Active
    resolv_conf_file : Active

  -- The redirector's field, and what it works on.
  pub record Linux : Type 0 where
    pub active : Active
    pub disk : Disk
    pub bus : B.State

  -- `LinuxRedirector::new`, on a machine
  unfoldable pub new : Disk → B.State → Linux
  new disk bus = record { active = idle; disk = disk; bus = bus }

  pub on_disk : {A : Type 0} → Io Disk Error A → Io Linux Error A
  on_disk m os = let (r, disk) = m os.disk in (r, record os { disk = disk })

  pub on_bus : {A : Type 0} → Io B.State Error A → Io Linux Error A
  on_bus m os = let (r, bus) = m os.bus in (r, record os { bus = bus })

  pub resolved_active : Linux → Bool
  resolved_active os = exists resolved_stub os.disk

  pub default_route_iface : Disk → Option Text
  default_route_iface d = elim (read route_table d) [
    | none ↦ none
    | some table ↦ parse_default_route_iface table
  ]

  pub apply_resolved : IpAddr → Io Linux Error ℕ
  unfolding default_route_iface on_bus
  apply_resolved proxy os =
      (do
        iface ← lift (
            ok_or (anyhow (codes "could not determine default-route interface"))
              (default_route_iface os.disk))
        ifindex ← lift (
            context (codes "if_nametoindex(" ++ (iface ++ codes ")"))
              (map_err anyhow (B.if_nametoindex iface)))
        on_bus (manager_call (set_link_dns ifindex ((address_family proxy, octets proxy) ∷ [])))
        on_bus (manager_call (set_link_default_route ifindex true))
        pure ifindex)
        os

  pub fall_back : IpAddr → Io Linux Error Unit
  unfolding on_disk
  fall_back proxy = do
    on_disk (resolvconf_apply proxy)
    (λ os. (ok tt, record os { active = resolv_conf_file }))

  after_resolved : IpAddr → Result Error ℕ → Io Linux Error Unit
  unfolding fall_back
  after_resolved proxy (ok ifindex) os = (ok tt, record os { active = resolved ifindex })
  after_resolved proxy (err e) os = fall_back proxy os

  pub apply : IpAddr → Io Linux Error Unit
  unfolding after_resolved resolved_active
  apply proxy os =
      if resolved_active os
      then (let (r, os') = apply_resolved proxy os in after_resolved proxy r os')
      else fall_back proxy os

  restore_from : Active → Io Linux Error Unit
  unfolding on_bus on_disk
  restore_from (resolved ifindex) os =
      with_err (λ e. codes "RevertLink" ∷ e) (on_bus (manager_call (revert_link ifindex))) os
  restore_from resolv_conf_file os = on_disk resolvconf_restore os
  restore_from idle os = (ok tt, os)

  -- The field is reset before the call, so a restore that fails is not tried again.
  pub restore : Io Linux Error Unit
  unfolding restore_from
  restore os = restore_from os.active (record os { active = idle })

  pub flush_cache : Io Linux Error Unit
  unfolding resolved_active on_bus
  flush_cache os =
      if resolved_active os
      then (ok tt, ignore (on_bus (manager_call flush_caches)) os)
      else (ok tt, os)

  abbrev pub linux_redirector : DnsRedirector
  linux_redirector = record {
    Os = Linux;
    apply = apply;
    restore = restore;
    flush_cache = flush_cache;
  }
