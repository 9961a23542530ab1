-- ===== src/Redirect/Linux/Reverted/Fixtures.antt =====
-- Machines with systemd-resolved to run `LinuxRedirector` on.
use voindns_desktop.Base.{
  ℕ, ◌≡◌, refl, none, some, true, false, [], ◌∷◌, map, Result, ok, err, Error, anyhow, Text, codes,
  text_eq, if◌then◌else◌,
}
use voindns_desktop.Std.Fs.{file, Disk, read, exists, follow}
use voindns_desktop.Std.Fs.Laws.{read_plain, exists_of_read}
use voindns_desktop.Std.Str.Split.{unlines}
use voindns_desktop.Std.Str.Check.{is_line, is_line-IsLine}
use voindns_desktop.Redirect.Parse.{parse_default_route_iface}
use voindns_desktop.Redirect.Parse.Routes.{
  row_line, first_default, parse_default_route_iface-unlines,
}
use voindns_desktop.Redirect.Parse.Fixtures.{lo, wlan0, table_header, lo-IsRow, wlan0-IsRow}
use voindns_desktop.Redirect.Linux.{
  Bus, Linux, Method, set_link_dns, set_link_default_route, revert_link, flush_caches, idle,
  resolved_stub, resolv_conf, resolv_backup, route_table, resolved_active, default_route_iface,
  manager_call, method_name, managed, resolvconf_apply,
}
use voindns_desktop.Redirect.Linux.Fixtures.{quad9_conf}
use voindns_desktop.Redirect.Linux.Links.{Link, meant, reverted, at_localhost, BusLaws}
use voindns_desktop.Redirect.Linux.ResolvConf.{with_nodes, apply_saves}
use voindns_desktop.Redirect.Linux.Resolved.{servers}
use voindns_desktop.Std.Net.{localhost}

-- A bus whose state is the links, and that does what it is asked.
abbrev pub obeying_bus : Bus
obeying_bus = record {
  State = ℕ → Link;
  system = λ links. (ok tt, links);
  new_proxy = λ links. (ok tt, links);
  call = λ m links. (ok tt, meant m links);
  if_nametoindex = λ name. ok 2;
}

pub obeying_bus-Laws : BusLaws obeying_bus
obeying_bus-Laws = record {
  links = λ links. links;
  links-system = λ j s. refl;
  links-new_proxy = λ j s. refl;
  links-call_ok = λ m j s done. refl;
  links-call_err = λ m j s e failed. absurd cc;
}

-- The answer to a call on a link that something else manages for the default route.
abbrev pub busy_call : Method → (ℕ → Link) → Result Text (Unit {0}) × (ℕ → Link)
busy_call (set_link_dns i addrs) links = (ok tt, meant (set_link_dns i addrs) links)
busy_call (set_link_default_route i enable) links = (err (codes "LinkBusy"), links)
busy_call (revert_link i) links = (ok tt, meant (revert_link i) links)
busy_call flush_caches links = (ok tt, links)

abbrev pub busy_bus : Bus
busy_bus = record {
  State = ℕ → Link;
  system = λ links. (ok tt, links);
  new_proxy = λ links. (ok tt, links);
  call = busy_call;
  if_nametoindex = λ name. ok 2;
}

busy_ok :
    (m : Method) (j : ℕ) (s : ℕ → Link)
    → (busy_call m s).0 ≡ ok tt
    → (busy_call m s).1 j ≡ meant m s j
busy_ok (set_link_dns i addrs) j s done = refl
busy_ok (set_link_default_route i enable) j s done = absurd cc
busy_ok (revert_link i) j s done = refl
busy_ok flush_caches j s done = refl

busy_err :
    (m : Method) (j : ℕ) (s : ℕ → Link) (e : Text)
    → (busy_call m s).0 ≡ err e
    → (busy_call m s).1 j ≡ s j
busy_err (set_link_dns i addrs) j s e failed = absurd cc
busy_err (set_link_default_route i enable) j s e failed = refl
busy_err (revert_link i) j s e failed = absurd cc
busy_err flush_caches j s e failed = absurd cc

pub busy_bus-Laws : BusLaws busy_bus
busy_bus-Laws = record {
  links = λ links. links;
  links-system = λ j s. refl;
  links-new_proxy = λ j s. refl;
  links-call_ok = busy_ok;
  links-call_err = busy_err;
}

abbrev pub stock_links : ℕ → Link
stock_links j = reverted

-- `/proc/net/route`, with the default route on wlan0
abbrev pub routes_text : Text
routes_text = unlines (table_header ∷ map row_line (lo ∷ wlan0 ∷ []))

abbrev pub managed_disk : Disk
managed_disk = record {
  nodes = λ p.
      if text_eq p resolved_stub
      then some (file (codes "nameserver 127.0.0.53\n"))
      else if text_eq p route_table
      then some (file routes_text)
      else if text_eq p resolv_conf
      then some (file quad9_conf)
      else none;
  readonly = λ p. false;
}

managed_disk-stub : exists resolved_stub managed_disk ≡ true
unfolding codes text_eq
managed_disk-stub =
    exists_of_read managed_disk resolved_stub (codes "nameserver 127.0.0.53\n") (
      read_plain managed_disk resolved_stub (some (file (codes "nameserver 127.0.0.53\n"))) refl tt)

managed_disk-routes : read route_table managed_disk ≡ some routes_text
unfolding codes text_eq
managed_disk-routes = read_plain managed_disk route_table (some (file routes_text)) refl tt

routes_text-iface : parse_default_route_iface routes_text ≡ some (codes "wlan0")
unfolding codes text_eq is_line first_default
routes_text-iface =
    parse_default_route_iface-unlines table_header (lo ∷ wlan0 ∷ [])
      (is_line-IsLine table_header refl) (lo-IsRow, (wlan0-IsRow, tt))

iface_of :
    (B : Bus) (d : Disk) (table iface : Text)
    → read route_table d ≡ some table
    → parse_default_route_iface table ≡ some iface
    → default_route_iface B d ≡ some iface
unfolding default_route_iface read follow
iface_of B d table iface got parsed = rw (got, parsed) refl

module _ (B : Bus) (s : B.State) where
  abbrev pub machine_on : Linux B
  machine_on = record { active = idle; disk = managed_disk; bus = s }

  pub machine_on-resolved : resolved_active B machine_on ≡ true
  unfolding resolved_active
  machine_on-resolved = managed_disk-stub

  pub machine_on-iface : default_route_iface B managed_disk ≡ some (codes "wlan0")
  machine_on-iface =
      iface_of B managed_disk routes_text (codes "wlan0") managed_disk-routes routes_text-iface

pub obeys : (m : Method) (s : ℕ → Link) → (manager_call obeying_bus m s).0 ≡ ok tt
unfolding manager_call
obeys m s = refl

abbrev pub busy_error : Error
busy_error = anyhow (codes "SetLinkDefaultRoute: LinkBusy")

pub busy_sets :
    (s : ℕ → Link) → (manager_call busy_bus (set_link_dns 2 (servers localhost)) s).0 ≡ ok tt
unfolding manager_call
busy_sets s = refl

pub busy_refuses :
    (s : ℕ → Link) → (manager_call busy_bus (set_link_default_route 2 true) s).0 ≡ err busy_error
unfolding manager_call method_name codes
busy_refuses s = refl

managed_disk-conf : read resolv_conf managed_disk ≡ some quad9_conf
unfolding codes text_eq
managed_disk-conf = read_plain managed_disk resolv_conf (some (file quad9_conf)) refl tt

managed_disk-backup : managed_disk.nodes resolv_backup ≡ none
unfolding codes text_eq
managed_disk-backup = refl

pub managed_disk-apply :
    resolvconf_apply localhost managed_disk
    ≡ (ok tt, with_nodes (some (file (managed localhost))) (some (file quad9_conf)) managed_disk)
managed_disk-apply =
    apply_saves managed_disk localhost (refl, refl) quad9_conf managed_disk-conf managed_disk-backup

pub stock_links-off : at_localhost (obeying_bus-Laws.links stock_links 2).dns ≡ false
unfolding obeying_bus-Laws
stock_links-off = refl
