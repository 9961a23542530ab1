-- ===== src/Redirect/Windows/Fixtures.antt =====
-- Machines with one adapter to run the Windows redirector on.
use voindns_desktop.Base.{
  ◌≡◌, refl, true, Option, none, List, [], ◌∷◌, ok, Text, codes, text_eq, if◌then◌else◌,
}
use voindns_desktop.Redirect.Windows.{
  WindowsApi, Windows, nothing, clear_dns_native, set_dns_native, set_natives, connected_interfaces,
}
use voindns_desktop.Redirect.Windows.Api.{ApiLaws, static}
use voindns_desktop.Redirect.Windows.Adapters.{Clears, set_natives_first}
use voindns_desktop.Redirect.Windows.Natives.{SetsOne}
use voindns_desktop.Std.Net.{IpAddr, display_ip}

-- A machine is the static server of each adapter; `table` is what netsh prints.
abbrev pub machine_with : Text → WindowsApi
machine_with table = record {
  Machine = Text → Option Text;
  Luid = Text;
  Guid = Text;
  alias_to_luid = λ a m. (ok a, m);
  luid_to_guid = λ l m. (ok l, m);
  set_interface_dns_settings =
      λ g s m. (ok tt, λ b. if text_eq b g then static s.name_server else m b);
  output = λ cmd args m. (ok (record { success = true; stdout = table; stderr = [] }), m);
  debug_args = λ args. [];
}

abbrev pub one_adapter : WindowsApi
one_adapter = machine_with (codes "Enabled  Connected  Dedicated  Ethernet\n")

abbrev pub one_adapter-Laws : ApiLaws one_adapter
one_adapter-Laws = record {
  dns = λ m b. m b;
  owner = λ g. g;
  dns-alias_to_luid = λ a b m. refl;
  dns-ipconfig = λ b m. refl;
  dns-luid_to_guid = λ l b m. refl;
  owner-luid_to_guid = λ a m l g e e1. cc;
  dns-set_ok = λ g s b m e. refl;
  dns-set_err = λ g s b m rc e. absurd (cc);
  dns-output = λ cmd args b m e. refl;
}

abbrev pub start : Windows one_adapter
start = record { applied = nothing; machine = λ b. none }

pub clears :
    (alias : Text) (m : Text → Option Text) → (clear_dns_native one_adapter alias m).0 ≡ ok tt
unfolding clear_dns_native
clears alias m = refl

pub sets :
    (alias server : Text) (m : Text → Option Text)
    → (set_dns_native one_adapter alias server m).0 ≡ ok tt
unfolding set_dns_native
sets alias server m = refl

-- so does every sequence of them
pub all_clear :
    (names : List Text) (m : Text → Option Text) → Clears one_adapter one_adapter-Laws names m
all_clear [] m = tt
all_clear (name ∷ names) m =
    (clears name m, all_clear names (clear_dns_native one_adapter name m).1)

pub one_set :
    (ip : IpAddr) (os : Windows one_adapter)
    → SetsOne one_adapter one_adapter-Laws (codes "Ethernet") ip os
one_set ip os i is listed =
    let m = (connected_interfaces one_adapter os.machine).1 in
    let rest =
      set_natives one_adapter (display_ip ip) is
        (set_dns_native one_adapter i (display_ip ip) m).1 in
    (
      i,
      rest.0,
      set_natives_first one_adapter one_adapter-Laws (display_ip ip) i is m
          (sets i (display_ip ip) m),
    )
