-- ===== src/Redirect/Windows/Api.antt =====
-- The Windows API as it is documented, in its effect on each adapter's DNS.
use voindns_desktop.Base.{
  ℕ, ◌≡◌, Option, none, some, List, [], ◌∷◌, ok, err, Text, codes, text_eq, if◌then◌else◌,
}
use voindns_desktop.Redirect.Windows.{WindowsApi, DnsSettings}

-- An empty list of servers stands for those of DHCP.
abbrev pub static : Text → Option Text
static [] = none
static (c ∷ t) = some (c ∷ t)

-- The documented behaviour of the API: `dns` is the static server of an adapter, by its alias, and
-- `owner` the alias of the adapter that a GUID stands for.
pub record ApiLaws (W : WindowsApi) : Type 0 where
  pub dns : W.Machine → Text → Option Text
  pub owner : W.Guid → Text
  pub dns-alias_to_luid : (a b : Text) (m : W.Machine) → dns (W.alias_to_luid a m).1 b ≡ dns m b
  pub dns-luid_to_guid :
      (l : W.Luid) (b : Text) (m : W.Machine) → dns (W.luid_to_guid l m).1 b ≡ dns m b
  pub owner-luid_to_guid :
      (a : Text) (m : W.Machine) (l : W.Luid) (g : W.Guid)
      → (W.alias_to_luid a m).0 ≡ ok l
      → (W.luid_to_guid l (W.alias_to_luid a m).1).0 ≡ ok g
      → owner g ≡ a
  pub dns-set_ok :
      (g : W.Guid) (s : DnsSettings) (b : Text) (m : W.Machine)
      → (W.set_interface_dns_settings g s m).0 ≡ ok tt
      → dns (W.set_interface_dns_settings g s m).1 b
        ≡ (if text_eq b (owner g) then static s.name_server else dns m b)
  pub dns-set_err :
      (g : W.Guid) (s : DnsSettings) (b : Text) (m : W.Machine) (rc : ℕ)
      → (W.set_interface_dns_settings g s m).0 ≡ err rc
      → dns (W.set_interface_dns_settings g s m).1 b ≡ dns m b
  pub dns-output :
      (cmd : Text) (args : List Text) (b : Text) (m : W.Machine)
      → args ≡ codes "interface" ∷ codes "show" ∷ codes "interface" ∷ []
      → dns (W.output cmd args m).1 b ≡ dns m b
  pub dns-ipconfig :
      (b : Text) (m : W.Machine)
      → dns (W.output (codes "ipconfig") (codes "/flushdns" ∷ []) m).1 b ≡ dns m b
