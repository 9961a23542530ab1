-- ===== src/Redirect/Windows.antt =====
-- crates/voidns-core/src/redirect/windows.rs
pub mod Api
pub mod Adapters
pub mod Outcomes
pub mod Wide
pub mod Natives
pub mod Fixtures
mod Examples
use voindns_desktop.Base.{
  ℕ, Bool, true, false, Option, none, some, List, [], ◌∷◌, ◌++◌, Result, ok, err, Error, anyhow,
  map_err, Text, codes, if◌then◌else◌,
}
use voindns_desktop.Base.Io.{Io, pure, lift, with_err, ignore, ◌>>=◌, ◌>>◌}
use voindns_desktop.Std.Str.{is_empty}
use voindns_desktop.Std.Decimal.{to_decimal}
use voindns_desktop.Std.Net.{IpAddr, display_ip}
use voindns_desktop.Redirect.{DnsRedirector}
use voindns_desktop.Redirect.Parse.{parse_netsh_interfaces}

-- What `Command::output` gives, with its texts after `from_utf8_lossy`.
pub record Output : Type 0 where
  pub success : Bool
  pub stdout : Text
  pub stderr : Text

-- `DNS_INTERFACE_SETTINGS` of version 1 with the flags of these two fields, the others zero.
pub record DnsSettings : Type 0 where
  pub name_server : Text
  pub search_list : Text

-- The calls of the Windows API, an error being the code that is returned, and `Command::output`,
-- an error being the text of the I/O error. `debug_args` is `{:?}` of a list of texts.
pub record WindowsApi : Type 1 where
  pub Machine : Type 0
  pub Luid : Type 0
  pub Guid : Type 0
  pub alias_to_luid : Text → Io Machine ℕ Luid
  pub luid_to_guid : Luid → Io Machine ℕ Guid
  pub set_interface_dns_settings : Guid → DnsSettings → Io Machine ℕ Unit
  pub output : Text → List Text → Io Machine Text Output
  pub debug_args : List Text → Text

pub data Applied : Type 0 where
  nothing : Applied
  native : List Text → Applied
  netsh : List Text → Applied

module _ (W : WindowsApi) where
  -- The redirector's field, and the machine.
  pub record Windows : Type 0 where
    pub applied : Applied
    pub machine : W.Machine

  -- `WindowsRedirector::new`, on a machine
  unfoldable pub new : W.Machine → Windows
  new machine = record { applied = nothing; machine = machine }

  finished : Text → List Text → Output → Result Error Text
  finished cmd args out =
      if out.success
      then ok out.stdout
      else err
          (anyhow (cmd ++ (codes " " ++ (W.debug_args args ++ (codes " failed: " ++ out.stderr)))))

  unfoldable pub run : Text → List Text → Io W.Machine Error Text
  unfolding finished
  run cmd args = do out ← with_err anyhow (W.output cmd args); lift (finished cmd args out)

  unfoldable pub alias_to_guid : Text → Io W.Machine Error W.Guid
  alias_to_guid alias = do
    luid ←
        with_err
          (λ rc.
            anyhow
              (codes "ConvertInterfaceAliasToLuid(" ++ (alias ++ (codes ") -> " ++ to_decimal rc))))
          (W.alias_to_luid alias)
    with_err (λ rc. anyhow (codes "ConvertInterfaceLuidToGuid -> " ++ to_decimal rc))
        (W.luid_to_guid luid)

  unfoldable pub set_dns_native : Text → Text → Io W.Machine Error Unit
  unfolding alias_to_guid
  set_dns_native alias server = do
    guid ← alias_to_guid alias
    with_err (λ rc. anyhow (codes "SetInterfaceDnsSettings -> " ++ to_decimal rc))
        (W.set_interface_dns_settings guid
          (record { name_server = server; search_list = codes "." }))

  unfoldable pub clear_dns_native : Text → Io W.Machine Error Unit
  unfolding alias_to_guid
  clear_dns_native alias = do
    guid ← alias_to_guid alias
    with_err (λ rc. anyhow (codes "SetInterfaceDnsSettings(clear) -> " ++ to_decimal rc))
        (W.set_interface_dns_settings guid (record { name_server = []; search_list = [] }))

  unfoldable pub netsh_set : Text → Text → Io W.Machine Error Unit
  unfolding run
  netsh_set name server = do
    run (codes "netsh") (
        codes "interface"
        ∷ codes "ipv4"
        ∷ codes "set"
        ∷ codes "dnsservers"
        ∷ (codes "name=" ++ name)
        ∷ codes "static"
        ∷ server
        ∷ codes "primary"
        ∷ [])
    pure tt

  unfoldable pub netsh_clear : Text → Io W.Machine Error Unit
  unfolding run
  netsh_clear name = do
    run (codes "netsh") (
        codes "interface"
        ∷ codes "ipv4"
        ∷ codes "set"
        ∷ codes "dnsservers"
        ∷ (codes "name=" ++ name)
        ∷ codes "dhcp"
        ∷ [])
    pure tt

  -- The exit status of `netsh` is not looked at here.
  unfoldable pub connected_interfaces : Io W.Machine Error (List Text)
  connected_interfaces = do
    out ←
        with_err anyhow
          (W.output (codes "netsh") (codes "interface" ∷ codes "show" ∷ codes "interface" ∷ []))
    pure (parse_netsh_interfaces out.stdout)

  keep : {A : Type 0} → Text → Result Error A → List Text → List Text
  keep name (ok _) names = name ∷ names
  keep name (err e) names = names

  -- The first loop of `apply`: the names that were set natively.
  unfoldable pub set_natives : Text → List Text → W.Machine → List Text × W.Machine
  unfolding set_dns_native keep
  set_natives server [] m = ([], m)
  set_natives server (name ∷ names) m =
      let (r, m1) = set_dns_native name server m in
      let (rest, m2) = set_natives server names m1 in (keep name r rest, m2)

  -- The second loop, which ends at the first failure.
  unfoldable pub netsh_sets : Text → List Text → Io W.Machine Error Unit
  unfolding netsh_set
  netsh_sets server [] = pure tt
  netsh_sets server (name ∷ names) = do netsh_set name server; netsh_sets server names

  after_netsh :
      List Text → Windows → Result Error (Unit {0}) × W.Machine → Result Error (Unit {0}) × Windows
  after_netsh ifaces os (ok _, m) = (ok tt, record { applied = netsh ifaces; machine = m })
  after_netsh ifaces os (err e, m) = (err e, record os { machine = m })

  -- `native_ok` and what follows the first loop
  after_natives :
      Text → List Text → Windows → List Text × W.Machine → Result Error (Unit {0}) × Windows
  unfolding after_netsh netsh_sets
  after_natives server ifaces os ([], m) = after_netsh ifaces os (netsh_sets server ifaces m)
  after_natives server ifaces os (name ∷ names, m) =
      (ok tt, record { applied = native (name ∷ names); machine = m })

  with_interfaces :
      IpAddr → Windows → Result Error (List Text) × W.Machine → Result Error (Unit {0}) × Windows
  unfolding after_natives set_natives
  with_interfaces proxy os (err e, m) = (err e, record os { machine = m })
  with_interfaces proxy os (ok [], m) =
      (err (anyhow (codes "no connected network interfaces found")), record os { machine = m })
  with_interfaces proxy os (ok (i ∷ is), m) =
      after_natives (display_ip proxy) (i ∷ is) os (set_natives (display_ip proxy) (i ∷ is) m)

  pub apply : IpAddr → Io Windows Error Unit
  unfolding with_interfaces
  apply proxy os = with_interfaces proxy os (connected_interfaces os.machine)

  -- The loops of `restore`, which go on after a failure.
  unfoldable pub clear_natives : List Text → W.Machine → W.Machine
  unfolding clear_dns_native
  clear_natives [] m = m
  clear_natives (name ∷ names) m = clear_natives names (ignore (clear_dns_native name) m)

  unfoldable pub netsh_clears : List Text → W.Machine → W.Machine
  unfolding netsh_clear
  netsh_clears [] m = m
  netsh_clears (name ∷ names) m = netsh_clears names (ignore (netsh_clear name) m)

  restored_machine : Applied → W.Machine → W.Machine
  unfolding clear_natives netsh_clears
  restored_machine (native names) m = clear_natives names m
  restored_machine (netsh names) m = netsh_clears names m
  restored_machine nothing m = m

  pub restore : Io Windows Error Unit
  unfolding restored_machine
  restore os =
      (ok tt, record { applied = nothing; machine = restored_machine os.applied os.machine })

  pub flush_cache : Io Windows Error Unit
  unfolding run
  flush_cache os =
      let (r, m) = run (codes "ipconfig") (codes "/flushdns" ∷ []) os.machine in
      (elim r [ ok _ ↦ ok tt | err e ↦ err e ], record os { machine = m })

  abbrev pub windows_redirector : DnsRedirector
  windows_redirector = record {
    Os = Windows;
    apply = apply;
    restore = restore;
    flush_cache = flush_cache;
  }
