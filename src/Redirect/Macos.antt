-- ===== src/Redirect/Macos.antt =====
-- crates/voidns-core/src/redirect/macos.rs
pub mod Outcomes
pub mod Apart
pub mod Override
pub mod Paths
pub mod Fixtures
pub mod Assigned
pub mod Shell
pub mod Services
mod Examples
use voindns_desktop.Base.{
  ℕ, Bool, true, false, Option, none, some, List, [], ◌∷◌, ◌++◌, Result, ok, err, Error, anyhow,
  ok_or, Text, codes, if◌then◌else◌, ◌==◌,
}
use voindns_desktop.Base.Io.{Io, pure, lift, with_err, ignore, ◌>>=◌, ◌>>◌}
use voindns_desktop.Std.Str.{is_empty}
use voindns_desktop.Std.Net.{IpAddr, display_ip}
use voindns_desktop.Redirect.{DnsRedirector}
use voindns_desktop.Redirect.Parse.{parse_network_services, parse_dns_servers}
use voindns_desktop.Redirect.Windows.{Output}

abbrev pub service_pattern : Text
service_pattern = codes "Setup:/Network/Service/[0-9A-F-]+"

-- SCDynamicStore, and `Command::output`, an error being the text of the I/O error. `set_raw` sets
-- a path to a dictionary whose "ServerAddresses" are the given texts.
pub record MacosApi : Type 1 where
  pub Machine : Type 0
  pub build : Machine → Bool × Machine
  pub get_keys : Text → Machine → Option (List Text) × Machine
  pub set_raw : Text → List Text → Machine → Bool × Machine
  pub remove : Text → Machine → Bool × Machine
  pub output : Text → List Text → Io Machine Text Output
  pub debug_args : List Text → Text

pub data Applied : Type 0 where
  nothing : Applied
  native : List Text → Applied
  shell : List (Text × List Text) → Applied

-- `rsplit('/').next()`: what stands behind the last slash
unfoldable pub last_part : Text → Text → Text
last_part part [] = part
last_part part (c ∷ s) = elim (c == b'/') [
  | true ↦ last_part [] s
  | false ↦ last_part (part ++ c ∷ []) s
]

module _ (M : MacosApi) where
  -- The redirector's field, and the machine.
  pub record Macos : Type 0 where
    pub applied : Applied
    pub machine : M.Machine

  -- `MacosRedirector::new`, on a machine
  unfoldable pub new : M.Machine → Macos
  new machine = record { applied = nothing; machine = machine }

  finished : Text → List Text → Output → Result Error Text
  finished cmd args out =
      if out.success
      then ok out.stdout
      else err
          (anyhow (cmd ++ (codes " " ++ (M.debug_args args ++ (codes " failed: " ++ out.stderr)))))

  unfoldable pub run : Text → List Text → Io M.Machine Error Text
  unfolding finished
  run cmd args = do out ← with_err anyhow (M.output cmd args); lift (finished cmd args out)

  created : Io M.Machine Error Unit
  created m =
      let (made, m') = M.build m in
      (if made then ok tt else err (anyhow (codes "SCDynamicStoreCreate failed")), m')

  found_keys : Io M.Machine Error (List Text)
  found_keys m =
      let (keys, m') = M.get_keys service_pattern m in
      (ok_or (anyhow (codes "no network services found")) keys, m')

  abbrev state_path : Text → Text
  state_path setup = codes "State:/Network/Service/" ++ (last_part [] setup ++ codes "/DNS")

  -- The loop of `apply_native`: the paths that were set.
  unfoldable pub set_states : Text → List Text → M.Machine → List Text × M.Machine
  set_states server [] m = ([], m)
  set_states server (k ∷ keys) m =
      let (done, m1) = M.set_raw (state_path k) (server ∷ []) m in
      let (rest, m2) = set_states server keys m1 in (if done then state_path k ∷ rest else rest, m2)

  some_set : List Text → Result Error (List Text)
  some_set [] = err (anyhow (codes "failed to set DNS on any service"))
  some_set (path ∷ paths) = ok (path ∷ paths)

  unfoldable pub apply_native : IpAddr → Io M.Machine Error (List Text)
  unfolding created found_keys set_states some_set
  apply_native proxy = do
    created
    keys ← found_keys
    (λ m. let (paths, m') = set_states (display_ip proxy) keys m in (some_set paths, m'))

  unfoldable pub removes : List Text → M.Machine → M.Machine
  removes [] m = m
  removes (path ∷ paths) m = removes paths (M.remove path m).1

  unfoldable pub restore_native : List Text → Io M.Machine Error Unit
  unfolding created removes
  restore_native paths = do created; (λ m. (ok tt, removes paths m))

  unfoldable pub network_services : Io M.Machine Error (List Text)
  unfolding run
  network_services = do
    out ← run (codes "networksetup") (codes "-listallnetworkservices" ∷ [])
    pure (parse_network_services out)

  -- `current_dns(svc).unwrap_or_default()`
  servers_of : Result Error Text → List Text
  servers_of (ok out) = parse_dns_servers out
  servers_of (err e) = []

  unfoldable pub current_dns : Text → M.Machine → List Text × M.Machine
  unfolding servers_of run
  current_dns service m =
      let (r, m') = run (codes "networksetup") (codes "-getdnsservers" ∷ service ∷ []) m in
      (servers_of r, m')

  -- The loop of `apply_shell`, which ends at the first failure.
  unfoldable pub set_services : Text → List Text → Io M.Machine Error (List (Text × List Text))
  unfolding current_dns run
  set_services server [] = pure []
  set_services server (svc ∷ services) = do
    prev ← (λ m. let (servers, m') = current_dns svc m in (ok servers, m'))
    run (codes "networksetup") (codes "-setdnsservers" ∷ svc ∷ server ∷ [])
    saved ← set_services server services
    pure ((svc, prev) ∷ saved)

  on_services : Text → List Text → Io M.Machine Error (List (Text × List Text))
  unfolding set_services
  on_services server [] m = (err (anyhow (codes "no network services found")), m)
  on_services server (svc ∷ services) m = set_services server (svc ∷ services) m

  unfoldable pub apply_shell : IpAddr → Io M.Machine Error (List (Text × List Text))
  unfolding network_services on_services
  apply_shell proxy = do services ← network_services; on_services (display_ip proxy) services

  unfoldable pub restore_shell : List (Text × List Text) → M.Machine → M.Machine
  unfolding run
  restore_shell [] m = m
  restore_shell ((svc, servers) ∷ prev) m =
      let args = if is_empty servers then codes "Empty" ∷ [] else servers in
      restore_shell prev
        (ignore (run (codes "networksetup") (codes "-setdnsservers" ∷ svc ∷ args)) m)

  unfoldable pub flush_machine : M.Machine → M.Machine
  unfolding run
  flush_machine m =
      let m1 = ignore (run (codes "dscacheutil") (codes "-flushcache" ∷ [])) m in
      ignore (run (codes "killall") (codes "-HUP" ∷ codes "mDNSResponder" ∷ [])) m1

  pub flush_cache : Io Macos Error Unit
  unfolding flush_machine
  flush_cache os = (ok tt, record os { machine = flush_machine os.machine })

  after_shell :
      Macos → Result Error (List (Text × List Text)) × M.Machine → Result Error (Unit {0}) × Macos
  unfolding flush_cache
  after_shell os (ok saved, m) =
      (ok tt, ignore flush_cache (record { applied = shell saved; machine = m }))
  after_shell os (err e, m) = (err e, record os { machine = m })

  after_native :
      IpAddr → Macos → Result Error (List Text) × M.Machine → Result Error (Unit {0}) × Macos
  unfolding after_shell apply_shell
  after_native proxy os (ok paths, m) =
      (ok tt, ignore flush_cache (record { applied = native paths; machine = m }))
  after_native proxy os (err e, m) = after_shell os (apply_shell proxy m)

  pub apply : IpAddr → Io Macos Error Unit
  unfolding after_native apply_native
  apply proxy os = after_native proxy os (apply_native proxy os.machine)

  restore_from : Applied → Io M.Machine Error Unit
  unfolding restore_native restore_shell
  restore_from (native paths) m = restore_native paths m
  restore_from (shell prev) m = (ok tt, restore_shell prev m)
  restore_from nothing m = (ok tt, m)

  pub restore : Io Macos Error Unit
  unfolding restore_from
  restore os =
      let (r, m) = restore_from os.applied os.machine in
      (r, record { applied = nothing; machine = m })

  abbrev pub macos_redirector : DnsRedirector
  macos_redirector = record {
    Os = Macos;
    apply = apply;
    restore = restore;
    flush_cache = flush_cache;
  }
