-- ===== src/Redirect/Macos/Shell.antt =====
-- The networksetup path of the macOS redirector: what it saves, sets and puts back.
use voindns_desktop.Base.{
  ◌≡◌, refl, ◌∙◌, ap, true, false, Bool, ◌&&◌, not, inl, inr, List, [], ◌∷◌, map, All, Result-cases,
  Result, ok, Text, codes, text_eq, text_eq_iff, if◌then◌else◌, arith, elem,
}
use voindns_desktop.Std.Str.{contains, trim}
use voindns_desktop.Std.Str.Check.{is_line, is_line-IsLine}
use voindns_desktop.Std.Str.Split.{IsLine, unlines}
use voindns_desktop.Redirect.Parse.{parse_dns_servers, is_ip}
use voindns_desktop.Redirect.Parse.Names.{
  Service, service_line, IsService, parse_dns_servers-unlines,
}
use voindns_desktop.Redirect.Windows.{Output}
use voindns_desktop.Redirect.Macos.Assigned.{assigned, each, each-agree}
use voindns_desktop.Redirect.Macos.{MacosApi, run, current_dns, set_services}

unfoldable pub printable_lines : List Text → Bool
printable_lines [] = true
printable_lines (l ∷ ls) = (is_line l && (text_eq (trim l) l && is_ip l)) && printable_lines ls

-- IP addresses, each on a line of its own without white space around it.
unfoldable pub printable : List Text → Bool
unfolding printable_lines
printable ls = printable_lines ls && not (contains (unlines ls) (codes "aren't any DNS Servers"))

printable_lines-All :
    (ls : List Text)
    → printable_lines ls ≡ true
    → All IsLine ls × All (λ l. trim l ≡ l) ls × All (λ l. is_ip l ≡ true) ls
unfolding printable_lines
printable_lines-All [] h = (tt, tt, tt)
printable_lines-All (l ∷ ls) h =
    let (lines', trimmed, ip) = printable_lines-All ls (ground (arith, h)) in
    (
      (is_line-IsLine l (ground (arith, h)), lines'),
      ((text_eq_iff (trim l) l).0 (ground (arith, h)), trimmed),
      (ground (arith, h), ip),
    )

-- What `networksetup -getdnsservers` prints.
abbrev pub Printed : List Text → Text → Type 0
Printed [] out = contains out (codes "aren't any DNS Servers") ≡ true
Printed (s ∷ servers) out = (out ≡ unlines (s ∷ servers)) × (printable (s ∷ servers) ≡ true)

abbrev pub Distinct : List Text → Type 0
Distinct [] = Unit
Distinct (s ∷ ss) = (elem s ss ≡ false) × Distinct ss

abbrev pub names_of : List Service → List Text
names_of services = map (λ s. s.name) services

-- Output of a command that succeeds.
abbrev pub Gives : {M : Type 0} → Result Text Output × M → (Text → Type 0) → Type 0
Gives r P = (out : Output) × (r.0 ≡ ok out) × (out.success ≡ true) × P out.stdout

-- The documented behaviour of networksetup: the machine has the services `listed`, under names of
-- their own, and `servers` is the list of the DNS servers of a service.
pub record NetworkSetup (M : MacosApi) : Type 0 where
  pub header : Text
  pub listed : List Service
  pub header-IsLine : IsLine header
  pub listed-IsService : All IsService listed
  pub distinct : Distinct (names_of listed)
  pub servers : M.Machine → Text → List Text
  pub list :
      (m : M.Machine)
      → Gives
          (M.output (codes "networksetup") (codes "-listallnetworkservices" ∷ []) m)
          (λ out. out ≡ unlines (header ∷ map service_line listed))
  pub servers-list :
      (m : M.Machine) (t : Text)
      → servers (M.output (codes "networksetup") (codes "-listallnetworkservices" ∷ []) m).1 t
        ≡ servers m t
  pub get :
      (svc : Text) (m : M.Machine)
      → Gives
          (M.output (codes "networksetup") (codes "-getdnsservers" ∷ svc ∷ []) m)
          (Printed (servers m svc))
  pub servers-get :
      (svc : Text) (m : M.Machine) (t : Text)
      → servers (M.output (codes "networksetup") (codes "-getdnsservers" ∷ svc ∷ []) m).1 t
        ≡ servers m t
  pub set :
      (svc s : Text) (ss : List Text) (m : M.Machine)
      → printable (s ∷ ss) ≡ true
      → Gives
          (M.output (codes "networksetup") (codes "-setdnsservers" ∷ svc ∷ s ∷ ss) m)
          (λ out. Unit)
  pub servers-set :
      (svc s : Text) (ss : List Text) (m : M.Machine) (t : Text)
      → printable (s ∷ ss) ≡ true
      → servers (M.output (codes "networksetup") (codes "-setdnsservers" ∷ svc ∷ s ∷ ss) m).1 t
        ≡ (if text_eq t svc then s ∷ ss else servers m t)
  pub servers-set_empty :
      (svc : Text) (m : M.Machine) (t : Text)
      → servers
          (M.output (codes "networksetup") (codes "-setdnsservers" ∷ svc ∷ codes "Empty" ∷ []) m).1
          t
        ≡ (if text_eq t svc then [] else servers m t)
  -- the dynamic store and the caches are apart from what networksetup keeps
  pub servers-build : (m : M.Machine) (t : Text) → servers (M.build m).1 t ≡ servers m t
  pub servers-get_keys :
      (k : Text) (m : M.Machine) (t : Text) → servers (M.get_keys k m).1 t ≡ servers m t
  pub servers-set_raw :
      (q : Text) (v : List Text) (m : M.Machine) (t : Text)
      → servers (M.set_raw q v m).1 t ≡ servers m t
  pub servers-dscacheutil :
      (m : M.Machine) (t : Text)
      → servers (M.output (codes "dscacheutil") (codes "-flushcache" ∷ []) m).1 t ≡ servers m t
  pub servers-killall :
      (m : M.Machine) (t : Text)
      → servers (M.output (codes "killall") (codes "-HUP" ∷ codes "mDNSResponder" ∷ []) m).1 t
        ≡ servers m t

module _ (M : MacosApi) (N : NetworkSetup M) where
  pub run-Gives :
      (cmd : Text) (args : List Text) (m : M.Machine) {P : Text → Type 0}
      → Gives (M.output cmd args m) P
      → (out : Text) × (run M cmd args m ≡ (ok out, (M.output cmd args m).1)) × P out
  unfolding run
  run-Gives cmd args m (out, e, success, p) = (out.stdout, rw (e, run, success) refl, p)

  pub run-machine :
      (cmd : Text) (args : List Text) (m : M.Machine)
      → (run M cmd args m).1 ≡ (M.output cmd args m).1
  unfolding run
  run-machine cmd args m = elim (Result-cases (M.output cmd args m).0) [
    | inl (o, e) ↦ rw e refl
    | inr (x, e) ↦ rw e refl
  ]

  Printed-parse_dns_servers :
      (ss : List Text) (out : Text) → Printed ss out → parse_dns_servers out ≡ ss
  unfolding parse_dns_servers printable
  Printed-parse_dns_servers [] out h = rw h refl
  Printed-parse_dns_servers (s ∷ ss) out (e, h) =
      let (line, trimmed, ip) = printable_lines-All (s ∷ ss) (ground (arith, h)) in
      ap parse_dns_servers e
      ∙ parse_dns_servers-unlines (s ∷ ss) line trimmed ip (ground (arith, h))

  current_dns_lem :
      (svc : Text) (m : M.Machine)
      → ((current_dns M svc m).0 ≡ N.servers m svc)
        × ((t : Text) → N.servers (current_dns M svc m).1 t ≡ N.servers m t)
  unfolding current_dns
  current_dns_lem svc m =
      let (out, e, p) =
        run-Gives (codes "networksetup") (codes "-getdnsservers" ∷ svc ∷ []) m (N.get svc m) in
      (
        rw (e, current_dns) (Printed-parse_dns_servers (N.servers m svc) out p),
        λ t. rw (e, current_dns) (N.servers-get svc m t),
      )

  -- saving and setting, service by service
  pub set_services_lem :
      (server : Text) (services : List Text) (m : M.Machine)
      → printable (server ∷ []) ≡ true
      → Distinct services
      → ((set_services M server services m).0 ≡ ok (each (N.servers m) services))
        × ((t : Text)
            → N.servers (set_services M server services m).1 t
              ≡ assigned (each (λ s. server ∷ []) services) t (N.servers m t))
  unfolding set_services
  set_services_lem server [] m ip distinct = (refl, λ t. refl)
  set_services_lem server (svc ∷ services) m ip (apart, distinct) =
      let m1 = (current_dns M svc m).1 in
      let (prev, same) = current_dns_lem svc m in
      let (out, e, _) =
        run-Gives (codes "networksetup") (codes "-setdnsservers" ∷ svc ∷ server ∷ []) m1
          (N.set svc server [] m1 ip) in
      let m2 =
        (M.output (codes "networksetup") (codes "-setdnsservers" ∷ svc ∷ server ∷ []) m1).1 in
      let (saved, after) = set_services_lem server services m2 ip distinct in
      let kept : (t : Text) → text_eq t svc ≡ false → N.servers m2 t ≡ N.servers m t =
        λ t other. N.servers-set svc server [] m1 t ip ∙ rw other (same t) in
      (
        rw (e, saved, prev, each-agree (N.servers m2) (N.servers m) svc services apart kept) refl,
        λ t.
            rw (e, saved)
              (after t
                ∙ ap (assigned (each (λ s. server ∷ []) services) t) (
                    N.servers-set svc server [] m1 t ip
                    ∙ ap (λ d. if text_eq t svc then server ∷ [] else d) (same t))),
      )
