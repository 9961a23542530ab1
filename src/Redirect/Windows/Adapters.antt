-- ===== src/Redirect/Windows/Adapters.antt =====
-- What the Windows redirector leaves on each adapter.
use mathlib.Core.Path.{subst}
use voindns_desktop.Base.{
  elem, ℕ, ◌≡◌, refl, ◌∙◌, ap, inl, inr, false, none, List, [], ◌∷◌, Result, Result-cases, is_ok,
  ok, Error, Text, codes, text_eq, if◌then◌else◌, arith,
}
use voindns_desktop.Base.Io.{Io, with_err, ◌>>=◌}
use voindns_desktop.Std.Net.{IpAddr, display_ip}
use voindns_desktop.Redirect.Windows.Api.{static, ApiLaws}
use voindns_desktop.Redirect.Windows.{
  WindowsApi, DnsSettings, Windows, native, alias_to_guid, set_dns_native, clear_dns_native,
  connected_interfaces, set_natives, keep, clear_natives, apply, restore, with_interfaces,
  after_natives, restored_machine,
}

module _ (W : WindowsApi) (L : ApiLaws W) where
  -- A call on one adapter: it is given the server, or nothing is changed.
  data Change (alias server : Text) (m : W.Machine) (r : Result Error (Unit {0}) × W.Machine)
      : Type 0 where
    changed :
        r.0 ≡ ok tt
        → ((b : Text) → L.dns r.1 b ≡ (if text_eq b alias then static server else L.dns m b))
        → Change alias server m r
    kept : is_ok r.0 ≡ false → ((b : Text) → L.dns r.1 b ≡ L.dns m b) → Change alias server m r

  call_on : (ℕ → Error) → DnsSettings → Text → Io W.Machine Error Unit
  unfolding alias_to_guid
  call_on f s alias = do
    guid ← alias_to_guid W alias
    with_err f (W.set_interface_dns_settings guid s)

  call_on-Change :
      (f : ℕ → Error) (s : DnsSettings) (alias : Text) (m : W.Machine)
      → Change alias s.name_server m (call_on f s alias m)
  unfolding call_on
  call_on-Change f s alias m = elim (Result-cases (W.alias_to_luid alias m).0) [
    | inr (rc, e) ↦ kept (rw e) (λ b. rw e (L.dns-alias_to_luid alias b m))
    | inl (l, e) ↦
        let m1 = (W.alias_to_luid alias m).1 in
        elim (Result-cases (W.luid_to_guid l m1).0) [
          | inr (rc, e1) ↦
              kept (rw (e, e1))
                (λ b. rw (e, e1) (L.dns-luid_to_guid l b m1 ∙ L.dns-alias_to_luid alias b m))
          | inl (g, e1) ↦
              let m2 = (W.luid_to_guid l m1).1 in
              let same : (b : Text) → L.dns m2 b ≡ L.dns m b =
                λ b. L.dns-luid_to_guid l b m1 ∙ L.dns-alias_to_luid alias b m in
              let own = L.owner-luid_to_guid alias m l g e e1 in
              elim (Result-cases (W.set_interface_dns_settings g s m2).0) [
                | inr (rc, e2) ↦
                    kept (rw (e, e1, e2)) (λ b. rw (e, e1) (L.dns-set_err g s b m2 rc e2 ∙ same b))
                | inl (u, e2) ↦ changed (rw (e, e1, e2)) (λ b.
                    rw (e, e1)
                      (L.dns-set_ok g s b m2 e2
                        ∙ ap (λ o. if text_eq b o then static s.name_server else L.dns m2 b) own
                        ∙ ap (λ d. if text_eq b alias then static s.name_server else d) (same b)))
              ]
        ]
  ]

  set_dns_native-Change :
      (alias server : Text) (m : W.Machine)
      → Change alias server m (set_dns_native W alias server m)
  unfolding set_dns_native call_on
  set_dns_native-Change alias server m = call_on-Change _ _ alias m

  clear_dns_native-Change :
      (alias : Text) (m : W.Machine) → Change alias [] m (clear_dns_native W alias m)
  unfolding clear_dns_native call_on
  clear_dns_native-Change alias m = call_on-Change _ _ alias m

  -- The first loop gives the server to exactly the adapters that it returns.
  set_natives_lem :
      (server : Text) (names : List Text) (m : W.Machine) (b : Text)
      → L.dns (set_natives W server names m).1 b
        ≡ (if elem b (set_natives W server names m).0 then static server else L.dns m b)
  unfolding set_natives elem
  set_natives_lem server [] m b = refl
  set_natives_lem server (name ∷ names) m b =
      let m1 = (set_dns_native W name server m).1 in
      let rest = set_natives_lem server names m1 b in
      elim (set_dns_native-Change name server m) [
        | changed e h ↦ ground (arith, e, h b, rest)
        | kept e h ↦ ground (arith, e, h b, rest)
      ]

  pub set_natives_first :
      (server name : Text) (names : List Text) (m : W.Machine)
      → (set_dns_native W name server m).0 ≡ ok tt
      → (set_natives W server (name ∷ names) m).0
        ≡ name ∷ (set_natives W server names (set_dns_native W name server m).1).0
  unfolding set_natives keep
  set_natives_first server name names m done = rw done refl

  -- The native calls that clear these adapters, one behind the other, succeed.
  abbrev pub Clears : List Text → W.Machine → Type 0
  Clears [] m = Unit
  Clears (name ∷ names) m =
      ((clear_dns_native W name m).0 ≡ ok tt) × Clears names (clear_dns_native W name m).1

  clear_natives_lem :
      (names : List Text) (m : W.Machine) (b : Text)
      → Clears names m
      → L.dns (clear_natives W names m) b ≡ (if elem b names then none else L.dns m b)
  unfolding clear_natives elem
  clear_natives_lem [] m b works = refl
  clear_natives_lem (name ∷ names) m b (cleared, works) =
      let m1 = (clear_dns_native W name m).1 in
      let rest = clear_natives_lem names m1 b works in
      elim (clear_dns_native-Change name m) [
        | changed e h ↦ ground (arith, h b, rest)
        | kept e h ↦ absurd (ground (arith, e, cleared))
      ]

  after_natives_lem :
      (server : Text) (ifaces : List Text) (os : Windows W) (r : List Text × W.Machine) (n : Text)
      (ns : List Text)
      → r.0 ≡ n ∷ ns
      → after_natives W server ifaces os r
        ≡ (ok tt, record { applied = native (n ∷ ns); machine = r.1 })
  unfolding after_natives
  after_natives_lem server ifaces os (set', m) n ns h = rw h refl

  with_natives :
      (proxy : IpAddr) (ifaces : List Text) (m : W.Machine) (os : Windows W) (n : Text)
      (ns : List Text)
      → (set_natives W (display_ip proxy) ifaces m).0 ≡ n ∷ ns
      → with_interfaces W proxy os (ok ifaces, m) ≡ (
        ok tt,
        record {
          applied = native (n ∷ ns);
          machine = (set_natives W (display_ip proxy) ifaces m).1;
        },
      )
  unfolding with_interfaces
  with_natives proxy [] m os n ns h = absurd (unfold set_natives in cc)
  with_natives proxy (i ∷ is) m os n ns h =
      after_natives_lem (display_ip proxy) (i ∷ is) os (set_natives W (display_ip proxy) (i ∷ is) m)
        n ns h

  pub interfaces_dns : (m : W.Machine) (b : Text) → L.dns (connected_interfaces W m).1 b ≡ L.dns m b
  unfolding connected_interfaces
  interfaces_dns m b =
      let shown =
        L.dns-output (codes "netsh") (codes "interface" ∷ codes "show" ∷ codes "interface" ∷ []) b m
          refl in
      elim (Result-cases
        (W.output (codes "netsh") (codes "interface" ∷ codes "show" ∷ codes "interface" ∷ [])
          m).0) [ inl (out, e) ↦ rw e shown | inr (x, e) ↦ rw e shown ]

  pub applied_natives :
      (proxy : IpAddr) (os : Windows W) (ifaces : List Text) (n : Text) (ns : List Text)
      → (connected_interfaces W os.machine).0 ≡ ok ifaces
      → (set_natives W (display_ip proxy) ifaces (connected_interfaces W os.machine).1).0 ≡ n ∷ ns
      → (os1 : Windows W) × (apply W proxy os ≡ (ok tt, os1))
        × (os1.applied ≡ native (n ∷ ns))
        × ((b : Text)
            → L.dns os1.machine b
              ≡ (if elem b (n ∷ ns) then static (display_ip proxy) else L.dns os.machine b))
  unfolding apply
  applied_natives proxy os ifaces n ns listed set' =
      let m1 = (connected_interfaces W os.machine).1 in
      let m2 = (set_natives W (display_ip proxy) ifaces m1).1 in
      (
        record { applied = native (n ∷ ns); machine = m2 },
        ap (λ l. with_interfaces W proxy os (l, m1)) listed
            ∙ with_natives proxy ifaces m1 os n ns set',
        refl,
        λ b.
            set_natives_lem (display_ip proxy) ifaces m1 b
            ∙ ap (λ l. if elem b l then static (display_ip proxy) else L.dns m1 b) set'
            ∙ ap (λ d. if elem b (n ∷ ns) then static (display_ip proxy) else d)
                (interfaces_dns os.machine b),
      )

  pub restored_natives :
      (os : Windows W) (names : List Text)
      → os.applied ≡ native names
      → Clears names os.machine
      → (b : Text)
      → L.dns (restore W os).1.machine b ≡ (if elem b names then none else L.dns os.machine b)
  unfolding restore
  restored_natives os names e works b =
      ap (λ a. L.dns (restored_machine W a os.machine) b) e
      ∙ (unfold restored_machine in clear_natives_lem names os.machine b works)

  -- On Windows, over an API as documented: when the interfaces are listed and the native call sets
  -- some of them, and the native calls of the restore clear the adapters that were set, apply
  -- succeeds, exactly the adapters that were set have the proxy as their DNS server and the others
  -- are as before; the restore then puts these adapters to DHCP, whatever static server they had,
  -- and the others are as before.
  pub windows_restore-apply :
      (proxy : IpAddr) (os : Windows W) (ifaces : List Text) (n : Text) (ns : List Text)
      → (connected_interfaces W os.machine).0 ≡ ok ifaces
      → (set_natives W (display_ip proxy) ifaces (connected_interfaces W os.machine).1).0 ≡ n ∷ ns
      → Clears (n ∷ ns) (apply W proxy os).1.machine
      → let os1 = (apply W proxy os).1 in
        ((apply W proxy os).0 ≡ ok tt)
        × ((b : Text)
            → L.dns os1.machine b
              ≡ (if elem b (n ∷ ns) then static (display_ip proxy) else L.dns os.machine b))
        × ((b : Text)
            → L.dns (restore W os1).1.machine b
              ≡ (if elem b (n ∷ ns) then none else L.dns os.machine b))
  windows_restore-apply proxy os ifaces n ns listed set' works =
      let m1 = (connected_interfaces W os.machine).1 in
      let (os1, e, active, given) = applied_natives proxy os ifaces n ns listed set' in
      (
        ap (λ (t : Result Error Unit × Windows W). t.0) e,
        (λ b. ap (λ (t : Result Error Unit × Windows W). L.dns t.1.machine b) e ∙ given b),
        λ b.
            ap (λ (t : Result Error Unit × Windows W). L.dns (restore W t.1).1.machine b) e
            ∙ restored_natives os1 (n ∷ ns) active
                (subst (λ (t : Result Error Unit × Windows W). Clears (n ∷ ns) t.1.machine) e works)
                b
            ∙ rw (given b) (ground arith),
      )
