-- ===== src/Redirect/Linux/Resolved.antt =====
-- `LinuxRedirector` on a machine that systemd-resolved manages: `apply_resolved`, and the restore.
use voindns_desktop.Base.{
  ℕ, ◌≡◌, refl, ◌∙◌, inl, inr, Option-cases, some, true, ◌==◌, List, [], ◌∷◌, ◌++◌, anyhow, codes,
  Result, Result-cases, Bool-cases, ok, err, Error, Text, if◌then◌else◌,
}
use voindns_desktop.Std.Net.{IpAddr, octets}
use voindns_desktop.Redirect.Linux.{
  Bus, Linux, address_family, set_link_dns, set_link_default_route, manager_call,
  default_route_iface, on_bus, apply_resolved,
}
use voindns_desktop.Redirect.Linux.Links.{Link, BusLaws, called, refused, manager_call-Called}

-- `set_link_dns`'s argument
abbrev pub servers : IpAddr → List (ℕ × List ℕ)
servers proxy = (address_family proxy, octets proxy) ∷ []

module _ (B : Bus) (L : BusLaws B) where
  abbrev pub link : Linux B → ℕ → Link
  link os = L.links os.bus

  -- The index of the interface that owns the default route.
  abbrev pub Targets : Linux B → ℕ → Type 0
  Targets os n =
      (iface : Text) × (default_route_iface B os.disk ≡ some iface)
      × (B.if_nametoindex iface ≡ ok n)

  -- How `apply_resolved` ends. The redirector's own field and the disk are as they were.
  pub data Attempt (proxy : IpAddr) (os : Linux B) (r : Result Error ℕ × Linux B) : Type 0 where
    redirected :
        (n : ℕ) (bus : B.State)
        → Targets os n
        → r ≡ (ok n, record os { bus = bus })
        → ((j : ℕ)
            → L.links bus j ≡ (
                if j == n
                then record { dns = servers proxy; default_route = some true }
                else link os j))
        → Attempt proxy os r
    -- nothing was changed
    untouched :
        (e : Error) (bus : B.State)
        → r ≡ (err e, record os { bus = bus })
        → ((j : ℕ) → L.links bus j ≡ link os j)
        → Attempt proxy os r
    -- the servers are set, and the default route is refused
    half_done :
        (n : ℕ) (e : Error) (bus : B.State)
        → Targets os n
        → r ≡ (err e, record os { bus = bus })
        → (manager_call B (set_link_dns n (servers proxy)) os.bus).0 ≡ ok tt
        → (manager_call B
            (set_link_default_route n true)
            (manager_call B (set_link_dns n (servers proxy)) os.bus).1).0
          ≡ err e
        → ((j : ℕ)
            → L.links bus j
              ≡ (if j == n then record (link os j) { dns = servers proxy } else link os j))
        → Attempt proxy os r

  -- The two calls on a link, one behind the other.
  pub both_calls :
      (proxy : IpAddr) (os : Linux B) (n j : ℕ) (l : Link)
      → l ≡ (if j == n then record (link os j) { dns = servers proxy } else link os j)
      → (if j == n then record l { default_route = some true } else l)
        ≡ (if j == n then record { dns = servers proxy; default_route = some true } else link os j)
  both_calls proxy os n j l e = elim (Bool-cases (j == n)) [
    | inl t ↦ rw (e, t) refl
    | inr f ↦ rw (e, f) refl
  ]

  apply_at :
      (proxy : IpAddr) (os : Linux B) (n : ℕ)
      → Targets os n
      → Attempt proxy os (apply_resolved B proxy os)
  unfolding apply_resolved on_bus
  apply_at proxy os n (iface, found, index) =
      let s1 = (manager_call B (set_link_dns n (servers proxy)) os.bus).1 in
      elim (manager_call-Called B L (set_link_dns n (servers proxy)) os.bus) [
        | refused e failed same ↦ untouched e s1 (rw (found, index, failed) refl) same
        | called done set ↦
            let s2 = (manager_call B (set_link_default_route n true) s1).1 in
            elim (manager_call-Called B L (set_link_default_route n true) s1) [
              | refused e failed same ↦
                  half_done n e s2 (iface, found, index) (rw (found, index, done, failed) refl) done
                    failed (λ j. same j ∙ set j)
              | called done' routed ↦
                  redirected n s2 (iface, found, index) (rw (found, index, done, done') refl)
                    (λ j. routed j ∙ both_calls proxy os n j (L.links s1 j) (set j))
            ]
      ]

  pub apply_resolved-Attempt :
      (proxy : IpAddr) (os : Linux B) → Attempt proxy os (apply_resolved B proxy os)
  unfolding apply_resolved
  apply_resolved-Attempt proxy os = elim (Option-cases (default_route_iface B os.disk)) [
    | inl no_route ↦
        untouched (anyhow (codes "could not determine default-route interface")) os.bus
          (rw no_route refl) (λ j. refl)
    | inr (iface, found) ↦ elim (Result-cases (B.if_nametoindex iface)) [
      | inl (n, index) ↦ apply_at proxy os n (iface, found, index)
      | inr (e, unknown) ↦
          untouched ((codes "if_nametoindex(" ++ (iface ++ codes ")")) ∷ anyhow e) os.bus
            (rw (found, unknown) refl) (λ j. refl)
    ]
  ]
