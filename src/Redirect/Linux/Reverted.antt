-- ===== src/Redirect/Linux/Reverted.antt =====
-- Disconnecting after connecting, on a machine that systemd-resolved manages.
pub mod Fixtures
mod Examples
use mathlib.Core.Path.{subst}
use voindns_desktop.Base.{
  ℕ, ◌≡◌, refl, sym, inl, inr, Bool-cases, Result-cases, ◌∙◌, ap, some, true, false, ◌==◌, Result,
  ok, err, Error, if◌then◌else◌, arith,
}
use voindns_desktop.Std.Net.{IpAddr}
use voindns_desktop.Std.Fs.{Disk}
use voindns_desktop.Redirect.Linux.{
  Bus, Linux, idle, resolved, resolv_conf_file, set_link_dns, set_link_default_route, revert_link,
  manager_call, resolved_active, on_bus, on_disk, apply_resolved, fall_back, apply, restore,
  restore_from, resolvconf_apply,
}
use voindns_desktop.Redirect.Linux.Idempotent.{restore_file-bus}
use voindns_desktop.Redirect.Linux.Links.{
  Link, reverted, BusLaws, called, refused, links_ok, links_err,
}
use voindns_desktop.Redirect.Linux.Resolved.{
  both_calls, servers, link, Targets, redirected, untouched, half_done, apply_resolved-Attempt,
}

module _ (B : Bus) where
  pub apply_at_link :
      (proxy : IpAddr) (os : Linux B) (n : ℕ) (bus : B.State)
      → resolved_active B os ≡ true
      → apply_resolved B proxy os ≡ (ok n, record os { bus = bus })
      → apply B proxy os ≡ (ok tt, record os { active = resolved n; bus = bus })
  unfolding apply
  apply_at_link proxy os n bus on e = rw (on, e) refl

  pub apply_without :
      (proxy : IpAddr) (os : Linux B)
      → resolved_active B os ≡ false
      → apply B proxy os ≡ fall_back B proxy os
  unfolding apply
  apply_without proxy os off = rw off refl

  pub apply_at_file :
      (proxy : IpAddr) (os : Linux B) (e : Error) (bus : B.State)
      → resolved_active B os ≡ true
      → apply_resolved B proxy os ≡ (err e, record os { bus = bus })
      → apply B proxy os ≡ fall_back B proxy (record os { bus = bus })
  unfolding apply
  apply_at_file proxy os e bus on failed = rw (on, failed) refl

  pub fall_back-bus : (proxy : IpAddr) (os : Linux B) → (fall_back B proxy os).1.bus ≡ os.bus
  unfolding fall_back on_disk
  fall_back-bus proxy os = elim (Result-cases (resolvconf_apply proxy os.disk).0) [
    | inl (_, done) ↦ rw done refl
    | inr (e, failed) ↦ rw failed refl
  ]

  file_applied :
      (proxy : IpAddr) (os : Linux B)
      → (resolvconf_apply proxy os.disk).0 ≡ ok tt
      → ((fall_back B proxy os).0 ≡ ok tt) × ((fall_back B proxy os).1.active ≡ resolv_conf_file)
  unfolding fall_back on_disk
  file_applied proxy os done = rw done (refl, refl)

  pub restore_at_link :
      (os : Linux B) (n : ℕ)
      → os.active ≡ resolved n
      → (manager_call B (revert_link n) os.bus).0 ≡ ok tt
      → restore B os
        ≡ (ok tt, record os { active = idle; bus = (manager_call B (revert_link n) os.bus).1 })
  unfolding restore restore_from on_bus
  restore_at_link os n at back = rw (at, back) refl

module _ (B : Bus) (L : BusLaws B) (proxy : IpAddr) (os : Linux B) where
  -- What an apply and a restore leave.
  abbrev pub RoundTrip : ℕ → Result Error (Unit {0}) × Linux B → Type 0
  RoundTrip n r =
      (r.0 ≡ ok tt)
      × ((j : ℕ)
          → link B L r.1 j ≡ (
              if j == n
              then record { dns = servers proxy; default_route = some true }
              else link B L os j))
      × ((restore B r.1).0 ≡ ok tt)
      × ((j : ℕ) → link B L (restore B r.1).1 j ≡ (if j == n then reverted else link B L os j))
      × ((restore B r.1).1.disk ≡ os.disk)

  off_link :
      (n j : ℕ) (l : Link)
      → l ≡ (
          if j == n
          then record { dns = servers proxy; default_route = some true }
          else link B L os j)
      → (if j == n then reverted else l) ≡ (if j == n then reverted else link B L os j)
  off_link n j l e = elim (Bool-cases (j == n)) [ inl t ↦ rw t refl | inr f ↦ rw (e, f) refl ]

  round_trip :
      (n : ℕ) (bus : B.State)
      → ((j : ℕ)
          → L.links bus j ≡ (
              if j == n
              then record { dns = servers proxy; default_route = some true }
              else link B L os j))
      → (manager_call B (revert_link n) bus).0 ≡ ok tt
      → RoundTrip n (ok tt, record os { active = resolved n; bus = bus })
  round_trip n bus set back =
      let e = restore_at_link B (record os { active = resolved n; bus = bus }) n refl back in
      (
        refl,
        set,
        ap (λ t. t.0) e,
        λ j.
            ap (λ (t : Result Error Unit × Linux B). L.links t.1.bus j) e
            ∙ links_ok B L (revert_link n) bus j back
            ∙ off_link n j (L.links bus j) (set j),
        ap (λ (t : Result Error Unit × Linux B). t.1.disk) e,
      )

  -- The bus behind the two calls of `apply_resolved`.
  abbrev pub served : ℕ → B.State
  served n = (manager_call B (set_link_dns n (servers proxy)) os.bus).1

  abbrev pub routed : ℕ → B.State
  routed n = (manager_call B (set_link_default_route n true) (served n)).1

  redirected_at :
      (n : ℕ)
      → Targets B L os n
      → (manager_call B (set_link_dns n (servers proxy)) os.bus).0 ≡ ok tt
      → (manager_call B (set_link_default_route n true) (served n)).0 ≡ ok tt
      → apply_resolved B proxy os ≡ (ok n, record os { bus = routed n })
  unfolding apply_resolved on_bus
  redirected_at n (iface, found, index) set route = rw (found, index, set, route) refl

  -- Over a bus as documented, on a machine with systemd-resolved, where the default route is the
  -- interface of index n: when SetLinkDNS and SetLinkDefaultRoute succeed, and RevertLink later,
  -- apply succeeds, link n has the proxy as its only DNS server and is the default route of DNS,
  -- and the other links are as before; the restore succeeds, link n has no settings of its own, the
  -- others are as before, and so is the disk.
  pub resolved_restore-apply :
      (n : ℕ)
      → resolved_active B os ≡ true
      → Targets B L os n
      → (manager_call B (set_link_dns n (servers proxy)) os.bus).0 ≡ ok tt
      → (manager_call B (set_link_default_route n true) (served n)).0 ≡ ok tt
      → (manager_call B (revert_link n) (apply B proxy os).1.bus).0 ≡ ok tt
      → RoundTrip n (apply B proxy os)
  resolved_restore-apply n on at set route back =
      let e = apply_at_link B proxy os n (routed n) on (redirected_at n at set route) in
      rw e (
        round_trip n (routed n)
          (λ j.
            links_ok B L (set_link_default_route n true) (served n) j route
            ∙ both_calls B L proxy os n j (L.links (served n) j)
                (links_ok B L (set_link_dns n (servers proxy)) os.bus j set))
          (rw e at back))

  half_at :
      (n : ℕ) (e : Error)
      → Targets B L os n
      → (manager_call B (set_link_dns n (servers proxy)) os.bus).0 ≡ ok tt
      → (manager_call B (set_link_default_route n true) (served n)).0 ≡ err e
      → apply_resolved B proxy os ≡ (err e, record os { bus = routed n })
  unfolding apply_resolved on_bus
  half_at n e (iface, found, index) set refusal = rw (found, index, set, refusal) refl

  half_set :
      (n : ℕ) (e : Error)
      → (manager_call B (set_link_dns n (servers proxy)) os.bus).0 ≡ ok tt
      → (manager_call B (set_link_default_route n true) (served n)).0 ≡ err e
      → (L.links (routed n) n).dns ≡ servers proxy
  half_set n e set refusal =
      ap (λ (l : Link). l.dns)
        (links_err B L (set_link_default_route n true) (served n) n e refusal
          ∙ links_ok B L (set_link_dns n (servers proxy)) os.bus n set)
      ∙ ground arith

  -- When SetLinkDNS succeeds on the interface of the default route, SetLinkDefaultRoute does not,
  -- and resolv.conf can be rewritten: apply succeeds, and the link asks the proxy from then on,
  -- after a restore too, whatever the restore answers.
  pub half_done_stays :
      (n : ℕ) (e : Error)
      → resolved_active B os ≡ true
      → Targets B L os n
      → (manager_call B (set_link_dns n (servers proxy)) os.bus).0 ≡ ok tt
      → (manager_call B (set_link_default_route n true) (served n)).0 ≡ err e
      → (resolvconf_apply proxy os.disk).0 ≡ ok tt
      → ((apply B proxy os).0 ≡ ok tt)
        × ((link B L (apply B proxy os).1 n).dns ≡ servers proxy)
        × ((link B L (restore B (apply B proxy os).1).1 n).dns ≡ servers proxy)
  half_done_stays n e on at set refusal file =
      let os2 : Linux B = record os { bus = routed n } in
      let fallen = apply_at_file B proxy os e (routed n) on (half_at n e at set refusal) in
      let (done, active) = file_applied B proxy os2 file in
      let asks =
        ap (λ (bus : B.State). (L.links bus n).dns) (fall_back-bus B proxy os2)
        ∙ half_set n e set refusal in
      rw fallen (
        done,
        asks,
        ap (λ (bus : B.State). (L.links bus n).dns)
              (restore_file-bus B (fall_back B proxy os2).1 active)
            ∙ asks,
      )
