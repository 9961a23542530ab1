-- ===== src/Redirect/Linux/Kept.antt =====
-- `LinuxRedirector` on a machine that systemd-resolved manages fills the contract that the
-- controller relies on, for each link.
use voindns_desktop.Base.{
  ℕ, ◌≡◌, refl, sym, ◌∙◌, ap, inl, inr, Bool-cases, Bool, true, false, ◌==◌, Result, ok, err, Error,
  arith,
}
use voindns_desktop.Std.Net.{IpAddr}
use voindns_desktop.Redirect.Contract.{Contract}
use voindns_desktop.Redirect.Linux.{
  Bus, Linux, Active, idle, resolved, resolv_conf_file, set_link_dns, set_link_default_route,
  revert_link, flush_caches, manager_call, resolved_active, on_bus, on_disk, fall_back, apply,
  restore, restore_from, flush_cache, linux_redirector,
}
use voindns_desktop.Redirect.Linux.Links.{
  Link, meant, at_localhost, BusLaws, called, refused, manager_call-Called,
}
use voindns_desktop.Redirect.Linux.Resolved.{
  link, servers, Targets, redirected, untouched, half_done, apply_resolved-Attempt,
}
use voindns_desktop.Redirect.Linux.Reverted.{
  fall_back-bus, apply_without, apply_at_link, apply_at_file,
}

module _ (B : Bus) (L : BusLaws B) (i : ℕ) where
  abbrev pub asks_proxy : Linux B → Bool
  asks_proxy os = at_localhost (link B L os i).dns

  -- A link that asks the proxy is the one that the redirector reverts.
  abbrev pub IsRecorded : Linux B → Type 0
  IsRecorded os = asks_proxy os ≡ true → os.active ≡ resolved i

  pub unasked-IsRecorded : (os : Linux B) → asks_proxy os ≡ false → IsRecorded os
  unasked-IsRecorded os off on = absurd cc

  -- What is asked of the bus at one apply: that SetLinkDefaultRoute succeeds on the link of the default
  -- route if SetLinkDNS has.
  abbrev pub RoutesToo : IpAddr → Linux B → Type 0
  RoutesToo ip os =
      (n : ℕ)
      → Targets B L os n
      → (manager_call B (set_link_dns n (servers ip)) os.bus).0 ≡ ok tt
      → (manager_call B (set_link_default_route n true)
          (manager_call B (set_link_dns n (servers ip)) os.bus).1).0
        ≡ ok tt

  -- What an apply does to a redirector whose link does not ask the proxy.
  abbrev pub Kept : Linux B → Result Error (Unit {0}) × Linux B → Type 0
  Kept os r = IsRecorded r.1 × ((e : Error) → r.0 ≡ err e → asks_proxy r.1 ≡ false)

  fall_back-Kept :
      (ip : IpAddr) (os : Linux B) → asks_proxy os ≡ false → Kept os (fall_back B ip os)
  fall_back-Kept ip os off =
      let still =
        ap (λ (bus : B.State). at_localhost (L.links bus i).dns) (fall_back-bus B ip os) ∙ off in
      (unasked-IsRecorded (fall_back B ip os).1 still, λ e failed. still)

  pub apply-Kept :
      (ip : IpAddr) (os : Linux B)
      → asks_proxy os ≡ false
      → RoutesToo ip os
      → Kept os (apply B ip os)
  apply-Kept ip os off works = elim (Bool-cases (resolved_active B os)) [
    | inr f ↦ rw (apply_without B ip os f) (fall_back-Kept ip os off)
    | inl t ↦ elim (apply_resolved-Attempt B L ip os) [
      | redirected n bus at e set ↦ rw (apply_at_link B ip os n bus t e) (
        λ on. elim (Bool-cases (i == n)) [
          | inl same ↦ ap resolved (ground arith)
          | inr other ↦
              let same : L.links bus i ≡ link B L os i = set i ∙ rw other refl in
              absurd (cc (ap (λ (l : Link). at_localhost l.dns) same ∙ off, on))
        ],
        λ x failed. absurd cc,
      )
      | untouched e bus failed same ↦ rw (apply_at_file B ip os e bus t failed) (
          fall_back-Kept ip (record os { bus = bus }) (ap (λ l. at_localhost l.dns) (same i) ∙ off))
      | half_done n e bus at failed set refusal same ↦ absurd (cc (refusal, works n at set))
    ]
  ]

  abbrev given : ℕ → Active B
  given n = resolved n

  -- one that is not recorded does not ask
  unrecorded :
      (a : Active B) (b : Bool) → (b ≡ true → a ≡ resolved i) → ¬ (a ≡ resolved i) → b ≡ false
  unrecorded a true known other = absurd (other (known refl))
  unrecorded a false known other = refl

  reverted_off :
      (n : ℕ) (s : B.State)
      → (at_localhost (L.links s i).dns ≡ true → given n ≡ given i)
      → at_localhost (meant (revert_link n) (L.links s) i).dns ≡ false
  reverted_off n s known = elim (Bool-cases (i == n)) [
    | inl same ↦ rw same refl
    | inr other ↦ rw other (
        unrecorded (given n) (at_localhost (L.links s i).dns) known
          (λ e. let same : n ≡ i = cc in ground arith))
  ]

  restored_from :
      (a : Active B) (os : Linux B)
      → (asks_proxy os ≡ true → a ≡ resolved i)
      → (restore_from B a os).0 ≡ ok tt
      → asks_proxy (restore_from B a os).1 ≡ false
  unfolding restore_from on_bus on_disk
  restored_from idle os known done = unrecorded idle (asks_proxy os) known (λ e. cc)
  restored_from resolv_conf_file os known done =
      unrecorded resolv_conf_file (asks_proxy os) known (λ e. cc)
  restored_from (resolved n) os known done = elim (manager_call-Called B L (revert_link n) os.bus) [
    | refused e failed _ ↦ absurd (let h = rw failed at done in cc)
    | called _ links ↦ ap (λ (l : Link). at_localhost l.dns) (links i) ∙ reverted_off n os.bus known
  ]

  -- A restore that reports success has taken the link off the proxy.
  pub restored_off :
      (os : Linux B)
      → IsRecorded os
      → (restore B os).0 ≡ ok tt
      → asks_proxy (restore B os).1 ≡ false
  unfolding restore
  restored_off os known done = restored_from os.active (record os { active = idle }) known done

  pub flushed : (os : Linux B) → asks_proxy (flush_cache B os).1 ≡ asks_proxy os
  unfolding flush_cache on_bus
  flushed os = elim (Bool-cases (resolved_active B os)) [
    | inr off ↦ rw off refl
    | inl on ↦ elim (manager_call-Called B L flush_caches os.bus) [
      | called _ links ↦ rw on (ap (λ (l : Link). at_localhost l.dns) (links i))
      | refused _ _ same ↦ rw on (ap (λ (l : Link). at_localhost l.dns) (same i))
    ]
  ]

  pub flush_cache-active : (os : Linux B) → (flush_cache B os).1.active ≡ os.active
  unfolding flush_cache on_bus
  flush_cache-active os = elim (Bool-cases (resolved_active B os)) [
    | inr off ↦ rw off refl
    | inl on ↦ rw on refl
  ]

  abbrev pub resolved-Contract : Contract (linux_redirector B)
  resolved-Contract = record {
    routed = asks_proxy;
    IsSound = IsRecorded;
    Applies = RoutesToo;
    Restores = λ os. Unit;
    apply-IsSound = λ ip os s off works. (apply-Kept ip os off works).0;
    restore-IsSound =
        λ os s works done. unasked-IsRecorded (restore B os).1 (restored_off os s done);
    flush_cache-IsSound = λ os s on. flush_cache-active os ∙ s (sym (flushed os) ∙ on);
    routed-apply_err =
        λ ip os e s off works failed. (apply-Kept ip os off works).1 e failed ∙ sym off;
    routed-restore = λ os s works done. restored_off os s done;
    routed-flush_cache = λ os s. flushed os;
  }
