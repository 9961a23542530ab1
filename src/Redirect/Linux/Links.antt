-- ===== src/Redirect/Linux/Links.antt =====
-- systemd-resolved's links, and what the calls of `LinuxRedirector` on it leave of them.
use voindns_desktop.Base.{
  ℕ, ◌≡◌, refl, ◌∙◌, Option, none, some, Bool, false, ◌||◌, ◌==◌, List, [], ◌∷◌, Result,
  Result-cases, inl, inr, ok, err, Error, Text, text_eq, if◌then◌else◌,
}
use voindns_desktop.Std.Net.{localhost, octets}
use voindns_desktop.Redirect.Linux.{
  Bus, Method, set_link_dns, set_link_default_route, revert_link, flush_caches, manager_call,
}

-- The settings of one link: its DNS servers, by family and bytes, and whether it is the default
-- route of DNS.
pub record Link : Type 0 where
  pub dns : List (ℕ × List ℕ)
  pub default_route : Option Bool

abbrev pub reverted : Link
reverted = record { dns = []; default_route = none }

-- What the documentation of org.freedesktop.resolve1 says of a call that succeeds.
abbrev pub meant : Method → (ℕ → Link) → ℕ → Link
meant (set_link_dns i addrs) links j = if j == i then record (links j) { dns = addrs } else links j
meant (set_link_default_route i enable) links j =
    if j == i then record (links j) { default_route = some enable } else links j
meant (revert_link i) links j = if j == i then reverted else links j
meant flush_caches links j = links j

-- Only a call that succeeds changes a link.
pub record BusLaws (B : Bus) : Type 0 where
  pub links : B.State → ℕ → Link
  pub links-system : (j : ℕ) (s : B.State) → links (B.system s).1 j ≡ links s j
  pub links-new_proxy : (j : ℕ) (s : B.State) → links (B.new_proxy s).1 j ≡ links s j
  pub links-call_ok :
      (m : Method) (j : ℕ) (s : B.State)
      → (B.call m s).0 ≡ ok tt
      → links (B.call m s).1 j ≡ meant m (links s) j
  pub links-call_err :
      (m : Method) (j : ℕ) (s : B.State) (e : Text)
      → (B.call m s).0 ≡ err e
      → links (B.call m s).1 j ≡ links s j

-- The link asks the proxy.
abbrev pub at_localhost : List (ℕ × List ℕ) → Bool
at_localhost [] = false
at_localhost ((family, bytes) ∷ rest) = text_eq bytes (octets localhost) || at_localhost rest

meant_ext : (m : Method) (l l' : ℕ → Link) (j : ℕ) → l j ≡ l' j → meant m l j ≡ meant m l' j
meant_ext (set_link_dns i addrs) l l' j e = rw e refl
meant_ext (set_link_default_route i enable) l l' j e = rw e refl
meant_ext (revert_link i) l l' j e = rw e refl
meant_ext flush_caches l l' j e = e

module _ (B : Bus) (L : BusLaws B) where
  -- How a call ends.
  pub data Called (m : Method) (s : B.State) (r : Result Error (Unit {0}) × B.State) : Type 0 where
    called : r.0 ≡ ok tt → ((j : ℕ) → L.links r.1 j ≡ meant m (L.links s) j) → Called m s r
    refused : (e : Error) → r.0 ≡ err e → ((j : ℕ) → L.links r.1 j ≡ L.links s j) → Called m s r

  pub manager_call-Called : (m : Method) (s : B.State) → Called m s (manager_call B m s)
  unfolding manager_call
  manager_call-Called m s = elim (Result-cases (B.system s).0) [
    | inr (e, off) ↦ rw off (refused _ refl (λ j. L.links-system j s))
    | inl (_, on) ↦
        let s1 = (B.system s).1 in
        elim (Result-cases (B.new_proxy s1).0) [
          | inr (e, off') ↦
              rw (on, off') (refused _ refl (λ j. L.links-new_proxy j s1 ∙ L.links-system j s))
          | inl (_, on') ↦
              let s2 = (B.new_proxy s1).1 in
              let same = λ (j : ℕ). L.links-new_proxy j s1 ∙ L.links-system j s in
              elim (Result-cases (B.call m s2).0) [
                | inr (e, failed) ↦
                    rw (on, on', failed)
                      (refused _ refl (λ j. L.links-call_err m j s2 e failed ∙ same j))
                | inl (_, done) ↦
                    rw (on, on', done)
                      (called refl (λ j.
                        L.links-call_ok m j s2 done
                        ∙ meant_ext m (L.links s2) (L.links s) j (same j)))
              ]
        ]
  ]

  pub links_ok :
      (m : Method) (s : B.State) (j : ℕ)
      → (manager_call B m s).0 ≡ ok tt
      → L.links (manager_call B m s).1 j ≡ meant m (L.links s) j
  links_ok m s j done = elim (manager_call-Called m s) [
    | called _ links ↦ links j
    | refused e failed _ ↦ absurd (cc (failed, done))
  ]

  pub links_err :
      (m : Method) (s : B.State) (j : ℕ) (e : Error)
      → (manager_call B m s).0 ≡ err e
      → L.links (manager_call B m s).1 j ≡ L.links s j
  links_err m s j e failed = elim (manager_call-Called m s) [
    | called done _ ↦ absurd (cc (failed, done))
    | refused _ _ same ↦ same j
  ]
