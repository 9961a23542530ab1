-- ===== src/Proxy/Upstreams.antt =====
-- Which upstreams have name servers.
use voindns_desktop.Base.{
  ℕ, ◌≡◌, refl, Bool, true, false, Option, none, some, Text, codes, is_ok, Option-cases, inl, inr,
}
use voindns_desktop.Std.IpParse.{parse_ip}
use voindns_desktop.Proto.{UpstreamSel, voidns, cloudflare, google, quad9, custom}
use voindns_desktop.Proxy.{NameServers, upstream_name_servers}

abbrev pub is_some : {A : Type 0} → Option A → Bool
is_some none = false
is_some (some a) = true

abbrev pub has_address : UpstreamSel → Bool
has_address (custom ip hostname path port) = is_some (parse_ip ip)
has_address voidns = true
has_address cloudflare = true
has_address google = true
has_address quad9 = true

module _ (N : NameServers) where
  custom-is_ok :
      (ip hostname path : Text) (port : ℕ)
      → is_ok (upstream_name_servers N (custom ip hostname path port)) ≡ is_some (parse_ip ip)
  unfolding upstream_name_servers
  custom-is_ok ip hostname path port = elim (Option-cases (parse_ip ip)) [
    | inl e ↦ rw e refl
    | inr (a, e) ↦ rw e refl
  ]

  -- Name servers are found for every upstream but a custom one whose bootstrap address is not an IP
  -- address; the address of the voidns endpoint is one.
  pub upstream_name_servers-is_ok :
      (u : UpstreamSel) → is_ok (upstream_name_servers N u) ≡ has_address u
  unfolding upstream_name_servers parse_ip codes
  upstream_name_servers-is_ok cloudflare = refl
  upstream_name_servers-is_ok google = refl
  upstream_name_servers-is_ok quad9 = refl
  upstream_name_servers-is_ok voidns = refl
  upstream_name_servers-is_ok (custom ip hostname path port) = custom-is_ok ip hostname path port
