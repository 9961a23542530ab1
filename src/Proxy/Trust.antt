-- ===== src/Proxy/Trust.antt =====
-- `build_client_config`: the built-in roots, and an optional extra CA bundle.
use mathlib.Core.Path.{subst}
use voindns_desktop.Base.{
  Option, none, some, List, [], ◌∷◌, ◌++◌, Result, ok, err, Error, anyhow, context, map_err, Text,
  codes, ◌>>=◌, ◌≡◌, refl, arith, ◌⊎◌, inl, inr, Result-cases,
}
use voindns_desktop.Std.Platform.{Platform, windows, unix}

-- rustls, rustls_pemfile and webpki_roots, and how a path is shown.
pub record Tls : Type 1 where
  pub Cert : Type 0
  pub RootStore : Type 0
  pub ClientConfig : Type 0
  -- `TLS_SERVER_ROOTS` in an empty store
  pub builtin_roots : RootStore
  pub certs : Text → List (Result Text Cert)
  pub add : Cert → RootStore → Result Text RootStore
  -- `{:?}` of a path
  pub debug_path : Text → Text
  pub with_root_certificates : RootStore → Result Text ClientConfig

-- `default_extra_ca_path`, with `ProgramData` of the environment
unfoldable pub default_extra_ca_path : Platform → Option Text → Text
default_extra_ca_path unix program_data = codes "/etc/voidns/extra-ca.pem"
default_extra_ca_path windows none = codes "C:\\ProgramData\\VoidNS\\extra-ca.pem"
default_extra_ca_path windows (some base) = base ++ codes "\\VoidNS\\extra-ca.pem"

-- `ca_path`
abbrev pub path_of : Option Text → Text → Text
path_of none default = default
path_of (some path) default = path

ok-inj : {A : Type 0} {a b : A} → ◌≡◌ {A = Result Error A} (ok a) (ok b) → a ≡ b
ok-inj h = cc

module _ (T : Tls) where
  -- the loop over the certificates of the bundle
  unfoldable pub add_certs : List (Result Text T.Cert) → T.RootStore → Result Error T.RootStore
  add_certs [] roots = ok roots
  add_certs (c ∷ cs) roots = do
    cert ← context (codes "parse extra CA PEM") (map_err anyhow c)
    roots' ← context (codes "add extra CA to root store") (map_err anyhow (T.add cert roots))
    add_certs cs roots'

  -- `found` is the bundle's text, or the error of reading it; `required` is the path of the bundle,
  -- if `VOIDNS_EXTRA_CA_FILE` names one.
  unfoldable pub extra_roots : Option Text → Result Text Text → Result Error T.RootStore
  unfolding add_certs
  extra_roots required (ok pem) = add_certs (T.certs pem) T.builtin_roots
  extra_roots (some path) (err e) =
      err (anyhow (codes "read VOIDNS_EXTRA_CA_FILE " ++ (T.debug_path path ++ (codes ": " ++ e))))
  extra_roots none (err e) = ok T.builtin_roots

  -- `env` is `VOIDNS_EXTRA_CA_FILE`, `fs_read` is `std::fs::read`.
  unfoldable pub build_client_config :
      Option Text → Text → (Text → Result Text Text) → Result Error T.ClientConfig
  unfolding extra_roots
  build_client_config env default fs_read = do
    roots ← extra_roots env (fs_read (path_of env default))
    context (codes "rustls protocol versions") (map_err anyhow (T.with_root_certificates roots))

  -- Adding a bundle to a store, certificate by certificate, in order: all parse and all are added.
  pub data Added : List (Result Text T.Cert) → T.RootStore → T.RootStore → Type 0 where
    nil : {roots : T.RootStore} → Added [] roots roots
    cons :
        {cs : List (Result Text T.Cert)} {roots roots1 roots2 : T.RootStore} (cert : T.Cert)
        → T.add cert roots ≡ ok roots1
        → Added cs roots1 roots2
        → Added (ok cert ∷ cs) roots roots2

  add_certs-Added :
      (cs : List (Result Text T.Cert)) (roots out : T.RootStore)
      → add_certs cs roots ≡ ok out
      → Added cs roots out
  unfolding add_certs
  add_certs-Added [] roots out h = subst (Added [] roots) (ok-inj h) nil
  add_certs-Added (err e ∷ cs) roots out h = cc
  add_certs-Added (ok cert ∷ cs) roots out h = elim (Result-cases (T.add cert roots)) [
    | inl (roots1, e) ↦ cons cert e (add_certs-Added cs roots1 out (rw (e, add_certs) at h))
    | inr (m, e) ↦ absurd (ground (arith, e, h))
  ]

  -- The roots that the proxy trusts are the built-in ones, or the built-in ones with every
  -- certificate of the bundle added; a bundle of which one certificate does not parse or is not
  -- accepted, or that was asked for and cannot be read, gives no roots at all.
  pub extra_roots-Added :
      (env : Option Text) (found : Result Text Text) (roots : T.RootStore)
      → extra_roots env found ≡ ok roots
      → ((pem : Text) × (found ≡ ok pem) × Added (T.certs pem) T.builtin_roots roots)
        ⊎ ((e : Text) × (found ≡ err e) × (env ≡ none) × (roots ≡ T.builtin_roots))
  unfolding extra_roots
  extra_roots-Added env (ok pem) roots h =
      inl (pem, refl, add_certs-Added (T.certs pem) T.builtin_roots roots h)
  extra_roots-Added (some path) (err e) roots h = cc
  extra_roots-Added none (err e) roots h = inr (e, refl, refl, ground (arith, h))
