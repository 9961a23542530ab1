-- ===== src/Proxy/Forwarder.antt =====
-- `VerifiedForwarder`: how the root zone handles a request.
pub mod Questions
mod Examples
use voindns_desktop.Base.{
  ◌≡◌, refl, sym, ◌∙◌, ap, Option, none, some, Bool, true, false, List, [], ◌∷◌, ◌++◌, append_assoc,
  append-nil, map, Result, Result-cases, inl, inr, ok, err, Text, codes, IoError, io_other,
}
use voindns_desktop.Base.Io.{Io}

-- What is used of hickory: names, requests, zones and a resolver over the network.
pub record Hickory : Type 1 where
  pub Net : Type 0
  pub Name : Type 0
  pub LowerName : Type 0
  pub RecordType : Type 0
  pub Lookup : Type 0
  pub AuthLookup : Type 0
  pub NetError : Type 0
  pub LookupError : Type 0
  pub Request : Type 0
  pub RequestInfo : Type 0
  pub LookupOptions : Type 0
  pub TsigContext : Type 0
  pub ZoneType : Type 0
  pub AxfrPolicy : Type 0
  pub Resolver : Type 0
  pub external : ZoneType
  pub deny : AxfrPolicy
  pub root : Name
  pub lower : Name → LowerName
  pub into_name : LowerName → Name
  pub set_fqdn : Bool → Name → Name
  pub resolve : Resolver → Name → RecordType → Io Net NetError Lookup
  pub from_lookup : Lookup → AuthLookup
  pub from_net_error : NetError → LookupError
  pub from_io_error : IoError → LookupError
  pub request_info : Request → Result LookupError RequestInfo
  pub query_name : RequestInfo → LowerName
  pub query_type : RequestInfo → RecordType

-- The `LookupControlFlow`s that the forwarder makes.
pub data LookupControlFlow (E : Type 0) (A : Type 0) : Type 0 where
  continue break : Result E A → LookupControlFlow E A

module _ (H : Hickory) where
  pub record VerifiedForwarder : Type 0 where
    pub origin : H.LowerName
    pub resolver : H.Resolver

  -- the forwarder that `build_forward_zone` makes of a resolver
  abbrev pub root_forwarder : H.Resolver → VerifiedForwarder
  root_forwarder resolver = record { origin = H.lower H.root; resolver = resolver }

  unfoldable pub zone_type : VerifiedForwarder → H.ZoneType
  zone_type f = H.external

  unfoldable pub axfr_policy : VerifiedForwarder → H.AxfrPolicy
  axfr_policy f = H.deny

  abbrev pub Flow : Type 0
  Flow = LookupControlFlow H.LookupError H.AuthLookup

  -- the answer of the resolver, handed on
  abbrev pub answered : Result H.NetError H.Lookup → Flow
  answered (ok found) = continue (ok (H.from_lookup found))
  answered (err e) = continue (err (H.from_net_error e))

  unfoldable pub lookup :
      VerifiedForwarder
      → H.LowerName
      → H.RecordType
      → Option H.RequestInfo
      → H.LookupOptions
      → H.Net
      → Flow × H.Net
  lookup f name rtype info opts net =
      let (got, net') = H.resolve f.resolver (H.set_fqdn false (H.into_name name)) rtype net in
      (answered got, net')

  unfoldable pub search :
      VerifiedForwarder
      → H.Request
      → H.LookupOptions
      → H.Net
      → (Flow × Option H.TsigContext) × H.Net
  unfolding lookup
  search f request opts net = elim (H.request_info request) [
    | err e ↦ ((break (err e), none), net)
    | ok info ↦
        let (flow, net') = lookup f (H.query_name info) (H.query_type info) (some info) opts net in
        ((flow, none), net')
  ]

  unfoldable pub nsec_records : VerifiedForwarder → H.LowerName → H.LookupOptions → Flow
  nsec_records f name opts =
      continue (
        err (H.from_io_error (io_other (codes "NSEC records are unimplemented for the forwarder"))))
