-- ===== src/Proxy/Forwarder/Questions.antt =====
-- What the resolver is asked, over a run of requests that the server hands to the forwarder.
use voindns_desktop.Base.{
  ◌≡◌, refl, sym, ◌∙◌, ap, Option, none, Bool, true, false, List, [], ◌∷◌, ◌++◌, append_assoc,
  append-nil, map, Result, Result-cases, inl, inr, ok, err,
}
use voindns_desktop.Proxy.Forwarder.{
  Hickory, LookupControlFlow, continue, break, VerifiedForwarder, Flow, answered, lookup, search,
}

-- Documented behaviour: `asked` has the questions that went to the resolver, and `is_fqdn` is the flag
-- of a name.
pub record ResolverLaws (H : Hickory) : Type 0 where
  pub asked : H.Net → List (H.Name × H.RecordType)
  pub is_fqdn : H.Name → Bool
  pub asked-resolve :
      (r : H.Resolver) (name : H.Name) (rtype : H.RecordType) (net : H.Net)
      → asked (H.resolve r name rtype net).1 ≡ asked net ++ (name, rtype) ∷ []
  pub is_fqdn-set_fqdn : (b : Bool) (name : H.Name) → is_fqdn (H.set_fqdn b name) ≡ b

-- The requests are searched one after the other.
abbrev pub search_all :
    (H : Hickory)
    → VerifiedForwarder H
    → List (H.Request × H.LookupOptions)
    → H.Net
    → List (Flow H × Option H.TsigContext) × H.Net
search_all H f [] net = ([], net)
search_all H f ((request, opts) ∷ rest) net =
    let (reply, net1) = search H f request opts net in
    let (replies, net2) = search_all H f rest net1 in (reply ∷ replies, net2)

abbrev pub is_break : {E A : Type 0} → LookupControlFlow E A → Bool
is_break (continue r) = false
is_break (break r) = true

abbrev pub is_malformed : {E A : Type 0} → Result E A → Bool
is_malformed (ok info) = false
is_malformed (err e) = true

module _ (H : Hickory) where
  -- what a request asks
  abbrev pub question : Result H.LookupError H.RequestInfo → List (H.Name × H.RecordType)
  question (ok info) = (H.set_fqdn false (H.into_name (H.query_name info)), H.query_type info) ∷ []
  question (err e) = []

  abbrev pub questions : List (H.Request × H.LookupOptions) → List (H.Name × H.RecordType)
  questions [] = []
  questions ((request, opts) ∷ rest) = question (H.request_info request) ++ questions rest

  -- whether the reply is final, and its signature
  abbrev pub kind_of_reply : Flow H × Option H.TsigContext → Bool × Option H.TsigContext
  kind_of_reply (flow, signature) = (is_break flow, signature)

  abbrev pub kind_of_request : H.Request × H.LookupOptions → Bool × Option H.TsigContext
  kind_of_request (request, opts) = (is_malformed (H.request_info request), none)

  module _ (L : ResolverLaws H) (f : VerifiedForwarder H) where
    answered-is_break : (got : Result H.NetError H.Lookup) → is_break (answered H got) ≡ false
    answered-is_break (ok found) = refl
    answered-is_break (err e) = refl

    search-question :
        (request : H.Request) (opts : H.LookupOptions) (net : H.Net)
        → (L.asked (search H f request opts net).1
            ≡ L.asked net ++ question (H.request_info request))
          × (is_break (search H f request opts net).0.0 ≡ is_malformed (H.request_info request))
          × ((search H f request opts net).0.1 ≡ none)
    unfolding search lookup
    search-question request opts net = elim (Result-cases (H.request_info request)) [
      | inl (info, e) ↦
          let name = H.set_fqdn false (H.into_name (H.query_name info)) in
          rw (e, search, lookup)
            (
              L.asked-resolve f.resolver name (H.query_type info) net,
              answered-is_break (H.resolve f.resolver name (H.query_type info) net).0,
              refl,
            )
      | inr (x, e) ↦ rw (e, search) (sym (append-nil (L.asked net)), refl, refl)
    ]

    question-plain :
        (info : Result H.LookupError H.RequestInfo) (rest : List (H.Name × H.RecordType))
        → map (λ (q : H.Name × H.RecordType). L.is_fqdn q.0) rest
          ≡ map (λ (q : H.Name × H.RecordType). false) rest
        → map (λ (q : H.Name × H.RecordType). L.is_fqdn q.0) (question info ++ rest)
          ≡ map (λ (q : H.Name × H.RecordType). false) (question info ++ rest)
    question-plain (ok info) rest h =
        rw (L.is_fqdn-set_fqdn false (H.into_name (H.query_name info)), h) refl
    question-plain (err e) rest h = h

    -- Over any run of requests, the forwarder asks the resolver once for each well-formed request,
    -- in order, for its question's name with the FQDN flag cleared and its type, and for nothing
    -- else; a reply is final exactly when its request is malformed, and none has a TSIG context.
    pub search_all-questions :
        (requests : List (H.Request × H.LookupOptions)) (net : H.Net)
        → (L.asked (search_all H f requests net).1 ≡ L.asked net ++ questions requests)
          × (map kind_of_reply (search_all H f requests net).0 ≡ map kind_of_request requests)
          × (map (λ (q : H.Name × H.RecordType). L.is_fqdn q.0) (questions requests)
              ≡ map (λ (q : H.Name × H.RecordType). false) (questions requests))
    search_all-questions [] net = (sym (append-nil (L.asked net)), refl, refl)
    search_all-questions ((request, opts) ∷ rest) net =
        let (put, kind, unsigned) = search-question request opts net in
        let (puts, kinds, plain) = search_all-questions rest (search H f request opts net).1 in
        (
          puts
              ∙ ap (λ l. l ++ questions rest) put
              ∙ append_assoc (L.asked net) (question (H.request_info request)) (questions rest),
          rw (kind, unsigned, kinds) refl,
          question-plain (H.request_info request) (questions rest) plain,
        )
