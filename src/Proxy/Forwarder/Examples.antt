-- ===== src/Proxy/Forwarder/Examples.antt =====
-- The theorem on the forwarder at a run of two requests, of which the first is malformed.
use voindns_desktop.Base.{
  ℕ, ◌≡◌, refl, Option, none, some, Bool, true, false, List, [], ◌∷◌, ◌++◌, map, ok, Text, codes,
  ok_or,
}
use voindns_desktop.Proxy.Forwarder.{Hickory, root_forwarder}
use voindns_desktop.Proxy.Forwarder.Questions.{
  ResolverLaws, search_all, questions, kind_of_reply, kind_of_request, search_all-questions,
}

-- A name is its text and its flag; a request is its question, if it has one; the network keeps what
-- it was asked.
abbrev echo : Hickory
echo = record {
  Net = List ((Text × Bool) × ℕ);
  Name = Text × Bool;
  LowerName = Text × Bool;
  RecordType = ℕ;
  Lookup = Text;
  AuthLookup = Text;
  NetError = Text;
  LookupError = Text;
  Request = Option ((Text × Bool) × ℕ);
  RequestInfo = (Text × Bool) × ℕ;
  LookupOptions = Unit;
  TsigContext = Unit;
  ZoneType = Unit;
  AxfrPolicy = Unit;
  Resolver = Unit;
  external = tt;
  deny = tt;
  root = (codes ".", true);
  lower = λ n. n;
  into_name = λ n. n;
  set_fqdn = λ b n. (n.0, b);
  resolve = λ r n t net. (ok n.0, net ++ (n, t) ∷ []);
  from_lookup = λ found. found;
  from_net_error = λ e. e;
  from_io_error = λ e. e.message;
  request_info = λ request. ok_or (codes "bad request") request;
  query_name = λ info. info.0;
  query_type = λ info. info.1;
}

abbrev echo-Laws : ResolverLaws echo
echo-Laws = record {
  asked = λ net. net;
  is_fqdn = λ n. n.1;
  asked-resolve = λ r n t net. refl;
  is_fqdn-set_fqdn = λ b n. refl;
}

abbrev two_requests : List (echo.Request × echo.LookupOptions)
two_requests = (none, tt) ∷ (some ((codes "voidns.net.", true), 1), tt) ∷ []

search_all-questions_example :
    ((search_all echo (root_forwarder echo tt) two_requests []).1
      ≡ [] ++ questions echo two_requests)
    × (map (kind_of_reply echo) (search_all echo (root_forwarder echo tt) two_requests []).0
        ≡ map (kind_of_request echo) two_requests)
    × (map (λ (q : echo.Name × echo.RecordType). q.0.1) (questions echo two_requests)
        ≡ map (λ (q : echo.Name × echo.RecordType). false) (questions echo two_requests))
search_all-questions_example =
    search_all-questions echo echo-Laws (root_forwarder echo tt) two_requests []
