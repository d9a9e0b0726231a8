-- ===== src/Auth/Tests.antt =====
-- The authorizers at concrete inputs.
use goexpose.Common.{
  All, arith, Bool-cases, some, Error, [], String, err, false, if◌then◌else◌, inl, inr, map, new,
  none, ok, panic, refl, ℕ, ◌++◌, ◌==◌, ◌∷◌, ◌≡◌, ◌≢◌, ◌↔◌, ◌⊎◌,
}
use mathlib.Core.List.{Memᴰ}
use goexpose.Auth.Total.{NeverPanics, authorize-ne-panic}
use goexpose.Auth.{
  Authorizer, AuthorizerFactory, Authorizers, authorize, check_endpoints, check_methods,
  check_names, find_factory, get_authorizers, make_authorizers, method_authorizers,
}
use goexpose.Auth.Basic.{BasicConfig, Carries, check_basic, check_basic_iff, get_basic_auth}
use goexpose.Auth.Basic.Encoded.{get_basic_auth-header_of}
use goexpose.Auth.Chain.{Passed, authorize_iff}
use goexpose.Auth.Ldap.{Directory, LdapConfig, default_config, validate}
use goexpose.Auth.Ldap
use goexpose.Auth.Ldap.Access.{IsAdmitted, ldap_authorize_iff}
use goexpose.Auth.Lookup.{AreKnown, get_authorizers-AreKnown}
use goexpose.Auth.Made.{Distinct, lookup-get_authorizers, made_of}
use goexpose.Auth.Remote
use goexpose.Auth.Remote.{HttpConfig, IsGranted, http_authorize_iff}
use goexpose.Config.{Config, EndpointConfig, TaskConfig, new_config, validate_authorizer}
use goexpose.Dict.{Dict, insert, lookup}
use goexpose.Http.{Net}
use goexpose.Registry.{authorizer_exists}
use goexpose.Request.{Request}
use goexpose.Utils.{Interpolate}
use goexpose.Value.{ℤ}

abbrev request : Request
request = record {
  method = "GET";
  path = "/info";
  header = λ name. if name == "Authorization" then "Basic bWU6cHc=" else "";
  query = λ name. "";
  vars = [];
  body = none;
}

-- The one payload that is known.
abbrev decode : String → Error ⊎ String
decode payload = if payload == "bWU6cHc=" then inr "me:pw" else inl (new "illegal base64")

abbrev decimal : ℕ → String
decimal n = "0"

abbrev reg : Dict (AuthorizerFactory (Unit {0}))
reg = ("basic", λ ac. ok (λ r w. (ok tt, w))) ∷ []

abbrev task : TaskConfig
task = record {
  type = "info";
  authorizers = "door" ∷ [];
  config = "";
  query_params = none;
  description = "";
}

abbrev endpoint : EndpointConfig
endpoint = record {
  authorizers = [];
  path = "/info";
  methods = ("GET", task) ∷ [];
  type = "";
  query_params = none;
  raw_response = false;
}

abbrev config : Config
config = record new_config {
  authorizers = ("door", record { type = "basic"; config = "" }) ∷ [];
  endpoints = endpoint ∷ [];
}

abbrev authorizers : Authorizers (Unit {0})
authorizers = ("door", λ r w. (ok tt, w)) ∷ []

gets : get_authorizers decimal reg config ≡ ok authorizers
unfolding get_authorizers make_authorizers validate_authorizer find_factory check_endpoints
    check_methods check_names lookup insert authorizer_exists
gets = refl

get_authorizers-AreKnown_example :
    AreKnown authorizers (map (λ x. x.0) config.authorizers)
    × All (λ ec. All (λ m. AreKnown authorizers m.1.authorizers) ec.methods) config.endpoints
get_authorizers-AreKnown_example = get_authorizers-AreKnown decimal reg config authorizers gets

distinct : Distinct config.authorizers
unfolding lookup
distinct = (refl, tt)

lookup-get_authorizers_example :
    lookup "door" authorizers ≡ made_of reg (lookup "door" config.authorizers)
lookup-get_authorizers_example =
    lookup-get_authorizers decimal reg config authorizers "door" distinct gets

calm : (m : String) (z : Authorizer (Unit {0})) → lookup m authorizers ≡ some z → NeverPanics z
unfolding lookup
calm m z h r w text = elim (Bool-cases ("door" == m)) [
  | inl e ↦ let same : (λ r' w'. (ok tt, w')) ≡ z = cc (rw e at h) in rw (← same) (λ k. cc)
  | inr e ↦ cc (rw e at h)
]

authorize-ne-panic_example : (authorize authorizers request endpoint tt).0 ≢ panic "nil"
authorize-ne-panic_example =
    authorize-ne-panic decimal reg config authorizers endpoint request tt "nil" gets
      (Memᴰ.head refl) tt calm

authorize_iff_example :
    (authorize authorizers request endpoint tt ≡ (ok tt, tt))
    ↔ Passed authorizers request
        (endpoint.authorizers ++ method_authorizers (lookup request.method endpoint.methods))
        tt
        tt
authorize_iff_example = authorize_iff authorizers request endpoint tt tt

abbrev me : BasicConfig
me = record { username = "me"; password = "pw" }

check_basic_iff_example :
    ((check_basic decode me request ≡ ok tt)
      ↔ Carries decode (request.header "Authorization") me.username me.password)
    × ((check_basic decode me request ≡ ok tt)
        ⊎ ((e : Error) × (check_basic decode me request ≡ err e)))
check_basic_iff_example = check_basic_iff decode me request

-- A directory that accepts everyone.
abbrev directory : Directory (Unit {0}) (Unit {0})
directory = record {
  dial = λ host w. (inr tt, w);
  dial_tls = λ host w. (inr tt, w);
  bind = λ conn user password w. (inr tt, w);
}

abbrev port_text : ℤ → String
port_text n = "389"

ldap_authorize_iff_example :
    (Ldap.authorize decode port_text directory default_config request tt ≡ (ok tt, tt))
    ↔ IsAdmitted decode port_text directory default_config request tt tt
ldap_authorize_iff_example =
    ldap_authorize_iff decode port_text directory default_config request tt tt

validates : validate default_config ≡ ok tt
unfolding validate
validates = refl

abbrev plain : Interpolate
plain template vars = inr template

-- A service that accepts everyone.
abbrev net : Net (Unit {0}) String
net = record {
  new_request = λ method url body. inr url;
  send = λ client sent w. (inr (200, "yes"), w);
}

abbrev service : HttpConfig
service = record { url = "http://localhost/auth"; body = ""; method = "GET" }

http_authorize_iff_example :
    ((Remote.authorize plain net service request tt ≡ (ok tt, tt))
      ↔ IsGranted plain net service tt tt)
    × (Remote.authorize plain net service request tt
        ≡ Remote.authorize plain net service (record request { method = "PUT" }) tt)
http_authorize_iff_example =
    http_authorize_iff plain net service request (record request { method = "PUT" }) tt tt

abbrev unencoded : Request
unencoded = record request { header = λ name. "Basic me:pw" }

get_basic_auth-header_of_example :
    (get_basic_auth (λ payload. inr payload) unencoded ≡ ok ("me", "pw"))
    × ((check_basic (λ payload. inr payload) (record { username = "me"; password = "pw" }) unencoded
          ≡ ok tt)
        ↔ ((◌≡◌ {A = String} "me" "me") × (◌≡◌ {A = String} "pw" "pw")))
get_basic_auth-header_of_example =
    get_basic_auth-header_of (λ text. text) (λ payload. inr payload)
      (record { username = "me"; password = "pw" }) unencoded "me" "pw" (λ text. refl) (omega arith)
      refl
