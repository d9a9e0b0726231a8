-- ===== src/Auth.antt =====
-- auth.go: the authorizers, their configuration, and the check of a request against those that an
-- endpoint and its method name. An authorizer is its `Authorize` method; `W` is the state of the
-- world that an LDAP or HTTP authorizer talks to.
pub mod Basic
pub mod Ldap
pub mod Remote
pub mod Lookup
pub mod Chain
pub mod Total
pub mod Made
pub mod Tests
use goexpose.Common.{
  Error, List, [], Option, Result, String, contains, err, if◌then◌else◌, map, new, none, ok, panic,
  some, ℕ, suc, ◌++◌, ◌<>◌, ◌>>=◌, ◌>>◌, ◌∷◌,
}
use goexpose.Config.{AuthorizerConfig, Config, EndpointConfig, TaskConfig, validate_authorizer}
use goexpose.Dict.{Dict, has, insert, lookup}
use goexpose.Effect
use goexpose.Effect.{Io, pure}
use goexpose.Registry.{register_all}
use goexpose.Request.{Request}

abbrev pub Authorizer : Type 0 → Type 0
Authorizer W = Request → Io W (Unit {0})

abbrev pub AuthorizerFactory : Type 0 → Type 0
AuthorizerFactory W = AuthorizerConfig → Result (Authorizer W)

abbrev pub Authorizers : Type 0 → Type 0
Authorizers W = Dict (Authorizer W)

abbrev pub unauthorized : Error
unauthorized = new "unauthorized"

abbrev pub invalid_authorization_header : Error
invalid_authorization_header = new "invalid authorization header"

-- The authorizers of a method, none for a method that the endpoint does not have.
abbrev pub method_authorizers : Option TaskConfig → List String
method_authorizers none = []
method_authorizers (some t) = t.authorizers

-- `decimal` prints a number, as `%d` does.
module _ {W : Type 0} (decimal : ℕ → String) (reg : Dict (AuthorizerFactory W)) where
  unfoldable pub find_factory : AuthorizerConfig → Result (AuthorizerFactory W)
  find_factory ac = elim (lookup ac.type reg) [
    | none ↦ err (new ("authorizer " <> ac.type <> " does not exist"))
    | some factory ↦ ok factory
  ]

  -- The loop over the configured authorizers.
  unfoldable pub make_authorizers : Dict AuthorizerConfig → Authorizers W → Result (Authorizers W)
  make_authorizers [] result = ok result
  make_authorizers ((an, ac) ∷ rest) result = do
    validate_authorizer reg ac
    factory ← find_factory ac
    authorizer ← factory ac
    make_authorizers rest (insert an authorizer result)

  unfoldable pub check_names : ℕ → List String → Authorizers W → Result (Unit {0})
  check_names i [] result = ok tt
  check_names i (a ∷ rest) result =
      if has a result
      then check_names i rest result
      else err (new ("task " <> decimal i <> ", invalid authorizer `" <> a <> "`."))

  unfoldable pub check_methods : ℕ → Dict TaskConfig → Authorizers W → Result (Unit {0})
  unfolding check_names
  check_methods i [] result = ok tt
  check_methods i ((m, tc) ∷ rest) result = do
    check_names i tc.authorizers result
    check_methods i rest result

  -- The loop over the endpoints, the first of which has the index `i`. It looks at the authorizers
  -- of the methods, and not at those of the endpoint.
  unfoldable pub check_endpoints : ℕ → List EndpointConfig → Authorizers W → Result (Unit {0})
  unfolding check_methods
  check_endpoints i [] result = ok tt
  check_endpoints i (ec ∷ rest) result = do
    check_methods i ec.methods result
    check_endpoints (suc i) rest result

  unfoldable pub get_authorizers : Config → Result (Authorizers W)
  unfolding make_authorizers check_endpoints
  get_authorizers config = do
    result ← make_authorizers config.authorizers []
    check_endpoints 0 config.endpoints result
    ok result

module _ {W : Type 0} where
  -- `a[an]` is nil for an unknown name, and calling its method panics.
  abbrev pub call_authorizer : Option (Authorizer W) → Authorizer W
  call_authorizer none r = pure (panic "nil pointer dereference")
  call_authorizer (some authorizer) r = authorizer r

module _ {W : Type 0} (a : Authorizers W) (r : Request) where
  -- The loop over the names to check: the first failure ends it.
  unfoldable pub authorize_names : List String → Io W (Unit {0})
  authorize_names [] = pure (ok tt)
  authorize_names (an ∷ rest) =
      Effect.◌>>=◌ (call_authorizer (lookup an a) r) (λ _. authorize_names rest)

  unfoldable pub authorize : EndpointConfig → Io W (Unit {0})
  unfolding authorize_names
  authorize config =
      authorize_names (config.authorizers ++ method_authorizers (lookup r.method config.methods))

-- The names of all authorizers, in the order of the map
unfoldable pub names : {W : Type 0} → Authorizers W → List String
names a = map (λ x. x.0) a

-- The registrations of `init` in auth.go.
unfoldable pub authorizers_init :
    {W : Type 0}
    → AuthorizerFactory W
    → AuthorizerFactory W
    → AuthorizerFactory W
    → Result (Dict (AuthorizerFactory W))
unfolding register_all
authorizers_init basic ldap http =
    register_all (λ id. "authorizer " <> id <> " already registered")
      (("basic", basic) ∷ ("ldap", ldap) ∷ ("http", http) ∷ []) []
