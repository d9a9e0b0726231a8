-- ===== src/Config.antt =====
-- config.go: the configuration of the server, and its validation. A `Validate` method changes the
-- structure behind its pointer; here it returns the changed structure, or the error alone, since
-- the program drops a configuration that does not validate.
pub mod Loading
pub mod Params
pub mod Again
pub mod Bounds
pub mod Tests
use goexpose.Common.{
  Bool, Error, List, [], Option, Result, String, err, error_text, false, if◌then◌else◌, inl, inr,
  new, none, not, ok, some, true, ◌<>◌, ◌==◌, ◌>>=◌, ◌∷◌, ◌⊎◌,
}
use goexpose.Dict.{Dict, insert}
use goexpose.Registry.{authorizer_exists}
use goexpose.Text.{trim_space}
use goexpose.Value.{ℤ, pos}

-- A compiled regular expression, by its `MatchString`.
abbrev pub Regexp : Type 0
Regexp = String → Bool

pub record QueryParam : Type 0 where
  pub name : String
  pub regexp : String
  pub default : String
  pub compiled : Option Regexp

pub record QueryParams : Type 0 where
  pub return_params : Bool
  pub params : List QueryParam

pub record TaskConfig : Type 0 where
  pub type : String
  pub authorizers : List String
  pub config : String
  pub query_params : Option QueryParams
  pub description : String

pub record EndpointConfig : Type 0 where
  pub authorizers : List String
  pub path : String
  pub methods : Dict TaskConfig
  pub type : String
  pub query_params : Option QueryParams
  pub raw_response : Bool

pub record AuthorizerConfig : Type 0 where
  pub type : String
  pub config : String

pub record SslConfig : Type 0 where
  pub cert : String
  pub key : String

pub record Config : Type 0 where
  pub host : String
  pub port : ℤ
  pub ssl : Option SslConfig
  pub pretty_json : Bool
  pub authorizers : Dict AuthorizerConfig
  pub endpoints : List EndpointConfig
  pub reload_env : Bool
  pub directory : String

abbrev pub new_config : Config
new_config = record {
  host = "0.0.0.0";
  port = pos 9980;
  ssl = none;
  pretty_json = false;
  authorizers = [];
  endpoints = [];
  reload_env = false;
  directory = "";
}

-- `regexp.Compile` is a parameter.
module _ (compile : String → Error ⊎ Regexp) where
  -- One round of `QueryParams.Validate`.
  unfoldable pub validate_param : QueryParam → Result QueryParam
  validate_param p =
      let name = trim_space p.name in
      let regexp = trim_space p.regexp in
      if name == ""
      then err (new "query param name missing")
      else if regexp == ""
      then ok (record p { name = name; regexp = regexp })
      else elim (compile regexp) [
        | inl e ↦ err (new ("query param regexp " <> regexp <> " returned " <> error_text e))
        | inr re ↦ ok (record p { name = name; regexp = regexp; compiled = some re })
      ]

  unfoldable pub validate_params : List QueryParam → Result (List QueryParam)
  unfolding validate_param
  validate_params [] = ok []
  validate_params (p ∷ ps) = do p' ← validate_param p; ps' ← validate_params ps; ok (p' ∷ ps')

  unfoldable pub validate_query_params : QueryParams → Result QueryParams
  unfolding validate_params
  validate_query_params q = do params ← validate_params q.params; ok (record q { params = params })

  -- The guard `QueryParams != nil` of the two methods below.
  unfoldable pub validate_optional : Option QueryParams → Result (Option QueryParams)
  unfolding validate_query_params
  validate_optional none = ok none
  validate_optional (some q) = do q' ← validate_query_params q; ok (some q')

  -- The loop that "sets type to unset tasks" ranges over a map of structures, so it assigns to the
  -- loop's own copy of each task: the methods stay as they are.
  unfoldable pub validate_endpoint : EndpointConfig → Result EndpointConfig
  unfolding validate_optional
  validate_endpoint e = do
    query_params ← validate_optional e.query_params
    ok (record e { query_params = query_params; type = trim_space e.type })

  unfoldable pub validate_task : TaskConfig → Result TaskConfig
  unfolding validate_optional
  validate_task t =
      let type = trim_space t.type in
      if type == "" then err (new "Invalid task type") else do
        query_params ← validate_optional t.query_params
        ok (record t {
          type = type;
          description = trim_space t.description;
          query_params = query_params;
        })

unfoldable pub validate_authorizer {ℓ} :
    {F : Type ℓ} → Dict F → AuthorizerConfig → Result (Unit {0})
validate_authorizer reg a =
    if authorizer_exists a.type reg
    then ok tt
    else err (new ("authorizer " <> a.type <> " does not exist"))

-- `param.compiled.MatchString(value)`, passed where no expression was compiled
abbrev pub admits : Option Regexp → String → Bool
admits none value = true
admits (some re) value = re value

-- One round of `GetParams`, after the result of the rounds before; `query` is
-- `r.URL.Query().Get`, which gives "" for a missing parameter.
unfoldable pub add_param : (String → String) → QueryParam → Dict String → Dict String
add_param query p result =
    let value = trim_space (query p.name) in
    let defaulted = if p.default == "" then result else insert p.name p.default result in
    if value == ""
    then defaulted
    else if admits p.compiled value
    then insert p.name value result
    else defaulted

unfoldable pub add_params : (String → String) → List QueryParam → Dict String → Dict String
unfolding add_param
add_params query [] result = result
add_params query (p ∷ ps) result = add_params query ps (add_param query p result)

unfoldable pub get_params : Option QueryParams → (String → String) → Dict String
unfolding add_params
get_params none query = []
get_params (some q) query = add_params query q.params []

-- `RouteName`; `sha256_hex` is the hexadecimal digest of a text.
unfoldable pub route_name : (String → String) → EndpointConfig → String
route_name sha256_hex e = sha256_hex e.path
