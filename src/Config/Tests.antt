-- ===== src/Config/Tests.antt =====
-- Configurations at concrete inputs.
use goexpose.Common.{
  Error, [], String, if◌then◌else◌, inr, none, ok, some, true, refl, ◌==◌, ◌∷◌, ◌≡◌, ◌⊎◌,
}
use goexpose.Config.{
  QueryParam, QueryParams, Regexp, add_param, add_params, get_params, validate_param,
  validate_params, validate_query_params,
}
use goexpose.Config.Params.{Explained, get_params-Explained}
use goexpose.Dict.{insert, lookup}
use goexpose.Text.{trim_space}

-- The expression of a text that must be equal.
abbrev compile : String → Error ⊎ Regexp
compile pattern = inr (λ value. value == pattern)

abbrev page : QueryParam
page = record { name = " page "; regexp = "2"; default = "1"; compiled = none }

abbrev checked_page : QueryParam
checked_page = record {
  name = "page";
  regexp = "2";
  default = "1";
  compiled = some (λ value. value == "2");
}

abbrev given : QueryParams
given = record { return_params = true; params = page ∷ [] }

abbrev checked : QueryParams
checked = record { return_params = true; params = checked_page ∷ [] }

-- A request with `page=3`.
abbrev query : String → String
query name = if name == "page" then "3" else ""

validates : validate_query_params compile given ≡ ok checked
unfolding validate_query_params validate_params validate_param trim_space
validates = refl

receives : lookup "page" (get_params (some checked) query) ≡ some "1"
unfolding get_params add_params add_param trim_space lookup insert
receives = refl

get_params-Explained_example : Explained query "page" "1" checked.params
get_params-Explained_example = get_params-Explained checked query "page" "1" receives
