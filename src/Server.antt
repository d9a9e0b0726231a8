-- ===== src/Server.antt =====
-- server.go: what the server does with a request, and how it makes its routes (`Server/Routes`).
pub mod Environment
pub mod Concurrent
pub mod Factories
pub mod Params
pub mod Posted
pub mod Replies
pub mod Routes
pub mod Serving
pub mod Sample
pub mod Tests
use goexpose.Auth.{Authorizers, authorize}
use goexpose.Common.{
  Bool, Error, List, [], Option, Result, String, code, err, error_text, false, if◌then◌else◌, new,
  none, not, ok, panic, some, ℕ, ◌&&◌, ◌∷◌,
}
use goexpose.Config.{EndpointConfig, QueryParams, TaskConfig, get_params}
use goexpose.Dict.{Dict, insert, lookup}
use goexpose.Effect.{Io}
use goexpose.Request.{Request}
use goexpose.Response.{
  Response, add_value, has_value, new_response, set_error, set_pretty, status_internal_server_error,
  status_not_found, status_unauthorized,
}
use goexpose.Response.Writing.{Codec, Event, write}
use goexpose.Tasks.{Tasker}
use goexpose.Text.{split_two, trim_space}
use goexpose.Value.{Fields, Value, end, error, field, fields_of, obj, str}

-- One round of `GetEnv`, with the parts of an entry.
abbrev pub add_entry : List String → Dict String → Dict String
add_entry (key ∷ value ∷ []) result = insert (trim_space key) (trim_space value) result
add_entry _ result = result

unfoldable pub add_entries : List String → Dict String → Dict String
add_entries [] result = result
add_entries (v ∷ rest) result = add_entries rest (add_entry (split_two "=" v) result)

-- The argument is `os.Environ()`.
unfoldable pub get_env : List String → Dict String
get_env environ = add_entries environ []

-- `ec.Methods[method].QueryParams`, nil for a method that is missing
unfoldable pub method_params : EndpointConfig → String → Option QueryParams
method_params ec method = elim (lookup method ec.methods) [ none ↦ none | some t ↦ t.query_params ]

unfoldable pub copy_params : Dict String → Dict String → Dict String
copy_params [] result = result
copy_params ((k, v) ∷ rest) result = copy_params rest (insert k v result)

unfoldable pub get_query_params : Request → EndpointConfig → Dict String
get_query_params r ec = elim ec.query_params [
  | some q ↦ get_params (some q) r.query
  | none ↦ copy_params (get_params (method_params ec r.method) r.query) []
]

-- The bytes are kept where reading them has failed, and dropped where it has not.
unfoldable pub read_body : Option (String × Option Error) → String
read_body none = ""
read_body (some (b, none)) = ""
read_body (some (b, some e)) = b

-- The request after its body has been read: nothing is left of it.
abbrev pub drained : Request → Request
drained r = record r { body = elim r.body [ none ↦ none | some read ↦ some ("", read.1) ] }

-- A `map[string]string` as a value
abbrev pub texts : Dict String → Fields
texts [] = end
texts ((k, v) ∷ m) = field k (str v) (texts m)

-- The data for the templates of a task.
unfoldable pub params_of : Request → EndpointConfig → Dict String → Dict Value
params_of r ec env =
    ("url", obj (texts r.vars))
    ∷ ("query", obj (texts (get_query_params r ec)))
    ∷ ("request", obj (field "method" (str r.method) (field "body" (str (read_body r.body)) end)))
    ∷ ("env", obj (texts env))
    ∷ []

abbrev pub returns_params : Option QueryParams → Bool
returns_params none = false
returns_params (some q) = q.return_params

abbrev pub add_params_if : Bool → Dict Value → Response → Response
add_params_if asked params response =
    if asked then add_value "params" (obj (fields_of params)) response else response

unfoldable pub with_params : EndpointConfig → String → Dict Value → Response → Response
with_params ec method params response =
    let response₁ = add_params_if (returns_params ec.query_params) params response in
    add_params_if (returns_params (method_params ec method) && not (has_value "params" response₁))
      params response₁

-- The deferred function of `Handle`, for a panic with this text.
unfoldable pub recovered : Bool → String → Response
recovered pretty text =
    set_error (error (new text)) (set_pretty pretty (new_response status_internal_server_error))

-- What the server has for its handlers: the authorizers, two fields of the configuration and the
-- environment as it was when the handler was made. `environ` is `os.Environ()`.
pub record Site (W : Type 0) : Type 0 where
  pub authorizers : Authorizers W
  pub reload_env : Bool
  pub pretty_json : Bool
  pub env : Dict String
  pub environ : W → List String

module _ {W : Type 0} (site : Site W) where
  abbrev pub current_env : W → Dict String
  current_env w = if site.reload_env then get_env (site.environ w) else site.env

  -- A `Run` method has no error to return; the case `err` is there for the type alone.
  unfoldable pub answer : EndpointConfig → String → Dict Value → Result Response → Response
  answer ec method params (ok response) = with_params ec method params response
  answer ec method params (panic text) = recovered site.pretty_json text
  answer ec method params (err e) = recovered site.pretty_json (error_text e)

  unfoldable pub run_task : Tasker W → EndpointConfig → Request → W → Response × W
  run_task task ec r w =
      let params = params_of r ec (current_env w) in
      let (result, w') = task.run (drained r) params w in (answer ec r.method params result, w')

  unfoldable pub after_authorizers :
      Result (Unit {0}) → Tasker W → EndpointConfig → Request → W → Response × W
  after_authorizers (ok _) task ec r w = run_task task ec r w
  after_authorizers (err e) task ec r w = (new_response status_unauthorized, w)
  after_authorizers (panic text) task ec r w = (recovered site.pretty_json text, w)

  -- The response that `Handle` writes.
  unfoldable pub reply : Tasker W → EndpointConfig → Request → W → Response × W
  reply task ec r w =
      let (allowed, w') = authorize site.authorizers r ec w in
      after_authorizers allowed task ec r w'

  -- `Handle` for one request, which takes `elapsed` until the response is logged.
  unfoldable pub handle : Codec → ℕ → Tasker W → EndpointConfig → Request → W → List Event × W
  handle c elapsed task ec r w =
      let (response, w') = reply task ec r w in
      ((write c response r.method r.path (some elapsed) []).0, w')

unfoldable pub not_found_handler : Codec → ℕ → Request → List Event
not_found_handler c elapsed r =
    (write c (new_response status_not_found) r.method r.path (some elapsed) []).0
