-- ===== src/Server/Sample.antt =====
-- A small server for the tests: its one route answers with the path of the request.
use goexpose.Auth.{
  AuthorizerFactory, check_endpoints, check_methods, check_names, get_authorizers, make_authorizers,
}
use goexpose.Common.{Error, [], String, false, inr, none, ok, refl, some, true, ℕ, ◌∷◌, ◌≡◌, ◌⊎◌}
use goexpose.Config.{
  Config, EndpointConfig, Regexp, TaskConfig, new_config, validate_endpoint, validate_optional,
  validate_task,
}
use goexpose.Dict.{Dict, lookup}
use goexpose.Registry.{get_task_factory}
use goexpose.Request.{Request}
use goexpose.Response.{new_response, set_result, status_ok}
use goexpose.Server.Replies.{ReturnsNoError}
use goexpose.Server.Routes.{Route, TaskFactory, make_tasks, routes, routes_from, visit}
use goexpose.Tasks.{Tasker, task}
use goexpose.Text.{trim_space}
use goexpose.Value.{str}

abbrev pub request : Request
request = record {
  method = "GET";
  path = "/echo";
  header = λ name. "";
  query = λ name. "";
  vars = [];
  body = none;
}

abbrev pub echo : Tasker (Unit {0})
echo = task (λ r vars w. (ok (set_result (str r.path) (new_response status_ok)), w))

pub echo-ReturnsNoError : ReturnsNoError echo
echo-ReturnsNoError r vars w e h = cc

abbrev pub echo_config : TaskConfig
echo_config = record {
  type = "echo";
  authorizers = "door" ∷ [];
  config = "";
  query_params = some (record { return_params = true; params = [] });
  description = "";
}

abbrev pub endpoint : EndpointConfig
endpoint = record {
  authorizers = "door" ∷ [];
  path = "/echo";
  methods = ("GET", echo_config) ∷ [];
  type = "";
  query_params = none;
  raw_response = false;
}

abbrev pub compile : String → Error ⊎ Regexp
compile pattern = inr (λ value. true)

abbrev pub factories : Dict (TaskFactory (Unit {0}))
factories = ("echo", λ tc ec. ok (echo ∷ [])) ∷ []

abbrev pub authorizer_factories : Dict (AuthorizerFactory (Unit {0}))
authorizer_factories = []

abbrev pub decimal : ℕ → String
decimal n = "0"

abbrev pub open_endpoint : EndpointConfig
open_endpoint = record endpoint {
  authorizers = [];
  methods = ("GET", record echo_config { authorizers = [] }) ∷ [];
}

abbrev pub config : Config
config = record new_config { endpoints = open_endpoint ∷ [] }

abbrev pub route : Route (Unit {0})
route = record {
  authorizers = [];
  method = "GET";
  path = "/echo";
  task_config = record echo_config { authorizers = [] };
  endpoint_config = open_endpoint;
  task = echo;
}

pub routes_made : routes compile factories [] decimal authorizer_factories config ≡ ok (route ∷ [])
unfolding routes get_authorizers make_authorizers check_endpoints check_methods check_names
    routes_from validate_endpoint validate_optional validate_task visit make_tasks get_task_factory
    lookup trim_space
routes_made = refl
