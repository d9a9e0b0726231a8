-- ===== src/Server/Routes.antt =====
-- server.go: `routes` and `router`. A route keeps two pointers: to the endpoint's configuration, and
-- to the variable of the loop over its methods, which all routes of the endpoint share.
pub mod Guards
pub mod Same
pub mod Made
pub mod Sound
pub mod Untyped
use goexpose.Auth.{AuthorizerFactory, Authorizers, get_authorizers}
use goexpose.Common.{
  Bool, Error, List, [], Option, Result, String, contains, err, error_text, if◌then◌else◌, map, new,
  none, ok, panic, some, ℕ, ◌++◌, ◌<>◌, ◌>>=◌, ◌∷◌, ◌⊎◌,
}
use goexpose.Config.{
  Config, EndpointConfig, Regexp, TaskConfig, route_name, validate_endpoint, validate_task,
}
use goexpose.Dict.{Dict}
use goexpose.Registry.{get_task_factory}
use goexpose.Tasks.{Tasker}

abbrev pub TaskFactory : Type 0 → Type 0
TaskFactory W = TaskConfig → EndpointConfig → Result (List (Tasker W))

pub record Route (W : Type 0) : Type 0 where
  pub authorizers : Authorizers W
  pub method : String
  pub path : String
  pub task_config : TaskConfig
  pub endpoint_config : EndpointConfig
  pub task : Tasker W

-- The loop variable before its first round.
abbrev blank_task : TaskConfig
blank_task = record {
  type = "";
  authorizers = [];
  config = "";
  query_params = none;
  description = "";
}

-- What the loop over the methods of an endpoint has done: the value of its variable, the methods it
-- has passed, and the method and the task of each route.
pub record Visit (W : Type 0) : Type 0 where
  pub taskconf : TaskConfig
  pub passed : Dict TaskConfig
  pub made : List (String × Tasker W)

abbrev pub start : {W : Type 0} → Visit W
start = record { taskconf = blank_task; passed = []; made = [] }

module _ {W : Type 0} where
  -- The error of a factory, with its type.
  abbrev pub told : String → Result (List (Tasker W)) → Result (List (Tasker W))
  told type (ok tasks) = ok tasks
  told type (err e) = err (new ("task " <> type <> " returned error: " <> error_text e))
  told type (panic text) = panic text

  abbrev pub call_factory :
      Option (TaskFactory W) → TaskConfig → EndpointConfig → Result (List (Tasker W))
  call_factory none tc ec = err (new ("task " <> tc.type <> " doesn't exist"))
  call_factory (some factory) tc ec = told tc.type (factory tc ec)

  -- `getTaskFactory` and the factory's call, with the errors of `routes`
  unfoldable pub make_tasks :
      Dict (TaskFactory W) → TaskConfig → EndpointConfig → Result (List (Tasker W))
  make_tasks reg tc ec = call_factory (get_task_factory tc.type reg) tc ec

module _ {W : Type 0} (compile : String → Error ⊎ Regexp) (reg : Dict (TaskFactory W))
    (ignored : List String) where
  -- The loop over the methods, which the list has in the order in which this call of `routes` meets
  -- them. The copy of a task that is validated shares the query parameters of
  -- the task in the endpoint's map, behind a pointer, so that these are validated there too; its
  -- type and its description are trimmed in the copy alone.
  unfoldable pub visit : EndpointConfig → Dict TaskConfig → Visit W → Result (Visit W)
  visit ec [] v = ok v
  visit ec ((m, tc) ∷ rest) v =
      if contains ignored tc.type
      then ok (record v { taskconf = tc; passed = v.passed ++ (m, tc) ∷ rest })
      else do
        tc' ← validate_task compile tc
        let passed' = v.passed ++ (m, record tc { query_params = tc'.query_params }) ∷ []
        tasks ← make_tasks reg tc' (record ec { methods = passed' ++ rest })
        visit ec rest
            (record { taskconf = tc'; passed = passed'; made = v.made ++ map (λ t. (m, t)) tasks })

  -- The routes of an endpoint, as they are once its loop has ended.
  abbrev pub routes_of : Authorizers W → EndpointConfig → Visit W → List (Route W)
  routes_of authorizers ec v =
      map
        (λ made. record {
          authorizers = authorizers;
          method = made.0;
          path = ec.path <> made.1.path;
          task_config = v.taskconf;
          endpoint_config = record ec { methods = v.passed };
          task = made.1;
        })
        v.made

  unfoldable pub routes_from : Authorizers W → List EndpointConfig → Result (List (Route W))
  routes_from authorizers [] = ok []
  routes_from authorizers (ec ∷ rest) = do
    ec' ← validate_endpoint compile ec
    v ← visit ec' ec'.methods start
    more ← routes_from authorizers rest
    ok (routes_of authorizers ec' v ++ more)

  unfoldable pub routes :
      (ℕ → String) → Dict (AuthorizerFactory W) → Config → Result (List (Route W))
  routes decimal authorizer_factories config = do
    authorizers ← get_authorizers decimal authorizer_factories config
    routes_from authorizers config.endpoints

-- A call `router.HandleFunc(path, handler).Methods(method).Name(name)`.
pub record Registration (W : Type 0) : Type 0 where
  pub path : String
  pub method : String
  pub name : String
  pub route : Route W

-- `router`, with what it tells the router of the mux package
unfoldable pub router : {W : Type 0} → (String → String) → List (Route W) → List (Registration W)
router sha256_hex rs =
    map
      (λ r. record {
        path = r.path;
        method = r.method;
        name = route_name sha256_hex r.endpoint_config;
        route = r;
      })
      rs
