-- ===== src/Server/Factories.antt =====
-- The registered task factories, two of which call back: the factory of the info task makes the routes
-- of its server again, and that of the multi task looks its tasks up among the registered factories.
pub mod Kinds
pub mod Depth
pub mod Loops
pub mod Tests
use goexpose.Auth.{AuthorizerFactory}
use goexpose.Common.{Error, List, [], Result, String, map, panic, ℕ, suc, zero, ◌<>◌, ◌∷◌, ◌⊎◌}
use goexpose.Config.{Config, EndpointConfig, Regexp, TaskConfig}
use goexpose.Dict.{Dict}
use goexpose.Registry.{register_all}
use goexpose.Server.Routes.{Route, TaskFactory, routes}
use goexpose.Tasks.Info.{info_task_factory}
use goexpose.Tasks.Multi.{MultiConfig, multi_task_factory}

-- The factories that do not call back.
pub record Plain (W : Type 0) : Type 0 where
  pub cassandra : TaskFactory W
  pub http : TaskFactory W
  pub mysql : TaskFactory W
  pub postgres : TaskFactory W
  pub redis : TaskFactory W
  pub shell : TaskFactory W
  pub filesystem : TaskFactory W

module _ {W : Type 0} where
  abbrev pub all_factories : Plain W → TaskFactory W → TaskFactory W → Dict (TaskFactory W)
  all_factories p info multi =
      ("cassandra", p.cassandra)
      ∷ ("http", p.http)
      ∷ ("info", info)
      ∷ ("mysql", p.mysql)
      ∷ ("postgres", p.postgres)
      ∷ ("redis", p.redis)
      ∷ ("shell", p.shell)
      ∷ ("multi", multi)
      ∷ ("filesystem", p.filesystem)
      ∷ []

  -- The registrations of `init` in tasks.go.
  unfoldable pub tasks_init :
      Plain W → TaskFactory W → TaskFactory W → Result (Dict (TaskFactory W))
  unfolding register_all
  tasks_init p info multi =
      register_all (λ id. "task factory " <> id <> " already exists") (all_factories p info multi)
        []

-- A call of `routes`: the calls of the factory of the info task in which it is nested, the innermost
-- first.
abbrev pub Pass : Type 0
Pass = List (TaskConfig × EndpointConfig)

-- `config` is the configuration as each call of `routes` meets it: Go's `range` goes over a map of
-- methods in an order of its own each time, so that each call has its own order of the entries.
-- `unmarshal` is `json.Unmarshal` of the configuration of a multi task.
module _ {W : Type 0} (compile : String → Error ⊎ Regexp) (decimal : ℕ → String)
    (authorizers : Dict (AuthorizerFactory W)) (config : Pass → Config) (version : String)
    (unmarshal : String → MultiConfig → Error ⊎ MultiConfig) (p : Plain W)
    (bottom : TaskFactory W) where
  -- The registry, where calls of the two factories may be nested as deep as the number says; below
  -- that depth stands `bottom`.
  unfoldable pub registry : Pass → ℕ → Dict (TaskFactory W)
  registry pass zero = all_factories p bottom bottom
  registry pass (suc depth) =
      all_factories p
        (λ tc ec. info_task_factory version (
          routes compile (registry ((tc, ec) ∷ pass) depth) ("info" ∷ []) decimal authorizers
            (config ((tc, ec) ∷ pass))))
        (λ tc ec. multi_task_factory compile (registry pass depth) ec unmarshal tc)

  -- The routes of the server, and those that the info task asks for.
  abbrev pub server_routes : ℕ → Result (List (Route W))
  server_routes depth = routes compile (registry [] depth) [] decimal authorizers (config [])

  abbrev pub routes_for_info : Pass → ℕ → Result (List (Route W))
  routes_for_info pass depth =
      routes compile (registry pass depth) ("info" ∷ []) decimal authorizers (config pass)
