-- ===== src/Server/Factories/Tests.antt =====
-- The registered factories with a configuration that ends and one that does not.
use mathlib.Core.List.{Memᴰ}
use goexpose.Common.{Error, [], String, false, inl, inr, none, ok, panic, refl, ◌≡◌, ◌≢◌, ◌∷◌, ◌⊎◌}
use goexpose.Config.{Config, EndpointConfig, TaskConfig, new_config}
use goexpose.Server.Factories.{Pass, Plain, server_routes}
use goexpose.Server.Factories.Depth.{IsShallow, server_routes-settled}
use goexpose.Server.Factories.Kinds.{IsFlat}
use goexpose.Server.Factories.Loops.{CallsInfo, StartsCalling, runs_info, server_routes-never}
use goexpose.Server.Routes.{TaskFactory}
use goexpose.Server.Sample.{authorizer_factories, compile, decimal, echo}
use goexpose.Tasks.Multi
use goexpose.Tasks.Multi.{MultiConfig}
use goexpose.Text.{trim_space}

abbrev factory : TaskFactory (Unit {0})
factory tc ec = ok (echo ∷ [])

abbrev plain : Plain (Unit {0})
plain = record {
  cassandra = factory;
  http = factory;
  mysql = factory;
  postgres = factory;
  redis = factory;
  shell = factory;
  filesystem = factory;
}

abbrev task : String → TaskConfig
task type = record {
  type = type;
  authorizers = [];
  config = "";
  query_params = none;
  description = "";
}

abbrev endpoint : String → EndpointConfig
endpoint type = record {
  authorizers = [];
  path = "/";
  methods = ("GET", task type) ∷ [];
  type = "";
  query_params = none;
  raw_response = false;
}

-- A multi task that runs a task of this type.
abbrev running : String → MultiConfig
running type = record Multi.new_config { tasks = task type ∷ [] }

abbrev reads : String → String → MultiConfig → Error ⊎ MultiConfig
reads type text target = inr (running type)

-- An endpoint whose first pass meets a shell task before the task of this type, and the nested ones
-- after it.
abbrev either_way : String → Pass → EndpointConfig
either_way type [] = record (endpoint type) {
  methods = ("POST", task "shell") ∷ ("GET", task type) ∷ [];
}
either_way type (call ∷ pass) = record (endpoint type) {
  methods = ("GET", task type) ∷ ("POST", task "shell") ∷ [];
}

abbrev shallow : Pass → Config
shallow pass = record new_config { endpoints = either_way "info" pass ∷ endpoint " multi" ∷ [] }

multi-IsFlat : IsFlat (reads "shell") (task " multi")
unfolding trim_space
multi-IsFlat = record {
  not_info = refl;
  runs_simple = λ m e read. let same : running "shell" ≡ m = cc in rw (← same) ((refl, refl), tt);
}

shell-IsFlat : IsFlat (reads "shell") (task "shell")
unfolding trim_space
shell-IsFlat = record { not_info = refl; runs_simple = λ m e read. cc }

below : TaskFactory (Unit {0})
below tc ec = panic "stack overflow"

shallow-IsShallow :
    (pass : Pass)
    → IsShallow compile decimal authorizer_factories shallow "1.0.0"
        (reads "shell")
        plain
        factory
        below
        (shallow pass)
shallow-IsShallow [] = ((inr shell-IsFlat, (inl refl, tt)), ((inr multi-IsFlat, tt), tt))
shallow-IsShallow (call ∷ pass) = ((inl refl, (inr shell-IsFlat, tt)), ((inr multi-IsFlat, tt), tt))

server_routes-settled_example :
    server_routes compile decimal authorizer_factories shallow "1.0.0"
      (reads "shell")
      plain
      factory
      2
    ≡ server_routes compile decimal authorizer_factories shallow "1.0.0"
        (reads "shell")
        plain
        below
        5
server_routes-settled_example =
    server_routes-settled compile decimal authorizer_factories shallow "1.0.0" (reads "shell") plain
      factory below 0 3 shallow-IsShallow

-- A server whose one task is a multi task that runs an info task.
abbrev looping : Pass → Config
looping pass = record new_config { endpoints = endpoint "multi" ∷ [] }

multi-CallsInfo : CallsInfo (reads "info") (task "multi")
unfolding trim_space
multi-CallsInfo = runs_info (running "info") (task "info") refl refl (Memᴰ.head refl) refl

looping-StartsCalling : (pass : Pass) → StartsCalling (reads "info") (looping pass)
looping-StartsCalling pass = record {
  endpoint = endpoint "multi";
  method = "GET";
  tc = task "multi";
  rest = [];
  among = Memᴰ.head refl;
  first = refl;
  keep = refl;
  calls = multi-CallsInfo;
}

server_routes-never_example :
    server_routes compile decimal authorizer_factories looping "1.0.0"
      (reads "info")
      plain
      (λ tc ec. panic "stack overflow")
      7
    ≢ ok []
server_routes-never_example =
    server_routes-never compile decimal authorizer_factories looping "1.0.0" (reads "info") plain
      looping-StartsCalling 7 []
