-- ===== src/Tasks/Multi/Tests.antt =====
-- The multi task at concrete inputs.
use mathlib.Core.Option.{some-injective}
use goexpose.Common.{
  Bool-cases, ap, length, sym, inl, ok-injective, ◌∙◌, ◌==◌, Error, [], String, false, List, inr,
  none, ok, refl, some, true, ◌∷◌, ◌≡◌, ◌⊎◌,
}
use goexpose.Config.{EndpointConfig, Regexp, TaskConfig, validate_optional, validate_task}
use goexpose.Dict.{Dict, lookup}
use goexpose.Request.{Request}
use goexpose.Response.{new_response, status_ok}
use goexpose.Tasks.{Tasker, task}
use goexpose.Tasks.Multi
use goexpose.Tasks.Multi.{MultiConfig, make_all, multi_task_factory, run_all}
use goexpose.Tasks.Multi.Answer.{Answered, Makes, MakesOne, multi_task-Answered}
use goexpose.Registry.{get_task_factory}
use goexpose.Server.Routes.{TaskFactory, make_tasks}
use goexpose.Tasks.Single.{single_index}
use goexpose.Text.{trim_space}
use goexpose.Value.{pos}

abbrev request : Request
request = record {
  method = "GET";
  path = "/";
  header = λ name. "";
  query = λ name. "";
  vars = [];
  body = none;
}

abbrev multi : TaskConfig
multi = record {
  type = "multi";
  authorizers = [];
  config = "";
  query_params = none;
  description = "";
}

abbrev compile : String → Error ⊎ Regexp
compile pattern = inr (λ value. true)

abbrev echo : Tasker (Unit {0})
echo = task (λ r vars w. (ok (new_response status_ok), w))

abbrev factories : Dict (TaskFactory (Unit {0}))
factories = ("echo", λ tc ec. ok (echo ∷ [])) ∷ []

abbrev echo_config : TaskConfig
echo_config = record {
  type = "echo";
  authorizers = [];
  config = "";
  query_params = none;
  description = "";
}

abbrev endpoint : EndpointConfig
endpoint = record {
  authorizers = [];
  path = "/";
  methods = [];
  type = "";
  query_params = none;
  raw_response = false;
}

abbrev multi_config : MultiConfig
multi_config = record {
  tasks = echo_config ∷ echo_config ∷ [];
  single_result = some (pos 1);
  single_result_index = pos 1;
}

abbrev unmarshal_multi : String → MultiConfig → Error ⊎ MultiConfig
unmarshal_multi text target = inr multi_config

factories-MakesOne : MakesOne factories
unfolding get_task_factory lookup
factories-MakesOne type factory found tc ec tasks produced = elim (Bool-cases ("echo" == type)) [
  | inl known ↦
      let same = some-injective _ factory (rw known at found) in
      ap length (sym (ok-injective (ap (λ f. f tc ec) same ∙ produced)))
  | inr unknown ↦ cc (rw unknown at found)
]

made_multi :
    multi_task_factory compile factories endpoint unmarshal_multi multi
    ≡ ok (task (Multi.run multi_config (echo ∷ echo ∷ [])) ∷ [])
unfolding multi_task_factory Multi.validate single_index make_all validate_task validate_optional
    make_tasks get_task_factory lookup trim_space
made_multi = refl

multi_task-Answered_example :
    (m : MultiConfig) × (t : Tasker (Unit {0})) × (ts : List (Tasker (Unit {0}))) × (unmarshal_multi
        "" Multi.new_config
      ≡ inr m)
    × (task (Multi.run multi_config (echo ∷ echo ∷ [])) ∷ [] ≡ t ∷ [])
    × Makes compile factories endpoint m.tasks ts
    × Answered request [] m.single_result ts tt (t.run request [] tt).0 (t.run request [] tt).1
multi_task-Answered_example =
    multi_task-Answered compile factories endpoint unmarshal_multi multi
      (task (Multi.run multi_config (echo ∷ echo ∷ [])) ∷ []) request [] tt factories-MakesOne
      made_multi
