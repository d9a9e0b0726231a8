-- ===== src/Tasks/Multi.antt =====
-- The multi task of tasks.go: its factory makes the tasks that it runs by the registered factories.
pub mod Went
pub mod Answer
pub mod Tests
use goexpose.Common.{
  Error, List, [], Option, Result, String, err, if◌then◌else◌, length, new, none, ok, outcome, ◌++◌,
  ◌=ℕ◌, ◌==◌, ◌>>=◌, ◌∷◌, ◌⊎◌,
}
use goexpose.Config.{EndpointConfig, Regexp, TaskConfig, validate_task}
use goexpose.Dict.{Dict}
use goexpose.Effect
use goexpose.Effect.{Io, pure}
use goexpose.Request.{Request}
use goexpose.Response.{Response, new_response, status_ok}
use goexpose.Server.Routes.{TaskFactory, make_tasks}
use goexpose.Tasks.{Tasker, task}
use goexpose.Tasks.Single.{finish, single_index}
use goexpose.Value.{Value, pos, ℤ}

pub record MultiConfig : Type 0 where
  pub tasks : List TaskConfig
  pub single_result : Option ℤ
  pub single_result_index : ℤ

abbrev pub new_config : MultiConfig
new_config = record { tasks = []; single_result = none; single_result_index = pos 0 }

abbrev pub out_of_bounds : Error
out_of_bounds = new "multi task single_result out of bounds"

unfoldable pub validate : MultiConfig → Result MultiConfig
validate m = if length m.tasks =ℕ 0 then err (new "multi task must have at least one task") else do
  index ← single_index out_of_bounds m.single_result (length m.tasks)
  ok (record m { single_result_index = index })

module _ {W : Type 0} where
  -- The loop over the tasks: the first panic ends it.
  unfoldable pub run_all : List (Tasker W) → Request → Dict Value → Io W (List Response)
  run_all [] r vars = pure (ok [])
  run_all (tasker ∷ rest) r vars =
      Effect.◌>>=◌ (tasker.run r vars)
        λ tr. Effect.◌>>=◌ (run_all rest r vars) λ results. pure (ok (tr ∷ results))

  unfoldable pub run : MultiConfig → List (Tasker W) → Request → Dict Value → Io W Response
  run m tasks r vars =
      Effect.◌>>=◌ (run_all tasks r vars)
        λ results. pure (finish m.single_result_index results (new_response status_ok))

module _ {W : Type 0} (compile : String → Error ⊎ Regexp) (reg : Dict (TaskFactory W))
    (ec : EndpointConfig) where
  -- The loop over the configurations. The type is compared as it is written, and trimmed only then.
  unfoldable pub make_all : List TaskConfig → Result (List (Tasker W))
  make_all [] = ok []
  make_all (mtc ∷ rest) =
      if mtc.type == "multi"
      then err (new "multi task does not support embedded multi tasks")
      else do
        mtc' ← validate_task compile mtc
        tasks ← make_tasks reg mtc' ec
        more ← make_all rest
        ok (tasks ++ more)

  unfoldable pub multi_task_factory :
      (String → MultiConfig → Error ⊎ MultiConfig) → TaskConfig → Result (List (Tasker W))
  multi_task_factory unmarshal tc = do
    config ← outcome (unmarshal tc.config new_config)
    config' ← validate config
    tasks ← make_all config'.tasks
    ok (task (run config' tasks) ∷ [])
