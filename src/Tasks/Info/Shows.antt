-- ===== src/Tasks/Info/Shows.antt =====
-- What an info task tells of the server.
use goexpose.Common.{length, ltb, none, some, ◌==◌, ◌≡◌, if◌then◌else◌}
use goexpose.Config.{Config}
use goexpose.Dict.{Dict}
use goexpose.Response.{Response}
use goexpose.Response.Keys.{value}
use goexpose.Server.Routes.{Route}
use goexpose.Tasks.Info.{describe}
use goexpose.Value.{arr, str, strings}

-- The entry of a route: its path, its method and, from the task configuration that it points to, the
-- type, the names of the authorizers and the description where there are any, and no status.
pub record IsShown {W : Type 0} (r : Route W) : Type 0 where
  pub path : value "path" (describe r) ≡ some (str r.path)
  pub method : value "method" (describe r) ≡ some (str r.method)
  pub type : value "type" (describe r) ≡ some (str r.task_config.type)
  pub authorizers : value "authorizers" (describe r) ≡ (
      if ltb 0 (length r.task_config.authorizers)
      then some (arr (strings r.task_config.authorizers))
      else none)
  pub description :
      value "description" (describe r)
      ≡ (if r.task_config.description == "" then none else some (str r.task_config.description))
  pub no_status : value "status" (describe r) ≡ none
