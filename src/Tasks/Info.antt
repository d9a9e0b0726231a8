-- ===== src/Tasks/Info.antt =====
-- The info task of tasks.go: it shows the routes of the server without its own.
pub mod Shows
use goexpose.Common.{
  List, [], Result, String, if◌then◌else◌, length, ltb, map, ok, ◌==◌, ◌>>=◌, ◌∷◌,
}
use goexpose.Dict.{Dict}
use goexpose.Effect.{Io}
use goexpose.Request.{Request}
use goexpose.Response.{
  Response, add_value, new_response, responses, set_result, status_ok, strip_status_data,
}
use goexpose.Server.Routes.{Route}
use goexpose.Tasks.{Tasker, task}
use goexpose.Value.{Value, arr, fields_of, obj, str, strings}

abbrev pub with_authorizers : List String → Response → Response
with_authorizers names r =
    if ltb 0 (length names) then add_value "authorizers" (arr (strings names)) r else r

abbrev pub with_description : String → Response → Response
with_description text r = if text == "" then r else add_value "description" (str text) r

module _ {W : Type 0} where
  unfoldable pub describe : Route W → Response
  describe route =
      let named =
        add_value "method" (str route.method)
          (add_value "path" (str route.path) (new_response status_ok)) in
      let guarded = with_authorizers route.task_config.authorizers named in
      strip_status_data (
        with_description route.task_config.description
          (add_value "type" (str route.task_config.type) guarded))

  unfoldable pub run : String → List (Route W) → Request → Dict Value → Io W Response
  run version routes r vars w = (
    ok (
        set_result
          (obj (
            fields_of
              (("version", str version) ∷ ("endpoints", responses (map describe routes)) ∷ [])))
          (new_response status_ok)),
    w,
  )

  -- The argument is what `server.routes("info")` gives.
  unfoldable pub info_task_factory : String → Result (List (Route W)) → Result (List (Tasker W))
  info_task_factory version routes = do found ← routes; ok (task (run version found) ∷ [])
