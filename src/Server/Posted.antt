-- ===== src/Server/Posted.antt =====
-- server.go and tasks.go together: what an http task that `Handle` runs takes of the request.
use goexpose.Common.{String, none, refl, some, ◌≡◌}
use goexpose.Config.{EndpointConfig}
use goexpose.Dict.{Dict}
use goexpose.Formats.{FormatFunc}
use goexpose.Request.{Request}
use goexpose.Server.{Site, get_query_params, params_of, read_body, run_task}
use goexpose.Tasks.{task}
use goexpose.Tasks.Web.{Client, HttpConfig, run, run_urls, url_steps}
use goexpose.Utils.{Interpolate}

module _ {W Sent Answer : Type 0} (reg : Dict FormatFunc) (interpolate : Interpolate)
    (lower : String → String) (client : Client W Sent Answer) where
  -- An http task that the handler runs does the same for two requests that differ in their headers
  -- and in the text of their bodies, where both bodies were read to their ends, whatever its
  -- `post_body` says.
  pub run_task-http :
      (site : Site W) (ec : EndpointConfig) (h : HttpConfig) (r : Request) (w : W)
      (header : String → String) (text text' : String)
      → r.body ≡ some (text, none)
      → run_task site (task (run reg interpolate lower client h)) ec r w
        ≡ run_task site
            (task (run reg interpolate lower client h))
            ec
            (record r { header = header; body = some (text', none) })
            w
  unfolding run_task run run_urls url_steps params_of read_body get_query_params
  run_task-http site ec h r w header text text' posted = rw posted refl
