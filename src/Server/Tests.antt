-- ===== src/Server/Tests.antt =====
-- The server at concrete inputs.
use goexpose.Auth.{Authorizers, get_authorizers}
use goexpose.Common.{All, [], false, ok, ◌∷◌, ◌≡◌}
use goexpose.Server.{Site, reply}
use goexpose.Server.Replies.{Replies, reply-Replies}
use goexpose.Server.Routes.Sound.{IsRoute, routes-IsRoute}
use goexpose.Server.Routes.Untyped.{IsTyped, routes-IsTyped}
use goexpose.Server.Sample.{
  request, echo, echo-ReturnsNoError, endpoint, compile, factories, authorizer_factories, decimal,
  config, route, routes_made,
}
use goexpose.Tasks.Info

-- A server whose one authorizer lets every request pass.
abbrev open_site : Site (Unit {0})
open_site = record {
  authorizers = ("door", λ r w. (ok tt, w)) ∷ [];
  reload_env = false;
  pretty_json = false;
  env = [];
  environ = λ w. [];
}

reply-Replies_example :
    Replies open_site echo endpoint request tt (reply open_site echo endpoint request tt)
reply-Replies_example = reply-Replies open_site echo endpoint request echo-ReturnsNoError tt

routes-IsRoute_example :
    (authorizers : Authorizers (Unit {0})) × (get_authorizers decimal authorizer_factories config
      ≡ ok authorizers)
    × All (IsRoute compile factories [] config.endpoints authorizers) (route ∷ [])
routes-IsRoute_example =
    routes-IsRoute compile factories [] decimal authorizer_factories config (route ∷ []) routes_made

routes-IsTyped_example : All (λ ec. All IsTyped ec.methods) config.endpoints
routes-IsTyped_example =
    routes-IsTyped compile factories decimal authorizer_factories config (route ∷ []) routes_made
