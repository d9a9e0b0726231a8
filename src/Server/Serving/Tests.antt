-- ===== src/Server/Serving/Tests.antt =====
-- The server behind a router that compares paths and methods as they are.
use goexpose.Auth.{Authorizers, get_authorizers}
use goexpose.Common.{List, [], String, ok, ◌≡◌, ◌∷◌}
use goexpose.Server.Routes.{router}
use goexpose.Server.Sample.{
  authorizer_factories, compile, config, decimal, factories, request, route, routes_made,
}
use goexpose.Server.Serving.{serve}
use goexpose.Server.Serving.Guarded.{Serves, serve-Serves}
use goexpose.Server.Serving.Sample.{codec, mux, mux-IsMux, same}

abbrev environ : Unit {0} → List String
environ w = []

serve-Serves_example :
    (authorizers : Authorizers (Unit {0})) × (get_authorizers decimal authorizer_factories config
      ≡ ok authorizers)
    × Serves mux environ codec 5 same compile factories config tt authorizers
        (router same (route ∷ []))
        request
        tt
        (serve mux environ codec 5 config tt (router same (route ∷ [])) request tt)
serve-Serves_example =
    serve-Serves mux environ codec 5 same compile decimal same factories authorizer_factories config
      (route ∷ []) tt request tt mux-IsMux routes_made
