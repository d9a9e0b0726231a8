-- ===== src/Server/Concurrent/Told.antt =====
-- Which routes the requests reach that are served at the same time.
use goexpose.Auth.{AuthorizerFactory, Authorizers, get_authorizers}
use goexpose.Common.{Error, List, [], String, ap, ok, refl, sym, ℕ, ◌∙◌, ◌≡◌, ◌⊎◌}
use mathlib.Core.Path.{subst}
use goexpose.Config.{Config, Regexp}
use goexpose.Dict.{Dict}
use goexpose.Request.{Request}
use goexpose.Response.Writing.{Codec}
use goexpose.Server.Concurrent.{after, names_to_check, running, start}
use goexpose.Server.Concurrent.Story.{Story, Vouched, after-Story, ready_inverse}
use goexpose.Server.Routes.{Route, TaskFactory, router, routes}
use goexpose.Server.Routes.Sound.{IsRoute}
use goexpose.Server.Serving.{Mux}
use goexpose.Server.Serving.Guarded.{IsMux, find-IsRoute}
use goexpose.Value.{Value}

same_names :
    {W : Type 0} (compile : String → Error ⊎ Regexp) (tasks : Dict (TaskFactory W))
    (config : Config) (authorizers : Authorizers W) (x : Route W)
    (found : IsRoute compile tasks [] config.endpoints authorizers x) (method : String)
    → names_to_check x.endpoint_config method ≡ names_to_check found.endpoint method
same_names compile tasks config authorizers x found method =
    rw (found.same_guards, found.method_guards) refl

-- Where the routes have been made and the router keeps its promises, whatever turns the requests have
-- taken in whatever order: a request that is about to run a task has been given a route of the
-- configuration with the method of the request, up to case, and in turns of its own, one after the
-- other, each of the authorizers that the route's endpoint names, and then of those that it names for
-- the method of the request, has let it pass.
pub running-Vouched :
    {W : Type 0} (mux : Mux W) (environ : W → List String) (c : Codec) (elapsed : ℕ)
    (upper : String → String) (compile : String → Error ⊎ Regexp) (decimal : ℕ → String)
    (sha256_hex : String → String) (tasks : Dict (TaskFactory W))
    (factories : Dict (AuthorizerFactory W)) (config : Config) (routes_made : List (Route W))
    (made : W) (rs : ℕ → Request) (w : W) (turns : List ℕ) (i : ℕ) (x : Route W) (r : Request)
    (params : Dict Value)
    → IsMux upper mux
    → routes compile tasks [] decimal factories config ≡ ok routes_made
    → (let xs = router sha256_hex routes_made in
        (after mux environ c elapsed config made xs
            (start mux environ c elapsed config made xs rs w)
            turns).phase
          i)
      ≡ running x r params
    → (authorizers : Authorizers W) × (get_authorizers decimal factories config ≡ ok authorizers)
      × (found : IsRoute compile tasks [] config.endpoints authorizers x) × (upper x.method
          ≡ r.method)
      × Vouched mux environ c elapsed config made
          (router sha256_hex routes_made)
          rs
          w
          i
          authorizers
          r
          (names_to_check found.endpoint r.method)
          turns
running-Vouched mux environ c elapsed upper compile decimal sha256_hex tasks factories config
      routes_made made rs w turns i x r params law routed h =
    let (authorizers, known, found) =
      find-IsRoute mux upper compile decimal sha256_hex tasks factories config routes_made law
        routed in
    let xs = router sha256_hex routes_made in
    let (y, vars, f, same, method, v) =
      ready_inverse mux environ c elapsed config made xs rs w i turns (
        subst (Story mux environ c elapsed config made xs rs w i turns) h
          (after-Story mux environ c elapsed config made xs rs w turns i)) in
    let (is_route, upper_same) = found (rs i) y vars f in
    let route = subst (IsRoute compile tasks [] config.endpoints authorizers) same is_route in
    (
      authorizers,
      known,
      route,
      ap (λ z. upper z.method) (sym same) ∙ upper_same ∙ sym method,
      subst (λ ns. Vouched mux environ c elapsed config made xs rs w i authorizers r ns turns)
          (same_names compile tasks config authorizers x route r.method)
          (subst
            (λ a.
              Vouched mux environ c elapsed config made xs rs w i a r
                (names_to_check x.endpoint_config r.method) turns)
            route.guarded v),
    )
