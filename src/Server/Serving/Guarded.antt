-- ===== src/Server/Serving/Guarded.antt =====
-- Which tasks a request to the server can reach, and what it has to pass before.
use mathlib.Core.List.{Memᴰ}
use mathlib.Core.List.Memᴰ
use mathlib.Core.Path.{subst}
use goexpose.Auth.{AuthorizerFactory, Authorizers, authorize, get_authorizers, method_authorizers}
use goexpose.Auth.Chain.{Passed, authorize_iff}
use goexpose.Common.{
  All, All-Memᴰ, Error, List, [], Option, Result, String, ap, err, map, none, ok, panic, refl, some,
  sym, ℕ, ◌++◌, ◌∙◌, ◌≡◌, ◌∷◌, ◌⊎◌,
}
use goexpose.Config.{Config, EndpointConfig, Regexp}
use goexpose.Dict.{Dict, lookup}
use goexpose.Request.{Request}
use goexpose.Response.{Response, new_response, status_unauthorized}
use goexpose.Response.Writing.{Codec, Event, write}
use goexpose.Server.{after_authorizers, handle, not_found_handler, recovered, reply, run_task}
use goexpose.Server.Routes.{Registration, Route, TaskFactory, router, routes}
use goexpose.Server.Routes.Sound.{IsRoute, routes-IsRoute}
use goexpose.Server.Serving.{Mux, dispatch, serve, serve_clean, site_of}

-- What the router of the mux package promises: it gives a request only to a registration that it has,
-- and only where the request's method is that of the registration in upper case.
pub record IsMux {W : Type 0} (upper : String → String) (mux : Mux W) : Type 0 where
  pub registered :
      (xs : List (Registration W)) (r : Request) (x : Registration W) (vars : Dict String)
      → mux.find xs r ≡ some (x, vars)
      → Memᴰ x xs
  pub same_method :
      (xs : List (Registration W)) (r : Request) (x : Registration W) (vars : Dict String)
      → mux.find xs r ≡ some (x, vars)
      → upper x.method ≡ r.method

module _ {A B : Type 0} where
  Memᴰ-map : (f : A → B) (xs : List A) {y : B} → Memᴰ y (map f xs) → (x : A) × Memᴰ x xs × (y ≡ f x)
  Memᴰ-map f [] m = absurd (Memᴰ.not-nil m)
  Memᴰ-map f (x ∷ xs) (Memᴰ.head e) = (x, Memᴰ.head refl, e)
  Memᴰ-map f (x ∷ xs) (Memᴰ.tail m) = let (z, n, e) = Memᴰ-map f xs m in (z, Memᴰ.tail n, e)

-- A registration carries a route of the server, with the route's method.
registered_route :
    {W : Type 0} (upper : String → String) (sha256_hex : String → String) (P : Route W → Type 0)
    (rs : List (Route W)) (x : Registration W) (r : Request)
    → All P rs
    → Memᴰ x (router sha256_hex rs)
    → upper x.method ≡ r.method
    → P x.route × (upper x.route.method ≡ r.method)
unfolding router
registered_route upper sha256_hex P rs x r found among same =
    let (y, listed, e) = Memᴰ-map _ rs among in
    (
      subst P (sym (ap (λ z. z.route) e)) (All-Memᴰ P rs found listed),
      ap (λ z. upper z.route.method) e ∙ ap (λ z. upper z.method) (sym e) ∙ same,
    )

-- What the router finds is a route of the configuration, with the method of the request up to case.
pub find-IsRoute :
    {W : Type 0} (mux : Mux W) (upper : String → String) (compile : String → Error ⊎ Regexp)
    (decimal : ℕ → String) (sha256_hex : String → String) (tasks : Dict (TaskFactory W))
    (factories : Dict (AuthorizerFactory W)) (config : Config) (rs : List (Route W))
    → IsMux upper mux
    → routes compile tasks [] decimal factories config ≡ ok rs
    → (authorizers : Authorizers W) × (get_authorizers decimal factories config ≡ ok authorizers)
      × ((r : Request) (x : Registration W) (vars : Dict String)
          → mux.find (router sha256_hex rs) r ≡ some (x, vars)
          → IsRoute compile tasks [] config.endpoints authorizers x.route
            × (upper x.route.method ≡ r.method))
find-IsRoute {W} mux upper compile decimal sha256_hex tasks factories config rs law routed =
    let (authorizers, known, found) =
      routes-IsRoute compile tasks [] decimal factories config rs routed in
    let xs = router sha256_hex rs in
    (
      authorizers,
      known,
      λ r x vars h.
          registered_route upper sha256_hex (IsRoute compile tasks [] config.endpoints authorizers)
            rs x r found (law.registered xs r x vars h) (law.same_method xs r x vars h),
    )

module _ {W : Type 0} (mux : Mux W) (environ : W → List String) (c : Codec) (elapsed : ℕ)
    (upper : String → String) (compile : String → Error ⊎ Regexp) (tasks : Dict (TaskFactory W))
    (config : Config) (made : W) (authorizers : Authorizers W) (xs : List (Registration W)) where
  abbrev pub sent : Response → Request → List Event
  sent response r = (write c response r.method r.path (some elapsed) []).0

  abbrev pub names : EndpointConfig → String → List String
  names ec method = ec.authorizers ++ method_authorizers (lookup method ec.methods)

  abbrev pub run_route : Route W → Request → W → Response × W
  run_route x r w =
      run_task (site_of mux environ c elapsed config made x.authorizers) x.task x.endpoint_config r
        w

  abbrev pub IsFound : Route W → Type 0
  IsFound x = IsRoute compile tasks [] config.endpoints authorizers x

  -- How the server came to what it does for the request `r` from the state `w`.
  pub data Serves (r : Request) (w : W) : List Event × W → Type 0 where
    redirected : (events : List Event) → mux.redirect r ≡ some events → Serves r w (events, w)
    missing : mux.find xs r ≡ none → Serves r w (not_found_handler c elapsed r, w)
    refused :
        (x : Route W) (vars : Dict String) (e : Error) {w₁ : W}
        → IsFound x
        → authorize x.authorizers (record r { vars = vars }) x.endpoint_config w ≡ (err e, w₁)
        → Serves r w (sent (new_response status_unauthorized) r, w₁)
    panicked :
        (x : Route W) (vars : Dict String) (text : String) {w₁ : W}
        → IsFound x
        → authorize x.authorizers (record r { vars = vars }) x.endpoint_config w ≡ (panic text, w₁)
        → Serves r w (sent (recovered config.pretty_json text) r, w₁)
    ran :
        (x : Route W) (found : IsFound x) (vars : Dict String) (w₁ : W)
        → upper x.method ≡ r.method
        → Passed authorizers (record r { vars = vars }) (names found.endpoint r.method) w w₁
        → Serves r w (
          sent (run_route x (record r { vars = vars }) w₁).0 r,
          (run_route x (record r { vars = vars }) w₁).1,
        )

  -- The names that a route checks are those of its endpoint.
  same_names :
      (x : Route W) (found : IsFound x) (method : String)
      → names x.endpoint_config method ≡ names found.endpoint method
  same_names x found method = rw (found.same_guards, found.method_guards) refl

  passed :
      (x : Route W) (found : IsFound x) (r : Request) (w w₁ : W)
      → authorize x.authorizers r x.endpoint_config w ≡ (ok tt, w₁)
      → Passed authorizers r (names found.endpoint r.method) w w₁
  passed x found r w w₁ h =
      subst (λ ns. Passed authorizers r ns w w₁) (same_names x found r.method)
        (subst (λ a. Passed a r (names x.endpoint_config r.method) w w₁) found.guarded
          ((authorize_iff x.authorizers r x.endpoint_config w w₁).0 h))

  after-Serves :
      (x : Route W) (found : IsFound x) (vars : Dict String) (r : Request) (w w₁ : W)
      (allowed : Result (Unit {0}))
      → upper x.method ≡ r.method
      → authorize x.authorizers (record r { vars = vars }) x.endpoint_config w ≡ (allowed, w₁)
      → Serves r w (
          let site = site_of mux environ c elapsed config made x.authorizers in
          let (response, w₂) =
            after_authorizers site allowed x.task x.endpoint_config (record r { vars = vars }) w₁ in
          (sent response r, w₂))
  unfolding after_authorizers
  after-Serves x found vars r w w₁ (ok _) same h =
      ran x found vars w₁ same (passed x found (record r { vars = vars }) w w₁ h)
  after-Serves x found vars r w w₁ (err e) same h = refused x vars e found h
  after-Serves x found vars r w w₁ (panic text) same h = panicked x vars text found h

  dispatch-Serves :
      (r : Request) (w : W) (o : Option (Registration W × Dict String))
      → mux.find xs r ≡ o
      → ((x : Registration W) (vars : Dict String)
          → o ≡ some (x, vars)
          → IsFound x.route × (upper x.route.method ≡ r.method))
      → Serves r w (dispatch mux environ c elapsed config made o r w)
  unfolding handle reply
  dispatch-Serves r w none h k = missing h
  dispatch-Serves r w (some (x, vars)) h k =
      let (found, same) = k x vars refl in
      let allowed =
        authorize x.route.authorizers (record r { vars = vars }) x.route.endpoint_config w in
      after-Serves x.route found vars r w allowed.1 allowed.0 same refl

  clean-Serves :
      (r : Request) (w : W) (o : Option (List Event))
      → mux.redirect r ≡ o
      → ((x : Registration W) (vars : Dict String)
          → mux.find xs r ≡ some (x, vars)
          → IsFound x.route × (upper x.route.method ≡ r.method))
      → Serves r w (serve_clean mux environ c elapsed config made xs o r w)
  clean-Serves r w none h k = dispatch-Serves r w (mux.find xs r) refl k
  clean-Serves r w (some events) h k = redirected events h

-- Where the routes have been made and the router keeps its promises, every request is redirected by
-- the router, or no route is found for it (404), or an authorizer refuses it (401) or panics (500),
-- or a task runs and its response is sent: then the task is that of a route of the configuration
-- with the method of the request, up to case, and the authorizers that the route's endpoint names,
-- and those that it names for the method of the request, have let the request pass, in this order.
-- In the first two cases the state stays as it was, in the next two it is that of the authorizers.
pub serve-Serves :
    {W : Type 0} (mux : Mux W) (environ : W → List String) (c : Codec) (elapsed : ℕ)
    (upper : String → String) (compile : String → Error ⊎ Regexp) (decimal : ℕ → String)
    (sha256_hex : String → String) (tasks : Dict (TaskFactory W))
    (factories : Dict (AuthorizerFactory W)) (config : Config) (rs : List (Route W)) (made : W)
    (r : Request) (w : W)
    → IsMux upper mux
    → routes compile tasks [] decimal factories config ≡ ok rs
    → (authorizers : Authorizers W) × (get_authorizers decimal factories config ≡ ok authorizers)
      × Serves mux environ c elapsed upper compile tasks config made authorizers
          (router sha256_hex rs)
          r
          w
          (serve mux environ c elapsed config made (router sha256_hex rs) r w)
unfolding serve
serve-Serves mux environ c elapsed upper compile decimal sha256_hex tasks factories config rs made r
      w law routed =
    let (authorizers, known, found) =
      find-IsRoute mux upper compile decimal sha256_hex tasks factories config rs law routed in
    (
      authorizers,
      known,
      clean-Serves mux environ c elapsed upper compile tasks config made authorizers
          (router sha256_hex rs) r w (mux.redirect r) refl (found r),
    )
