-- ===== src/Server/Routes/Untyped.antt =====
-- The type of an endpoint and the types of its methods.
use mathlib.Core.Path.{subst}
use goexpose.Auth.{AuthorizerFactory, Authorizers, get_authorizers}
use goexpose.Common.{
  All, Bool-cases, Error, List, [], String, false, inl, inr, ok, ℕ, ◌==◌, ◌∷◌, ◌≡◌, ◌⊎◌, >>=-eq-ok,
}
use goexpose.Config.{Config, EndpointConfig, Regexp, TaskConfig, validate_endpoint, validate_task}
use goexpose.Dict.{Dict}
use goexpose.Server.Routes.{
  TaskFactory, Visit, make_tasks, routes, routes_from, start, visit, Route,
}
use goexpose.Server.Routes.Sound.{validate_endpoint_keeps}
use goexpose.Text.{trim_space}

-- The method has a type of its own.
abbrev pub IsTyped : String × TaskConfig → Type 0
IsTyped m = (trim_space m.1.type == "") ≡ false

module _ {W : Type 0} (compile : String → Error ⊎ Regexp) (reg : Dict (TaskFactory W)) where
  validate_task-IsTyped :
      (m : String) (tc tc' : TaskConfig) → validate_task compile tc ≡ ok tc' → IsTyped (m, tc)
  unfolding validate_task
  validate_task-IsTyped m tc tc' h = elim (Bool-cases (trim_space tc.type == "")) [
    | inl blank ↦ cc (rw blank at h)
    | inr typed ↦ typed
  ]

  visit-IsTyped :
      (ec : EndpointConfig) (ms : Dict TaskConfig) (v v' : Visit W)
      → visit compile reg [] ec ms v ≡ ok v'
      → All IsTyped ms
  unfolding visit
  visit-IsTyped ec [] v v' h = tt
  visit-IsTyped ec ((m, tc) ∷ ms) v v' h =
      let (tc', valid, h₁) = >>=-eq-ok (validate_task compile tc) _ h in
      let (ts, _, h₂) = >>=-eq-ok (make_tasks reg tc' _) _ h₁ in
      (validate_task-IsTyped m tc tc' valid, visit-IsTyped ec ms _ v' h₂)

  routes_from-IsTyped :
      (authorizers : Authorizers W) (ecs : List EndpointConfig) (rs : List (Route W))
      → routes_from compile reg [] authorizers ecs ≡ ok rs
      → All (λ ec. All IsTyped ec.methods) ecs
  unfolding routes_from
  routes_from-IsTyped authorizers [] rs h = tt
  routes_from-IsTyped authorizers (ec ∷ ecs) rs h =
      let (ec', valid, h₁) = >>=-eq-ok (validate_endpoint compile ec) _ h in
      let (v, visited, h₂) = >>=-eq-ok (visit compile reg [] ec' ec'.methods start) _ h₁ in
      let (more, others, _) = >>=-eq-ok (routes_from compile reg [] authorizers ecs) _ h₂ in
      (
        subst (All IsTyped) (validate_endpoint_keeps compile reg [] ec ec' valid).0
            (visit-IsTyped ec' ec'.methods start v visited),
        routes_from-IsTyped authorizers ecs more others,
      )

  -- Where no type is ignored, the routes are made only where every method of every endpoint has a
  -- type of its own that is not blank, whatever the type of the endpoint is.
  pub routes-IsTyped :
      (decimal : ℕ → String) (factories : Dict (AuthorizerFactory W)) (config : Config)
      (rs : List (Route W))
      → routes compile reg [] decimal factories config ≡ ok rs
      → All (λ ec. All IsTyped ec.methods) config.endpoints
  unfolding routes
  routes-IsTyped decimal factories config rs h =
      let (authorizers, _, k) = >>=-eq-ok (get_authorizers decimal factories config) _ h in
      routes_from-IsTyped authorizers config.endpoints rs k
