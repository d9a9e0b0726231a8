-- ===== src/Server/Routes/Same.antt =====
-- server.go: the routes that `routes` makes with one registry of task factories or another.
use mathlib.Core.Path.{subst}
use goexpose.Auth.{AuthorizerFactory, Authorizers}
use goexpose.Common.{
  All, Bool-cases, Error, List, [], String, contains, inl, inr, ok, refl, sym, true, ℕ, ◌≡◌, ◌∷◌,
  ◌⊎◌, >>=-cong,
}
use goexpose.Config.{Config, EndpointConfig, Regexp, TaskConfig, validate_task}
use goexpose.Dict.{Dict}
use goexpose.Server.Routes.{TaskFactory, Visit, make_tasks, routes, routes_from, start, visit}
use goexpose.Server.Routes.Sound.{validate_endpoint_keeps}

-- Two registries that make the same tasks of what the loops ask for give the same routes.
module _ {W : Type 0} (compile : String → Error ⊎ Regexp) (reg reg' : Dict (TaskFactory W)) where
  abbrev pub Agree : TaskConfig → Type 0
  Agree tc =
      (tc' : TaskConfig)
      → validate_task compile tc ≡ ok tc'
      → (ec : EndpointConfig) → make_tasks reg tc' ec ≡ make_tasks reg' tc' ec

  module _ (ignored : List String) where
    abbrev pub Agrees : String × TaskConfig → Type 0
    Agrees m = (contains ignored m.1.type ≡ true) ⊎ Agree m.1

    visit-cong :
        (ec : EndpointConfig) (rest : Dict TaskConfig) (v : Visit W)
        → All Agrees rest
        → visit compile reg ignored ec rest v ≡ visit compile reg' ignored ec rest v
    unfolding visit
    visit-cong ec [] v h = refl
    visit-cong ec ((m, tc) ∷ rest) v (inl skip, h) = rw skip refl
    visit-cong ec ((m, tc) ∷ rest) v (inr agree, h) = elim (Bool-cases (contains ignored tc.type)) [
      | inl skip ↦ rw skip refl
      | inr keep ↦
          rw keep
            (>>=-cong refl λ tc' valid. >>=-cong (agree tc' valid _) λ ts _. visit-cong ec rest _ h)
    ]

    routes_from-cong :
        (authorizers : Authorizers W) (ecs : List EndpointConfig)
        → All (λ ec. All Agrees ec.methods) ecs
        → routes_from compile reg ignored authorizers ecs
          ≡ routes_from compile reg' ignored authorizers ecs
    unfolding routes_from
    routes_from-cong authorizers [] h = refl
    routes_from-cong authorizers (ec ∷ rest) h = >>=-cong refl λ ec' valid.
        >>=-cong
          (visit-cong ec' ec'.methods start (
            subst (All Agrees) (sym (validate_endpoint_keeps compile reg ignored ec ec' valid).0)
              h.0))
          λ v _. >>=-cong (routes_from-cong authorizers rest h.1) λ more _. refl

    pub routes-cong :
        (decimal : ℕ → String) (factories : Dict (AuthorizerFactory W)) (config : Config)
        → All (λ ec. All Agrees ec.methods) config.endpoints
        → routes compile reg ignored decimal factories config
          ≡ routes compile reg' ignored decimal factories config
    unfolding routes
    routes-cong decimal factories config h =
        >>=-cong refl λ authorizers _. routes_from-cong authorizers config.endpoints h
