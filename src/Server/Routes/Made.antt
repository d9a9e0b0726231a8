-- ===== src/Server/Routes/Made.antt =====
-- server.go: the tasks behind the routes that `routes` has made.
use mathlib.Core.List.{Memᴰ}
use mathlib.Core.List.Memᴰ
use mathlib.Core.Path.{subst}
use goexpose.Auth.{AuthorizerFactory, Authorizers, get_authorizers}
use goexpose.Common.{
  Bool-cases, Error, List, [], String, ap, contains, false, inl, inr, ok, sym, ℕ, ◌==◌, ◌∙◌, ◌≡◌,
  ◌∷◌, ◌⊎◌, >>=-eq-ok,
}
use goexpose.Config.{Config, EndpointConfig, Regexp, TaskConfig, validate_endpoint, validate_task}
use goexpose.Dict.{Dict}
use goexpose.Server.Routes.{
  Route, TaskFactory, Visit, make_tasks, routes, routes_from, start, visit,
}
use goexpose.Server.Routes.Sound.{validate_endpoint_keeps}
use goexpose.Tasks.{Tasker}
use goexpose.Tasks.Multi.{make_all}

module _ {W : Type 0} (compile : String → Error ⊎ Regexp) (reg : Dict (TaskFactory W)) where
  -- The tasks of the configuration have been made.
  abbrev pub IsMade : TaskConfig → Type 0
  IsMade tc =
      (tc' : TaskConfig) × (validate_task compile tc ≡ ok tc')
      × (ec : EndpointConfig) × (ts : List (Tasker W)) × (make_tasks reg tc' ec ≡ ok ts)

  pub make_all-IsMade :
      (ec : EndpointConfig) (tcs : List TaskConfig) (ts : List (Tasker W)) {t : TaskConfig}
      → make_all compile reg ec tcs ≡ ok ts
      → Memᴰ t tcs
      → IsMade t
  unfolding make_all
  make_all-IsMade ec [] ts h m = absurd (Memᴰ.not-nil m)
  make_all-IsMade ec (tc ∷ tcs) ts h m = elim (Bool-cases (tc.type == "multi")) [
    | inl e ↦ cc (rw e at h)
    | inr e ↦
        let (tc', valid, h₁) = >>=-eq-ok (validate_task compile tc) _ (rw e at h) in
        let (us, made, h₂) = >>=-eq-ok (make_tasks reg tc' ec) _ h₁ in
        let (more, others, h₃) = >>=-eq-ok (make_all compile reg ec tcs) _ h₂ in
        elim (Memᴰ.cases_cons m) [
          | inl same ↦ subst IsMade (sym same) (tc', valid, ec, us, made)
          | inr later ↦ make_all-IsMade ec tcs more others later
        ]
  ]

  module _ (ignored : List String) where
    first-IsMade :
        (ec : EndpointConfig) (m : String) (tc : TaskConfig) (rest : Dict TaskConfig) {v : Visit W}
        → contains ignored tc.type ≡ false
        → visit compile reg ignored ec ((m, tc) ∷ rest) start ≡ ok v
        → IsMade tc
    unfolding visit
    first-IsMade ec m tc rest keep h =
        let (tc', valid, h₁) = >>=-eq-ok (validate_task compile tc) _ (rw keep at h) in
        let (ts, made, h₂) = >>=-eq-ok (make_tasks reg tc' _) _ h₁ in (tc', valid, _, ts, made)

    routes_from-IsMade :
        (authorizers : Authorizers W) (ecs : List EndpointConfig) (rs : List (Route W))
        {ec : EndpointConfig} (m : String) (tc : TaskConfig) (rest : Dict TaskConfig)
        → routes_from compile reg ignored authorizers ecs ≡ ok rs
        → Memᴰ ec ecs
        → ec.methods ≡ (m, tc) ∷ rest
        → contains ignored tc.type ≡ false
        → IsMade tc
    unfolding routes_from
    routes_from-IsMade authorizers [] rs m tc rest h among first keep = absurd (Memᴰ.not-nil among)
    routes_from-IsMade authorizers (x ∷ ecs) rs m tc rest h among first keep =
        let (ec', valid, h₁) = >>=-eq-ok (validate_endpoint compile x) _ h in
        let (v, visited, h₂) = >>=-eq-ok (visit compile reg ignored ec' ec'.methods start) _ h₁ in
        let (more, others, h₃) = >>=-eq-ok (routes_from compile reg ignored authorizers ecs) _ h₂ in
        elim (Memᴰ.cases_cons among) [
          | inl same ↦
              let methods : ec'.methods ≡ (m, tc) ∷ rest =
                (validate_endpoint_keeps compile reg ignored x ec' valid).0
                ∙ ap (λ y. y.methods) (sym same)
                ∙ first in
              first-IsMade ec' m tc rest keep (rw methods at visited)
          | inr later ↦ routes_from-IsMade authorizers ecs more m tc rest others later first keep
        ]

    pub routes-IsMade :
        (decimal : ℕ → String) (factories : Dict (AuthorizerFactory W)) (config : Config)
        (rs : List (Route W)) {ec : EndpointConfig} (m : String) (tc : TaskConfig)
        (rest : Dict TaskConfig)
        → routes compile reg ignored decimal factories config ≡ ok rs
        → Memᴰ ec config.endpoints
        → ec.methods ≡ (m, tc) ∷ rest
        → contains ignored tc.type ≡ false
        → IsMade tc
    unfolding routes
    routes-IsMade decimal factories config rs m tc rest h among first keep =
        let (authorizers, _, h₁) = >>=-eq-ok (get_authorizers decimal factories config) _ h in
        routes_from-IsMade authorizers config.endpoints rs m tc rest h₁ among first keep
