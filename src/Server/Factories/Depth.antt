-- ===== src/Server/Factories/Depth.antt =====
-- tasks.go and server.go: how deep the calls of the factories are nested.
use mathlib.Core.Path.{subst}
use goexpose.Auth.{AuthorizerFactory}
use goexpose.Common.{
  All, All-map, Bool-cases, Error, List, [], String, ap, arith, contains, eq_iff, inl, inr, ok,
  refl, suc, sym, true, zero, ℕ, ◌==◌, ◌∙◌, ◌≡◌, ◌∷◌, ◌⊎◌, >>=-cong,
}
use goexpose.Config.{Config, EndpointConfig, Regexp, TaskConfig, validate_task}
use goexpose.Dict.{Dict, lookup}
use goexpose.Effect.{outcome_inverse}
use goexpose.Registry.{get_task_factory}
use goexpose.Server.Factories.{Pass, Plain, registry, routes_for_info, server_routes}
use goexpose.Server.Routes.{TaskFactory, call_factory, make_tasks, told}
use goexpose.Server.Routes.Same.{Agrees, routes-cong}
use goexpose.Tasks.Multi.{MultiConfig, make_all, multi_task_factory, new_config}
use goexpose.Tasks.Info.{info_task_factory}
use goexpose.Text.{trim_space}
use goexpose.Server.Factories.Kinds.{
  IsFlat, IsSimple, lookup-info, lookup-multi, lookup-simple, multi_validate_keeps,
  validate_task_keeps,
}

module _ {W : Type 0} (compile : String → Error ⊎ Regexp) (decimal : ℕ → String)
    (authorizers : Dict (AuthorizerFactory W)) (config : Pass → Config) (version : String)
    (unmarshal : String → MultiConfig → Error ⊎ MultiConfig) (p : Plain W)
    (bottom bottom' : TaskFactory W) where
  abbrev R : Pass → ℕ → Dict (TaskFactory W)
  R = registry compile decimal authorizers config version unmarshal p bottom

  abbrev R' : Pass → ℕ → Dict (TaskFactory W)
  R' = registry compile decimal authorizers config version unmarshal p bottom'

  -- Of a simple type the registry gives the same at each depth.
  lookup_registry :
      (t : String) (pass : Pass) (n n' : ℕ)
      → IsSimple t
      → lookup t (R pass n) ≡ lookup t (R' pass n')
  unfolding registry
  lookup_registry t pass zero zero h = lookup-simple p t _ _ _ _ h
  lookup_registry t pass zero (suc n') h = lookup-simple p t _ _ _ _ h
  lookup_registry t pass (suc n) zero h = lookup-simple p t _ _ _ _ h
  lookup_registry t pass (suc n) (suc n') h = lookup-simple p t _ _ _ _ h

  make_tasks-simple :
      (pass : Pass) (n n' : ℕ) (tc : TaskConfig) (ec : EndpointConfig)
      → IsSimple tc.type
      → make_tasks (R pass n) tc ec ≡ make_tasks (R' pass n') tc ec
  unfolding make_tasks get_task_factory
  make_tasks-simple pass n n' tc ec h =
      ap (λ o. call_factory o tc ec) (lookup_registry tc.type pass n n' h)

  make_all-simple :
      (pass : Pass) (n n' : ℕ) (ec : EndpointConfig) (tcs : List TaskConfig)
      → All (λ t. IsSimple (trim_space t.type)) tcs
      → make_all compile (R pass n) ec tcs ≡ make_all compile (R' pass n') ec tcs
  unfolding make_all
  make_all-simple pass n n' ec [] h = refl
  make_all-simple pass n n' ec (tc ∷ tcs) h = elim (Bool-cases (tc.type == "multi")) [
    | inl e ↦ rw e refl
    | inr e ↦ rw e (
        >>=-cong refl λ tc' valid.
          >>=-cong
            (make_tasks-simple pass n n' tc' ec
              (subst IsSimple (sym (validate_task_keeps compile tc tc' valid).0) h.0))
            λ ts _. >>=-cong (make_all-simple pass n n' ec tcs h.1) λ more _. refl)
  ]

  multi-flat :
      (pass : Pass) (n n' : ℕ) (tc : TaskConfig) (ec : EndpointConfig)
      → ((m : MultiConfig)
          → unmarshal tc.config new_config ≡ inr m
          → All (λ t. IsSimple (trim_space t.type)) m.tasks)
      → multi_task_factory compile (R pass n) ec unmarshal tc
        ≡ multi_task_factory compile (R' pass n') ec unmarshal tc
  unfolding multi_task_factory
  multi-flat pass n n' tc ec h = >>=-cong refl λ m read. >>=-cong refl λ m' valid.
      >>=-cong
        (make_all-simple pass n n' ec m'.tasks (
          subst (All (λ t. IsSimple (trim_space t.type))) (sym (multi_validate_keeps m m' valid))
            (h m (outcome_inverse _ read))))
        λ ts _. refl

  make_multi :
      (pass : Pass) (n n' : ℕ) (tc : TaskConfig) (ec : EndpointConfig)
      → tc.type ≡ "multi"
      → ((m : MultiConfig)
          → unmarshal tc.config new_config ≡ inr m
          → All (λ t. IsSimple (trim_space t.type)) m.tasks)
      → make_tasks (R pass (suc n)) tc ec ≡ make_tasks (R' pass (suc n')) tc ec
  unfolding make_tasks get_task_factory registry
  make_multi pass n n' tc ec multi h =
      ap (λ o. call_factory o tc ec) (lookup-multi p tc.type _ _ multi)
      ∙ ap (told tc.type) (multi-flat pass n n' tc ec h)
      ∙ sym (ap (λ o. call_factory o tc ec) (lookup-multi p tc.type _ _ multi))

  make_tasks-flat :
      (pass : Pass) (n n' : ℕ) (tc tc' : TaskConfig) (ec : EndpointConfig)
      → IsFlat unmarshal tc
      → validate_task compile tc ≡ ok tc'
      → make_tasks (R pass (suc n)) tc' ec ≡ make_tasks (R' pass (suc n')) tc' ec
  make_tasks-flat pass n n' tc tc' ec flat valid =
      let (type, config') = validate_task_keeps compile tc tc' valid in
      elim (Bool-cases ("multi" == tc'.type)) [
        | inl multi ↦
            make_multi pass n n' tc' ec (sym ((eq_iff "multi" tc'.type).0 multi))
              λ m read. flat.runs_simple m (rw (← type) multi) (rw (← config') read)
        | inr other ↦ make_tasks-simple pass (suc n) (suc n') tc' ec (rw type flat.not_info, other)
      ]

  -- Each method that is not an info task as it is written is flat.
  abbrev pub IsShallow : Config → Type 0
  IsShallow met =
      All
        (λ ec.
          All (λ m. (contains ("info" ∷ []) m.1.type ≡ true) ⊎ IsFlat unmarshal m.1) ec.methods)
        met.endpoints

  routes_for_info-settled :
      (pass : Pass) (n n' : ℕ)
      → ((pass : Pass) → IsShallow (config pass))
      → routes_for_info compile decimal authorizers config version unmarshal p bottom pass (suc n)
        ≡ routes_for_info compile decimal authorizers config version unmarshal p bottom' pass
            (suc n')
  routes_for_info-settled pass n n' h =
      routes-cong compile (R pass (suc n)) (R' pass (suc n')) ("info" ∷ []) decimal authorizers
        (config pass)
        (All-map _ _ (config pass).endpoints (λ ec k. All-map _ _ ec.methods agree k) (h pass))
    where
      agree :
          (m : String × TaskConfig)
          → ((contains ("info" ∷ []) m.1.type ≡ true) ⊎ IsFlat unmarshal m.1)
          → Agrees compile (R pass (suc n)) (R' pass (suc n')) ("info" ∷ []) m
      agree m (inl skip) = inl skip
      agree m (inr flat) = inr λ tc' valid ec. make_tasks-flat pass n n' m.1 tc' ec flat valid

  make_info :
      (pass : Pass) (n n' : ℕ) (tc : TaskConfig) (ec : EndpointConfig)
      → ((pass : Pass) → IsShallow (config pass))
      → tc.type ≡ "info"
      → make_tasks (R pass (suc (suc n))) tc ec ≡ make_tasks (R' pass (suc (suc n'))) tc ec
  unfolding make_tasks get_task_factory registry
  make_info pass n n' tc ec h info =
      ap (λ o. call_factory o tc ec) (lookup-info p tc.type _ _ info)
      ∙ ap (λ rs. told tc.type (info_task_factory version rs))
          (routes_for_info-settled ((tc, ec) ∷ pass) n n' h)
      ∙ sym (ap (λ o. call_factory o tc ec) (lookup-info p tc.type _ _ info))

  info_type :
      (tc tc' : TaskConfig)
      → contains ("info" ∷ []) tc.type ≡ true
      → validate_task compile tc ≡ ok tc'
      → tc'.type ≡ "info"
  unfolding trim_space
  info_type tc tc' h valid =
      let same : tc.type ≡ "info" = ground (arith, eq_iff "info" tc.type) in
      (validate_task_keeps compile tc tc' valid).0 ∙ ap trim_space same

  -- The making of the routes ends: where each method is either of the type info, as it is written,
  -- or neither an info task nor a multi task with an info or a multi task in it (up to spaces
  -- around the type), the routes are the same whatever depth of at least two is allowed for the
  -- calls of the factories, and whatever would happen below, in whatever orders the nested calls of
  -- `routes` meet the methods.
  pub server_routes-settled :
      (n n' : ℕ)
      → ((pass : Pass) → IsShallow (config pass))
      → server_routes compile decimal authorizers config version unmarshal p bottom (suc (suc n))
        ≡ server_routes compile decimal authorizers config version unmarshal p bottom'
            (suc (suc n'))
  server_routes-settled n n' h =
      routes-cong compile (R [] (suc (suc n))) (R' [] (suc (suc n'))) [] decimal authorizers
        (config [])
        (All-map _ _ (config []).endpoints (λ ec k. All-map _ _ ec.methods agree k) (h []))
    where
      agree :
          (m : String × TaskConfig)
          → ((contains ("info" ∷ []) m.1.type ≡ true) ⊎ IsFlat unmarshal m.1)
          → Agrees compile (R [] (suc (suc n))) (R' [] (suc (suc n'))) [] m
      agree m (inl info) =
          inr λ tc' valid ec. make_info [] n n' tc' ec h (info_type m.1 tc' info valid)
      agree m (inr flat) =
          inr λ tc' valid ec. make_tasks-flat [] (suc n) (suc n') m.1 tc' ec flat valid
