-- ===== src/Server/Factories/Loops.antt =====
-- tasks.go and server.go: configurations whose tasks ask for the routes while these are made.
use mathlib.Core.List.{Memᴰ}
use mathlib.Core.Option.{some-injective}
use mathlib.Core.Path.{subst}
use goexpose.Auth.{AuthorizerFactory}
use goexpose.Common.{
  Error, List, [], Option, Result, String, ap, arith, contains, false, inr, ok, outcome, panic,
  refl, some, suc, sym, zero, ℕ, ◌<◌, ◌∙◌, ◌≡◌, ◌≢◌, ◌∷◌, ◌⊎◌, >>=-eq-ok, ok-injective,
}
use goexpose.Config.{Config, EndpointConfig, Regexp, TaskConfig}
use goexpose.Dict.{Dict}
use goexpose.Registry.{get_task_factory}
use goexpose.Server.Factories.{Pass, Plain, registry, routes_for_info, server_routes}
use goexpose.Server.Factories.Kinds.{
  lookup-info, lookup-multi, multi_validate_keeps, validate_task_keeps,
}
use goexpose.Server.Routes.{Route, TaskFactory, make_tasks, routes}
use goexpose.Server.Routes.Sound.{make_tasks_inverse}
use goexpose.Tasks.{Tasker}
use goexpose.Tasks.Info.{info_task_factory}
use goexpose.Tasks.Multi.{MultiConfig, make_all, multi_task_factory, new_config, validate}
use goexpose.Text.{trim_space}
use goexpose.Server.Routes.Made.{IsMade, make_all-IsMade, routes-IsMade}

-- A task whose factory makes the routes for an info task: it is one, or a multi task that runs one.
pub data CallsInfo (unmarshal : String → MultiConfig → Error ⊎ MultiConfig) (tc : TaskConfig)
    : Type 0 where
  is_info : trim_space tc.type ≡ "info" → CallsInfo unmarshal tc
  runs_info :
      (m : MultiConfig) (t : TaskConfig)
      → trim_space tc.type ≡ "multi"
      → unmarshal tc.config new_config ≡ inr m
      → Memᴰ t m.tasks
      → trim_space t.type ≡ "info"
      → CallsInfo unmarshal tc

-- A call of `routes` that meets the configuration so starts an endpoint with a task that is not
-- skipped and makes the routes for an info task.
pub record StartsCalling (unmarshal : String → MultiConfig → Error ⊎ MultiConfig) (met : Config)
    : Type 0 where
  pub endpoint : EndpointConfig
  pub method : String
  pub tc : TaskConfig
  pub rest : Dict TaskConfig
  pub among : Memᴰ endpoint met.endpoints
  pub first : endpoint.methods ≡ (method, tc) ∷ rest
  pub keep : contains ("info" ∷ []) tc.type ≡ false
  pub calls : CallsInfo unmarshal tc

module _ {W : Type 0} (compile : String → Error ⊎ Regexp) (decimal : ℕ → String)
    (authorizers : Dict (AuthorizerFactory W)) (config : Pass → Config) (version : String)
    (unmarshal : String → MultiConfig → Error ⊎ MultiConfig) (p : Plain W) where
  -- What a call does at the end of the stack.
  abbrev overflow : TaskFactory W
  overflow tc ec = panic "stack overflow"

  abbrev R : Pass → ℕ → Dict (TaskFactory W)
  R = registry compile decimal authorizers config version unmarshal p overflow

  abbrev for_info : Pass → ℕ → Result (List (Route W))
  for_info = routes_for_info compile decimal authorizers config version unmarshal p overflow

  -- A lower depth at which the routes for the info task have been made.
  abbrev MadeBelow : ℕ → Type 0
  MadeBelow n =
      (k : ℕ) × (k < n) × (pass : Pass) × (rs : List (Route W)) × (for_info pass k ≡ ok rs)

  at_type :
      {f g : TaskFactory W} {o : Option (TaskFactory W)} (tc : TaskConfig) (ec : EndpointConfig)
      {ts : List (Tasker W)}
      → o ≡ some f
      → o ≡ some g
      → f tc ec ≡ ok ts
      → g tc ec ≡ ok ts
  at_type tc ec found known made = ap (λ h. h tc ec) (some-injective _ _ (sym known ∙ found)) ∙ made

  info_made :
      (pass : Pass) (n : ℕ) (tc : TaskConfig) (ec : EndpointConfig) (ts : List (Tasker W))
      → tc.type ≡ "info"
      → make_tasks (R pass n) tc ec ≡ ok ts
      → MadeBelow n
  unfolding registry get_task_factory info_task_factory
  info_made pass zero tc ec ts info h =
      let (f, found, made) = make_tasks_inverse compile (R pass 0) [] tc ec ts h in
      cc (at_type tc ec found (lookup-info p tc.type _ _ info) made)
  info_made pass (suc n) tc ec ts info h =
      let (f, found, made) = make_tasks_inverse compile (R pass (suc n)) [] tc ec ts h in
      let called = at_type tc ec found (lookup-info p tc.type _ _ info) made in
      let (rs, routed, _) = >>=-eq-ok (for_info ((tc, ec) ∷ pass) n) _ called in
      (n, omega arith, (tc, ec) ∷ pass, rs, routed)

  multi_made :
      (pass : Pass) (n : ℕ) (tc : TaskConfig) (ec : EndpointConfig) (ts : List (Tasker W))
      (m : MultiConfig) (t : TaskConfig)
      → tc.type ≡ "multi"
      → make_tasks (R pass n) tc ec ≡ ok ts
      → unmarshal tc.config new_config ≡ inr m
      → Memᴰ t m.tasks
      → trim_space t.type ≡ "info"
      → MadeBelow n
  unfolding registry get_task_factory multi_task_factory
  multi_made pass zero tc ec ts m t multi h read among info =
      let (f, found, made) = make_tasks_inverse compile (R pass 0) [] tc ec ts h in
      cc (at_type tc ec found (lookup-multi p tc.type _ _ multi) made)
  multi_made pass (suc n) tc ec ts m t multi h read among info =
      let (f, found, made) = make_tasks_inverse compile (R pass (suc n)) [] tc ec ts h in
      let called = at_type tc ec found (lookup-multi p tc.type _ _ multi) made in
      let (m₁, e, h₁) = >>=-eq-ok (outcome (unmarshal tc.config new_config)) _ called in
      let (m', valid, h₂) = >>=-eq-ok (validate m₁) _ h₁ in
      let (us, all, _) = >>=-eq-ok (make_all compile (R pass n) ec m'.tasks) _ h₂ in
      let same : m'.tasks ≡ m.tasks =
        multi_validate_keeps m₁ m' valid
        ∙ ap (λ o. o.tasks) (ok-injective (sym e ∙ ap outcome read)) in
      let (t', checked, ec', vs, made') =
        make_all-IsMade compile (R pass n) ec m'.tasks us all (subst (Memᴰ t) (sym same) among) in
      let (k, below, inner, rs, routed) =
        info_made pass n t' ec' vs ((validate_task_keeps compile t t' checked).0 ∙ info) made' in
      (k, omega arith, inner, rs, routed)

  calls_made :
      (pass : Pass) (n : ℕ) (tc : TaskConfig)
      → IsMade compile (R pass n) tc
      → CallsInfo unmarshal tc
      → MadeBelow n
  calls_made pass n tc (tc', valid, ec, ts, made) (is_info info) =
      info_made pass n tc' ec ts ((validate_task_keeps compile tc tc' valid).0 ∙ info) made
  calls_made pass n tc (tc', valid, ec, ts, made) (runs_info m t multi read among info) =
      let (type, config') = validate_task_keeps compile tc tc' valid in
      multi_made pass n tc' ec ts m t (type ∙ multi) made
        (ap (λ c. unmarshal c new_config) config' ∙ read) among info

  module _ (starts : (pass : Pass) → StartsCalling unmarshal (config pass)) where
    calls_below :
        (pass : Pass) (ignored : List String) (n : ℕ) (rs : List (Route W))
        → (contains ignored (starts pass).tc.type ≡ false)
        → routes compile (R pass n) ignored decimal authorizers (config pass) ≡ ok rs
        → MadeBelow n
    calls_below pass ignored n rs keep h =
        let s = starts pass in
        let made =
          routes-IsMade compile (R pass n) ignored decimal authorizers (config pass) rs s.method
            s.tc s.rest h s.among s.first keep in
        calls_made pass n s.tc made s.calls

    for_info-never :
        (bound : ℕ) (pass : Pass) (n : ℕ) (rs : List (Route W))
        → n < bound
        → for_info pass n ≢ ok rs
    for_info-never zero pass n rs below h = omega arith
    for_info-never (suc bound) pass n rs below h =
        let (k, lower, inner, rs', routed) =
          calls_below pass ("info" ∷ []) n rs (starts pass).keep h in
        for_info-never bound inner k rs' (omega arith) routed

    -- A server does not get its routes, however deep the stack is, where in each call of `routes`,
    -- the nested ones included, the first method that the call meets of some endpoint is a multi task
    -- with an info task in it, or an info task with spaces around its type: making the routes then
    -- asks for the routes again, without end. So it is in whatever order Go goes over the methods,
    -- where that endpoint has one method.
    pub server_routes-never :
        (depth : ℕ) (rs : List (Route W))
        → server_routes compile decimal authorizers config version unmarshal p overflow depth
          ≢ ok rs
    server_routes-never depth rs h =
        let (k, lower, inner, rs', routed) = calls_below [] [] depth rs refl h in
        for_info-never (suc k) inner k rs' (omega arith) routed
