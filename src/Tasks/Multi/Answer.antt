-- ===== src/Tasks/Multi/Answer.antt =====
-- What a multi task answers.
use mathlib.Core.Path.{subst}
use goexpose.Common.{
  Option, Result, err, panic, outcome, false, Bool-cases, Error, List, [], String, arith, inl, inr,
  length, ok, refl, some, ◌++◌, ◌=ℕ◌, ◌==◌, ◌≡◌, ◌∷◌, ◌⊎◌, >>=-eq-ok, ok-injective, ap, sym, ◌∙◌,
  suc,
}
use goexpose.Config.{EndpointConfig, Regexp, TaskConfig, validate_task}
use goexpose.Dict.{Dict}
use goexpose.Effect
use goexpose.Registry.{get_task_factory}
use goexpose.Request.{Request}
use goexpose.Response.{Response, new_response, status_ok}
use goexpose.Server.Routes.{TaskFactory, make_tasks}
use goexpose.Server.Routes.Sound.{make_tasks_inverse}
use goexpose.Tasks.{Tasker, task}
use goexpose.Tasks.Multi.{
  MultiConfig, make_all, multi_task_factory, new_config, out_of_bounds, run, run_all, validate,
}
use goexpose.Tasks.Single.{Finishes, finish, single_index, single_index-Finishes}
use goexpose.Value.{Value, ℤ}
use goexpose.Tasks.Multi.Went.{Went, length-Went, run_all-Went}

-- The registered factories make one task each, as all those of this program do.
abbrev pub MakesOne : {W : Type 0} → Dict (TaskFactory W) → Type 0
MakesOne {W} reg =
    (type : String) (factory : TaskFactory W)
    → get_task_factory type reg ≡ some factory
    → (tc : TaskConfig) (ec : EndpointConfig) (tasks : List (Tasker W)) → factory tc ec ≡ ok tasks
    → length tasks ≡ 1

module _ {W : Type 0} (r : Request) (vars : Dict Value) where
  -- The answer of a multi task that runs these tasks: their responses in order, finished as its
  -- `single_result` asks, or the panic of the first task that panics.
  pub data Answered (s : Option ℤ) (ts : List (Tasker W)) (w : W)
      : Result Response → W → Type 0 where
    answered :
        (rs : List Response) (i : ℤ) (w₁ : W)
        → Went r vars ts w (ok rs) w₁
        → Finishes s i rs (new_response status_ok)
        → Answered s ts w (finish i rs (new_response status_ok)) w₁
    panicked :
        (text : String) (w₁ : W)
        → Went r vars ts w (panic text) w₁
        → Answered s ts w (panic text) w₁
    failed : (e : Error) (w₁ : W) → Went r vars ts w (err e) w₁ → Answered s ts w (err e) w₁

module _ {W : Type 0} (compile : String → Error ⊎ Regexp) (reg : Dict (TaskFactory W))
    (ec : EndpointConfig) where
  -- One task for each configuration, in their order: made by the factory that its trimmed type names,
  -- of the validated configuration.
  pub data Makes : List TaskConfig → List (Tasker W) → Type 0 where
    all_made : Makes [] []
    one_made :
        {tc tc' : TaskConfig} {tcs : List TaskConfig} {t : Tasker W} {ts : List (Tasker W)}
        {factory : TaskFactory W}
        → (tc.type == "multi") ≡ false
        → validate_task compile tc ≡ ok tc'
        → get_task_factory tc'.type reg ≡ some factory
        → factory tc' ec ≡ ok (t ∷ [])
        → Makes tcs ts
        → Makes (tc ∷ tcs) (t ∷ ts)

  length-Makes :
      {tcs : List TaskConfig} {ts : List (Tasker W)} → Makes tcs ts → length ts ≡ length tcs
  length-Makes all_made = refl
  length-Makes (one_made other valid found made more) = ap suc (length-Makes more)

  only_one : {A : Type 0} (xs : List A) → length xs ≡ 1 → (x : A) × (xs ≡ x ∷ [])
  only_one [] h = absurd (omega arith)
  only_one (x ∷ []) h = (x, refl)
  only_one (x ∷ y ∷ xs) h = absurd (omega arith)

  make_all-Makes :
      (tcs : List TaskConfig) (ts : List (Tasker W))
      → MakesOne reg
      → make_all compile reg ec tcs ≡ ok ts
      → Makes tcs ts
  unfolding make_all
  make_all-Makes [] ts one h = subst (Makes []) (ok-injective h) all_made
  make_all-Makes (tc ∷ tcs) ts one h = elim (Bool-cases (tc.type == "multi")) [
    | inl embedded ↦ cc (rw embedded at h)
    | inr other ↦
        let (tc', valid, h₁) = >>=-eq-ok (validate_task compile tc) _ (rw other at h) in
        let (us, made, h₂) = >>=-eq-ok (make_tasks reg tc' ec) _ h₁ in
        let (more, rest, h₃) = >>=-eq-ok (make_all compile reg ec tcs) _ h₂ in
        let (f, found, produced) = make_tasks_inverse compile reg [] tc' ec us made in
        let (t, single) = only_one us (one tc'.type f found tc' ec us produced) in
        subst (Makes (tc ∷ tcs)) (ap (λ x. x ++ more) (sym single) ∙ ok-injective h₃)
          (one_made other valid found (produced ∙ ap ok single) (make_all-Makes tcs more one rest))
  ]

  validate_sound :
      (m m' : MultiConfig)
      → validate m ≡ ok m'
      → single_index out_of_bounds m'.single_result (length m'.tasks) ≡ ok m'.single_result_index
  unfolding validate
  validate_sound m m' h = elim (Bool-cases (length m.tasks =ℕ 0)) [
    | inl e ↦ cc (rw e at h)
    | inr e ↦
        let (i, index, k) =
          >>=-eq-ok (single_index out_of_bounds m.single_result (length m.tasks)) _ (rw e at h) in
        let same = ok-injective k in rw (← same) index
  ]

  validate_keeps :
      (m m' : MultiConfig)
      → validate m ≡ ok m'
      → (m'.tasks ≡ m.tasks) × (m'.single_result ≡ m.single_result)
  unfolding validate
  validate_keeps m m' h = elim (Bool-cases (length m.tasks =ℕ 0)) [
    | inl e ↦ cc (rw e at h)
    | inr e ↦
        let (i, index, k) =
          >>=-eq-ok (single_index out_of_bounds m.single_result (length m.tasks)) _ (rw e at h) in
        let same = ok-injective k in (rw (← same) refl, rw (← same) refl)
  ]

  run-Answered :
      (m : MultiConfig) (ts : List (Tasker W)) (r : Request) (vars : Dict Value) (w : W)
      → single_index out_of_bounds m.single_result (length m.tasks) ≡ ok m.single_result_index
      → length ts ≡ length m.tasks
      → Answered r vars m.single_result ts w (run m ts r vars w).0 (run m ts r vars w).1
  unfolding run
  run-Answered m ts r vars w index same = go (run_all ts r vars w) (run_all-Went r vars ts w)
    where
      go :
          (o : Result (List Response) × W)
          → Went r vars ts w o.0 o.1
          → let out =
              Effect.continue o.0
                (λ results.
                  Effect.pure (finish m.single_result_index results (new_response status_ok)))
                o.1 in
            Answered r vars m.single_result ts w out.0 out.1
      go (ok rs, w₁) went = answered rs m.single_result_index w₁ went (
          single_index-Finishes out_of_bounds m.single_result (length m.tasks) m.single_result_index
            rs (new_response status_ok) index (length-Went r vars went ∙ same))
      go (err e, w₁) went = failed e w₁ went
      go (panic text, w₁) went = panicked text w₁ went

  -- What the factory of the multi task makes, where the factories of its tasks make one task each: one
  -- task, that runs a task for each of its configurations, in their order, none of them written as a
  -- multi task. It answers with their responses in order, each from the state that the task before
  -- leaves, finished as `single_result` asks, and panics where one of them does, without running the
  -- ones after it.
  pub multi_task-Answered :
      (unmarshal : String → MultiConfig → Error ⊎ MultiConfig) (tc : TaskConfig)
      (made : List (Tasker W)) (r : Request) (vars : Dict Value) (w : W)
      → MakesOne reg
      → multi_task_factory compile reg ec unmarshal tc ≡ ok made
      → (m : MultiConfig) × (t : Tasker W) × (ts : List (Tasker W)) × (unmarshal tc.config
            new_config
          ≡ inr m)
        × (made ≡ t ∷ [])
        × Makes m.tasks ts
        × Answered r vars m.single_result ts w (t.run r vars w).0 (t.run r vars w).1
  unfolding multi_task_factory
  multi_task-Answered unmarshal tc made r vars w one h =
      let (m, decoded, h₁) = >>=-eq-ok (outcome (unmarshal tc.config new_config)) _ h in
      let (m', valid, h₂) = >>=-eq-ok (validate m) _ h₁ in
      let (ts, all, h₃) = >>=-eq-ok (make_all compile reg ec m'.tasks) _ h₂ in
      let makes = make_all-Makes m'.tasks ts one all in
      let (same_tasks, same_single) = validate_keeps m m' valid in
      (
        m,
        task (run m' ts),
        ts,
        Effect.outcome_inverse _ decoded,
        sym (ok-injective h₃),
        subst (λ x. Makes x ts) same_tasks makes,
        subst (λ s. Answered r vars s ts w (run m' ts r vars w).0 (run m' ts r vars w).1)
            same_single
            (run-Answered m' ts r vars w (validate_sound m m' valid) (length-Makes makes)),
      )
