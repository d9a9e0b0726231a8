-- ===== src/Server/Factories/Kinds.antt =====
-- The kinds of tasks by what their factories call, and what the registry has for them.
use goexpose.Common.{
  All, Bool-cases, Error, String, false, inl, inr, ok, refl, some, true, ◌==◌, ◌≡◌, ◌⊎◌, length,
  ◌=ℕ◌, >>=-eq-ok, ok-injective,
}
use goexpose.Config.{Regexp, TaskConfig, validate_optional, validate_task}
use goexpose.Dict.{insert, lookup}
use goexpose.Registry.{register, register_all}
use goexpose.Server.Factories.{Plain, all_factories, tasks_init}
use goexpose.Server.Routes.{TaskFactory}
use goexpose.Tasks.Multi.{MultiConfig, new_config, out_of_bounds, validate}
use goexpose.Tasks.Single.{single_index}
use goexpose.Text.{trim_space}

abbrev pub IsSimple : String → Type 0
IsSimple type = (("info" == type) ≡ false) × (("multi" == type) ≡ false)

-- A task that is not an info task, and where it is a multi task runs neither of the two kinds.
pub record IsFlat (unmarshal : String → MultiConfig → Error ⊎ MultiConfig) (tc : TaskConfig)
    : Type 0 where
  pub not_info : ("info" == trim_space tc.type) ≡ false
  pub runs_simple :
      (m : MultiConfig)
      → ("multi" == trim_space tc.type) ≡ true
      → unmarshal tc.config new_config ≡ inr m
      → All (λ t. IsSimple (trim_space t.type)) m.tasks

pub validate_task_keeps :
    (compile : String → Error ⊎ Regexp) (tc tc' : TaskConfig)
    → validate_task compile tc ≡ ok tc'
    → (tc'.type ≡ trim_space tc.type) × (tc'.config ≡ tc.config)
unfolding validate_task
validate_task_keeps compile tc tc' h = elim (Bool-cases (trim_space tc.type == "")) [
  | inl e ↦ cc (rw e at h)
  | inr e ↦
      let (q, _, k) = >>=-eq-ok (validate_optional compile tc.query_params) _ (rw e at h) in
      let same = ok-injective k in (rw (← same) refl, rw (← same) refl)
]

pub multi_validate_keeps : (m m' : MultiConfig) → validate m ≡ ok m' → m'.tasks ≡ m.tasks
unfolding validate
multi_validate_keeps m m' h = elim (Bool-cases (length m.tasks =ℕ 0)) [
  | inl e ↦ cc (rw e at h)
  | inr e ↦
      let (i, _, k) =
        >>=-eq-ok (single_index out_of_bounds m.single_result (length m.tasks)) _ (rw e at h) in
      rw (← ok-injective k) refl
]

module _ {W : Type 0} (p : Plain W) where
  pub lookup-simple :
      (t : String) (i m i' m' : TaskFactory W)
      → IsSimple t
      → lookup t (all_factories p i m) ≡ lookup t (all_factories p i' m')
  unfolding lookup
  lookup-simple t i m i' m' (e, f) = rw (e, f) refl

  pub lookup-info :
      (t : String) (i m : TaskFactory W) → t ≡ "info" → lookup t (all_factories p i m) ≡ some i
  unfolding lookup
  lookup-info t i m e = rw e refl

  pub lookup-multi :
      (t : String) (i m : TaskFactory W) → t ≡ "multi" → lookup t (all_factories p i m) ≡ some m
  unfolding lookup
  lookup-multi t i m e = rw e refl

-- The registrations do not panic, and give the registry in their order.
pub tasks_init-all :
    {W : Type 0} (p : Plain W) (info multi : TaskFactory W)
    → tasks_init p info multi ≡ ok (all_factories p info multi)
unfolding tasks_init register_all register lookup insert
tasks_init-all p info multi = refl
