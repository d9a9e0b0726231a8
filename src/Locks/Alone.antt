-- ===== src/Locks/Alone.antt =====
-- The functions with their calls of the lock, where no other goroutine comes between, against the
-- functions that the other modules have without them.
use goexpose.Auth.{
  AuthorizerFactory, Authorizers, check_endpoints, check_methods, check_names, find_factory,
  get_authorizers, make_authorizers,
}
use goexpose.Common.{
  Bool, Bool-cases, List, [], Option-cases, Result, Result-cases, String, Sum-cases, err, inl, inr,
  none, ok, panic, refl, ℕ, ◌==◌, ◌≡◌, ◌∷◌, Option, ap, ◌∙◌, ◌>>=◌, ◌>>◌, suc, false,
}
use goexpose.Config.{AuthorizerConfig, Config, EndpointConfig, TaskConfig, validate_authorizer}
use goexpose.Dict.{Dict, has, insert, lookup}
use goexpose.Formats.{
  FormatFunc, Formatted, format, formats_delimiter, format_parts, verify_format, verify_parts,
}
use goexpose.Locks.{Program, r_unlock, return, run_alone}
use goexpose.Locks.Registries.{
  format_program, format_program_from, get_authorizers_program, get_task_factory_program, is_some,
  joined, authorizer_exists_program, make_program, register_program, verify_format_program,
  verify_program,
}
use goexpose.Text.{split}
use goexpose.Value.{null}
use goexpose.Registry.{authorizer_exists, get_task_factory, register}

module _ {F A : Type 0} where
  -- What a registration leaves, with the goroutine's result.
  abbrev pub after_register : (Result (Unit {0}) → A) → Dict F → Result (Dict F) → A × Dict F
  after_register answer m (ok m') = (answer (ok tt), m')
  after_register answer m (err e) = (answer (err e), m)
  after_register answer m (panic text) = (answer (panic text), m)

  pub run_alone-register :
      (answer : Result (Unit {0}) → A) (message : String → String) (id : String) (f : F)
      (m : Dict F)
      → run_alone (register_program answer message id f) m
        ≡ after_register answer m (register message id f m)
  unfolding register_program register
  run_alone-register answer message id f m = elim (Option-cases (lookup id m)) [
    | inl e ↦ rw (e, run_alone, has, is_some) refl
    | inr (taken, e) ↦ rw (e, run_alone, has, is_some) refl
  ]

  pub run_alone-get_task_factory :
      (answer : Option F → A) (id : String) (m : Dict F)
      → run_alone (get_task_factory_program answer id) m ≡ (answer (get_task_factory id m), m)
  unfolding get_task_factory_program get_task_factory
  run_alone-get_task_factory answer id m = refl

  pub run_alone-authorizer_exists :
      (answer : Bool → A) (id : String) (m : Dict F)
      → run_alone (authorizer_exists_program answer id) m ≡ (answer (authorizer_exists id m), m)
  unfolding authorizer_exists_program authorizer_exists
  run_alone-authorizer_exists answer id m = elim (Option-cases (lookup id m)) [
    | inl e ↦ rw (e, has, is_some) refl
    | inr (f, e) ↦ rw (e, has, is_some) refl
  ]

-- The check of the endpoints uses no registry.
module _ {W : Type 0} (decimal : ℕ → String) (reg : Dict (AuthorizerFactory W)) where
  names_same :
      (i : ℕ) (ns : List String) (a : Authorizers W)
      → check_names decimal [] i ns a ≡ check_names decimal reg i ns a
  unfolding check_names
  names_same i [] a = refl
  names_same i (n ∷ ns) a = rw (names_same i ns a) refl

  methods_same :
      (i : ℕ) (ms : Dict TaskConfig) (a : Authorizers W)
      → check_methods decimal [] i ms a ≡ check_methods decimal reg i ms a
  unfolding check_methods
  methods_same i [] a = refl
  methods_same i ((m, tc) ∷ rest) a = rw (names_same i tc.authorizers a, methods_same i rest a) refl

  endpoints_same :
      (i : ℕ) (ecs : List EndpointConfig) (a : Authorizers W)
      → check_endpoints decimal [] i ecs a ≡ check_endpoints decimal reg i ecs a
  unfolding check_endpoints
  endpoints_same i [] a = refl
  endpoints_same i (ec ∷ rest) a =
      rw (methods_same i ec.methods a, endpoints_same (suc i) rest a) refl

module _ {W A : Type 0} (decimal : ℕ → String) (reg : Dict (AuthorizerFactory W)) where
  make_alone :
      (acs : Dict AuthorizerConfig) (result : Authorizers W)
      (leave : Result (Authorizers W) → Program (AuthorizerFactory W) A)
      → run_alone (make_program acs result leave) reg
        ≡ run_alone (leave (make_authorizers decimal reg acs result)) reg
  unfolding make_authorizers validate_authorizer authorizer_exists find_factory
  make_alone [] result leave = refl
  make_alone ((an, ac) ∷ rest) result leave = elim (Option-cases (lookup ac.type reg)) [
    | inl e ↦ rw (e, run_alone, has, is_some) refl
    | inr (factory, e) ↦ elim (Result-cases (factory ac)) [
      | inl (a, made) ↦
          rw (e, has, is_some, run_alone, find_factory, e, made)
            (make_alone rest (insert an a result) leave)
      | inr (inl (x, made)) ↦ rw (e, has, is_some, run_alone, find_factory, e, made) refl
      | inr (inr (text, made)) ↦ rw (e, has, is_some, run_alone, find_factory, e, made) refl
    ]
  ]

  pub run_alone-get_authorizers :
      (answer : Result (Authorizers W) → A) (config : Config)
      → run_alone (get_authorizers_program decimal answer config) reg
        ≡ (answer (get_authorizers decimal reg config), reg)
  unfolding get_authorizers_program get_authorizers
  run_alone-get_authorizers answer config =
      make_alone config.authorizers [] _
      ∙ ap (λ r. (answer r, reg))
          (ap (λ next. make_authorizers decimal reg config.authorizers [] >>= next)
            (λ i made. endpoints_same decimal reg 0 config.endpoints made i >> ok made))

module _ {A : Type 0} (reg : Dict FormatFunc) where
  verify_alone :
      (parts ff : List String) (found_text : Bool)
      (leave : Result (List String × Bool) → Program FormatFunc A)
      → run_alone (verify_program parts ff found_text leave) reg
        ≡ run_alone (leave (verify_parts reg parts ff found_text)) reg
  unfolding verify_parts
  verify_alone [] ff found_text leave = refl
  verify_alone (part ∷ parts) ff found_text leave = elim (Bool-cases (part == "")) [
    | inl blank ↦ rw (blank, run_alone) (verify_alone parts ff found_text leave)
    | inr named ↦ elim (Option-cases (lookup part reg)) [
      | inl e ↦ rw (named, e, run_alone, has, is_some) refl
      | inr (f, e) ↦ rw (named, e, run_alone, has) (verify_alone parts _ _ leave)
    ]
  ]

  pub run_alone-verify_format :
      (answer : Result String → A) (format : String)
      → run_alone (verify_format_program answer format) reg
        ≡ (answer (verify_format reg format), reg)
  unfolding verify_format_program verify_format
  run_alone-verify_format answer format =
      verify_alone (split formats_delimiter format) [] false
        (λ parts. r_unlock (return (answer (joined parts))))

  format_alone :
      (parts : List String) (body : String) (acc : Formatted)
      (leave : Formatted → Program FormatFunc A)
      → run_alone (format_program_from parts body acc leave) reg
        ≡ run_alone (leave (format_parts reg body parts acc)) reg
  unfolding format_parts
  format_alone [] body acc leave = refl
  format_alone (part ∷ parts) body acc leave = elim (Option-cases (lookup part reg)) [
    | inl e ↦ rw (e, run_alone, format_parts) refl
    | inr (f, e) ↦ elim (Sum-cases (f body)) [
      | inl (x, failed) ↦ rw (e, run_alone, format_parts, failed) (format_alone parts body _ leave)
      | inr (v, worked) ↦ rw (e, worked, run_alone, format_parts) refl
    ]
  ]

  pub run_alone-format :
      (answer : Formatted → A) (body f : String)
      → run_alone (format_program answer body f) reg ≡ (answer (format reg body f), reg)
  unfolding format_program format
  run_alone-format answer body f =
      format_alone (split formats_delimiter f) body
        (record { value = null; format = ""; error = none }) (λ out. r_unlock (return (answer out)))
