-- ===== src/Config/Again.antt =====
-- Validating what has been validated already: the info task makes the routes of its server a second
-- time, after their configuration has been validated in place.
use mathlib.Core.Path.{subst}
use goexpose.Common.{
  Bool-cases, Error, [], Result, String, Sum-cases, inl, inr, none, ok, refl, some, ◌==◌, ◌∷◌, ◌≡◌,
  ◌⊎◌, >>=-eq-ok, ok-injective,
}
use goexpose.Config.{
  Regexp, validate_endpoint, validate_optional, validate_param, validate_params,
  validate_query_params, validate_task,
}
use goexpose.Text.{trim_space}
use goexpose.Text.Trim.{trim_space_idem}

-- What the function accepts it gives in a form that it accepts as it is.
abbrev pub Settles : {A : Type 0} → (A → Result A) → Type 0
Settles {A} f = (x y : A) → f x ≡ ok y → f y ≡ ok y

module _ (compile : String → Error ⊎ Regexp) where
  validate_param-Settles : Settles (validate_param compile)
  unfolding validate_param
  validate_param-Settles p q h = elim (Bool-cases (trim_space p.name == "")) [
    | inl e ↦ cc (rw e at h)
    | inr e ↦ elim (Bool-cases (trim_space p.regexp == "")) [
      | inl blank ↦
          let same = ok-injective (rw (e, blank) at h) in
          rw (← same, trim_space_idem p.name, trim_space_idem p.regexp, e, blank) refl
      | inr given ↦ elim (Sum-cases (compile (trim_space p.regexp))) [
        | inl (x, bad) ↦ cc (rw (e, given, bad) at h)
        | inr (re, good) ↦
            let same = ok-injective (rw (e, given, good) at h) in
            subst (λ x. validate_param compile x ≡ ok x) same
              (rw (trim_space_idem p.name, trim_space_idem p.regexp, e, given, good)
                (rw (trim_space_idem p.name, trim_space_idem p.regexp) refl))
      ]
    ]
  ]

  validate_params-Settles : Settles (validate_params compile)
  unfolding validate_params
  validate_params-Settles [] qs h = rw (← ok-injective h) refl
  validate_params-Settles (p ∷ ps) qs h =
      let (q, e, h₁) = >>=-eq-ok (validate_param compile p) _ h in
      let (rest, e', h₂) = >>=-eq-ok (validate_params compile ps) _ h₁ in
      rw (← ok-injective h₂)
        (rw (validate_param-Settles p q e, validate_params-Settles ps rest e') refl)

  validate_query_params-Settles : Settles (validate_query_params compile)
  unfolding validate_query_params
  validate_query_params-Settles q r h =
      let (ps, e, h₁) = >>=-eq-ok (validate_params compile q.params) _ h in
      rw (← ok-injective h₁) (rw (validate_params-Settles q.params ps e) refl)

  validate_optional-Settles : Settles (validate_optional compile)
  unfolding validate_optional
  validate_optional-Settles none o h = rw (← ok-injective h) refl
  validate_optional-Settles (some q) o h =
      let (q', e, h₁) = >>=-eq-ok (validate_query_params compile q) _ h in
      rw (← ok-injective h₁) (rw (validate_query_params-Settles q q' e) refl)

  -- An endpoint that has been validated is validated again without an error or a change.
  pub validate_endpoint-Settles : Settles (validate_endpoint compile)
  unfolding validate_endpoint
  validate_endpoint-Settles ec ec' h =
      let (q, e, h₁) = >>=-eq-ok (validate_optional compile ec.query_params) _ h in
      rw (← ok-injective h₁)
        (rw (validate_optional-Settles ec.query_params q e, trim_space_idem) refl)

  -- A task that has been validated is validated again without an error or a change.
  pub validate_task-Settles : Settles (validate_task compile)
  unfolding validate_task
  validate_task-Settles tc tc' h = elim (Bool-cases (trim_space tc.type == "")) [
    | inl e ↦ cc (rw e at h)
    | inr e ↦
        let (q, found, h₁) = >>=-eq-ok (validate_optional compile tc.query_params) _ (rw e at h) in
        rw (← ok-injective h₁) (
          rw
            (
              validate_optional-Settles tc.query_params q found,
              trim_space_idem tc.type,
              trim_space_idem tc.description,
              e,
            )
            refl)
  ]
