-- ===== src/Utils.antt =====
-- utils.go: templates, and the test of a method against a list.
use goexpose.Common.{
  Bool, Error, List, [], String, false, inl, inr, true, ◌==◌, ◌||◌, ◌∷◌, ◌⊎◌, ◌≡◌, ◌↔◌, arith, map,
  contains, eq_iff, refl,
}
use goexpose.Dict.{Dict}
use goexpose.Value.{Value}

-- `Interpolate` as the tasks and authorizers use it
abbrev pub Interpolate : Type 0
Interpolate = String → Dict Value → Error ⊎ String

-- text/template: `template.New(name).Parse(text)` and `tpl.Execute(buffer, data)`
pub record Engine (Template : Type 0) : Type 0 where
  pub parse : String → Error ⊎ Template
  pub execute : Template → Dict Value → Error ⊎ String

module _ {Template : Type 0} (engine : Engine Template) where
  unfoldable pub render_template : Template → Dict Value → Error ⊎ String
  render_template tpl vars = elim (engine.execute tpl vars) [ inl e ↦ inl e | inr s ↦ inr s ]

  unfoldable pub interpolate : Interpolate
  unfolding render_template
  interpolate template vars = elim (engine.parse template) [
    | inl e ↦ inl e
    | inr tpl ↦ render_template tpl vars
  ]

-- `upper` is `strings.ToUpper`.
module _ (upper : String → String) where
  any_method : String → List String → Bool
  any_method method [] = false
  any_method method (am ∷ avail) = upper method == upper am || any_method method avail

  unfoldable pub method_allowed : String → List String → Bool
  unfolding any_method
  method_allowed method [] = true
  method_allowed method (am ∷ avail) = any_method method (am ∷ avail)

  any_method-contains :
      (method : String) (avail : List String)
      → any_method method avail ≡ contains (map upper avail) (upper method)
  unfolding any_method
  any_method-contains method [] = refl
  any_method-contains method (am ∷ avail) = ground (
    arith,
    any_method-contains method avail,
    eq_iff (upper method) (upper am),
    eq_iff (upper am) (upper method),
  )

  -- A method is allowed by an empty list, and else exactly where the list has it up to case.
  pub method_allowed_iff :
      (method : String) (avail : List String)
      → (method_allowed method avail ≡ true)
        ↔ ((avail ≡ []) ⊎ (contains (map upper avail) (upper method) ≡ true))
  unfolding method_allowed
  method_allowed_iff method [] = (λ h. inl refl, λ h. refl)
  method_allowed_iff method (am ∷ avail) = ground (arith, any_method-contains method (am ∷ avail))
