-- ===== src/Config/Params.antt =====
-- What reaches a task as its query parameters.
use goexpose.Common.{
  All, Bool-cases, Error, List, [], String, false, if◌then◌else◌, inl, inr, ok, some, true, ◌==◌,
  ◌∷◌, ◌≡◌, ◌⊎◌, refl, >>=-eq-ok, ok-injective, Sum-cases, sym,
}
use goexpose.Config.{
  QueryParam, QueryParams, Regexp, add_param, add_params, admits, get_params, validate_param,
  validate_params, validate_query_params,
}
use goexpose.Dict.{Dict, insert, lookup, lookup-nil, insert_cases}
use goexpose.Text.{trim_space}
use goexpose.Text.Trim.{trim_space_idem}
use mathlib.Core.Path.{subst}

-- The value `v` may stand for the parameter `p`: it is what the request gives, trimmed, not empty
-- and matched by the expression; or it is the default, not empty, and what the request gives is
-- empty or not matched.
pub data Allows (query : String → String) (p : QueryParam) (v : String) : Type 0 where
  given :
      v ≡ trim_space (query p.name)
      → (v == "") ≡ false
      → admits p.compiled v ≡ true
      → Allows query p v
  defaulted :
      v ≡ p.default
      → (v == "") ≡ false
      → ((trim_space (query p.name) == "") ≡ true)
        ⊎ (admits p.compiled (trim_space (query p.name)) ≡ false)
      → Allows query p v

-- Some parameter of the list has the name and allows the value.
pub data Explained (query : String → String) (k v : String) : List QueryParam → Type 0 where
  here :
      {p : QueryParam} {ps : List QueryParam}
      → p.name ≡ k
      → Allows query p v
      → Explained query k v (p ∷ ps)
  later :
      {p : QueryParam} {ps : List QueryParam}
      → Explained query k v ps
      → Explained query k v (p ∷ ps)

-- The default where there is one.
default-lookup :
    (p : QueryParam) (result : Dict String) (k v : String)
    → lookup k (if p.default == "" then result else insert p.name p.default result) ≡ some v
    → ((p.name ≡ k) × (v ≡ p.default) × ((v == "") ≡ false)) ⊎ (lookup k result ≡ some v)
default-lookup p result k v h = elim (Bool-cases (p.default == "")) [
  | inl e ↦ inr (rw e at h)
  | inr e ↦ elim (insert_cases p.name k p.default v result (rw e at h)) [
    | inl (n, same) ↦ inl (n, sym same, rw (← same) e)
    | inr old ↦ inr old
  ]
]

add_param-lookup :
    (query : String → String) (p : QueryParam) (result : Dict String) (k v : String)
    → lookup k (add_param query p result) ≡ some v
    → ((p.name ≡ k) × Allows query p v) ⊎ (lookup k result ≡ some v)
unfolding add_param
add_param-lookup query p result k v h = elim (Bool-cases (trim_space (query p.name) == "")) [
  | inl empty ↦ elim (default-lookup p result k v (rw empty at h)) [
    | inl (n, same, full) ↦ inl (n, defaulted same full (inl empty))
    | inr old ↦ inr old
  ]
  | inr full ↦ elim (Bool-cases (admits p.compiled (trim_space (query p.name)))) [
    | inl fits ↦
        elim (insert_cases p.name k (trim_space (query p.name)) v result (rw (full, fits) at h)) [
          | inl (n, same) ↦ inl (n, given (sym same) (rw (← same) full) (rw (← same) fits))
          | inr old ↦ inr old
        ]
    | inr misfit ↦ elim (default-lookup p result k v (rw (full, misfit) at h)) [
      | inl (n, same, some_default) ↦ inl (n, defaulted same some_default (inr misfit))
      | inr old ↦ inr old
    ]
  ]
]

add_params-lookup :
    (query : String → String) (ps : List QueryParam) (result : Dict String) (k v : String)
    → lookup k (add_params query ps result) ≡ some v
    → Explained query k v ps ⊎ (lookup k result ≡ some v)
unfolding add_params
add_params-lookup query [] result k v h = inr h
add_params-lookup query (p ∷ ps) result k v h =
    elim (add_params-lookup query ps (add_param query p result) k v h) [
      | inl e ↦ inl (later e)
      | inr e ↦ elim (add_param-lookup query p result k v e) [
        | inl (n, a) ↦ inl (here n a)
        | inr old ↦ inr old
      ]
    ]

-- Every query parameter that a task receives is explained by a parameter of the configuration of
-- that name.
pub get_params-Explained :
    (q : QueryParams) (query : String → String) (k v : String)
    → lookup k (get_params (some q) query) ≡ some v
    → Explained query k v q.params
unfolding get_params
get_params-Explained q query k v h = elim (add_params-lookup query q.params [] k v h) [
  | inl e ↦ e
  | inr e ↦ cc (lookup-nil {V = String} k)
]

-- A parameter as `Validate` leaves it: it has a name, with no space around it, and its expression,
-- if there is one, is the one that was compiled.
pub record IsChecked (compile : String → Error ⊎ Regexp) (p : QueryParam) : Type 0 where
  pub named : (p.name == "") ≡ false
  pub trimmed : trim_space p.name ≡ p.name
  pub compiled :
      (p.regexp == "") ≡ false
      → (re : Regexp) × (compile p.regexp ≡ inr re) × (p.compiled ≡ some re)

module _ (compile : String → Error ⊎ Regexp) where
  validate_param-IsChecked :
      (p p' : QueryParam) → validate_param compile p ≡ ok p' → IsChecked compile p'
  unfolding validate_param
  validate_param-IsChecked p p' h =
      let name = trim_space p.name in
      let regexp = trim_space p.regexp in
      elim (Bool-cases (name == "")) [
        | inl e ↦ cc (rw e at h)
        | inr named ↦ elim (Bool-cases (regexp == "")) [
          | inl plain ↦ subst (IsChecked compile) (ok-injective (rw (named, plain) at h)) (record {
            named = named;
            trimmed = trim_space_idem p.name;
            compiled = λ e. cc (rw plain at e);
          })
          | inr wanted ↦ elim (Sum-cases (compile regexp)) [
            | inl (e, bad) ↦ cc (rw (named, wanted, bad) at h)
            | inr (re, good) ↦
                subst (IsChecked compile) (ok-injective (rw (named, wanted, good) at h)) (record {
                  named = named;
                  trimmed = trim_space_idem p.name;
                  compiled = λ _. (re, good, refl);
                })
          ]
        ]
      ]

  validate_params-IsChecked :
      (ps ps' : List QueryParam) → validate_params compile ps ≡ ok ps' → All (IsChecked compile) ps'
  unfolding validate_params
  validate_params-IsChecked [] ps' h = subst (All (IsChecked compile)) (ok-injective h) tt
  validate_params-IsChecked (p ∷ ps) ps' h =
      let (p₁, e₁, h₁) = >>=-eq-ok (validate_param compile p) _ h in
      let (ps₁, e₂, h₂) = >>=-eq-ok (validate_params compile ps) _ h₁ in
      subst (All (IsChecked compile)) (ok-injective h₂)
        (validate_param-IsChecked p p₁ e₁, validate_params-IsChecked ps ps₁ e₂)

-- Where the parameters of a configuration validate, each of them has a trimmed, non-empty name, and
-- an expression that was given is compiled and stored.
pub validate_query_params-IsChecked :
    (compile : String → Error ⊎ Regexp) (q q' : QueryParams)
    → validate_query_params compile q ≡ ok q'
    → All (IsChecked compile) q'.params × (q'.return_params ≡ q.return_params)
unfolding validate_query_params
validate_query_params-IsChecked compile q q' h =
    let (ps, e, k) = >>=-eq-ok (validate_params compile q.params) _ h in
    let same = ok-injective k in
    (rw (← same) (validate_params-IsChecked compile q.params ps e), rw (← same))
