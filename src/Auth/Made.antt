-- ===== src/Auth/Made.antt =====
-- Which authorizers `GetAuthorizers` of auth.go makes, as a function of the names.
use goexpose.Auth.{
  Authorizer, AuthorizerFactory, Authorizers, check_endpoints, find_factory, get_authorizers,
  make_authorizers,
}
use goexpose.Common.{
  Bool-cases, [], Option, Option-cases, Result, String, eq_iff, err, inl, inr, none, ok, panic,
  refl, some, sym, ℕ, ap, ◌==◌, ◌∙◌, ◌≡◌, ◌∷◌, >>=-eq-ok, ok-injective,
}
use goexpose.Config.{AuthorizerConfig, Config, validate_authorizer}
use goexpose.Dict.{Dict, insert, lookup, lookup-insert}

-- The keys of a Go map are distinct.
abbrev pub Distinct : {A : Type 0} → Dict A → Type 0
Distinct [] = Unit
Distinct ((k, v) ∷ m) = (lookup k m ≡ none) × Distinct m

module _ {W : Type 0} where
  abbrev pub made_value : Result (Authorizer W) → Option (Authorizer W)
  made_value (ok z) = some z
  made_value (err e) = none
  made_value (panic m) = none

  abbrev pub made_with : AuthorizerConfig → Option (AuthorizerFactory W) → Option (Authorizer W)
  made_with ac none = none
  made_with ac (some factory) = made_value (factory ac)

  -- The authorizer of a name: what the factory of its type makes of its configuration.
  abbrev pub made_of : Dict (AuthorizerFactory W) → Option AuthorizerConfig → Option (Authorizer W)
  made_of reg none = none
  made_of reg (some ac) = made_with ac (lookup ac.type reg)

  abbrev or_else :
      Option AuthorizerConfig
      → Dict (AuthorizerFactory W)
      → Option (Authorizer W)
      → Option (Authorizer W)
  or_else none reg old = old
  or_else (some ac) reg old = made_of reg (some ac)

module _ {W : Type 0} (decimal : ℕ → String) (reg : Dict (AuthorizerFactory W)) where
  find_factory_inverse :
      (ac : AuthorizerConfig) (factory : AuthorizerFactory W) (z : Authorizer W)
      → find_factory decimal reg ac ≡ ok factory
      → factory ac ≡ ok z
      → made_of reg (some ac) ≡ some z
  unfolding find_factory
  find_factory_inverse ac factory z h k = elim (Option-cases (lookup ac.type reg)) [
    | inl e ↦ cc (rw (e, find_factory) at h)
    | inr (f, e) ↦
        let same : f ≡ factory = ok-injective (rw (e, find_factory) at h) in
        rw e (ap (λ g. made_value (g ac)) same ∙ ap made_value k)
  ]

  lookup-make_authorizers :
      (acs : Dict AuthorizerConfig) (a a' : Authorizers W) (n : String)
      → Distinct acs
      → make_authorizers decimal reg acs a ≡ ok a'
      → lookup n a' ≡ or_else (lookup n acs) reg (lookup n a)
  unfolding make_authorizers lookup
  lookup-make_authorizers [] a a' n d h = ap (lookup n) (sym (ok-injective h))
  lookup-make_authorizers ((an, ac) ∷ acs) a a' n d h =
      let (_, _, h₀) = >>=-eq-ok (validate_authorizer reg ac) _ h in
      let (factory, found, h₁) = >>=-eq-ok (find_factory decimal reg ac) _ h₀ in
      let (z, made, h₂) = >>=-eq-ok (factory ac) _ h₁ in
      let rest = lookup-make_authorizers acs (insert an z a) a' n d.1 h₂ in
      elim (Bool-cases (an == n)) [
        | inl e ↦
            let fresh : lookup n acs ≡ none =
              ap (λ k. lookup k acs) (sym ((eq_iff an n).0 e)) ∙ d.0 in
            rest
            ∙ rw (fresh, e)
                (lookup-insert an n z a ∙ rw e (sym (find_factory_inverse ac factory z found made)))
        | inr e ↦ rest ∙ rw e (ap (or_else (lookup n acs) reg) (lookup-insert an n z a ∙ rw e refl))
      ]

or_else-none :
    {W : Type 0} (reg : Dict (AuthorizerFactory W)) (o : Option AuthorizerConfig) (n : String)
    → or_else o reg (lookup n []) ≡ made_of reg o
unfolding lookup
or_else-none reg none n = refl
or_else-none reg (some ac) n = refl

-- When `GetAuthorizers` returns, for a configuration whose names are distinct, each name has the
-- authorizer that the factory registered for the type of its configuration makes of it, and a name
-- without a configuration has none: the names decide, and not the order in which the loop takes
-- them from the map.
pub lookup-get_authorizers :
    {W : Type 0} (decimal : ℕ → String) (reg : Dict (AuthorizerFactory W)) (config : Config)
    (a : Authorizers W) (n : String)
    → Distinct config.authorizers
    → get_authorizers decimal reg config ≡ ok a
    → lookup n a ≡ made_of reg (lookup n config.authorizers)
unfolding get_authorizers
lookup-get_authorizers decimal reg config a n distinct h =
    let (a₁, e₁, h₁) = >>=-eq-ok (make_authorizers decimal reg config.authorizers []) _ h in
    let (_, e₂, h₂) = >>=-eq-ok (check_endpoints decimal reg 0 config.endpoints a₁) _ h₁ in
    ap (lookup n) (sym (ok-injective h₂))
    ∙ lookup-make_authorizers decimal reg config.authorizers [] a₁ n distinct e₁
    ∙ or_else-none reg (lookup n config.authorizers) n
