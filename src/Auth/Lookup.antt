-- ===== src/Auth/Lookup.antt =====
-- What `GetAuthorizers` of auth.go has checked when it returns.
use goexpose.Common.{
  map, All, Bool-cases, List, [], String, arith, inl, inr, ok, suc, true, ℕ, ◌∷◌, ◌≡◌, >>=-eq-ok,
  ok-injective,
}
use goexpose.Config.{AuthorizerConfig, Config, EndpointConfig, TaskConfig, validate_authorizer}
use goexpose.Dict.{Dict, has, has-insert_kept, has-insert_self, insert}
use goexpose.Auth.{
  find_factory, AuthorizerFactory, Authorizers, check_endpoints, check_methods, check_names,
  get_authorizers, make_authorizers,
}

module _ {W : Type 0} where
  -- Each of the names has an authorizer.
  abbrev pub AreKnown : Authorizers W → List String → Type 0
  AreKnown a = All (λ n. has n a ≡ true)

module _ {W : Type 0} (decimal : ℕ → String) (reg : Dict (AuthorizerFactory W)) where
  check_names-AreKnown :
      (i : ℕ) (ns : List String) (a : Authorizers W)
      → check_names decimal reg i ns a ≡ ok tt
      → AreKnown a ns
  unfolding check_names
  check_names-AreKnown i [] a h = tt
  check_names-AreKnown i (n ∷ ns) a h = elim (Bool-cases (has n a)) [
    | inl e ↦ (e, check_names-AreKnown i ns a (ground arith))
    | inr e ↦ ground arith
  ]

  check_methods-AreKnown :
      (i : ℕ) (ms : Dict TaskConfig) (a : Authorizers W)
      → check_methods decimal reg i ms a ≡ ok tt
      → All (λ m. AreKnown a m.1.authorizers) ms
  unfolding check_methods
  check_methods-AreKnown i [] a h = tt
  check_methods-AreKnown i ((m, tc) ∷ ms) a h =
      let (_, e, k) = >>=-eq-ok (check_names decimal reg i tc.authorizers a) _ h in
      (check_names-AreKnown i tc.authorizers a e, check_methods-AreKnown i ms a k)

  check_endpoints-AreKnown :
      (i : ℕ) (ecs : List EndpointConfig) (a : Authorizers W)
      → check_endpoints decimal reg i ecs a ≡ ok tt
      → All (λ ec. All (λ m. AreKnown a m.1.authorizers) ec.methods) ecs
  unfolding check_endpoints
  check_endpoints-AreKnown i [] a h = tt
  check_endpoints-AreKnown i (ec ∷ ecs) a h =
      let (_, e, k) = >>=-eq-ok (check_methods decimal reg i ec.methods a) _ h in
      (check_methods-AreKnown i ec.methods a e, check_endpoints-AreKnown (suc i) ecs a k)

  make_authorizers-has :
      (acs : Dict AuthorizerConfig) (a a' : Authorizers W)
      → make_authorizers decimal reg acs a ≡ ok a'
      → AreKnown a' (map (λ x. x.0) acs) × ((n : String) → has n a ≡ true → has n a' ≡ true)
  unfolding make_authorizers
  make_authorizers-has [] a a' h = let e = ok-injective h in (tt, λ n k. rw e at k)
  make_authorizers-has ((an, ac) ∷ acs) a a' h =
      let (_, _, h₀) = >>=-eq-ok (validate_authorizer reg ac) _ h in
      let (factory, _, h₁) = >>=-eq-ok (find_factory decimal reg ac) _ h₀ in
      let (z, _, h₂) = >>=-eq-ok (factory ac) _ h₁ in
      let (rest, kept) = make_authorizers-has acs (insert an z a) a' h₂ in
      ((kept an (has-insert_self an z a), rest), λ n k. kept n (has-insert_kept an n z a k))

-- When `GetAuthorizers` returns, each configured authorizer is there, and each name that a method of
-- an endpoint gives has an authorizer.
pub get_authorizers-AreKnown :
    {W : Type 0} (decimal : ℕ → String) (reg : Dict (AuthorizerFactory W)) (config : Config)
    (a : Authorizers W)
    → get_authorizers decimal reg config ≡ ok a
    → AreKnown a (map (λ x. x.0) config.authorizers)
      × All (λ ec. All (λ m. AreKnown a m.1.authorizers) ec.methods) config.endpoints
unfolding get_authorizers
get_authorizers-AreKnown decimal reg config a h =
    let (a₁, e₁, h₁) = >>=-eq-ok (make_authorizers decimal reg config.authorizers []) _ h in
    let (_, e₂, h₂) = >>=-eq-ok (check_endpoints decimal reg 0 config.endpoints a₁) _ h₁ in
    let same = ok-injective h₂ in
    (
      rw (← same) (make_authorizers-has decimal reg config.authorizers [] a₁ e₁).0,
      rw (← same) (check_endpoints-AreKnown decimal reg 0 config.endpoints a₁ e₂),
    )
