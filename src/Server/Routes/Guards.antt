-- ===== src/Server/Routes/Guards.antt =====
-- server.go: the authorizers that the configuration kept by a route names for each method.
use goexpose.Auth.{method_authorizers}
use goexpose.Common.{
  Bool-cases, Error, List, [], Option, String, append-nil, ap, contains, inl, inr, map, none, ok,
  refl, some, sym, ◌++◌, ◌==◌, ◌∙◌, ◌≡◌, ◌∷◌, ◌⊎◌, >>=-eq-ok, ok-injective,
}
use goexpose.Config.{EndpointConfig, Regexp, TaskConfig, validate_task}
use goexpose.Dict.{Dict, lookup}
use goexpose.Server.Routes.{TaskFactory, Visit, make_tasks, visit}

abbrev guards : Dict TaskConfig → Dict (List String)
guards ms = map (λ m. (m.0, m.1.authorizers)) ms

abbrev listed : Option (List String) → List String
listed none = []
listed (some names) = names

method_authorizers-lookup :
    (k : String) (ms : Dict TaskConfig)
    → method_authorizers (lookup k ms) ≡ listed (lookup k (guards ms))
unfolding lookup
method_authorizers-lookup k [] = refl
method_authorizers-lookup k ((m, tc) ∷ ms) = elim (Bool-cases (m == k)) [
  | inl e ↦ rw e refl
  | inr e ↦ rw e (method_authorizers-lookup k ms)
]

guards-set :
    (tc : TaskConfig) (t : TaskConfig) (m : String) (ms rest : Dict TaskConfig)
    → guards ((ms ++ (m, record tc { query_params = t.query_params }) ∷ []) ++ rest)
      ≡ guards (ms ++ (m, tc) ∷ rest)
guards-set tc t m [] rest = refl
guards-set tc t m (x ∷ ms) rest = ap (λ y. (x.0, x.1.authorizers) ∷ y) (guards-set tc t m ms rest)

module _ {W : Type 0} (compile : String → Error ⊎ Regexp) (reg : Dict (TaskFactory W))
    (ignored : List String) where
  guards-visit :
      (ec : EndpointConfig) (rest : Dict TaskConfig) (v v' : Visit W)
      → visit compile reg ignored ec rest v ≡ ok v'
      → guards v'.passed ≡ guards (v.passed ++ rest)
  unfolding visit
  guards-visit ec [] v v' h = rw (← ok-injective h, append-nil) refl
  guards-visit ec ((m, tc) ∷ rest) v v' h = elim (Bool-cases (contains ignored tc.type)) [
    | inl skip ↦ rw (← ok-injective (rw skip at h)) refl
    | inr keep ↦
        let (tc', _, h₁) = >>=-eq-ok (validate_task compile tc) _ (rw keep at h) in
        let (ts, _, h₂) = >>=-eq-ok (make_tasks reg tc' _) _ h₁ in
        guards-visit ec rest _ v' h₂ ∙ guards-set tc tc' m v.passed rest
  ]

  -- The authorizers that the visited configuration has for a method are those of the endpoint.
  pub method_authorizers-visit :
      (ec : EndpointConfig) (ms : Dict TaskConfig) (v v' : Visit W) (k : String)
      → v.passed ≡ []
      → visit compile reg ignored ec ms v ≡ ok v'
      → method_authorizers (lookup k v'.passed) ≡ method_authorizers (lookup k ms)
  method_authorizers-visit ec ms v v' k empty h =
      let same : guards v'.passed ≡ guards ms = guards-visit ec ms v v' h ∙ rw empty refl in
      method_authorizers-lookup k v'.passed
      ∙ ap (λ g. listed (lookup k g)) same
      ∙ sym (method_authorizers-lookup k ms)
