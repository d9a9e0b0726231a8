-- ===== src/Auth/Chain.antt =====
-- `Authorizers.Authorize` of auth.go: which authorizers a request has to pass.
use mathlib.Core.Path.{subst}
use goexpose.Common.{
  append-nil, List, [], String, none, ok, some, ℕ, ◌∷◌, ◌≡◌, ◌↔◌, ◌++◌, panic, refl, ap, Option,
}
use goexpose.Config.{EndpointConfig}
use goexpose.Dict.{Dict, lookup}
use goexpose.Effect
use goexpose.Effect.{Io}
use goexpose.Request.{Request}
use goexpose.Auth.{
  Authorizer, AuthorizerFactory, Authorizers, authorize, authorize_names, call_authorizer,
  check_endpoints, method_authorizers,
}

-- The authorizers of these names let the request pass one after the other, and take the world from
-- the one state to the other.
pub data Passed {W : Type 0} (a : Authorizers W) (r : Request) : List String → W → W → Type 0 where
  done : {w : W} → Passed a r [] w w
  next :
      {an : String} {rest : List String} {z : Authorizer W} {w w₁ w₂ : W}
      → lookup an a ≡ some z
      → z r w ≡ (ok tt, w₁)
      → Passed a r rest w₁ w₂
      → Passed a r (an ∷ rest) w w₂

module _ {W : Type 0} (a : Authorizers W) (r : Request) where
  call_inverse :
      (o : Option (Authorizer W)) (w w' : W)
      → call_authorizer o r w ≡ (ok tt, w')
      → (z : Authorizer W) × (o ≡ some z) × (z r w ≡ (ok tt, w'))
  call_inverse none w w' h = cc
  call_inverse (some z) w w' h = (z, refl, h)

  names_sound :
      (ns : List String) (w w' : W) → authorize_names a r ns w ≡ (ok tt, w') → Passed a r ns w w'
  unfolding authorize_names
  names_sound [] w w' h = subst (λ x. Passed a r [] w x) (ap (λ x. x.1) h) done
  names_sound (n ∷ ns) w w' h =
      let (_, w₁, e, k) = Effect.>>=-eq-ok (call_authorizer (lookup n a) r) _ w h in
      let (z, found, passed) = call_inverse (lookup n a) w w₁ e in
      next found passed (names_sound ns w₁ w' k)

  names_complete :
      {ns : List String} {w w' : W} → Passed a r ns w w' → authorize_names a r ns w ≡ (ok tt, w')
  unfolding authorize_names
  names_complete done = refl
  names_complete (next found passed rest) = rw (found, passed) (names_complete rest)

-- A request is authorized exactly when the authorizers of the endpoint, and then those of the
-- request's method, let it pass in their order; each of them has to be known.
pub authorize_iff :
    {W : Type 0} (a : Authorizers W) (r : Request) (config : EndpointConfig) (w w' : W)
    → (authorize a r config w ≡ (ok tt, w'))
      ↔ Passed a r (config.authorizers ++ method_authorizers (lookup r.method config.methods)) w w'
unfolding authorize
authorize_iff a r config w w' = (names_sound a r _ w w', names_complete a r)

-- `GetAuthorizers` accepts an endpoint whatever authorizers the endpoint itself names; where the
-- first of them is not configured, every request to the endpoint panics.
pub unknown_endpoint_authorizer :
    {W : Type 0} (decimal : ℕ → String) (reg : Dict (AuthorizerFactory W)) (a : Authorizers W)
    (ec : EndpointConfig) (rest : List EndpointConfig) (an : String) (names : List String) (i : ℕ)
    (r : Request) (w : W)
    → lookup an a ≡ none
    → (check_endpoints decimal reg i (record ec { authorizers = an ∷ names } ∷ rest) a
        ≡ check_endpoints decimal reg i (ec ∷ rest) a)
      × (authorize a r (record ec { authorizers = an ∷ names }) w
          ≡ (panic "nil pointer dereference", w))
unfolding check_endpoints authorize authorize_names
unknown_endpoint_authorizer decimal reg a ec rest an names i r w h = (refl, rw h)

-- Where the endpoint does not have the request's method under the very key that the request carries,
-- only the authorizers of the endpoint are asked, none where it has none. The router passes such a
-- request on: it compares the upper case of the configured method.
pub authorize_unlisted_method :
    {W : Type 0} (a : Authorizers W) (r : Request) (config : EndpointConfig) (w : W)
    → lookup r.method config.methods ≡ none
    → authorize a r config w ≡ authorize_names a r config.authorizers w
unfolding authorize
authorize_unlisted_method a r config w h = rw (h, append-nil) refl
