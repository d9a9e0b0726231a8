-- ===== src/Auth/Total.antt =====
-- Where `Authorizers.Authorize` of auth.go cannot panic.
use mathlib.Core.List.{Memᴰ}
use mathlib.Core.Path.{subst}
use goexpose.Auth.{
  Authorizer, AuthorizerFactory, Authorizers, authorize, authorize_names, call_authorizer,
  get_authorizers, method_authorizers,
}
use goexpose.Auth.Lookup.{AreKnown, get_authorizers-AreKnown}
use goexpose.Common.{
  All, All-Memᴰ, All-append, Bool-cases, List, [], String, inl, inr, ok, panic, some, true, ℕ, ◌==◌,
  ◌≡◌, ◌≢◌, ◌∷◌, sym,
}
use goexpose.Config.{Config, EndpointConfig, TaskConfig}
use goexpose.Dict.{Dict, has, has_inverse, lookup}
use goexpose.Effect
use goexpose.Effect.{Io}
use goexpose.Request.{Request}

abbrev pub NeverPanics : {W : Type 0} → Authorizer W → Type 0
NeverPanics {W} z = (r : Request) (w : W) (text : String) → (z r w).0 ≢ panic text

module _ {W : Type 0} (a : Authorizers W) where
  call-ne-panic :
      (n : String)
      → ((m : String) (z : Authorizer W) → lookup m a ≡ some z → NeverPanics z)
      → has n a ≡ true
      → NeverPanics (call_authorizer (lookup n a))
  call-ne-panic n calm known =
      let (z, found) = has_inverse n a known in
      subst (λ o. NeverPanics (call_authorizer o)) (sym found) (calm n z found)

  names-ne-panic :
      (r : Request) (ns : List String) (w : W) (text : String)
      → ((m : String) (z : Authorizer W) → lookup m a ≡ some z → NeverPanics z)
      → AreKnown a ns
      → (authorize_names a r ns w).0 ≢ panic text
  unfolding authorize_names
  names-ne-panic r [] w text calm known = λ h. cc
  names-ne-panic r (n ∷ ns) w text calm known =
      Effect.>>=-ne-panic (call_authorizer (lookup n a) r) _ w (call-ne-panic n calm known.0 r w)
        (λ _ w₁ text' _. names-ne-panic r ns w₁ text' calm known.1) text

  method-AreKnown :
      (method : String) (ms : Dict TaskConfig)
      → All (λ m. AreKnown a m.1.authorizers) ms
      → AreKnown a (method_authorizers (lookup method ms))
  unfolding lookup
  method-AreKnown method [] h = tt
  method-AreKnown method ((m, tc) ∷ ms) h = elim (Bool-cases (m == method)) [
    | inl e ↦ rw e h.0
    | inr e ↦ rw e (method-AreKnown method ms h.1)
  ]

-- With the authorizers of a configuration that `GetAuthorizers` accepts, none of which panics by
-- itself, the check of a request does not panic either at an endpoint whose own names are all
-- configured; for those of its methods `GetAuthorizers` has seen to it.
pub authorize-ne-panic :
    {W : Type 0} (decimal : ℕ → String) (reg : Dict (AuthorizerFactory W)) (config : Config)
    (a : Authorizers W) (ec : EndpointConfig) (r : Request) (w : W) (text : String)
    → get_authorizers decimal reg config ≡ ok a
    → Memᴰ ec config.endpoints
    → AreKnown a ec.authorizers
    → ((m : String) (z : Authorizer W) → lookup m a ≡ some z → NeverPanics z)
    → (authorize a r ec w).0 ≢ panic text
unfolding authorize
authorize-ne-panic decimal reg config a ec r w text made listed known calm =
    let methods =
      All-Memᴰ _ config.endpoints (get_authorizers-AreKnown decimal reg config a made).1 listed in
    names-ne-panic a r _ w text calm (
      All-append (λ n. has n a ≡ true) ec.authorizers _ known
        (method-AreKnown a r.method ec.methods methods))
