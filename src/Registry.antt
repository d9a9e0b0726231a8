-- ===== src/Registry.antt =====
-- registry.go, and the same registration in auth.go (`RegisterAuthorizer`) and formats.go
-- (`RegisterFormat`): a global map, filled by the `init` functions. Each function holds the map's
-- lock from its first statement to its last, so that it is one step.
pub mod Laws
use goexpose.Common.{
  Bool, List, [], Option, Result, String, ok, panic, ◌>>=◌, ◌<>◌, ◌∷◌, if◌then◌else◌,
}
use goexpose.Dict.{Dict, has, insert, lookup}

module _ {ℓ} {F : Type ℓ} where
  -- The body that the three functions share; they differ in the text of the panic.
  unfoldable pub register : (String → String) → String → F → Dict F → Result (Dict F)
  register message id factory reg =
      if has id reg then panic (message id) else ok (insert id factory reg)

  -- The calls of an `init` function, in order.
  unfoldable pub register_all : (String → String) → Dict F → Dict F → Result (Dict F)
  unfolding register
  register_all message [] reg = ok reg
  register_all message ((id, factory) ∷ rest) reg = do
    reg' ← register message id factory reg
    register_all message rest reg'

  unfoldable pub register_task_factory : String → F → Dict F → Result (Dict F)
  unfolding register
  register_task_factory = register (λ id. "task factory " <> id <> " already exists")

  unfoldable pub register_authorizer : String → F → Dict F → Result (Dict F)
  unfolding register
  register_authorizer = register (λ id. "authorizer " <> id <> " already registered")

  unfoldable pub register_format : String → F → Dict F → Result (Dict F)
  unfolding register
  register_format = register (λ id. "format " <> id <> " already registered")

  unfoldable pub get_task_factory : String → Dict F → Option F
  get_task_factory = lookup

  unfoldable pub authorizer_exists : String → Dict F → Bool
  authorizer_exists = has
