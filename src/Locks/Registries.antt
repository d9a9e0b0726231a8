-- ===== src/Locks/Registries.antt =====
-- The functions of registry.go, auth.go and formats.go with their calls of the lock: `Lock` or `RLock`
-- first, and the deferred `Unlock` or `RUnlock` last. `answer` makes the goroutine's result of what
-- the function returns.
use goexpose.Auth.{AuthorizerFactory, Authorizers, check_endpoints}
use goexpose.Common.{
  Bool, List, [], Option, Result, String, err, if◌then◌else◌, inl, inr, new, none, ok, panic, some,
  ℕ, ◌++◌, ◌<>◌, ◌==◌, ◌>>=◌, ◌>>◌, ◌||◌, ◌∷◌, false, true,
}
use goexpose.Config.{AuthorizerConfig, Config}
use goexpose.Dict.{Dict, insert}
use goexpose.Formats.{FormatFunc, Formatted, formats_delimiter}
use goexpose.Locks.{Program, get, lock, put, r_lock, r_unlock, return, unlock}
use goexpose.Request.{Request}
use goexpose.Text.{join, split}
use goexpose.Value.{null}

abbrev pub is_some {ℓ} : {A : Type ℓ} → Option A → Bool
is_some none = false
is_some (some a) = true

module _ {F A : Type 0} where
  -- The three functions that register; they differ in the text of the panic.
  abbrev pub register_if_free :
      Option F → (Result (Unit {0}) → A) → (String → String) → String → F → Program F A
  register_if_free (some taken) answer message id f = unlock (return (answer (panic (message id))))
  register_if_free none answer message id f = put id f (unlock (return (answer (ok tt))))

  unfoldable pub register_program :
      (Result (Unit {0}) → A) → (String → String) → String → F → Program F A
  register_program answer message id f = lock (get id (λ o. register_if_free o answer message id f))

  unfoldable pub get_task_factory_program : (Option F → A) → String → Program F A
  get_task_factory_program answer id = r_lock (get id (λ o. r_unlock (return (answer o))))

  -- `AuthorizerExists` and what its caller does after it.
  abbrev pub exists_then : String → (Bool → Program F A) → Program F A
  exists_then id next = r_lock (get id (λ o. r_unlock (next (is_some o))))

  unfoldable pub authorizer_exists_program : (Bool → A) → String → Program F A
  authorizer_exists_program answer id = exists_then id (λ found. return (answer found))

-- What follows the loop of `GetAuthorizers`; it does not use the registry.
abbrev pub checked :
    {W : Type 0} → (ℕ → String) → Config → Result (Authorizers W) → Result (Authorizers W)
checked decimal config made = do
  result ← made
  check_endpoints decimal [] 0 config.endpoints result
  ok result

-- What follows the loop of `VerifyFormat`.
abbrev pub joined : Result (List String × Bool) → Result String
joined parts = do
  (ff, found_text) ← parts
  ok (join formats_delimiter (if found_text then ff else ff ++ "text" ∷ []))

module _ {W A : Type 0} where
  -- A round of `GetAuthorizers` after the lookup of the factory, with what its loop does next.
  abbrev pub make_with :
      AuthorizerConfig
      → (Result (Authorizers W) → Program (AuthorizerFactory W) A)
      → ((Request → W → Result (Unit {0}) × W) → Program (AuthorizerFactory W) A)
      → Option (AuthorizerFactory W)
      → Program (AuthorizerFactory W) A
  make_with ac leave next none = leave (err (new ("authorizer " <> ac.type <> " does not exist")))
  make_with ac leave next (some factory) = elim (factory ac) [
    | ok authorizer ↦ next authorizer
    | err e ↦ leave (err e)
    | panic text ↦ leave (panic text)
  ]

  abbrev pub if_known :
      Bool
      → AuthorizerConfig
      → (Result (Authorizers W) → Program (AuthorizerFactory W) A)
      → Program (AuthorizerFactory W) A
      → Program (AuthorizerFactory W) A
  if_known false ac leave next = leave (err (new ("authorizer " <> ac.type <> " does not exist")))
  if_known true ac leave next = next

  -- The loop over the configured authorizers. `Validate` calls `AuthorizerExists`.
  abbrev pub make_program :
      Dict AuthorizerConfig
      → Authorizers W
      → (Result (Authorizers W) → Program (AuthorizerFactory W) A)
      → Program (AuthorizerFactory W) A
  make_program [] result leave = leave (ok result)
  make_program ((an, ac) ∷ rest) result leave = exists_then ac.type λ known.
      if_known known ac leave
        (get ac.type (make_with ac leave (λ a. make_program rest (insert an a result) leave)))

  unfoldable pub get_authorizers_program :
      (ℕ → String) → (Result (Authorizers W) → A) → Config → Program (AuthorizerFactory W) A
  get_authorizers_program decimal answer config = r_lock (
      make_program config.authorizers []
        (λ made. r_unlock (return (answer (checked decimal config made)))))

module _ {A : Type 0} where
  abbrev pub verify_part :
      Option FormatFunc
      → String
      → (Result (List String × Bool) → Program FormatFunc A)
      → Program FormatFunc A
      → Program FormatFunc A
  verify_part none part leave next = leave (err (new ("format " <> part <> " unknown")))
  verify_part (some f) part leave next = next

  -- The loop of `VerifyFormat`.
  abbrev pub verify_program :
      List String
      → List String
      → Bool
      → (Result (List String × Bool) → Program FormatFunc A)
      → Program FormatFunc A
  verify_program [] ff found_text leave = leave (ok (ff, found_text))
  verify_program (part ∷ parts) ff found_text leave =
      let skipped = verify_program parts ff found_text leave in
      let kept = verify_program parts (ff ++ part ∷ []) (found_text || part == "text") leave in
      if part == "" then skipped else get part (λ o. verify_part o part leave kept)

  unfoldable pub verify_format_program : (Result String → A) → String → Program FormatFunc A
  verify_format_program answer format = r_lock (
      verify_program (split formats_delimiter format) [] false
        (λ parts. r_unlock (return (answer (joined parts)))))

  -- The loop of `Format`.
  abbrev pub try_part :
      Option FormatFunc
      → String
      → String
      → Formatted
      → (Formatted → Program FormatFunc A)
      → (Formatted → Program FormatFunc A)
      → Program FormatFunc A
  try_part none body part acc leave next =
      leave (record acc { error = some (new ("format " <> part <> " unknown")) })
  try_part (some formatter) body part acc leave next = elim (formatter body) [
    | inl e ↦ next (record { value = null; format = part; error = some e })
    | inr v ↦ leave (record { value = v; format = part; error = none })
  ]

  abbrev pub format_program_from :
      List String → String → Formatted → (Formatted → Program FormatFunc A) → Program FormatFunc A
  format_program_from [] body acc leave = leave acc
  format_program_from (part ∷ parts) body acc leave =
      get part
        (λ o. try_part o body part acc leave (λ acc'. format_program_from parts body acc' leave))

  unfoldable pub format_program : (Formatted → A) → String → String → Program FormatFunc A
  format_program answer body f = r_lock (
      format_program_from (split formats_delimiter f) body
        (record { value = null; format = ""; error = none })
        (λ out. r_unlock (return (answer out))))
