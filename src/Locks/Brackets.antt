-- ===== src/Locks/Brackets.antt =====
-- The functions keep to the lock's rules: which of them call `RLock` again while they have it.
use goexpose.Auth.{Authorizer, AuthorizerFactory, Authorizers}
use goexpose.Common.{
  Bool, Bool-cases, List, [], Option, Result, Result-cases, Sum-cases, String, arith, err, false,
  inl, inr, none, ok, panic, some, true, ℕ, ◌==◌, ◌∷◌,
}
use goexpose.Config.{AuthorizerConfig, Config}
use goexpose.Dict.{Dict, insert}
use goexpose.Formats.{FormatFunc, Formatted, formats_delimiter}
use goexpose.Locks.{
  IsBracketed, Program, again, before, looks, read, reading, r_unlock, reads, return, returns,
  stores, tests, undone, writes, writing, written,
}
use goexpose.Text.{split}
use goexpose.Value.{null}
use goexpose.Locks.Registries.{
  authorizer_exists_program, checked, joined, format_program, format_program_from,
  get_authorizers_program, get_task_factory_program, if_known, make_program, make_with,
  register_if_free, register_program, is_some, try_part, verify_format_program, verify_part,
  verify_program,
}

module _ {F A : Type 0} (nested : ℕ) where
  pub register-IsBracketed :
      (answer : Result (Unit {0}) → A) (message : String → String) (id : String) (f : F)
      → IsBracketed nested before (register_program answer message id f)
  unfolding register_program
  register-IsBracketed answer message id f = writes (tests λ o. go o)
    where
      go : (o : Option F) → IsBracketed nested writing (register_if_free o answer message id f)
      go none = stores (written returns)
      go (some taken) = written returns

  pub get_task_factory-IsBracketed :
      (answer : Option F → A) (id : String)
      → IsBracketed nested before (get_task_factory_program answer id)
  unfolding get_task_factory_program
  get_task_factory-IsBracketed answer id = reads (looks λ o. read returns)

  pub authorizer_exists-IsBracketed :
      (answer : Bool → A) (id : String)
      → IsBracketed nested before (authorizer_exists_program {F = F} answer id)
  unfolding authorizer_exists_program
  authorizer_exists-IsBracketed answer id = reads (looks λ o. read returns)

module _ {W A : Type 0} where
  make_with-IsBracketed :
      (ac : AuthorizerConfig) (leave : Result (Authorizers W) → Program (AuthorizerFactory W) A)
      (next : Authorizer W → Program (AuthorizerFactory W) A)
      → ((made : Result (Authorizers W)) → IsBracketed 1 (reading 0) (leave made))
      → ((a : Authorizer W) → IsBracketed 1 (reading 0) (next a))
      → (o : Option (AuthorizerFactory W)) → IsBracketed 1 (reading 0) (make_with ac leave next o)
  make_with-IsBracketed ac leave next h k none = h _
  make_with-IsBracketed ac leave next h k (some factory) = elim (Result-cases (factory ac)) [
    | inl (a, e) ↦ rw e (k a)
    | inr (inl (x, e)) ↦ rw e (h (err x))
    | inr (inr (text, e)) ↦ rw e (h (panic text))
  ]

  if_known-IsBracketed :
      (known : Bool) (ac : AuthorizerConfig)
      (leave : Result (Authorizers W) → Program (AuthorizerFactory W) A)
      (next : Program (AuthorizerFactory W) A)
      → ((made : Result (Authorizers W)) → IsBracketed 1 (reading 0) (leave made))
      → IsBracketed 1 (reading 0) next
      → IsBracketed 1 (reading 0) (if_known known ac leave next)
  if_known-IsBracketed false ac leave next h k = h _
  if_known-IsBracketed true ac leave next h k = k

  -- The loop of `GetAuthorizers` has the lock, and calls `RLock` again in each round.
  make-IsBracketed :
      (acs : Dict AuthorizerConfig) (result : Authorizers W)
      (leave : Result (Authorizers W) → Program (AuthorizerFactory W) A)
      → ((made : Result (Authorizers W)) → IsBracketed 1 (reading 0) (leave made))
      → IsBracketed 1 (reading 0) (make_program acs result leave)
  make-IsBracketed [] result leave h = h (ok result)
  make-IsBracketed ((an, ac) ∷ rest) result leave h =
      let found =
        make_with-IsBracketed ac leave _ h
          (λ a. make-IsBracketed rest (insert an a result) leave h) in
      again (omega arith)
        (looks λ o. undone (if_known-IsBracketed (is_some o) ac leave _ h (looks found)))

  pub get_authorizers-IsBracketed :
      (decimal : ℕ → String) (answer : Result (Authorizers W) → A) (config : Config)
      → IsBracketed 1 before (get_authorizers_program decimal answer config)
  unfolding get_authorizers_program
  get_authorizers-IsBracketed decimal answer config = reads (
      make-IsBracketed config.authorizers []
        (λ made. r_unlock (return (answer (checked decimal config made)))) λ made. read returns)

module _ {A : Type 0} (nested : ℕ) where
  verify_part-IsBracketed :
      (o : Option FormatFunc) (part : String)
      (leave : Result (List String × Bool) → Program FormatFunc A) (next : Program FormatFunc A)
      → ((r : Result (List String × Bool)) → IsBracketed nested (reading 0) (leave r))
      → IsBracketed nested (reading 0) next
      → IsBracketed nested (reading 0) (verify_part o part leave next)
  verify_part-IsBracketed none part leave next h k = h _
  verify_part-IsBracketed (some f) part leave next h k = k

  verify-IsBracketed :
      (parts ff : List String) (found_text : Bool)
      (leave : Result (List String × Bool) → Program FormatFunc A)
      → ((r : Result (List String × Bool)) → IsBracketed nested (reading 0) (leave r))
      → IsBracketed nested (reading 0) (verify_program parts ff found_text leave)
  verify-IsBracketed [] ff found_text leave h = h (ok (ff, found_text))
  verify-IsBracketed (part ∷ parts) ff found_text leave h = elim (Bool-cases (part == "")) [
    | inl blank ↦ rw blank (verify-IsBracketed parts ff found_text leave h)
    | inr named ↦
        rw named (
          looks
            λ o. verify_part-IsBracketed o part leave _ h (verify-IsBracketed parts _ _ leave h))
  ]

  pub verify_format-IsBracketed :
      (answer : Result String → A) (format : String)
      → IsBracketed nested before (verify_format_program answer format)
  unfolding verify_format_program
  verify_format-IsBracketed answer format = reads (
      verify-IsBracketed (split formats_delimiter format) [] false
        (λ parts. r_unlock (return (answer (joined parts)))) λ r. read returns)

  try_part-IsBracketed :
      (o : Option FormatFunc) (body part : String) (acc : Formatted)
      (leave next : Formatted → Program FormatFunc A)
      → ((out : Formatted) → IsBracketed nested (reading 0) (leave out))
      → ((out : Formatted) → IsBracketed nested (reading 0) (next out))
      → IsBracketed nested (reading 0) (try_part o body part acc leave next)
  try_part-IsBracketed none body part acc leave next h k = h _
  try_part-IsBracketed (some f) body part acc leave next h k = elim (Sum-cases (f body)) [
    | inl (e, failed) ↦ rw failed (k _)
    | inr (v, worked) ↦ rw worked (h _)
  ]

  format_from-IsBracketed :
      (parts : List String) (body : String) (acc : Formatted)
      (leave : Formatted → Program FormatFunc A)
      → ((out : Formatted) → IsBracketed nested (reading 0) (leave out))
      → IsBracketed nested (reading 0) (format_program_from parts body acc leave)
  format_from-IsBracketed [] body acc leave h = h acc
  format_from-IsBracketed (part ∷ parts) body acc leave h = looks λ o.
      try_part-IsBracketed o body part acc leave _ h
        λ acc'. format_from-IsBracketed parts body acc' leave h

  pub format-IsBracketed :
      (answer : Formatted → A) (body f : String)
      → IsBracketed nested before (format_program answer body f)
  unfolding format_program
  format-IsBracketed answer body f = reads (
      format_from-IsBracketed (split formats_delimiter f) body
        (record { value = null; format = ""; error = none }) (λ out. r_unlock (return (answer out)))
        λ out. read returns)
