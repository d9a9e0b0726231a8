-- ===== src/Locks/Authorizers.antt =====
-- Goroutines that register authorizers, look for them, and make the authorizers of a configuration, as
-- the functions of auth.go do.
use goexpose.Auth.{AuthorizerFactory, Authorizers, get_authorizers}
use goexpose.Common.{Bool, Result, String, ℕ, ◌<◌, ◌≡◌}
use goexpose.Config.{Config}
use goexpose.Dict.{Dict}
use goexpose.Locks.{IsBracketed, Program, Reach, System, before, init, put, run_alone}
use goexpose.Locks.Alone.{
  after_register, run_alone-authorizer_exists, run_alone-get_authorizers, run_alone-register,
}
use goexpose.Locks.Brackets.{
  authorizer_exists-IsBracketed, get_authorizers-IsBracketed, register-IsBracketed,
}
use goexpose.Locks.Exclusion.Race.{Uses, no_race}
use goexpose.Locks.Registries.{authorizer_exists_program, get_authorizers_program, register_program}
use goexpose.Locks.Serial.Atomic.{IsAtomic, serializable-IsAtomic}
use goexpose.Registry.{authorizer_exists, register}

pub data AuthorizerCall (W : Type 0) : Type 0 where
  registers : String → AuthorizerFactory W → AuthorizerCall W
  exists : String → AuthorizerCall W
  makes : Config → AuthorizerCall W

pub data AuthorizerAnswer (W : Type 0) : Type 0 where
  registered : Result (Unit {0}) → AuthorizerAnswer W
  known : Bool → AuthorizerAnswer W
  made : Result (Authorizers W) → AuthorizerAnswer W

module _ {W : Type 0} (decimal : ℕ → String) (message : String → String) where
  abbrev pub program_of : AuthorizerCall W → Program (AuthorizerFactory W) (AuthorizerAnswer W)
  program_of (registers id f) = register_program registered message id f
  program_of (exists id) = authorizer_exists_program known id
  program_of (makes config) = get_authorizers_program decimal made config

  -- What a call does to the registry, as one step.
  abbrev pub perform :
      AuthorizerCall W
      → Dict (AuthorizerFactory W)
      → AuthorizerAnswer W × Dict (AuthorizerFactory W)
  perform (registers id f) m = after_register registered m (register message id f m)
  perform (exists id) m = (known (authorizer_exists id m), m)
  perform (makes config) m = (made (get_authorizers decimal m config), m)

  run_alone-program_of :
      (call : AuthorizerCall W) (m : Dict (AuthorizerFactory W))
      → run_alone (program_of call) m ≡ perform call m
  run_alone-program_of (registers id f) m = run_alone-register registered message id f m
  run_alone-program_of (exists id) m = run_alone-authorizer_exists known id m
  run_alone-program_of (makes config) m = run_alone-get_authorizers decimal m made config

  program_of-IsBracketed : (call : AuthorizerCall W) → IsBracketed 1 before (program_of call)
  program_of-IsBracketed (registers id f) = register-IsBracketed 1 registered message id f
  program_of-IsBracketed (exists id) = authorizer_exists-IsBracketed 1 known id
  program_of-IsBracketed (makes config) = get_authorizers-IsBracketed decimal made config

-- Goroutines that each make one call of `RegisterAuthorizer`, `AuthorizerExists` or `GetAuthorizers`,
-- in every state that they reach: those that have taken the lock stand in an order, each once, such
-- that each one that has returned has what its call returns where the calls before it have been made
-- one after the other, each as one step, and unless one of them is writing, the registry holds what
-- these calls leave; and while one is about to change the registry, no other one is about to use it.
pub authorizer_calls-IsAtomic :
    {W : Type 0} (decimal : ℕ → String) (message : String → String) (calls : ℕ → AuthorizerCall W)
    (n : ℕ) (entries : Dict (AuthorizerFactory W))
    (s : System (AuthorizerFactory W) (AuthorizerAnswer W))
    → Reach n (init entries (λ i. program_of decimal message (calls i))) s
    → IsAtomic (λ i. perform decimal message (calls i)) entries s
      × ((i j : ℕ) (id : String) (f : AuthorizerFactory W)
            (p : Program (AuthorizerFactory W) (AuthorizerAnswer W))
          → s.program i ≡ put id f p
          → j < n
          → Uses (s.program j)
          → j ≡ i)
authorizer_calls-IsAtomic decimal message calls n entries s reached =
    let bracketed = λ (i : ℕ). program_of-IsBracketed decimal message (calls i) in
    (
      serializable-IsAtomic (λ i. perform decimal message (calls i))
          (λ i. program_of decimal message (calls i))
          (λ i. run_alone-program_of decimal message (calls i)) bracketed reached,
      λ i j id f p. no_race 1 n entries _ s i j id f p bracketed reached,
    )
