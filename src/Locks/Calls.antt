-- ===== src/Locks/Calls.antt =====
-- Goroutines that register names and look them up, as the functions of registry.go and auth.go do.
pub mod Once
use mathlib.Core.Path.{subst}
use goexpose.Common.{Bool, Option, Result, String, ℕ, ◌<◌, ◌≡◌, ◌≢◌}
use goexpose.Dict.{Dict, has, insert, lookup, has-insert_self, has-insert_kept}
use goexpose.Locks.{IsBracketed, Program, Reach, Step, System, before, init, put, return, run_alone}
use goexpose.Locks.Alone.{
  after_register, run_alone-authorizer_exists, run_alone-get_task_factory, run_alone-register,
}
use goexpose.Locks.Brackets.{
  authorizer_exists-IsBracketed, get_task_factory-IsBracketed, register-IsBracketed,
}
use goexpose.Locks.Registries.{
  authorizer_exists_program, get_task_factory_program, register_program,
}
use goexpose.Locks.Serial.Atomic.{IsAtomic, serializable-IsAtomic}
use goexpose.Locks.Exclusion.Race.{Uses, no_race}
use goexpose.Locks.Progress.{no_deadlock}
use goexpose.Registry.{authorizer_exists, get_task_factory, register}

-- A call of one of the functions
pub data Call (F : Type 0) : Type 0 where
  registers : String → F → Call F
  finds exists : String → Call F

-- What a call returns.
pub data Answer (F : Type 0) : Type 0 where
  registered : Result (Unit {0}) → Answer F
  found : Option F → Answer F
  known : Bool → Answer F

module _ {F : Type 0} (message : String → String) where
  -- The program of a call.
  abbrev pub program_of : Call F → Program F (Answer F)
  program_of (registers id f) = register_program registered message id f
  program_of (finds id) = get_task_factory_program found id
  program_of (exists id) = authorizer_exists_program known id

  -- What a call does to the registry, as one step.
  abbrev pub perform : Call F → Dict F → Answer F × Dict F
  perform (registers id f) m = after_register registered m (register message id f m)
  perform (finds id) m = (found (get_task_factory id m), m)
  perform (exists id) m = (known (authorizer_exists id m), m)

  run_alone-program_of :
      (call : Call F) (m : Dict F) → run_alone (program_of call) m ≡ perform call m
  run_alone-program_of (registers id f) m = run_alone-register registered message id f m
  run_alone-program_of (finds id) m = run_alone-get_task_factory found id m
  run_alone-program_of (exists id) m = run_alone-authorizer_exists known id m

  program_of-IsBracketed : (call : Call F) → IsBracketed 0 before (program_of call)
  program_of-IsBracketed (registers id f) = register-IsBracketed 0 registered message id f
  program_of-IsBracketed (finds id) = get_task_factory-IsBracketed 0 found id
  program_of-IsBracketed (exists id) = authorizer_exists-IsBracketed 0 known id

-- Goroutines that each make one call of `RegisterTaskFactory`, `getTaskFactory` or
-- `AuthorizerExists` on one registry, in every state that they reach: those that have taken the lock
-- stand in an order, each once, such that each one that has returned has what the call returns where
-- the calls before it have been made one after the other, each as one step; and unless one of them is
-- writing, the registry holds what these calls leave.
pub calls-IsAtomic :
    {F : Type 0} (message : String → String) (calls : ℕ → Call F) (n : ℕ) (entries : Dict F)
    (s : System F (Answer F))
    → Reach n (init entries (λ i. program_of message (calls i))) s
    → IsAtomic (λ i. perform message (calls i)) entries s
calls-IsAtomic message calls n entries s reached =
    serializable-IsAtomic (λ i. perform message (calls i)) (λ i. program_of message (calls i))
      (λ i. run_alone-program_of message (calls i)) (λ i. program_of-IsBracketed message (calls i))
      reached

-- Of goroutines that each make one such call, in every state that they reach: one can go on unless
-- all have returned, and while one is about to change the registry, no other one is about to use it.
pub calls-progress :
    {F : Type 0} (message : String → String) (calls : ℕ → Call F) (n : ℕ) (entries : Dict F)
    (s : System F (Answer F))
    → Reach n (init entries (λ i. program_of message (calls i))) s
    → ((i : ℕ)
        → i < n
        → ((a : Answer F) → s.program i ≢ return a)
        → (t : System F (Answer F)) × Step n s t)
      × ((i j : ℕ) (id : String) (f : F) (p : Program F (Answer F))
          → s.program i ≡ put id f p
          → j < n
          → Uses (s.program j)
          → j ≡ i)
calls-progress message calls n entries s reached =
    let bracketed = λ (i : ℕ). program_of-IsBracketed message (calls i) in
    (
      λ i. no_deadlock n entries _ s i bracketed reached,
      λ i j id f p. no_race 0 n entries _ s i j id f p bracketed reached,
    )
