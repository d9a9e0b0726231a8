-- ===== src/Locks/Tests.antt =====
-- Two goroutines on a small registry, and on the registry of authorizers.
use goexpose.Auth.{AuthorizerFactory}
use goexpose.Common.{String, [], arith, ok, refl, suc, zero, ℕ, ◌<◌, ◌≡◌, ◌≢◌, ◌∷◌, ◌<>◌, err, new}
use goexpose.Config.{Config, new_config}
use goexpose.Dict.{Dict, insert, lookup}
use goexpose.Formats.{FormatFunc, format_lines, format_text}
use goexpose.Locks.{
  Program, Reach, Step, System, announce, enter_read, enter_write, init, leave_read, leave_write,
  look, pick, put, return, start, step, store,
}
use goexpose.Locks.Authorizers
use goexpose.Locks.Authorizers.{AuthorizerAnswer, AuthorizerCall, authorizer_calls-IsAtomic}
use goexpose.Locks.Calls
use goexpose.Locks.Calls.{Answer, Call, calls-progress}
use goexpose.Locks.Calls.Once.{registered_once}
use goexpose.Locks.Deadlock.{get_authorizers-deadlocks, reading_and_registering}
use goexpose.Locks.Exclusion.Race.{Uses}
use goexpose.Locks.Formats
use goexpose.Locks.Formats.{FormatAnswer, FormatCall, format_calls-IsAtomic}
use goexpose.Locks.Registries.{
  get_authorizers_program, get_task_factory_program, register_program, verify_format_program,
}
use goexpose.Text.{split}
use goexpose.Locks.Serial.Atomic.{IsAtomic}

abbrev message : String → String
message id = "task factory " <> id <> " already exists"

-- The goroutine 0 registers a name, and the others look for it.
abbrev calls : ℕ → Call ℕ
calls zero = Call.registers "shell" 7
calls (suc i) = Call.finds "shell"

abbrev begun : System ℕ (Answer ℕ)
begun = init [] (λ i. Calls.program_of message (calls i))

-- The goroutine 1 reads while the goroutine 0 waits, which then registers.
run :
    (s : System ℕ (Answer ℕ)) × Reach 2 begun s × (s.program 0 ≡ return (Calls.registered (ok tt)))
unfolding register_program get_task_factory_program lookup insert
run = (
  _,
  step
      (step
        (step
          (step
            (step
              (step
                (step (step start (pick 1 (omega arith) (enter_read refl)))
                  (pick 0 (omega arith) (announce refl)))
                (pick 1 (omega arith) look))
              (pick 1 (omega arith) leave_read))
            (pick 0 (omega arith) (enter_write refl refl)))
          (pick 0 (omega arith) look))
        (pick 0 (omega arith) store))
      (pick 0 (omega arith) leave_write),
  refl,
)

registered_once_example : ◌≡◌ {A = ℕ} 0 0
registered_once_example =
    registered_once message calls 2 [] run.0 0 0 "shell" 7 7 run.1 refl refl run.2 run.2

-- The goroutine 0 registers a format, and the others verify one that is registered.
abbrev format_calls : ℕ → FormatCall
format_calls zero = FormatCall.registers "lines" format_lines
format_calls (suc i) = FormatCall.verifies "text"

abbrev texts : Dict FormatFunc
texts = ("text", format_text) ∷ []

format_run :
    (s : System FormatFunc FormatAnswer) × Reach 2
      (init texts (λ i. Formats.program_of message (format_calls i)))
      s
unfolding register_program verify_format_program lookup insert split
format_run = (
  _,
  step
      (step (step start (pick 1 (omega arith) (enter_read refl)))
        (pick 0 (omega arith) (announce refl)))
      (pick 1 (omega arith) look),
)

format_calls-IsAtomic_example :
    IsAtomic (λ i. Formats.perform message (format_calls i)) texts format_run.0
    × ((i : ℕ)
        → i < 2
        → ((a : FormatAnswer) → format_run.0.program i ≢ return a)
        → (t : System FormatFunc FormatAnswer) × Step 2 format_run.0 t)
format_calls-IsAtomic_example =
    format_calls-IsAtomic message format_calls 2 texts format_run.0 format_run.1

-- A configuration with one authorizer.
abbrev guarded : Config
guarded = record new_config { authorizers = ("door", record { type = "basic"; config = "" }) ∷ [] }

abbrev factory : AuthorizerFactory (Unit {0})
factory ac = err (new "no configuration")

abbrev decimal : ℕ → String
decimal n = "0"

abbrev authorizer_calls : ℕ → AuthorizerCall (Unit {0})
authorizer_calls zero = AuthorizerCall.makes guarded
authorizer_calls (suc i) = AuthorizerCall.registers "ldap" factory

abbrev basic : Dict (AuthorizerFactory (Unit {0}))
basic = ("basic", factory) ∷ []

authorizer_run :
    (s : System (AuthorizerFactory (Unit {0})) (AuthorizerAnswer (Unit {0}))) × Reach 2
      (init basic (λ i. Authorizers.program_of decimal message (authorizer_calls i)))
      s
unfolding register_program get_authorizers_program lookup insert
authorizer_run = (
  _,
  step
      (step
        (step
          (step (step start (pick 0 (omega arith) (enter_read refl)))
            (pick 0 (omega arith) (enter_read refl)))
          (pick 0 (omega arith) look))
        (pick 1 (omega arith) (announce refl)))
      (pick 0 (omega arith) leave_read),
)

authorizer_calls-IsAtomic_example :
    IsAtomic (λ i. Authorizers.perform decimal message (authorizer_calls i)) basic authorizer_run.0
    × ((i j : ℕ) (id : String) (f : AuthorizerFactory (Unit {0}))
          (p : Program (AuthorizerFactory (Unit {0})) (AuthorizerAnswer (Unit {0})))
        → authorizer_run.0.program i ≡ put id f p
        → j < 2
        → Uses (authorizer_run.0.program j)
        → j ≡ i)
authorizer_calls-IsAtomic_example =
    authorizer_calls-IsAtomic decimal message authorizer_calls 2 basic authorizer_run.0
      authorizer_run.1

get_authorizers-deadlocks_example :
    (s : System (AuthorizerFactory (Unit {0})) (AuthorizerAnswer (Unit {0}))) × Reach 2
      (init basic (
        reading_and_registering decimal AuthorizerAnswer.made AuthorizerAnswer.registered guarded
          "ldap" factory))
      s
    × ((a : AuthorizerAnswer (Unit {0})) → (s.program 0 ≢ return a) × (s.program 1 ≢ return a))
    × ((t : System (AuthorizerFactory (Unit {0})) (AuthorizerAnswer (Unit {0}))) → Step 2 s t → ⊥)
get_authorizers-deadlocks_example =
    get_authorizers-deadlocks decimal AuthorizerAnswer.made AuthorizerAnswer.registered guarded
      "door" (record { type = "basic"; config = "" }) [] "ldap" factory basic refl
