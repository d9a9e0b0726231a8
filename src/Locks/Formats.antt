-- ===== src/Locks/Formats.antt =====
-- Goroutines that register formats, verify formats and format texts, as the functions of formats.go
-- do. Handlers of requests do so at the same time.
use goexpose.Common.{Result, String, ℕ, ◌<◌, ◌≡◌, ◌≢◌}
use goexpose.Dict.{Dict}
use goexpose.Formats.{FormatFunc, Formatted, format, verify_format}
use goexpose.Locks.{IsBracketed, Program, Reach, Step, System, before, init, return, run_alone}
use goexpose.Locks.Alone.{
  after_register, run_alone-format, run_alone-register, run_alone-verify_format,
}
use goexpose.Locks.Brackets.{format-IsBracketed, register-IsBracketed, verify_format-IsBracketed}
use goexpose.Locks.Progress.{no_deadlock}
use goexpose.Locks.Registries.{format_program, register_program, verify_format_program}
use goexpose.Locks.Serial.Atomic.{IsAtomic, serializable-IsAtomic}
use goexpose.Registry.{register}

pub data FormatCall : Type 0 where
  registers : String → FormatFunc → FormatCall
  verifies : String → FormatCall
  formats : String → String → FormatCall

pub data FormatAnswer : Type 0 where
  registered : Result (Unit {0}) → FormatAnswer
  verified : Result String → FormatAnswer
  formatted : Formatted → FormatAnswer

module _ (message : String → String) where
  abbrev pub program_of : FormatCall → Program FormatFunc FormatAnswer
  program_of (registers id f) = register_program registered message id f
  program_of (verifies f) = verify_format_program verified f
  program_of (formats body f) = format_program formatted body f

  -- What a call does to the registry, as one step.
  abbrev pub perform : FormatCall → Dict FormatFunc → FormatAnswer × Dict FormatFunc
  perform (registers id f) m = after_register registered m (register message id f m)
  perform (verifies f) m = (verified (verify_format m f), m)
  perform (formats body f) m = (formatted (format m body f), m)

  run_alone-program_of :
      (call : FormatCall) (m : Dict FormatFunc) → run_alone (program_of call) m ≡ perform call m
  run_alone-program_of (registers id f) m = run_alone-register registered message id f m
  run_alone-program_of (verifies f) m = run_alone-verify_format m verified f
  run_alone-program_of (formats body f) m = run_alone-format m formatted body f

  program_of-IsBracketed : (call : FormatCall) → IsBracketed 0 before (program_of call)
  program_of-IsBracketed (registers id f) = register-IsBracketed 0 registered message id f
  program_of-IsBracketed (verifies f) = verify_format-IsBracketed 0 verified f
  program_of-IsBracketed (formats body f) = format-IsBracketed 0 formatted body f

-- Goroutines that each make one call of `RegisterFormat`, `VerifyFormat` or `Format`, in every state
-- that they reach: those that have taken the lock stand in an order, each once, such that each one
-- that has returned has what its call returns where the calls before it have been made one after the
-- other, each as one step, and unless one of them is writing, the registry holds what these calls
-- leave; and one can go on unless all have returned.
pub format_calls-IsAtomic :
    (message : String → String) (calls : ℕ → FormatCall) (n : ℕ) (entries : Dict FormatFunc)
    (s : System FormatFunc FormatAnswer)
    → Reach n (init entries (λ i. program_of message (calls i))) s
    → IsAtomic (λ i. perform message (calls i)) entries s
      × ((i : ℕ)
          → i < n
          → ((a : FormatAnswer) → s.program i ≢ return a)
          → (t : System FormatFunc FormatAnswer) × Step n s t)
format_calls-IsAtomic message calls n entries s reached =
    let bracketed = λ (i : ℕ). program_of-IsBracketed message (calls i) in
    (
      serializable-IsAtomic (λ i. perform message (calls i)) (λ i. program_of message (calls i))
          (λ i. run_alone-program_of message (calls i)) bracketed reached,
      λ i. no_deadlock n entries _ s i bracketed reached,
    )
