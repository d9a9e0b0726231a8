-- ===== src/Tasks/Shell/Runs.antt =====
-- How a command of a shell task comes to its response.
use mathlib.Core.Path.{subst}
use goexpose.Common.{
  Bool-cases, Error, String, Sum-cases, if◌then◌else◌, inl, inr, ok, refl, some, sym, ◌≡◌, ap,
}
use goexpose.Dict.{Dict, lookup}
use goexpose.Effect.{Call}
use goexpose.Formats.{FormatFunc, format_text}
use goexpose.Response.{Response, add_value, set_error, strip_status_data}
use goexpose.Tasks.Item
use goexpose.Tasks.Item.{attempt, blank, check, pure, put, put_if, run_item, settle}
use goexpose.Tasks.Item.Outcome.{IsDone}
use goexpose.Tasks.Shell.{
  Cmd, ShellCommand, ShellConfig, command_steps, run_command, to_run, validate_command,
}
use goexpose.Tasks.Shell.Answer.{shell_command-IsDone}
use goexpose.Utils.{Interpolate}
use goexpose.Value.{Value, error, str}

module _ {W : Type 0} (reg : Dict FormatFunc) (interpolate : Interpolate)
    (output : Cmd → Call W String) (s : ShellConfig) (vars : Dict Value) (c : ShellCommand) where
  -- The item's response once the command is known.
  abbrev shown : String → Response
  shown text = if c.return_command then add_value "command" (str text) blank else blank

  abbrev process : String → Call W String
  process text = output (to_run reg interpolate output s c text)

  -- The response of a command, from the state before it.
  pub data Runs (w : W) : Response → Type 0 where
    unrendered :
        (e : Error)
        → interpolate c.command vars ≡ inl e
        → Runs w (strip_status_data (set_error (error e) blank))
    failed :
        (text : String) (e : Error)
        → interpolate c.command vars ≡ inr text
        → (process text w).0 ≡ inl e
        → Runs w (strip_status_data (set_error (error e) (shown text)))
    finished :
        (text out : String) (w₁ : W) (response : Response)
        → interpolate c.command vars ≡ inr text
        → process text w ≡ (inr out, w₁)
        → IsDone response
        → Runs w response

  failed_response :
      (w : W) (text : String) (e : Error)
      → interpolate c.command vars ≡ inr text
      → (process text w).0 ≡ inl e
      → (run_command reg interpolate output s vars c w).0
        ≡ strip_status_data (set_error (error e) (shown text))
  unfolding run_command command_steps run_item Item.◌>>=◌ check attempt put_if put pure settle
  failed_response w text e rendered bad = elim (Bool-cases c.return_command) [
    | inl shows ↦ rw (rendered, shows, bad) refl
    | inr hides ↦ rw (rendered, hides, bad) refl
  ]

  -- The response of a command of a validated task is the error of its template, or the error of its
  -- process, beside the command where it is to be returned, or else a result and no error: the format
  -- never fails, where "text" is registered as `FormatText`.
  pub shell_command-Runs :
      (c₀ : ShellCommand) (w : W)
      → lookup "text" reg ≡ some format_text
      → validate_command reg c₀ ≡ ok c
      → Runs w (run_command reg interpolate output s vars c w).0
  unfolding run_command command_steps run_item Item.◌>>=◌ check attempt put_if put pure settle
  shell_command-Runs c₀ w texts valid = elim (Sum-cases (interpolate c.command vars)) [
    | inl (e, bad) ↦ rw bad (unrendered e bad)
    | inr (text, rendered) ↦ elim (Sum-cases (process text w).0) [
      | inl (e, bad) ↦
          subst (Runs w) (sym (failed_response w text e rendered bad)) (failed text e rendered bad)
      | inr (out, got) ↦
          let ran = ap (λ x. (x, (process text w).1)) got in
          finished text out (process text w).1 _ rendered ran (
            shell_command-IsDone reg interpolate output s vars c₀ c text out w (process text w).1
              texts valid rendered ran)
    ]
  ]
