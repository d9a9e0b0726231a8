-- ===== src/Tasks/Shell/Answer.antt =====
-- What a validated shell task answers.
use goexpose.Common.{
  Bool-cases, List, [], String, inl, inr, length, new, none, ok, some, ◌=ℕ◌, ◌≡◌, ◌∷◌, >>=-eq-ok,
  ok-injective, refl, ap, sym, ◌∙◌, suc,
}
use goexpose.Dict.{Dict, lookup}
use goexpose.Effect.{Call}
use goexpose.Formats.{FormatFunc, format, format_text, verify_format}
use goexpose.Formats.Picking.{format-verify_format}
use goexpose.Request.{Request}
use goexpose.Response.{new_response, status_ok}
use goexpose.Tasks.Item.{
  Item, blank, each, each-All, length-each, run_item, attempt, check, put_if, give_with, settle,
  put, pure,
}
use goexpose.Tasks.Item
use goexpose.Tasks.Item.Formatted.{conclude-Ends, conclude-IsDone}
use goexpose.Tasks.Item.Outcome.{
  blank-IsFresh, add_value-IsFresh, strip-IsDone, Ends, IsDone, IsSettled, run_item-IsSettled,
  strip-IsSettled,
}
use goexpose.Tasks.Item.Rules.{item_rules}
use goexpose.Tasks.Shell.{
  Cmd, ShellCommand, ShellConfig, command_steps, run, run_command, to_run, validate,
  validate_command, validate_commands,
}
use goexpose.Tasks.Single.{Answers, single_index, single_index-Finishes}
use goexpose.Text.{trim_space}
use goexpose.Utils.{Interpolate}
use goexpose.Value.{Value, str}

length-validate_commands :
    (reg : Dict FormatFunc) (cs cs' : List ShellCommand)
    → validate_commands reg cs ≡ ok cs'
    → length cs' ≡ length cs
unfolding validate_commands
length-validate_commands reg [] cs' h = ap length (sym (ok-injective h))
length-validate_commands reg (c ∷ cs) cs' h =
    let (d, _, h₁) = >>=-eq-ok (validate_command reg c) _ h in
    let (ds, e, h₂) = >>=-eq-ok (validate_commands reg cs) _ h₁ in
    ap length (sym (ok-injective h₂)) ∙ ap suc (length-validate_commands reg cs ds e)

-- The index of a validated configuration has been checked against its commands.
validate_sound :
    (reg : Dict FormatFunc) (s s' : ShellConfig)
    → validate reg s ≡ ok s'
    → single_index (new "single_result out of bounds") s'.single_result (length s'.commands)
      ≡ ok s'.single_result_index
unfolding validate
validate_sound reg s s' h = elim (Bool-cases (length s.commands =ℕ 0)) [
  | inl e ↦ cc (rw e at h)
  | inr e ↦
      let (cs, found, h₁) = >>=-eq-ok (validate_commands reg s.commands) _ (rw e at h) in
      let (i, index, h₂) = >>=-eq-ok (single_index _ s.single_result (length s.commands)) _ h₁ in
      let same = ok-injective h₂ in
      rw (← same) (rw (length-validate_commands reg s.commands cs found) index)
]

module _ {W : Type 0} (reg : Dict FormatFunc) (interpolate : Interpolate)
    (output : Cmd → Call W String) where
  command_steps-Ends :
      (s : ShellConfig) (vars : Dict Value) (c : ShellCommand)
      → Ends (command_steps reg interpolate output s vars c)
  unfolding command_steps
  command_steps-Ends s vars c = search (item_rules, conclude-Ends)

  -- Whatever the request, a validated shell task answers with a response for each command, which has
  -- a result or an error and not both, and finishes as its `single_result` asks.
  pub shell_run-Answers :
      (s s' : ShellConfig) (r : Request) (vars : Dict Value) (w : W)
      → validate reg s ≡ ok s'
      → Answers IsSettled s'.single_result s'.single_result_index
          (length s'.commands)
          (run reg interpolate output s' r vars w).0
  unfolding run run_command
  shell_run-Answers s s' r vars w h =
      let f = run_command reg interpolate output s' vars in
      record {
        results = (each f s'.commands w).0;
        each_item = each-All f IsSettled s'.commands w (λ c w'. strip-IsSettled _ (
            run_item-IsSettled (command_steps reg interpolate output s' vars c) w'
              (command_steps-Ends s' vars c)));
        count = length-each f s'.commands w;
        finished = refl;
        finishes =
            single_index-Finishes _ s'.single_result (length s'.commands) s'.single_result_index
              (each f s'.commands w).0 (new_response status_ok) (validate_sound reg s s' h)
              (length-each f s'.commands w);
      }

  -- A command of a validated task gives a result whenever its template renders and its process
  -- succeeds: the format never fails, where "text" is registered as `FormatText`.
  pub shell_command-IsDone :
      (s : ShellConfig) (vars : Dict Value) (c₀ c : ShellCommand) (text out : String) (w w' : W)
      → lookup "text" reg ≡ some format_text
      → validate_command reg c₀ ≡ ok c
      → interpolate c.command vars ≡ inr text
      → output (to_run reg interpolate output s c text) w ≡ (inr out, w')
      → IsDone (run_command reg interpolate output s vars c w).0
  unfolding run_command command_steps run_item Item.◌>>=◌ check attempt put_if put pure settle
      validate_command
  shell_command-IsDone s vars c₀ c text out w w' texts valid rendered ran =
      let (verified, verifies, same) = >>=-eq-ok (verify_format reg c₀.format) _ valid in
      let formats : c.format ≡ verified = ap (λ x. x.format) (sym (ok-injective same)) in
      let clean = (format-verify_format reg c₀.format verified (trim_space out) texts verifies).1 in
      let error_free : (format reg (trim_space out) c.format).error ≡ none = rw formats clean in
      elim (Bool-cases c.return_command) [
        | inl shown ↦
            rw (rendered, shown, ran)
              (strip-IsDone _ (
                conclude-IsDone _ _ w' error_free
                  (add_value-IsFresh "command" (str text) blank refl refl blank-IsFresh)))
        | inr hidden ↦
            rw (rendered, hidden, ran)
              (strip-IsDone _ (conclude-IsDone _ blank w' error_free blank-IsFresh))
      ]
