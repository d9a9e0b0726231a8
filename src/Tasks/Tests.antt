-- ===== src/Tasks/Tests.antt =====
-- The tasks at concrete inputs.
use goexpose.Common.{Error, List, [], String, inr, new, ok, refl, some, true, ◌∷◌, ◌≡◌, ◌⊎◌}
use goexpose.Dict.{Dict, lookup}
use goexpose.Formats.{FormatFunc, format_text, verify_format}
use goexpose.Response.{Response, new_response}
use goexpose.Tasks.Item.Outcome.{IsSettled}
use goexpose.Tasks.Shell
use goexpose.Tasks.Shell.{Cmd, ShellCommand, ShellConfig}
use goexpose.Tasks.Shell.Answer.{shell_run-Answers}
use goexpose.Tasks.Shell.Runs.{Runs, shell_command-Runs}
use goexpose.Tasks.Single.{Answers, Finishes, single_index, single_index-Finishes}
use goexpose.Text.{join, split}
use goexpose.Value.{pos}
use goexpose.Tasks.Sample.{plain, request}

abbrev some_error : Error
some_error = new "single_result out of bounds"

abbrev two : List Response
two = new_response 200 ∷ new_response 404 ∷ []

in_range : single_index some_error (some (pos 1)) 2 ≡ ok (pos 1)
unfolding single_index
in_range = refl

single_index-Finishes_example : Finishes (some (pos 1)) (pos 1) two (new_response 200)
single_index-Finishes_example =
    single_index-Finishes some_error (some (pos 1)) 2 (pos 1) two (new_response 200) in_range refl

abbrev formats : Dict FormatFunc
formats = ("text", format_text) ∷ []

abbrev date : ShellCommand
date = record { command = "date"; chdir = ""; format = ""; return_command = true }

abbrev checked_date : ShellCommand
checked_date = record date { format = "text" }

abbrev shell : ShellConfig
shell = record {
  env = [];
  shell = "/bin/sh";
  commands = date ∷ [];
  single_result = some (pos 0);
  single_result_index = pos 0;
}

abbrev checked_shell : ShellConfig
checked_shell = record shell { commands = checked_date ∷ [] }

abbrev output : Cmd → Unit {0} → (Error ⊎ String) × Unit {0}
output cmd w = (inr "today", w)

validates_command : Shell.validate_command formats date ≡ ok checked_date
unfolding Shell.validate_command verify_format split join
validates_command = refl

validates_shell : Shell.validate formats shell ≡ ok checked_shell
unfolding Shell.validate Shell.validate_commands Shell.validate_command verify_format split join
    single_index
validates_shell = refl

shell_run-Answers_example :
    Answers IsSettled
      (some (pos 0))
      (pos 0)
      1
      (Shell.run formats plain output checked_shell request [] tt).0
shell_run-Answers_example =
    shell_run-Answers formats plain output shell checked_shell request [] tt validates_shell

texts : lookup "text" formats ≡ some format_text
unfolding lookup
texts = refl

shell_command-Runs_example :
    Runs formats plain output shell [] checked_date tt
      (Shell.run_command formats plain output shell [] checked_date tt).0
shell_command-Runs_example =
    shell_command-Runs formats plain output shell [] checked_date date tt texts validates_command
