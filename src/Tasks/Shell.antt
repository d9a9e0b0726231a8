-- ===== src/Tasks/Shell.antt =====
-- The shell task of tasks.go.
pub mod Answer
pub mod Runs
use goexpose.Common.{
  Bool, Error, List, [], Option, Result, String, err, false, if◌then◌else◌, inl, inr, length, map,
  new, none, ok, outcome, some, ℕ, ◌<>◌, ◌=ℕ◌, ◌>>=◌, ◌∷◌, ◌⊎◌,
}
use goexpose.Config.{TaskConfig}
use goexpose.Dict.{Dict}
use goexpose.Effect.{Call, Io}
use goexpose.Formats.{FormatFunc, Formatted, format, verify_format}
use goexpose.Request.{Request}
use goexpose.Response.{Response, new_response, status_ok, strip_status_data}
use goexpose.Tasks.{Tasker, task}
use goexpose.Tasks.Item
use goexpose.Tasks.Item.{Item, attempt, blank, check, each, give_with, put_if, run_item}
use goexpose.Tasks.Item.Formatted.{conclude}
use goexpose.Tasks.Single.{finish, single_index}
use goexpose.Text.{trim_space}
use goexpose.Utils.{Interpolate}
use goexpose.Value.{Value, negsuc, pos, str, ℤ}

pub record ShellCommand : Type 0 where
  pub command : String
  pub chdir : String
  pub format : String
  pub return_command : Bool

pub record ShellConfig : Type 0 where
  pub env : Dict String
  pub shell : String
  pub commands : List ShellCommand
  pub single_result : Option ℤ
  pub single_result_index : ℤ

-- An `*exec.Cmd`: the program, the text after "-c", the directory ("" for the current one) and the
-- environment (empty for that of the server).
pub record Cmd : Type 0 where
  pub shell : String
  pub text : String
  pub directory : String
  pub environment : List String

abbrev pub new_config : ShellConfig
new_config = record {
  env = [];
  shell = "/bin/sh";
  commands = [];
  single_result = none;
  single_result_index = pos 0;
}

module _ (reg : Dict FormatFunc) where
  unfoldable pub validate_command : ShellCommand → Result ShellCommand
  validate_command c = do verified ← verify_format reg c.format; ok (record c { format = verified })

  unfoldable pub validate_commands : List ShellCommand → Result (List ShellCommand)
  validate_commands [] = ok []
  validate_commands (c ∷ cs) = do c' ← validate_command c; cs' ← validate_commands cs; ok (c' ∷ cs')

  unfoldable pub validate : ShellConfig → Result ShellConfig
  validate s =
      if length s.commands =ℕ 0 then err (new "please provide at least one command") else do
        commands ← validate_commands s.commands
        index ← single_index (new "single_result out of bounds") s.single_result (length s.commands)
        ok (record s { commands = commands; single_result_index = index })

-- `output` is `cmd.Output`.
module _ {W : Type 0} (reg : Dict FormatFunc) (interpolate : Interpolate)
    (output : Cmd → Call W String) where
  abbrev pub to_run : ShellConfig → ShellCommand → String → Cmd
  to_run s c text = record {
    shell = s.shell;
    text = text;
    directory = c.chdir;
    environment = map (λ entry. entry.0 <> "=" <> entry.1) s.env;
  }

  unfoldable pub command_steps : ShellConfig → Dict Value → ShellCommand → Item W (Unit {0})
  command_steps s vars c = Item.◌>>=◌ (check (interpolate c.command vars)) λ text.
      Item.◌>>=◌ (put_if c.return_command "command" (str text)) λ _.
        Item.◌>>=◌ (attempt (output (to_run s c text)))
          λ out. conclude (format reg (trim_space out) c.format)

  unfoldable pub run_command : ShellConfig → Dict Value → ShellCommand → W → Response × W
  run_command s vars c w =
      let (r, w') = run_item (command_steps s vars c) blank w in (strip_status_data r, w')

  unfoldable pub run : ShellConfig → Request → Dict Value → Io W Response
  run s r vars w =
      let (results, w') = each (run_command s vars) s.commands w in
      (finish s.single_result_index results (new_response status_ok), w')

  -- `unmarshal` is `json.Unmarshal` into the fresh configuration.
  unfoldable pub shell_task_factory :
      (String → ShellConfig → Error ⊎ ShellConfig) → TaskConfig → Result (List (Tasker W))
  shell_task_factory unmarshal taskconfig = do
    config ← outcome (unmarshal taskconfig.config new_config)
    config' ← validate reg config
    ok (task (run config') ∷ [])
