-- ===== src/Program.antt =====
-- cmd/goexpose/goexpose.go: the `main` function of the program.
pub mod Starts
pub mod Tests
use goexpose.Common.{
  Error, Option, Result, String, err, error_text, new, none, ok, panic, some, ℕ, ◌<>◌, ◌∷◌, ◌⊎◌, [],
  List,
}
use goexpose.Config.{Config}
use goexpose.Config.Loading.{Files, new_config_from_filename}
use goexpose.Dict.{Dict, lookup}
use goexpose.Effect.{Call, Io, perform, pure, ◌>>=◌}
use goexpose.Server.Serving.{Server, new_server}

-- How the process ends: the error that it logs, and its exit code.
pub record Exit : Type 0 where
  pub logged : Option String
  pub code : ℕ

-- `flag.String`, from the flags that the command line sets
abbrev pub flag : Dict String → String → String → String
flag flags name default = elim (lookup name flags) [ none ↦ default | some value ↦ value ]

module _ {A : Type 0} where
  -- The text that is logged for an error.
  abbrev pub logged : String → Result A → Result A
  logged text (ok a) = ok a
  logged text (err e) = err (new (text <> ": " <> error_text e))
  logged text (panic m) = panic m

module _ {W A : Type 0} where
  abbrev pub log_error : String → Io W A → Io W A
  log_error text m w = let (result, w') = m w in (logged text result, w')

-- `os.Exit(1)` after an error, the end of `main` without one, and the exit code of a panic.
abbrev pub exit_of : Result (Unit {0}) → Exit
exit_of (ok _) = record { logged = none; code = 0 }
exit_of (err e) = record { logged = some (error_text e); code = 1 }
exit_of (panic text) = record { logged = none; code = 2 }

-- `chdir` is `os.Chdir`, and `run` the `Run` method of a server. A configuration is read from the file
-- system as it is at the start.
module _ {W : Type 0} (files : Files) (chdir : String → Call W (Unit {0}))
    (run : Server → Io W (Unit {0})) where
  abbrev pub steps : Dict String → Io W (Unit {0})
  steps flags =
      log_error "config error" (
        pure (
          new_config_from_filename files (flag flags "config" "config.json")
            (flag flags "format" "json")))
      >>= λ (config : Config). log_error "config error" (perform (chdir config.directory)) >>= λ _.
          log_error "server error" (pure (new_server config)) >>= λ (server : Server).
          log_error "server run error" (run server)

  unfoldable pub main : Dict String → W → Exit × W
  main flags w = let (result, w') = steps flags w in (exit_of result, w')
