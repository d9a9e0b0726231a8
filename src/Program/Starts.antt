-- ===== src/Program/Starts.antt =====
-- cmd/goexpose/goexpose.go: how a start of the program goes, from the command line to the listening.
use goexpose.Auth.{AuthorizerFactory}
use goexpose.Common.{
  Error, List, [], Result, String, err, error_text, inl, inr, none, ok, outcome, panic, refl, some,
  ℕ, ◌<>◌, ◌==◌, ◌≡◌, ◌≢◌, ◌∷◌, ◌⊎◌, >>=-ne-panic, Bool-cases,
}
use goexpose.Config.{Config, new_config, Regexp}
use goexpose.Config.Loading.{
  Files, UnmarshalFunc, config_formats, decode_with, new_config_from_filename,
}
use goexpose.Dict.{Dict}
use goexpose.Effect.{Call, Io, continue, outcome-ne-panic, perform, ◌>>=◌}
use goexpose.Program.{Exit, exit_of, flag, log_error, logged, main}
use goexpose.Response.Writing.{Codec}
use goexpose.Value.{Bytes}
use goexpose.Server.Routes.{Route, TaskFactory, router, routes}
use goexpose.Server.Serving
use goexpose.Server.Serving.{
  Handler, Mux, Network, Server, decimal_int, listen_with, new_server, serve, version,
}

abbrev pub failed : String → Error → Exit
failed text e = record { logged = some (text <> ": " <> error_text e); code = 1 }

decode_with-ne-panic :
    (table : Dict UnmarshalFunc) (format : String) (body : Bytes) (target : Config) (m : String)
    → decode_with table format body target ≢ panic m
unfolding decode_with
decode_with-ne-panic [] format body target m = λ h. cc
decode_with-ne-panic ((name, unmarshal) ∷ rest) format body target m =
    elim (Bool-cases (name == format)) [
      | inl e ↦ rw e (outcome-ne-panic (unmarshal body target) m)
      | inr e ↦ rw e (decode_with-ne-panic rest format body target m)
    ]

-- Loading a configuration gives it or an error.
loading-ne-panic :
    (f : Files) (filename format m : String) → new_config_from_filename f filename format ≢ panic m
unfolding new_config_from_filename
loading-ne-panic f filename format =
    >>=-ne-panic (outcome (f.read_file filename)) _ (outcome-ne-panic (f.read_file filename))
      λ body.
        >>=-ne-panic (decode_with (config_formats f) format body new_config) _
          (decode_with-ne-panic (config_formats f) format body new_config)
          λ config.
            >>=-ne-panic (outcome (f.absolute_directory filename)) _
              (outcome-ne-panic (f.absolute_directory filename)) λ directory m h. cc

module _ {W : Type 0} (files : Files) (chdir : String → Call W (Unit {0})) (mux : Mux W)
    (environ : W → List String) (c : Codec) (elapsed : ℕ) (compile : String → Error ⊎ Regexp)
    (decimal : ℕ → String) (sha256_hex : String → String) (tasks : Dict (TaskFactory W))
    (authorizers : Dict (AuthorizerFactory W)) (network : Network W) (flags : Dict String) where
  abbrev pub loaded : Result Config
  loaded =
      new_config_from_filename files (flag flags "config" "config.json")
        (flag flags "format" "json")

  abbrev pub routed : Config → Result (List (Route W))
  routed config = routes compile tasks [] decimal authorizers config

  -- The call that listens, with its address and the handler of the routes.
  abbrev pub listening : Config → List (Route W) → Call W (Unit {0})
  listening config rs w =
      listen_with mux environ c elapsed compile decimal sha256_hex tasks authorizers network
        config.ssl (config.host <> ":" <> decimal_int decimal config.port)
        (serve mux environ c elapsed config w (router sha256_hex rs)) w

  pub data Starts (w : W) : Exit × W → Type 0 where
    unread : (e : Error) → loaded ≡ err e → Starts w (failed "config error" e, w)
    unmoved :
        (config : Config) (e : Error) {w₁ : W}
        → loaded ≡ ok config
        → chdir config.directory w ≡ (inl e, w₁)
        → Starts w (failed "config error" e, w₁)
    unrouted :
        (config : Config) (e : Error) {w₁ : W}
        → loaded ≡ ok config
        → chdir config.directory w ≡ (inr tt, w₁)
        → routed config ≡ err e
        → Starts w (failed "server run error" e, w₁)
    crashed :
        (config : Config) (m : String) {w₁ : W}
        → loaded ≡ ok config
        → chdir config.directory w ≡ (inr tt, w₁)
        → routed config ≡ panic m
        → Starts w (record { logged = none; code = 2 }, w₁)
    stopped :
        (config : Config) (rs : List (Route W)) (e : Error) (w₁ : W) {w₂ : W}
        → loaded ≡ ok config
        → chdir config.directory w ≡ (inr tt, w₁)
        → routed config ≡ ok rs
        → listening config rs w₁ ≡ (inl e, w₂)
        → Starts w (failed "server run error" e, w₂)
    ended :
        (config : Config) (rs : List (Route W)) (w₁ : W) {w₂ : W}
        → loaded ≡ ok config
        → chdir config.directory w ≡ (inr tt, w₁)
        → routed config ≡ ok rs
        → listening config rs w₁ ≡ (inr tt, w₂)
        → Starts w (record { logged = none; code = 0 }, w₂)

  abbrev run : Server → Io W (Unit {0})
  run = Serving.run mux environ c elapsed compile decimal sha256_hex tasks authorizers network

  listened-Starts :
      (w w₁ : W) (config : Config) (rs : List (Route W)) (x : Error ⊎ Unit {0}) (w₂ : W)
      → loaded ≡ ok config
      → chdir config.directory w ≡ (inr tt, w₁)
      → routed config ≡ ok rs
      → listening config rs w₁ ≡ (x, w₂)
      → Starts w (exit_of (logged "server run error" (outcome x)), w₂)
  listened-Starts w w₁ config rs (inl e) w₂ h h₁ h₂ h₃ = stopped config rs e w₁ h h₁ h₂ h₃
  listened-Starts w w₁ config rs (inr _) w₂ h h₁ h₂ h₃ = ended config rs w₁ h h₁ h₂ h₃

  routed-Starts :
      (w w₁ : W) (config : Config) (o : Result (List (Route W)))
      → loaded ≡ ok config
      → chdir config.directory w ≡ (inr tt, w₁)
      → routed config ≡ o
      → Starts w (
          let (result, w₂) = continue o (λ rs. perform (listening config rs)) w₁ in
          (exit_of (logged "server run error" result), w₂))
  routed-Starts w w₁ config (ok rs) h h₁ h₂ =
      let x = listening config rs w₁ in listened-Starts w w₁ config rs x.0 x.1 h h₁ h₂ refl
  routed-Starts w w₁ config (err e) h h₁ h₂ = unrouted config e h h₁ h₂
  routed-Starts w w₁ config (panic m) h h₁ h₂ = crashed config m h h₁ h₂

  moved-Starts :
      (w w₁ : W) (config : Config) (x : Error ⊎ Unit {0})
      → loaded ≡ ok config
      → chdir config.directory w ≡ (x, w₁)
      → Starts w (
          let (result, w₂) =
            continue
              (logged "config error" (outcome x))
              (λ _.
                log_error "server run error" (run (record { config = config; version = version })))
              w₁ in
          (exit_of result, w₂))
  unfolding Serving.run
  moved-Starts w w₁ config (inl e) h h₁ = unmoved config e h h₁
  moved-Starts w w₁ config (inr _) h h₁ = routed-Starts w w₁ config (routed config) h h₁ refl

  loaded-Starts :
      (w : W) (o : Result Config)
      → loaded ≡ o
      → Starts w (
          let (result, w₂) =
            continue
              (logged "config error" o)
              (λ (config : Config).
                log_error "config error" (perform (chdir config.directory)) >>= λ _.
                log_error "server run error" (run (record { config = config; version = version })))
              w in
          (exit_of result, w₂))
  loaded-Starts w (ok config) h =
      let x = chdir config.directory w in moved-Starts w x.1 config x.0 h refl
  loaded-Starts w (err e) h = unread e h
  loaded-Starts w (panic m) h = absurd (loading-ne-panic files _ _ m h)

  -- A start of the program ends in one of six ways: with the exit code 1 and the error in the log
  -- where the configuration cannot be loaded, the directory cannot be changed to that of the
  -- configuration, the routes cannot be made or the listening fails; with the code 2 where making
  -- the routes panics; and with 0 only where the call that listens returns without an error. Only
  -- where all steps before have succeeded does it listen, at the host and the port of the
  -- configuration, with TLS where it has a certificate, and with the handler of its routes.
  pub main-Starts : (w : W) → Starts w (main files chdir run flags w)
  unfolding main new_server
  main-Starts w = loaded-Starts w loaded refl
